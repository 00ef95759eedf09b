-- ===== src/Api/Chat.antt =====
-- api/chat.go: the body of a chat request and its checks.
pub mod Resolve
pub mod Handler
pub mod Resolved
pub mod Prompts
pub mod Ownership
pub mod Preview
pub mod Document
use rubez_ai.Prelude.{
  ℕ, zero, suc, ◌+◌, ◌-◌, ◌*◌, ◌/◌, ◌%◌, ◌≤◌, ◌<◌, min, String, ◌≡◌, refl, sym, ap, ◌∙◌, subst, ◌≢◌,
  ◌↔◌, ◌⊎◌, inl, inr, Bool, true, false, not, ◌&&◌, ◌||◌, Option, none, some, List, [], ◌∷◌, ◌++◌,
  map, arith, ltb, leb, ◌==◌, if◌then◌else◌, ltb→lt, lt→ltb, leb→le, ==_iff, tests, Bool-cases,
  Option-cases, length, take, drop, length-append, take-append-drop, length-take, length-drop, All,
  Any, here, there, All-append, All-imp, All-map, Any-map, Any-imp, Any-append_left,
  Any-append_right, keep_if, All-keep_if, keep_if-All, take-All, Text, txt, text_eq, is_empty,
  is_prefix, contains, rune_bytes, byte_len, text_lt, is_space, trim_left, trim_right, trim_space,
  text_eq_iff, text_eq_refl,
}
use rubez_ai.Prelude.Int.{ℤ, pos, negsuc}
use rubez_ai.Prelude.Dict.{Dict, lookup}
use rubez_ai.Prelude.Result.{Result, ok, err, ◌>>=◌}
use rubez_ai.Auth.{Role}
use rubez_ai.Chat.Types.{RagParams}
use rubez_ai.Chat.Rag.{decimal}
use rubez_ai.Api.Http.{Reply, HttpError, http_error}
use rubez_ai.Api.Ids.{is_uuid}

abbrev pub max_chat_message_runes : ℕ
max_chat_message_runes = 16384

abbrev pub max_system_prompt_runes : ℕ
max_system_prompt_runes = 8192

abbrev pub max_review_providers : ℕ
max_review_providers = 2

abbrev pub max_review_rounds : ℕ
max_review_rounds = 5

abbrev pub default_review_rounds : ℕ
default_review_rounds = 3

pub record ChatReviewParamsDto : Type 0 where
  pub enabled : Bool
  pub providers : List Text
  pub system_prompts : Dict Text
  pub max_rounds : ℤ

pub record ChatRequestDto : Type 0 where
  pub session_id : Option Text
  pub message : Text
  pub provider : Text
  pub model : Text
  pub system_prompt : Text
  pub preview_token : Option Text
  pub rag : Option RagParams
  pub review : Option ChatReviewParamsDto

abbrev pub system_prompt_write_roles : Role → Bool
system_prompt_write_roles Role.admin = true
system_prompt_write_roles Role.developer = true
system_prompt_write_roles Role.user = false
system_prompt_write_roles Role.security_officer = false
system_prompt_write_roles Role.compliance_officer = false
system_prompt_write_roles Role.auditor = false

abbrev pub is_blank : Text → Bool
is_blank s = is_empty (trim_space s)

unfoldable pub any_prompt : Dict Text → Bool
unfolding trim_space
any_prompt [] = false
any_prompt ((name, p) ∷ m) = not (is_blank p) || any_prompt m

abbrev pub review_prompts : Option ChatReviewParamsDto → Dict Text
review_prompts none = []
review_prompts (some r) = r.system_prompts

unfoldable pub contains_system_prompt_overrides : ChatRequestDto → Bool
unfolding trim_space any_prompt
contains_system_prompt_overrides d =
    not (is_blank d.system_prompt) || any_prompt (review_prompts d.review)

-- `errors.New` in a check: the answer will be a 400.
abbrev pub require : Bool → Text → Reply (Unit {0})
require true message = ok tt
require false message = err (record { status = 400; message = message })

-- The first of the reviewers' prompts that is too long.
unfoldable pub check_prompts : Dict Text → Reply (Unit {0})
unfolding txt decimal
check_prompts [] = ok tt
check_prompts ((name, p) ∷ m) =
    let rest = check_prompts m in
    if ltb max_system_prompt_runes (length p)
    then err (record {
      status = 400;
      message =
          txt "review.system_prompts["
          ++ (name ++ (txt "] длиннее " ++ (decimal max_system_prompt_runes ++ txt " символов")));
    })
    else rest

abbrev pub rounds_allowed : ℤ → Bool
rounds_allowed (pos n) = leb n max_review_rounds
rounds_allowed (negsuc n) = false

unfoldable pub validate_review : Option ChatReviewParamsDto → Reply (Unit {0})
unfolding txt check_prompts decimal
validate_review none = ok tt
validate_review (some r) = do
  _ ← check_prompts r.system_prompts
  elim (r.enabled) [
    | false ↦ ok tt
    | true ↦ do
      _ ←
          require (ltb 0 (length r.providers))
            (txt "review.providers должен содержать хотя бы одну модель")
      _ ← require (leb (length r.providers) max_review_providers) (
          txt "review.providers: максимум " ++ (decimal max_review_providers ++ txt " проверяющих"))
      require (rounds_allowed r.max_rounds)
          (txt "review.max_rounds: от 1 до " ++ decimal max_review_rounds)
  ]

abbrev pub session_allowed : Option Text → Bool
session_allowed none = true
session_allowed (some id) = is_uuid id

unfoldable pub validate : ChatRequestDto → Reply (Unit {0})
unfolding txt decimal is_uuid validate_review
validate d = do
  _ ← require (not (is_empty d.message)) (txt "поле message обязательно")
  _ ←
      require (leb (length d.message) max_chat_message_runes)
        (txt "message длиннее " ++ (decimal max_chat_message_runes ++ txt " символов"))
  _ ← require (not (is_empty d.provider)) (txt "поле provider обязательно")
  _ ←
      require (leb (length d.system_prompt) max_system_prompt_runes)
        (txt "system_prompt длиннее " ++ (decimal max_system_prompt_runes ++ txt " символов"))
  _ ← require (session_allowed d.session_id) (txt "session_id должен быть корректным UUID")
  validate_review d.review
