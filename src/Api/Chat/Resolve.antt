-- ===== src/Api/Chat/Resolve.antt =====
-- api/chat.go: the provider, the session and the reviewers of a chat request. The queries and the
-- registration of a provider in the router are fields of `ChatApi`.
use rubez_ai.Prelude.{
  zero, suc, Bool, true, false, not, ◌||◌, Option, none, some, List, [], ◌∷◌, ltb, ◌==◌,
  if◌then◌else◌, length, Text, txt, text_eq, is_empty, trim_space,
}
use rubez_ai.Prelude.Int.{ℤ, pos, negsuc}
use rubez_ai.Prelude.Dict.{Dict, lookup, insert}
use rubez_ai.Prelude.Result.{Result, ok, err, ◌>>=◌}
use rubez_ai.Policy.{ModelTrust}
use rubez_ai.Auth.{Role}
use rubez_ai.Chat.Types.{ReviewProvider, ReviewParams}
use rubez_ai.Api.Http.{Reply, http_error}
use rubez_ai.Api.Ids.{DbError}
use rubez_ai.Api.Chat.{ChatReviewParamsDto, max_review_providers, default_review_rounds}

pub record ModelProvider : Type 0 where
  pub id : Text
  pub name : Text
  pub adapter : Text
  pub trust_level : ModelTrust
  pub default_model : Text
  pub is_enabled : Bool

pub record ChatSession : Type 0 where
  pub id : Text
  pub user_id : Text

-- `resolve_user_key` is `resolveUserKey`, the empty text where the user has no key of their own;
-- `flushes` tells whether the connection can stream.
pub record ChatApi : Type 0 where
  pub user_id_for_role : Role → Result DbError Text
  pub list_model_providers : Option (List ModelProvider)
  pub has : Text → Bool
  pub create_chat_session : Text → Option ChatSession
  pub get_chat_session : Text → Result DbError ChatSession
  pub resolve_user_key : Text → Text → Text
  pub new_request_id : Text
  pub flushes : Bool

unfoldable pub model_or_default : Text → ModelProvider → Text
unfolding txt text_eq
model_or_default model provider =
    if not (is_empty model)
    then model
    else if not (is_empty provider.default_model)
    then provider.default_model
    else if text_eq provider.adapter (txt "ssh_cli")
    then []
    else provider.name

module _ (api : ChatApi) where
  unfoldable pub find_provider : Text → List ModelProvider → Reply ModelProvider
  unfolding text_eq http_error
  find_provider name [] = http_error "провайдер не найден" 400
  find_provider name (p ∷ ps) =
      let rest = find_provider name ps in
      if not (text_eq p.name name)
      then rest
      else if not p.is_enabled
      then http_error "провайдер отключён" 400
      else if not (api.has p.name)
      then http_error "провайдер не зарегистрирован в маршрутизаторе" 500
      else ok p

  unfoldable pub resolve_provider : Text → Reply ModelProvider
  unfolding http_error find_provider
  resolve_provider name = elim (api.list_model_providers) [
    | none ↦ http_error "ошибка чтения провайдеров" 500
    | some providers ↦ find_provider name providers
  ]

  -- A session that is another's is answered like one that does not exist.
  unfoldable pub own_session : Text → Result DbError ChatSession → Reply ChatSession
  unfolding text_eq http_error
  own_session user_id (ok s) =
      if text_eq s.user_id user_id then ok s else http_error "сессия не найдена" 404
  own_session user_id (err DbError.not_found) = http_error "сессия не найдена" 404
  own_session user_id (err DbError.conflict) = http_error "ошибка чтения сессии" 500
  own_session user_id (err DbError.duplicate) = http_error "ошибка чтения сессии" 500
  own_session user_id (err DbError.failed) = http_error "ошибка чтения сессии" 500

  unfoldable pub resolve_session : Text → Option Text → Reply ChatSession
  unfolding http_error own_session
  resolve_session user_id none = elim (api.create_chat_session user_id) [
    | none ↦ http_error "не удалось создать сессию" 500
    | some s ↦ ok s
  ]
  resolve_session user_id (some id) = own_session user_id (api.get_chat_session id)

  unfoldable pub by_name : List ModelProvider → Dict ModelProvider → Dict ModelProvider
  unfolding insert
  by_name [] m = m
  by_name (p ∷ ps) m = by_name ps (insert p.name p m)

  abbrev pub prompt_of : Option Text → Text
  prompt_of none = []
  prompt_of (some p) = trim_space p

  abbrev pub member : Text → List Text → Bool
  member t [] = false
  member t (u ∷ us) = text_eq u t || member t us

  unfoldable pub reviewer : Dict Text → Text → ModelProvider → Reply ReviewProvider
  unfolding http_error lookup trim_space model_or_default
  reviewer prompts name p =
      if not p.is_enabled
      then http_error "проверяющая модель отключена" 400
      else if not (api.has p.name)
      then http_error "проверяющая модель не зарегистрирована в маршрутизаторе" 500
      else ok (record {
        name = p.name;
        model = model_or_default [] p;
        system_prompt = prompt_of (lookup name prompts);
      })

  -- The loop over the names, after those in `seen`.
  unfoldable pub review_loop :
      Text → Dict ModelProvider → Dict Text → List Text → List Text → Reply (List ReviewProvider)
  unfolding text_eq trim_space http_error lookup reviewer
  review_loop primary known prompts seen [] = ok []
  review_loop primary known prompts seen (raw ∷ names) =
      let name = trim_space raw in
      let skipped = review_loop primary known prompts seen names in
      let rest = review_loop primary known prompts (name ∷ seen) names in
      if is_empty name
      then skipped
      else if text_eq name primary
      then http_error "проверяющая модель должна отличаться от основной" 400
      else if member name seen
      then skipped
      else elim (lookup name known) [
        | none ↦ http_error "проверяющая модель не найдена" 400
        | some p ↦ do r ← reviewer prompts name p; rs ← rest; ok (r ∷ rs)
      ]

  abbrev pub rounds_or_default : ℤ → ℤ
  rounds_or_default (pos zero) = pos default_review_rounds
  rounds_or_default (pos (suc n)) = pos (suc n)
  rounds_or_default (negsuc n) = negsuc n

  abbrev pub review_params : ℤ → List ReviewProvider → Reply (Option ReviewParams)
  review_params rounds [] = http_error "review.providers пуст" 400
  review_params rounds (r ∷ rs) =
      ok (
        some (record { enabled = true; providers = r ∷ rs; max_rounds = rounds_or_default rounds }))

  unfoldable pub resolve_enabled_review : Text → ChatReviewParamsDto → Reply (Option ReviewParams)
  unfolding http_error by_name review_loop
  resolve_enabled_review primary dto =
      if length dto.providers == 0
      then http_error "review.providers пуст" 400
      else if ltb max_review_providers (length dto.providers)
      then http_error "слишком много проверяющих моделей" 400
      else elim (api.list_model_providers) [
        | none ↦ http_error "ошибка чтения провайдеров" 500
        | some providers ↦ do
          out ← review_loop primary (by_name providers []) dto.system_prompts [] dto.providers
          review_params dto.max_rounds out
      ]

  unfoldable pub resolve_review_providers :
      Text → Option ChatReviewParamsDto → Reply (Option ReviewParams)
  unfolding resolve_enabled_review
  resolve_review_providers primary none = ok none
  resolve_review_providers primary (some dto) =
      if dto.enabled then resolve_enabled_review primary dto else ok none
