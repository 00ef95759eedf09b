-- ===== src/Api/Chat/Prompts.antt =====
-- api/chat.go: who may give instructions to a model.
use rubez_ai.Prelude.{
  ◌≡◌, refl, sym, subst, inl, inr, true, false, Option, none, some, List, [], ◌∷◌, arith, ltb, ◌==◌,
  Bool-cases, Option-cases, length, All, Text, text_eq, is_empty, trim_space,
}
use rubez_ai.Prelude.Int.{ℤ}
use rubez_ai.Prelude.Dict.{Dict, lookup}
use rubez_ai.Prelude.Result.{ok, bind-ok, ◌>>=◌}
use rubez_ai.Auth.{Identity}
use rubez_ai.Chat.Types.{ReviewProvider, ReviewParams, Request}
use rubez_ai.Api.Http.{http_error}
use rubez_ai.Api.Chat.{
  ChatRequestDto, ChatReviewParamsDto, system_prompt_write_roles, max_review_providers,
  contains_system_prompt_overrides, any_prompt, review_prompts, is_blank,
}
use rubez_ai.Api.Chat.Resolve.{
  ModelProvider, ChatApi, prompt_of, member, reviewer, review_loop, by_name, rounds_or_default,
  review_params, resolve_enabled_review, resolve_review_providers,
}
use rubez_ai.Api.Chat.Handler.{build_chat_request, chat_request}
use rubez_ai.Api.Chat.Resolved.{IsResolved, chat_request-IsResolved}

is_empty_iff : (s : Text) → is_empty s ≡ true → s ≡ []
is_empty_iff [] h = refl
is_empty_iff (c ∷ s) h = cc

-- The reviewer has no instructions of their own.
abbrev pub HasNoPrompt : ReviewProvider → Type 0
HasNoPrompt r = r.system_prompt ≡ []

abbrev pub reviewers : Option ReviewParams → List ReviewProvider
reviewers none = []
reviewers (some r) = r.providers

prompt_of-lookup :
    (name : Text) (prompts : Dict Text) (api : ChatApi)
    → any_prompt prompts ≡ false
    → prompt_of api (lookup name prompts) ≡ []
unfolding any_prompt lookup
prompt_of-lookup name [] api h = refl
prompt_of-lookup name ((k, p) ∷ m) api h = elim (Bool-cases (is_empty (trim_space p))) [
  | inr e ↦ ground (arith, h, e)
  | inl e ↦ elim (Bool-cases (text_eq k name)) [
    | inl s ↦ rw s (is_empty_iff (trim_space p) e)
    | inr s ↦ rw s (prompt_of-lookup name m api (ground (arith, h, e)))
  ]
]

module _ (api : ChatApi) where
  reviewer-HasNoPrompt :
      (prompts : Dict Text) (name : Text) (p : ModelProvider) (r : ReviewProvider)
      → any_prompt prompts ≡ false
      → reviewer api prompts name p ≡ ok r
      → HasNoPrompt r
  unfolding reviewer http_error
  reviewer-HasNoPrompt prompts name p r h q = ground (arith, q, prompt_of-lookup name prompts api h)

  review_loop-HasNoPrompt :
      (primary : Text) (known : Dict ModelProvider) (prompts : Dict Text) (seen names : List Text)
      (out : List ReviewProvider)
      → any_prompt prompts ≡ false
      → review_loop api primary known prompts seen names ≡ ok out
      → All HasNoPrompt out
  unfolding review_loop http_error
  review_loop-HasNoPrompt primary known prompts seen [] out h q =
      let e : [] ≡ out = ground (arith, q) in rw (sym e) tt
  review_loop-HasNoPrompt primary known prompts seen (raw ∷ names) out h q =
      let name = trim_space raw in
      elim (Bool-cases (is_empty name)) [
        | inl e ↦
            review_loop-HasNoPrompt primary known prompts seen names out h
              (rw (e, review_loop) at q)
        | inr e ↦ elim (Bool-cases (text_eq name primary)) [
          | inl f ↦ cc (rw (e, f, review_loop) at q)
          | inr f ↦ elim (Bool-cases (member api name seen)) [
            | inl g ↦
                review_loop-HasNoPrompt primary known prompts seen names out h
                  (rw (e, f, g, review_loop) at q)
            | inr g ↦ elim (Option-cases (lookup name known)) [
              | inl n ↦ cc (rw (e, f, g, n, review_loop) at q)
              | inr (p, k) ↦
                  let (r, made, next) =
                    bind-ok (reviewer api prompts name p)
                      (λ r.
                        review_loop api primary known prompts (name ∷ seen) names
                        >>= (λ rs. ok (r ∷ rs)))
                      out (rw (e, f, g, k, review_loop) at q) in
                  let (rs, rest, same) =
                    bind-ok (review_loop api primary known prompts (name ∷ seen) names)
                      (λ rs. ok (r ∷ rs)) out next in
                  let ih =
                    review_loop-HasNoPrompt primary known prompts (name ∷ seen) names rs h rest in
                  let both : r ∷ rs ≡ out = ground (arith, same) in
                  subst (λ x. All HasNoPrompt x) both
                    (reviewer-HasNoPrompt prompts name p r h made, ih)
            ]
          ]
        ]
      ]

  review_params-HasNoPrompt :
      (rounds : ℤ) (rs : List ReviewProvider) (out : Option ReviewParams)
      → All HasNoPrompt rs
      → review_params api rounds rs ≡ ok out
      → All HasNoPrompt (reviewers out)
  unfolding http_error
  review_params-HasNoPrompt rounds [] out a q = cc
  review_params-HasNoPrompt rounds (r ∷ rs) out a q =
      let e : some (record {
        enabled = true;
        providers = r ∷ rs;
        max_rounds = rounds_or_default api rounds;
      })
          ≡ out =
        ground (arith, q) in
      rw (sym e) a

  enabled-HasNoPrompt :
      (primary : Text) (dto : ChatReviewParamsDto) (out : Option ReviewParams)
      → any_prompt dto.system_prompts ≡ false
      → resolve_enabled_review api primary dto ≡ ok out
      → All HasNoPrompt (reviewers out)
  unfolding resolve_enabled_review http_error
  enabled-HasNoPrompt primary dto out h q = elim (Bool-cases (length dto.providers == 0)) [
    | inl e ↦ cc (rw (e, resolve_enabled_review) at q)
    | inr e ↦ elim (Bool-cases (ltb max_review_providers (length dto.providers))) [
      | inl f ↦ cc (rw (e, f, resolve_enabled_review) at q)
      | inr f ↦ elim (Option-cases api.list_model_providers) [
        | inl n ↦ cc (rw (e, f, n, resolve_enabled_review) at q)
        | inr (ps, l) ↦
            let (rs, loop, last) =
              bind-ok
                (review_loop api primary (by_name api ps []) dto.system_prompts [] dto.providers)
                (review_params api dto.max_rounds) out
                (rw (e, f, l, resolve_enabled_review) at q) in
            review_params-HasNoPrompt dto.max_rounds rs out
              (review_loop-HasNoPrompt primary (by_name api ps []) dto.system_prompts []
                dto.providers rs h loop)
              last
      ]
    ]
  ]

  resolve_review_providers-HasNoPrompt :
      (primary : Text) (dto : Option ChatReviewParamsDto) (out : Option ReviewParams)
      → any_prompt (review_prompts dto) ≡ false
      → resolve_review_providers api primary dto ≡ ok out
      → All HasNoPrompt (reviewers out)
  unfolding resolve_review_providers resolve_enabled_review
  resolve_review_providers-HasNoPrompt primary none out h q =
      let e : none ≡ out = ground (arith, q) in rw (sym e) tt
  resolve_review_providers-HasNoPrompt primary (some dto) out h q = elim (Bool-cases dto.enabled) [
    | inr e ↦ let n : none ≡ out = ground (arith, q, e) in rw (sym n) tt
    | inl e ↦ enabled-HasNoPrompt primary dto out h (rw (e, resolve_review_providers) at q)
  ]

  chat_request-prompt :
      (identity : Identity) (body : Option ChatRequestDto) (req : Request)
      → system_prompt_write_roles identity.role ≡ false
      → IsResolved api identity body req
      → (req.system_prompt ≡ []) × All HasNoPrompt (reviewers req.review)
  unfolding contains_system_prompt_overrides build_chat_request
  chat_request-prompt identity body req role w =
      let plain : contains_system_prompt_overrides w.dto ≡ false = w.prompts role in
      let blank : is_blank w.dto.system_prompt ≡ true = ground (arith, plain) in
      let none_asked : any_prompt (review_prompts w.dto.review) ≡ false = ground (arith, plain) in
      (
        rw w.answer (is_empty_iff (trim_space w.dto.system_prompt) blank),
        rw w.answer (
            resolve_review_providers-HasNoPrompt w.provider.name w.dto.review w.review none_asked
              w.reviewed),
      )

  -- A request that reaches the orchestrator from a user who is neither an administrator nor a
  -- developer carries no instructions of the user, neither for the model nor for any reviewer.
  pub chat_request-HasNoPrompt :
      (identity : Identity) (body : Option ChatRequestDto) (req : Request)
      → system_prompt_write_roles identity.role ≡ false
      → chat_request api identity body ≡ ok req
      → (req.system_prompt ≡ []) × All HasNoPrompt (reviewers req.review)
  chat_request-HasNoPrompt identity body req role h =
      chat_request-prompt identity body req role (chat_request-IsResolved api identity body req h)
