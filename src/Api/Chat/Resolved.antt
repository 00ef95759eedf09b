-- ===== src/Api/Chat/Resolved.antt =====
-- api/chat.go: what a request that reaches the orchestrator has gone through.
use rubez_ai.Prelude.{◌≡◌, ap, ◌∙◌, subst, inl, inr, false, Option, none, some, arith, Text}
use rubez_ai.Prelude.Result.{Result, ok, err, Result-cases, bind-ok}
use rubez_ai.Auth.{Role, Identity}
use rubez_ai.Chat.Types.{ReviewParams, Request}
use rubez_ai.Api.Http.{Reply, http_error}
use rubez_ai.Api.Ids.{DbError, current_user_id}
use rubez_ai.Api.Chat.{
  ChatRequestDto, system_prompt_write_roles, contains_system_prompt_overrides, validate,
}
use rubez_ai.Api.Chat.Resolve.{
  ModelProvider, ChatSession, ChatApi, resolve_provider, resolve_session, resolve_review_providers,
}
use rubez_ai.Api.Chat.Handler.{
  build_chat_request, user_or_error, body_or_error, prompts_allowed, checked_request,
  resolved_request, chat_request,
}

-- The request is built of a body that passed every check.
pub record IsResolved (api : ChatApi) (identity : Identity) (body : Option ChatRequestDto)
    (req : Request) : Type 0 where
  pub user_id : Text
  pub dto : ChatRequestDto
  pub provider : ModelProvider
  pub session : ChatSession
  pub review : Option ReviewParams
  pub user : current_user_id api.user_id_for_role (some identity) ≡ ok user_id
  pub decoded : body ≡ some dto
  pub valid : validate dto ≡ ok tt
  pub prompts :
      system_prompt_write_roles identity.role ≡ false → contains_system_prompt_overrides dto ≡ false
  pub provided : resolve_provider api dto.provider ≡ ok provider
  pub opened : resolve_session api user_id dto.session_id ≡ ok session
  pub reviewed : resolve_review_providers api provider.name dto.review ≡ ok review
  pub answer : req ≡ build_chat_request api identity.role user_id dto provider session review

ok_same : (b a : Request) → ◌≡◌ {A = Reply Request} (ok a) (ok b) → b ≡ a
ok_same b a h = ground (arith, h)

ok_pair :
    (u v : Text) (d e : ChatRequestDto)
    → ◌≡◌ {A = Reply (Text × ChatRequestDto)} (ok (u, d)) (ok (v, e))
    → (u ≡ v) × (d ≡ e)
ok_pair u v d e h = ground (arith, h)

module _ (api : ChatApi) where
  prompts_allowed-ok :
      (role : Role) (dto : ChatRequestDto)
      → prompts_allowed api role dto ≡ ok tt
      → system_prompt_write_roles role ≡ false
      → contains_system_prompt_overrides dto ≡ false
  unfolding http_error
  prompts_allowed-ok role dto h r = ground (arith, h, r)

  user_or_error-ok :
      (u : Result DbError Text) (user_id : Text) → user_or_error api u ≡ ok user_id → u ≡ ok user_id
  unfolding http_error
  user_or_error-ok (ok u) user_id h = ground (arith, h)
  user_or_error-ok (err e) user_id h = cc

  body_or_error-ok :
      (b : Option ChatRequestDto) (dto : ChatRequestDto)
      → body_or_error api b ≡ ok dto
      → b ≡ some dto
  unfolding http_error
  body_or_error-ok (some d) dto h = ground (arith, h)
  body_or_error-ok none dto h = cc

  checked_request-ok :
      (identity : Identity) (body : Option ChatRequestDto) (user_id : Text) (dto : ChatRequestDto)
      → checked_request api identity body ≡ ok (user_id, dto)
      → (current_user_id api.user_id_for_role (some identity) ≡ ok user_id)
        × (body ≡ some dto)
        × (validate dto ≡ ok tt)
        × (prompts_allowed api identity.role dto ≡ ok tt)
  unfolding checked_request
  checked_request-ok identity body user_id dto h =
      elim (Result-cases
        (user_or_error api (current_user_id api.user_id_for_role (some identity)))) [
          | inr (e, q1) ↦ cc (rw (q1, checked_request) at h)
          | inl (u, q1) ↦ elim (Result-cases (body_or_error api body)) [
            | inr (e, q2) ↦ cc (rw (q1, q2, checked_request) at h)
            | inl (d, q2) ↦ elim (Result-cases (validate d)) [
              | inr (e, q3) ↦ cc (rw (q1, q2, q3, checked_request) at h)
              | inl (v, q3) ↦ elim (Result-cases (prompts_allowed api identity.role d)) [
                | inr (e, q4) ↦ cc (rw (q1, q2, q3, q4, checked_request) at h)
                | inl (a, q4) ↦
                    let r : ◌≡◌ {A = Reply (Text × ChatRequestDto)} (ok (u, d))
                        (ok (user_id, dto)) =
                      rw (q1, q2, q3, q4, checked_request) at h in
                    let (same_user, same_dto) = ok_pair u user_id d dto r in
                    (
                      user_or_error-ok (current_user_id api.user_id_for_role (some identity))
                          user_id (q1 ∙ ap ok same_user),
                      body_or_error-ok body dto (q2 ∙ ap ok same_dto),
                      subst (λ x. validate x ≡ ok tt) same_dto q3,
                      subst (λ x. prompts_allowed api identity.role x ≡ ok tt) same_dto q4,
                    )
              ]
            ]
          ]
        ]

  resolved_request-ok :
      (role : Role) (user_id : Text) (dto : ChatRequestDto) (req : Request)
      → resolved_request api role (user_id, dto) ≡ ok req
      → (provider : ModelProvider) × (session : ChatSession) × (review : Option ReviewParams)
        × (resolve_provider api dto.provider ≡ ok provider)
        × (resolve_session api user_id dto.session_id ≡ ok session)
        × (resolve_review_providers api provider.name dto.review ≡ ok review)
        × (req ≡ build_chat_request api role user_id dto provider session review)
  unfolding resolved_request
  resolved_request-ok role user_id dto req h =
      elim (Result-cases (resolve_provider api dto.provider)) [
        | inr (e, q1) ↦ cc (rw (q1, resolved_request) at h)
        | inl (provider, q1) ↦ elim (Result-cases (resolve_session api user_id dto.session_id)) [
          | inr (e, q2) ↦ cc (rw (q1, q2, resolved_request) at h)
          | inl (session, q2) ↦
              elim (Result-cases (resolve_review_providers api provider.name dto.review)) [
                | inr (e, q3) ↦ cc (rw (q1, q2, q3, resolved_request) at h)
                | inl (review, q3) ↦
                    let r : ok (build_chat_request api role user_id dto provider session review)
                        ≡ ok req =
                      rw (q1, q2, q3, resolved_request) at h in
                    (
                      provider,
                      session,
                      review,
                      q1,
                      q2,
                      q3,
                      ok_same req (build_chat_request api role user_id dto provider session review)
                          r,
                    )
              ]
        ]
      ]

  pub chat_request-IsResolved :
      (identity : Identity) (body : Option ChatRequestDto) (req : Request)
      → chat_request api identity body ≡ ok req
      → IsResolved api identity body req
  unfolding chat_request
  chat_request-IsResolved identity body req h =
      let ((u, d), first, second) =
        bind-ok (checked_request api identity body) (resolved_request api identity.role) req h in
      let (user, decoded, valid, allowed) = checked_request-ok identity body u d first in
      let (provider, session, review, provided, opened, reviewed, answer) =
        resolved_request-ok identity.role u d req second in
      record {
        user_id = u;
        dto = d;
        provider = provider;
        session = session;
        review = review;
        user = user;
        decoded = decoded;
        valid = valid;
        prompts = prompts_allowed-ok identity.role d allowed;
        provided = provided;
        opened = opened;
        reviewed = reviewed;
        answer = answer;
      }
