-- ===== src/Api/Chat/Handler.antt =====
-- api/chat.go: `buildChatRequest` and the handler of a chat request, which runs the orchestrator.
use rubez_ai.Prelude.{not, ◌&&◌, Option, none, some, [], if◌then◌else◌, Text, trim_space}
use rubez_ai.Prelude.Result.{Result, ok, err, ◌>>=◌}
use rubez_ai.Auth.{Role, role_text, Identity}
use rubez_ai.Chat.Types.{ReviewParams, Request}
use rubez_ai.Chat.World.{Env, World}
use rubez_ai.Chat.Orchestrator.Prepare.{prepare}
use rubez_ai.Chat.Orchestrator.Stream.{stream}
use rubez_ai.Api.Http.{Reply, http_error}
use rubez_ai.Api.Ids.{DbError, current_user_id}
use rubez_ai.Api.Chat.{
  ChatRequestDto, system_prompt_write_roles, contains_system_prompt_overrides, validate,
}
use rubez_ai.Api.Chat.Resolve.{
  ModelProvider, ChatSession, ChatApi, model_or_default, resolve_provider, resolve_session,
  resolve_review_providers,
}

abbrev text_or_empty : Option Text → Text
text_or_empty none = []
text_or_empty (some t) = t

unfoldable pub build_chat_request :
    ChatApi
    → Role
    → Text
    → ChatRequestDto
    → ModelProvider
    → ChatSession
    → Option ReviewParams
    → Request
unfolding role_text model_or_default trim_space
build_chat_request api role user_id dto provider session review = record {
  request_id = api.new_request_id;
  session_id = session.id;
  user_id = user_id;
  user_role = role_text role;
  message = dto.message;
  provider = provider.name;
  provider_id = provider.id;
  model_trust = provider.trust_level;
  model = model_or_default dto.model provider;
  system_prompt = trim_space dto.system_prompt;
  preview_token = text_or_empty dto.preview_token;
  api_key_override = api.resolve_user_key user_id provider.id;
  rag = dto.rag;
  review = review;
}

module _ (api : ChatApi) where
  abbrev pub user_or_error : Result DbError Text → Reply Text
  user_or_error (ok user_id) = ok user_id
  user_or_error (err e) = http_error "не удалось определить пользователя" 500

  abbrev pub body_or_error : Option ChatRequestDto → Reply ChatRequestDto
  body_or_error none = http_error "некорректный JSON" 400
  body_or_error (some dto) = ok dto

  abbrev pub prompts_allowed : Role → ChatRequestDto → Reply (Unit {0})
  prompts_allowed role dto =
      if contains_system_prompt_overrides dto && not (system_prompt_write_roles role)
      then http_error "system_prompt доступен только admin/developer" 403
      else ok tt

  -- The user and the body of an authenticated request, checked.
  unfoldable pub checked_request : Identity → Option ChatRequestDto → Reply (Text × ChatRequestDto)
  unfolding http_error current_user_id validate contains_system_prompt_overrides
  checked_request identity body = do
    user_id ← user_or_error (current_user_id api.user_id_for_role (some identity))
    dto ← body_or_error body
    _ ← validate dto
    _ ← prompts_allowed identity.role dto
    ok (user_id, dto)

  unfoldable pub resolved_request : Role → Text × ChatRequestDto → Reply Request
  unfolding resolve_provider resolve_session resolve_review_providers build_chat_request
  resolved_request role (user_id, dto) = do
    provider ← resolve_provider api dto.provider
    session ← resolve_session api user_id dto.session_id
    review ← resolve_review_providers api provider.name dto.review
    ok (build_chat_request api role user_id dto provider session review)

  -- The handler up to `Prepare`.
  unfoldable pub chat_request : Identity → Option ChatRequestDto → Reply Request
  unfolding checked_request resolved_request
  chat_request identity body = checked_request identity body >>= resolved_request identity.role

  -- What the handler makes of the two stages; an error of the stream is only logged.
  unfoldable pub chat_handler :
      Env → Identity → Option ChatRequestDto → World → Reply (Unit {0}) × World
  unfolding http_error chat_request prepare stream
  chat_handler env identity body w = elim (chat_request identity body) [
    | err e ↦ (err e, w)
    | ok req ↦
        let (prepared, w1) = prepare env req w in
        elim prepared [
          | err e ↦ (http_error "ошибка подготовки запроса" 502, w1)
          | ok p ↦
              if api.flushes
              then (ok tt, (stream env req p w1).1)
              else (http_error "стриминг не поддерживается" 500, w1)
        ]
  ]
