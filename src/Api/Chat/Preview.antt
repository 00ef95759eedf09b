-- ===== src/Api/Chat/Preview.antt =====
-- api/chat.go: the preview of a text or of a document before it is sent to a model.
use rubez_ai.Prelude.{
  ℕ, Bool, true, false, not, ◌&&◌, Option, none, some, List, [], ◌∷◌, map, ltb, if◌then◌else◌,
  length, Text, is_empty,
}
use rubez_ai.Prelude.Result.{ok, err, ◌>>=◌}
use rubez_ai.Policy.{Risk}
use rubez_ai.Sanitizer.{Entity, PreviewResponse}
use rubez_ai.Auth.{Role, Identity, role_text}
use rubez_ai.Storage.Documents.{
  Document, DocumentDb, DocumentError, DocumentTables, DocumentChunkRow, SanitizationRow,
  get_document, get_document_sanitization_result, list_document_chunks,
}
use rubez_ai.Storage.Documents.Acl.{AclCodec, check_document_access}
use rubez_ai.Chat.Types.{Request}
use rubez_ai.Chat.World.{Env, World}
use rubez_ai.Chat.Orchestrator.Gate.{preview, preview_from_sanitized}
use rubez_ai.Api.Http.{Reply, http_error}
use rubez_ai.Api.Ids.{is_uuid, current_user_id}
use rubez_ai.Api.Chat.{max_chat_message_runes}
use rubez_ai.Api.Chat.Resolve.{ModelProvider, ChatApi, resolve_provider}
use rubez_ai.Api.Chat.Handler.{user_or_error}
use rubez_ai.Api.Documents.Reading.{masked_lines}

pub record ChatPreviewRequestDto : Type 0 where
  pub text : Text
  pub provider : Text
  pub document_id : Option Text

pub record ChatPreviewEntityDto : Type 0 where
  pub type : Text
  pub category : Text
  pub pseudonym : Text
  pub confidence : ℕ
  pub detector : Text

pub record ChatPreviewResponseDto : Type 0 where
  pub preview_token : Text
  pub sanitized_text : Text
  pub entities : List ChatPreviewEntityDto
  pub risk : Risk

-- The store of the documents; `unmarshal_entities` is what `json.Unmarshal` leaves in the list of
-- entities, its error dropped.
pub record DocumentStore : Type 0 where
  pub db : DocumentDb
  pub acl : AclCodec
  pub tables : DocumentTables
  pub unmarshal_entities : Text → List Entity

abbrev preview_entity : Entity → ChatPreviewEntityDto
preview_entity e = record {
  type = e.type;
  category = e.category;
  pseudonym = e.pseudonym;
  confidence = e.confidence;
  detector = e.detector;
}

unfoldable pub preview_entities_to_dto : List Entity → List ChatPreviewEntityDto
preview_entities_to_dto es = map preview_entity es

abbrev not_found_error : DocumentError → Reply Document
not_found_error DocumentError.not_found = http_error "документ не найден" 404
not_found_error DocumentError.forbidden = http_error "ошибка чтения документа" 500
not_found_error DocumentError.failed = http_error "ошибка чтения документа" 500

module _ (store : DocumentStore) where
  -- The document, with the user's right to it.
  unfoldable pub previewed_document : Text → Text → Text → Reply Document
  unfolding http_error is_uuid get_document check_document_access
  previewed_document id user_id role =
      if not (is_uuid id)
      then http_error "некорректный document_id" 400
      else elim (get_document store.db id store.tables.documents) [
        | err e ↦ not_found_error e
        | ok d ↦ elim (check_document_access store.acl d user_id role) [
          | err e ↦ http_error "документ не найден" 404
          | ok u ↦ ok d
        ]
      ]

  abbrev chunks_of : Text → List DocumentChunkRow
  chunks_of id = elim (list_document_chunks store.db id store.tables) [ ok cs ↦ cs | err e ↦ [] ]

  abbrev response_of : List DocumentChunkRow → SanitizationRow → PreviewResponse
  response_of chunks sr = record {
    sanitized_text = masked_lines chunks;
    entities = store.unmarshal_entities sr.entities_json;
    risk = record { level = sr.risk_level; score = sr.risk_score; classes = sr.risk_classes };
    mapping_id = none;
  }

  unfoldable pub document_preview : Text → Text → Text → Reply PreviewResponse
  unfolding http_error previewed_document list_document_chunks get_document_sanitization_result
      masked_lines
  document_preview id user_id role = elim (previewed_document id user_id role) [
    | err e ↦ err e
    | ok d ↦ elim (chunks_of id) [
      | [] ↦ http_error "документ ещё не обработан" 400
      | c ∷ cs ↦ elim (get_document_sanitization_result store.db id store.tables.results) [
        | err e ↦ http_error "документ ещё не обработан" 400
        | ok sr ↦ ok (response_of (c ∷ cs) sr)
      ]
    ]
  ]

-- `hasDoc`
abbrev pub wanted_document : Option Text → Option Text
wanted_document none = none
wanted_document (some []) = none
wanted_document (some (c ∷ s)) = some (c ∷ s)

abbrev is_some : Option Text → Bool
is_some none = false
is_some (some t) = true

module _ (api : ChatApi) where
  abbrev preview_body : Option ChatPreviewRequestDto → Reply ChatPreviewRequestDto
  preview_body none = http_error "некорректный JSON" 400
  preview_body (some dto) =
      if is_empty dto.provider
      then http_error "поле provider обязательно" 400
      else if is_empty dto.text && not (is_some (wanted_document dto.document_id))
      then http_error "нужен text или document_id" 400
      else if ltb max_chat_message_runes (length dto.text)
      then http_error "text слишком длинный" 400
      else ok dto

  abbrev pub preview_request_of : Role → Text → ChatPreviewRequestDto → ModelProvider → Request
  preview_request_of role user_id dto provider = record {
    request_id = api.new_request_id;
    session_id = [];
    user_id = user_id;
    user_role = role_text role;
    message = dto.text;
    provider = provider.name;
    provider_id = provider.id;
    model_trust = provider.trust_level;
    model = [];
    system_prompt = [];
    preview_token = [];
    api_key_override = [];
    rag = none;
    review = none;
  }

  -- The body and the request for the orchestrator, with no session.
  unfoldable pub preview_request :
      Identity → Option ChatPreviewRequestDto → Reply (ChatPreviewRequestDto × Request)
  unfolding http_error current_user_id resolve_provider role_text
  preview_request identity body = do
    user_id ← user_or_error api (current_user_id api.user_id_for_role (some identity))
    dto ← preview_body body
    provider ← resolve_provider api dto.provider
    ok (dto, preview_request_of identity.role user_id dto provider)

  unfoldable pub preview_dto : PreviewResponse → Text → ChatPreviewResponseDto
  unfolding preview_entities_to_dto
  preview_dto p token = record {
    preview_token = token;
    sanitized_text = p.sanitized_text;
    entities = preview_entities_to_dto p.entities;
    risk = p.risk;
  }

  module _ (store : DocumentStore) (env : Env) where
    unfoldable pub preview_of_document :
        Text → Request → World → Reply ChatPreviewResponseDto × World
    unfolding http_error document_preview preview_from_sanitized preview_dto
    preview_of_document id req w = elim (document_preview store id req.user_id req.user_role) [
      | err e ↦ (err e, w)
      | ok p ↦
          let (r, w') = preview_from_sanitized env req p w in
          elim r [
            | ok token ↦ (ok (preview_dto p token), w')
            | err e ↦ (http_error "ошибка обезличивания" 502, w')
          ]
    ]

    unfoldable pub preview_of_text : Request → World → Reply ChatPreviewResponseDto × World
    unfolding http_error preview preview_dto
    preview_of_text req w =
        let (r, w') = preview env req w in
        elim r [
          | ok (p, token) ↦ (ok (preview_dto p token), w')
          | err e ↦ (http_error "ошибка обезличивания" 502, w')
        ]

    unfoldable pub preview_chat_handler :
        Identity → Option ChatPreviewRequestDto → World → Reply ChatPreviewResponseDto × World
    unfolding preview_request preview_of_document preview_of_text
    preview_chat_handler identity body w = elim (preview_request identity body) [
      | err e ↦ (err e, w)
      | ok (dto, req) ↦ elim (wanted_document dto.document_id) [
        | some id ↦ preview_of_document id req w
        | none ↦ preview_of_text req w
      ]
    ]
