-- ===== src/Tests/Previews.antt =====
-- A chat about a document after its preview.
use rubez_ai.Prelude.{
  ◌+◌, ◌≤◌, ◌≡◌, refl, true, false, none, some, [], arith, txt, text_eq, is_empty, keep_if,
}
use rubez_ai.Prelude.Dict.{lookup, insert}
use rubez_ai.Prelude.Sort.{sort_by}
use rubez_ai.Prelude.Result.{ok, err}
use rubez_ai.Policy.{low}
use rubez_ai.Sanitizer.{PreviewResponse}
use rubez_ai.Pseudonym.{empty_map}
use rubez_ai.Preview.{put}
use rubez_ai.Preview.Once.{resume}
use rubez_ai.Storage.Documents.{
  get_document, get_document_sanitization_result, list_document_chunks, join_rows,
}
use rubez_ai.Storage.Documents.Acl.{check_document_access, grants, has_value, is_supervisor}
use rubez_ai.Chat.Types.{Request}
use rubez_ai.Chat.World.{World}
use rubez_ai.Chat.Orchestrator.Gate.{put_preview, preview_from_sanitized}
use rubez_ai.Chat.Orchestrator.Prepare.{resolve_sanitize}
use rubez_ai.Api.Ids.{DbError, is_uuid}
use rubez_ai.Api.Documents.Reading.{masked_lines}
use rubez_ai.Api.Chat.Resolve.{ChatApi}
use rubez_ai.Api.Chat.Preview.{
  DocumentStore, ChatPreviewResponseDto, previewed_document, document_preview, preview_dto,
  preview_entities_to_dto, preview_of_document,
}
use rubez_ai.Api.Chat.Document.{IsOpen, resolve_sanitize-document}
use rubez_ai.Tests.Gateway.{env, start, question}
use rubez_ai.Tests.Search.{codec, db, tables, plan_id}

abbrev store : DocumentStore
store = record { db = db; acl = codec; tables = tables; unmarshal_entities = λ t. [] }

abbrev api : ChatApi
api = record {
  user_id_for_role = λ role. err DbError.failed;
  list_model_providers = some [];
  has = λ name. true;
  create_chat_session = λ u. none;
  get_chat_session = λ id. err DbError.not_found;
  resolve_user_key = λ u p. [];
  new_request_id = txt "r1";
  flushes = true;
}

abbrev chat : Request
chat = record question { preview_token = txt "t1" }

abbrev shown : World
shown = (preview_of_document api store env plan_id question start).1

abbrev out : ChatPreviewResponseDto
out = record {
  preview_token = txt "t1";
  sanitized_text = txt "budget of [ORG_1]\n";
  entities = [];
  risk = record { level = low; score = 0; classes = [] };
}

preview_run : preview_of_document api store env plan_id question start ≡ (ok out, shown)
unfolding txt text_eq lookup insert sort_by keep_if is_uuid get_document check_document_access
    is_supervisor grants has_value list_document_chunks join_rows get_document_sanitization_result
    masked_lines previewed_document document_preview preview_entities_to_dto preview_dto put
    put_preview preview_from_sanitized preview_of_document
preview_run = refl

token_nonempty : is_empty (txt "t1") ≡ false
unfolding txt
token_nonempty = refl

same_cache : shown.previews ≡ resume shown.previews []
unfolding resume
same_cache = refl

in_time : 0 ≤ 0 + start.previews.ttl
in_time = ground arith

resolve_sanitize-document_example :
    IsOpen store plan_id (txt "u1") (txt "user")
    × ((p : PreviewResponse) × (p.sanitized_text ≡ out.sanitized_text)
        × ((resolve_sanitize env chat shown).0 ≡ ok (p, empty_map))
        × ((resolve_sanitize env chat shown).1.history ≡ shown.history))
resolve_sanitize-document_example =
    resolve_sanitize-document store api env plan_id question chat start shown shown out []
      preview_run token_nonempty refl refl same_cache tt in_time
