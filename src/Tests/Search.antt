-- ===== src/Tests/Search.antt =====
-- The search in one document.
use rubez_ai.Prelude.{
  ℕ, ◌≤◌, ◌≡◌, refl, true, false, Option, none, some, List, [], ◌∷◌, arith, ltb, length, All, Text,
  txt, text_eq,
}
use rubez_ai.Prelude.Int.{pos}
use rubez_ai.Prelude.Dict.{Dict, lookup}
use rubez_ai.Prelude.Sort.{sort_by}
use rubez_ai.Prelude.{keep_if}
use rubez_ai.Prelude.Result.{ok, err}
use rubez_ai.Policy.{low}
use rubez_ai.Auth.{Role, Identity, role_text}
use rubez_ai.Storage.Documents.{
  Document, DocumentStatus, DocumentTables, DocumentDb, Chunk, SanitizationRow,
  get_document_sanitization_result,
}
use rubez_ai.Storage.Documents.Acl.{AclCodec, is_supervisor, casts_user, acl_condition, has_value}
use rubez_ai.Storage.Documents.Access.{IsAclCodec, IsReadable, some_value}
use rubez_ai.Storage.Search.{join_tables, find_chunk, search_condition, result_of, search_chunks}
use rubez_ai.Storage.Search.Found.{IsFound}
use rubez_ai.Api.Ids.{DbError, current_user_id}
use rubez_ai.Api.Audit.Listing.{user_or_empty}
use rubez_ai.Api.Documents.{role_of}
use rubez_ai.Api.Search.{
  SearchRequestDto, SearchResponseDto, SearchEnv, SearchState, pass_limiter, sanitize_query,
  search_for, search_handler,
}
use rubez_ai.Api.Search.Answers.{search_handler-IsFound}

abbrev entries_of : Text → List (Dict (Option Text))
entries_of acl = ((txt "role", some acl) ∷ []) ∷ []

abbrev pub codec : AclCodec
codec = record {
  unmarshal_acl = λ acl. some (entries_of acl);
  contains_entry = λ acl key v. some_value key v (entries_of acl);
  cast = λ t. some t;
}

pub codec-IsAclCodec : IsAclCodec codec
codec-IsAclCodec = record { contains-unmarshal = λ acl key v entries h. ground (arith, h) }

abbrev pub db : DocumentDb
db = record { now = 7; new_id = txt "d2"; accepts = λ d. true; reads = true; writes = true }

abbrev pub plan_id : Text
plan_id = txt "00000000-0000-0000-0000-000000000001"

abbrev plan : Document
plan = record {
  id = plan_id;
  owner_id = txt "u1";
  filename = txt "plan.pdf";
  content_type = none;
  size_bytes = none;
  storage_key = txt "documents/00.pdf";
  status = DocumentStatus.done;
  phase = none;
  error = none;
  acl = txt "user";
  processing_started_at = none;
  processing_attempts = 0;
  created_at = 3;
  updated_at = 3;
}

abbrev piece : Chunk
piece = record {
  id = txt "c1";
  document_id = plan_id;
  chunk_index = 0;
  content = txt "budget of [ORG_1]";
  token_count = none;
  created_at = 4;
}

abbrev judged : SanitizationRow
judged = record {
  document_id = plan_id;
  entities_json = txt "[]";
  risk_level = low;
  risk_score = 0;
  risk_classes = [];
  created_at = 4;
}

abbrev pub tables : DocumentTables
tables = record { documents = (plan_id, plan) ∷ []; chunks = piece ∷ []; results = judged ∷ [] }

pub readable : All (λ (e : Text × Document). IsReadable codec e.1) tables.documents
readable = ((entries_of plan.acl, refl), tt)

-- A vector is a number.
abbrev env : SearchEnv ℕ ℕ
env = record {
  db = db;
  codec = codec;
  tables = tables;
  embeddings = record { chunk_id = txt "c1"; model = txt "e5"; vector = 4 } ∷ [];
  vectors = record { closer = λ q a b. ltb a b; relevance = λ q a. a };
  user_id_for_role = λ r. err DbError.failed;
  buckets = record { fresh = 0; take_token = λ now b. (true, b) };
  sanitize = none;
  embed = λ t. some (length t);
  embedder_name = txt "e5";
  now = 0;
  latency_ms = 0;
  query_hash = λ t. t;
  less_score = ltb;
  accepts_audit = λ a. true;
}

abbrev user : Identity
user = record { user_id = txt "u2"; role = Role.user }

abbrev wanted : SearchRequestDto
wanted = record { query = txt "budget"; limit = pos 0; document_ids = [] }

abbrev start : SearchState ℕ
start = record { limiter = none; audits = [] }

abbrev found : SearchResponseDto
found = record {
  results =
      record {
        chunk_id = txt "c1";
        document_id = plan_id;
        chunk_index = 0;
        snippet = txt "budget of [ORG_1]";
        filename = txt "plan.pdf";
        relevance = 4;
        risk_level = some low;
      }
      ∷ [];
  query_had_pii = false;
  latency_ms = 0;
}

abbrev last : SearchState ℕ
last = (search_handler env (some user) (some wanted) start).1

search_run : search_handler env (some user) (some wanted) start ≡ (ok found, last)
unfolding txt text_eq lookup sort_by keep_if search_handler search_for sanitize_query pass_limiter
    search_chunks casts_user is_supervisor join_tables find_chunk search_condition acl_condition
    has_value result_of get_document_sanitization_result role_of role_text current_user_id
search_run = refl

search_handler-IsFound_example :
    All
      (IsFound env.vectors db codec
        (user_or_empty (current_user_id env.user_id_for_role (some user)))
        (role_of (some user))
        []
        tables)
      found.results
    × (length found.results ≤ 20)
search_handler-IsFound_example =
    search_handler-IsFound env codec-IsAclCodec readable (some user) wanted start last found
      (λ u e. ground (arith, e)) search_run
