-- ===== src/Api/Search.antt =====
-- api/search.go: the search in the documents. The sanitizer, the embedder and the limiter's token
-- buckets are parameters; a score is a float64 that is compared and passed on.
pub mod Answers
use rubez_ai.Prelude.{
  ℕ, Bool, true, false, not, Option, none, some, List, [], ◌∷◌, map, ltb, if◌then◌else◌, length,
  Text, txt, is_empty,
}
use rubez_ai.Prelude.Int.{ℤ}
use rubez_ai.Prelude.Result.{Result, ok, err}
use rubez_ai.Sanitizer.{Entity, PreviewResponse}
use rubez_ai.Auth.{Role, Identity}
use rubez_ai.Chat.Types.{PreviewRequest}
use rubez_ai.Chat.Errors.{GoError}
use rubez_ai.Storage.Documents.{DocumentDb, DocumentTables, DocumentError}
use rubez_ai.Storage.Documents.Acl.{AclCodec, filter_accessible_documents}
use rubez_ai.Storage.Search.{Vectors, EmbeddingRow, SearchResult, search_chunks}
use rubez_ai.Api.Http.{Reply, http_error}
use rubez_ai.Api.Ids.{DbError, current_user_id}
use rubez_ai.Api.Audit.Listing.{user_or_empty}
use rubez_ai.Api.Documents.{role_of}
use rubez_ai.Api.RateLimit.{Buckets, UserRateLimiter, allow}

abbrev pub search_query_max_runes : ℕ
search_query_max_runes = 2000

pub record SearchRequestDto : Type 0 where
  pub query : Text
  pub limit : ℤ
  pub document_ids : List Text

pub record SearchResponseDto : Type 0 where
  pub results : List SearchResult
  pub query_had_pii : Bool
  pub latency_ms : ℕ

-- The detail of `search_performed`; the mode is always `explicit`.
pub record Performed : Type 0 where
  pub query_hash : Text
  pub query_len : ℕ
  pub result_count : ℕ
  pub top_document_ids : List Text
  pub top_chunk_ids : List Text
  pub has_sanitized_pii : Bool
  pub latency_ms : ℕ
  pub embedder_model : Text
  pub scores_summary : Option (ℕ × ℕ)

-- The audit events, with the user.
pub data SearchAudit : Type 0 where
  rate_limit_exceeded : Text → SearchAudit
  search_performed : Text → Performed → SearchAudit
  acl_violation_attempt : Text → ℕ → ℕ → SearchAudit

pub record SearchEnv (V L : Type 0) : Type 0 where
  pub db : DocumentDb
  pub codec : AclCodec
  pub tables : DocumentTables
  pub embeddings : List (EmbeddingRow V)
  pub vectors : Vectors V
  pub user_id_for_role : Role → Result DbError Text
  pub buckets : Buckets L
  pub sanitize : Option (PreviewRequest → Result GoError PreviewResponse)
  pub embed : Text → Option V
  pub embedder_name : Text
  pub now : ℕ
  pub latency_ms : ℕ
  pub query_hash : Text → Text
  pub less_score : ℕ → ℕ → Bool
  pub accepts_audit : SearchAudit → Bool

-- The limiter, if there is one, and the audit events, the last first.
pub record SearchState (L : Type 0) : Type 0 where
  pub limiter : Option (UserRateLimiter L)
  pub audits : List SearchAudit

module _ {V L : Type 0} (env : SearchEnv V L) where
  abbrev pub insert_audit : SearchAudit → SearchState L → SearchState L
  insert_audit ev s = if env.accepts_audit ev then record s { audits = ev ∷ s.audits } else s

  abbrev pub checked_query : Option SearchRequestDto → Reply SearchRequestDto
  checked_query none = http_error "некорректный JSON" 400
  checked_query (some dto) =
      if is_empty dto.query
      then http_error "query обязателен" 400
      else if ltb search_query_max_runes (length dto.query)
      then http_error "query > 2000 символов" 400
      else ok dto

  -- Whether the user may go on, and the state with the refusal audited once.
  unfoldable pub pass_limiter : Text → SearchState L → Bool × SearchState L
  unfolding allow
  pass_limiter user_id s = elim s.limiter [
    | none ↦ (true, s)
    | some l ↦
        let ((allowed, should_audit), l') = allow env.buckets env.now user_id l in
        let s' : SearchState L = record s { limiter = some l' } in
        if allowed
        then (true, s')
        else if should_audit
        then (false, insert_audit (rate_limit_exceeded user_id) s')
        else (false, s')
  ]

  abbrev no_entities : List Entity → Bool
  no_entities [] = true
  no_entities (e ∷ es) = false

  -- The text for the embedder, and whether the sanitizer found anything; without an answer of the
  -- sanitizer it is the query as it came.
  unfoldable pub sanitize_query : Text → Text × Bool
  unfolding txt
  sanitize_query query = elim env.sanitize [
    | none ↦ (query, false)
    | some preview ↦ elim (preview (record { text = query; context = txt "chat" })) [
      | err e ↦ (query, false)
      | ok res ↦ (res.sanitized_text, not (no_entities res.entities))
    ]
  ]

  -- The loop over the scores after the first.
  unfoldable pub score_range : ℕ → ℕ → List SearchResult → ℕ × ℕ
  score_range max_score min_score [] = (max_score, min_score)
  score_range max_score min_score (r ∷ rs) =
      score_range (if env.less_score max_score r.relevance then r.relevance else max_score)
        (if env.less_score r.relevance min_score then r.relevance else min_score) rs

  unfoldable pub scores_summary_of : List SearchResult → Option (ℕ × ℕ)
  unfolding score_range
  scores_summary_of [] = none
  scores_summary_of (r ∷ rs) = some (score_range r.relevance r.relevance rs)

  unfoldable pub write_search_audit :
      Text → SearchRequestDto → List SearchResult → Bool → SearchState L → SearchState L
  unfolding scores_summary_of
  write_search_audit user_id dto results has_pii s =
      insert_audit
        (search_performed user_id (record {
          query_hash = env.query_hash dto.query;
          query_len = length dto.query;
          result_count = length results;
          top_document_ids = map (λ r. r.document_id) results;
          top_chunk_ids = map (λ r. r.chunk_id) results;
          has_sanitized_pii = has_pii;
          latency_ms = env.latency_ms;
          embedder_model = env.embedder_name;
          scores_summary = scores_summary_of results;
        }))
        s

  abbrev ids_or_none : Result DocumentError (List Text) → List Text
  ids_or_none (ok ids) = ids
  ids_or_none (err e) = []

  -- The audit of requested documents that the user may not see: fewer ids came back.
  unfoldable pub audit_acl_violation : Text → Text → List Text → SearchState L → SearchState L
  unfolding filter_accessible_documents
  audit_acl_violation user_id role [] s = s
  audit_acl_violation user_id role (i ∷ is) s =
      let allowed =
        ids_or_none (
          filter_accessible_documents env.codec env.db user_id role (i ∷ is)
            env.tables.documents) in
      if ltb (length allowed) (length (i ∷ is))
      then insert_audit (acl_violation_attempt user_id (length (i ∷ is)) (length allowed)) s
      else s

  unfoldable pub search_for :
      Text → Text → SearchRequestDto → SearchState L → Reply SearchResponseDto × SearchState L
  unfolding http_error sanitize_query search_chunks write_search_audit audit_acl_violation
  search_for user_id role dto s =
      let (query, has_pii) = sanitize_query dto.query in
      elim (env.embed query) [
        | none ↦ (http_error "ошибка embedder" 500, s)
        | some v ↦
            elim (search_chunks env.vectors env.db env.codec v user_id role env.embedder_name
              dto.document_ids dto.limit env.embeddings env.tables) [
                | err e ↦ (http_error "ошибка поиска" 500, s)
                | ok results ↦ (
                  ok (record {
                    results = results;
                    query_had_pii = has_pii;
                    latency_ms = env.latency_ms;
                  }),
                  audit_acl_violation user_id role dto.document_ids
                      (write_search_audit user_id dto results has_pii s),
                )
              ]
      ]

  unfoldable pub search_handler :
      Option Identity
      → Option SearchRequestDto
      → SearchState L
      → Reply SearchResponseDto × SearchState L
  unfolding http_error current_user_id role_of pass_limiter search_for
  search_handler identity body s = elim (checked_query body) [
    | err e ↦ (err e, s)
    | ok dto ↦
        let user_id = user_or_empty (current_user_id env.user_id_for_role identity) in
        let (go, s') = pass_limiter user_id s in
        if go
        then search_for user_id (role_of identity) dto s'
        else (http_error "rate limit exceeded" 429, s')
  ]
