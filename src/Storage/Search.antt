-- ===== src/Storage/Search.antt =====
-- storage/search.go: the search for the chunks nearest to a query among the documents that the user may
-- see. Vectors and their distance, which pgvector computes, are a parameter; the relevance is a
-- float64 that is only passed on.
pub mod Found
use rubez_ai.Prelude.{
  ℕ, Bool, true, false, not, ◌&&◌, ◌||◌, Option, none, some, List, [], ◌∷◌, ◌++◌, map, ltb, ◌==◌,
  if◌then◌else◌, take, keep_if, Text, text_eq, is_empty,
}
use rubez_ai.Prelude.Int.{ℤ, pos, negsuc}
use rubez_ai.Prelude.Result.{Result, ok, err}
use rubez_ai.Prelude.Dict.{Dict, lookup}
use rubez_ai.Prelude.Sort.{sort_by}
use rubez_ai.Policy.{RiskLevel}
use rubez_ai.Storage.Audit.Query.{member}
use rubez_ai.Storage.Documents.{
  Document, DocumentStatus, done, pending, processing, deleted, Chunk, SanitizationRow,
  DocumentTables, DocumentDb, DocumentError, get_document_sanitization_result,
}
use rubez_ai.Storage.Documents.Acl.{
  AclCodec, is_supervisor, acl_condition, casts_user, all_cast, cast_all,
}

abbrev pub snippet_max_runes : ℕ
snippet_max_runes = 512

-- `closer q a b`: `a` is nearer to `q` than `b`.
pub record Vectors (V : Type 0) : Type 0 where
  pub closer : V → V → V → Bool
  pub relevance : V → V → ℕ

-- A row of `embeddings`.
pub record EmbeddingRow (V : Type 0) : Type 0 where
  pub chunk_id : Text
  pub model : Text
  pub vector : V

pub record SearchResult : Type 0 where
  pub chunk_id : Text
  pub document_id : Text
  pub chunk_index : ℕ
  pub snippet : Text
  pub filename : Text
  pub relevance : ℕ
  pub risk_level : Option RiskLevel

pub data SearchError : Type 0 where
  embedder_name_required query_failed : SearchError

-- A row of the join of the three tables.
pub record Joined (V : Type 0) : Type 0 where
  pub embedding : EmbeddingRow V
  pub chunk : Chunk
  pub document : Document

abbrev pub is_done : DocumentStatus → Bool
is_done done = true
is_done pending = false
is_done processing = false
is_done deleted = false
is_done DocumentStatus.failed = false

unfoldable pub find_chunk : Text → List Chunk → Option Chunk
unfolding text_eq
find_chunk id [] = none
find_chunk id (c ∷ cs) = if text_eq c.id id then some c else find_chunk id cs

-- `truncateRunes`: a text is its list of runes.
abbrev pub truncate_runes : Text → ℕ → Text
truncate_runes s max_runes = take max_runes s

abbrev pub search_limit : ℤ → ℕ
search_limit (negsuc n) = 10
search_limit (pos n) = if n == 0 || ltb 20 n then 10 else n

abbrev level_of : Result DocumentError SanitizationRow → Option RiskLevel
level_of (ok r) = some r.risk_level
level_of (err e) = none

abbrev pub in_filter : AclCodec → List Text → Text → Bool
in_filter codec [] id = true
in_filter codec (i ∷ is) id = member id (cast_all codec (i ∷ is))

module _ {V : Type 0} (vectors : Vectors V) where
  abbrev pub join_document : EmbeddingRow V → Chunk → Option Document → List (Joined V)
  join_document e c none = []
  join_document e c (some d) = record { embedding = e; chunk = c; document = d } ∷ []

  abbrev pub join_chunk : EmbeddingRow V → Dict Document → Option Chunk → List (Joined V)
  join_chunk e docs none = []
  join_chunk e docs (some c) = join_document e c (lookup c.document_id docs)

  unfoldable pub join_tables : List (EmbeddingRow V) → List Chunk → Dict Document → List (Joined V)
  unfolding find_chunk lookup
  join_tables [] chunks docs = []
  join_tables (e ∷ es) chunks docs =
      join_chunk e docs (find_chunk e.chunk_id chunks) ++ join_tables es chunks docs

  module _ (db : DocumentDb) (codec : AclCodec) where
    -- The conditions of the query.
    unfoldable pub search_condition : Text → Text → Text → List Text → Joined V → Bool
    unfolding text_eq is_supervisor acl_condition
    search_condition user_id role embedder_name document_ids j =
        is_done j.document.status
        && (text_eq j.embedding.model embedder_name
            && ((is_supervisor role || acl_condition codec user_id role j.document)
                && in_filter codec document_ids j.chunk.document_id))

    unfoldable pub result_of : V → List SanitizationRow → Joined V → SearchResult
    unfolding get_document_sanitization_result
    result_of query results j = record {
      chunk_id = j.chunk.id;
      document_id = j.chunk.document_id;
      chunk_index = j.chunk.chunk_index;
      snippet = truncate_runes j.chunk.content snippet_max_runes;
      filename = j.document.filename;
      relevance = vectors.relevance query j.embedding.vector;
      risk_level = level_of (get_document_sanitization_result db j.document.id results);
    }

    abbrev pub nearer : V → Joined V → Joined V → Bool
    nearer query i j = vectors.closer query i.embedding.vector j.embedding.vector

    unfoldable pub search_chunks :
        V
        → Text
        → Text
        → Text
        → List Text
        → ℤ
        → List (EmbeddingRow V)
        → DocumentTables
        → Result SearchError (List SearchResult)
    unfolding sort_by keep_if casts_user join_tables search_condition result_of
    search_chunks query user_id role embedder_name document_ids limit embeddings t =
        if is_empty embedder_name
        then err embedder_name_required
        else if not (db.reads && (casts_user codec user_id role && all_cast codec document_ids))
        then err query_failed
        else ok (
            map (result_of query t.results) (
              take (search_limit limit) (
                sort_by (nearer query) (
                  keep_if (search_condition user_id role embedder_name document_ids)
                    (join_tables embeddings t.chunks t.documents)))))
