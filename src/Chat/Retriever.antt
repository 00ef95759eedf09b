-- ===== src/Chat/Retriever.antt =====
-- chat/rag.go: the retriever of the chat, an embedder with the search of the storage.
pub mod Sources
use rubez_ai.Prelude.{Option, none, some, List, map, ltb, ◌==◌, if◌then◌else◌, Text}
use rubez_ai.Prelude.Int.{ℤ, pos, negsuc}
use rubez_ai.Prelude.Result.{Result, ok, err}
use rubez_ai.Storage.Documents.{DocumentDb, DocumentTables}
use rubez_ai.Storage.Documents.Acl.{AclCodec}
use rubez_ai.Storage.Search.{Vectors, EmbeddingRow, SearchResult, search_chunks}
use rubez_ai.Chat.Types.{RagParams, RagHit}

-- The embedder and the store, which holds what the search reads.
pub record ChatRetriever (V : Type 0) : Type 0 where
  pub embed : Text → Option V
  pub embedder_name : Text
  pub db : DocumentDb
  pub codec : AclCodec
  pub vectors : Vectors V
  pub embeddings : List (EmbeddingRow V)
  pub tables : DocumentTables

pub data RetrieveError : Type 0 where
  embed_failed search_failed : RetrieveError

abbrev pub clamp_top_k : ℤ → ℤ
clamp_top_k (negsuc n) = pos 5
clamp_top_k (pos n) = pos (if n == 0 then 5 else if ltb 10 n then 10 else n)

abbrev pub hit_of : SearchResult → RagHit
hit_of r = record {
  document_id = r.document_id;
  chunk_index = r.chunk_index;
  filename = r.filename;
  relevance = r.relevance;
  snippet = r.snippet;
  risk_level = r.risk_level;
}

module _ {V : Type 0} (r : ChatRetriever V) where
  unfoldable pub retrieve : Text → RagParams → Text → Text → Result RetrieveError (List RagHit)
  unfolding search_chunks
  retrieve sanitized_text p user_id role = elim (r.embed sanitized_text) [
    | none ↦ err embed_failed
    | some vec ↦
        elim (search_chunks r.vectors r.db r.codec vec user_id role r.embedder_name p.document_ids
          (clamp_top_k p.top_k) r.embeddings r.tables) [
            | err e ↦ err search_failed
            | ok results ↦ ok (map hit_of results)
          ]
  ]

-- The orchestrator only asks whether there is an error.
abbrev pub answer_of : Result RetrieveError (List RagHit) → Option (List RagHit)
answer_of (ok hits) = some hits
answer_of (err e) = none
