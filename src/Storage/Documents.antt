-- ===== src/Storage/Documents.antt =====
-- storage/documents.go with the tables of migrations 000004, 000005 and 000011: documents, their
-- sanitized chunks and the results of the sanitizer. A table is a map by its primary key, or the list
-- of its rows where rows are only added; what the database may refuse is a parameter.
pub mod Acl
pub mod Access
pub mod Lifecycle
use rubez_ai.Prelude.{
  ℕ, Bool, true, false, ◌&&◌, Option, none, some, List, [], ◌∷◌, ◌++◌, map, ltb, if◌then◌else◌,
  keep_if, Text, txt, text_eq,
}
use rubez_ai.Prelude.Result.{Result, ok, err}
use rubez_ai.Prelude.Dict.{Dict, lookup, insert}
use rubez_ai.Prelude.Sort.{sort_by}
use rubez_ai.Policy.{RiskLevel, RiskClass}

-- The constraint `documents_status_check`.
pub data DocumentStatus : Type 0 where
  pending processing done failed deleted : DocumentStatus

pub record Document : Type 0 where
  pub id : Text
  pub owner_id : Text
  pub filename : Text
  pub content_type : Option Text
  pub size_bytes : Option ℕ
  pub storage_key : Text
  pub status : DocumentStatus
  pub phase : Option Text
  pub error : Option Text
  pub acl : Text
  pub processing_started_at : Option ℕ
  pub processing_attempts : ℕ
  pub created_at : ℕ
  pub updated_at : ℕ

pub record DocumentInput : Type 0 where
  pub owner_id : Text
  pub filename : Text
  pub content_type : Option Text
  pub size_bytes : Option ℕ
  pub storage_key : Text
  pub acl : Text

-- A row of `document_chunks`.
pub record Chunk : Type 0 where
  pub id : Text
  pub document_id : Text
  pub chunk_index : ℕ
  pub content : Text
  pub token_count : Option ℕ
  pub created_at : ℕ

-- A row of `sanitization_results` that belongs to a document.
pub record SanitizationRow : Type 0 where
  pub document_id : Text
  pub entities_json : Text
  pub risk_level : RiskLevel
  pub risk_score : ℕ
  pub risk_classes : List RiskClass
  pub created_at : ℕ

-- A chunk with the risk of its document, if that was sanitized.
pub record DocumentChunkRow : Type 0 where
  pub chunk : Chunk
  pub risk : Option SanitizationRow

pub data DocumentError : Type 0 where
  not_found forbidden failed : DocumentError

pub record DocumentTables : Type 0 where
  pub documents : Dict Document
  pub chunks : List Chunk
  pub results : List SanitizationRow

-- What the database adds: the time, a new id, and its failures.
pub record DocumentDb : Type 0 where
  pub now : ℕ
  pub new_id : Text
  pub accepts : Document → Bool
  pub reads : Bool
  pub writes : Bool

abbrev pub is_deleted : DocumentStatus → Bool
is_deleted deleted = true
is_deleted pending = false
is_deleted processing = false
is_deleted done = false
is_deleted DocumentStatus.failed = false

abbrev pub is_failed : DocumentStatus → Bool
is_failed DocumentStatus.failed = true
is_failed pending = false
is_failed processing = false
is_failed done = false
is_failed deleted = false

abbrev is_fresh : Option Document → Bool
is_fresh none = true
is_fresh (some d) = false

-- An empty list of rights is stored as `[]`.
abbrev acl_or_empty : Text → Text
acl_or_empty [] = txt "[]"
acl_or_empty (c ∷ s) = c ∷ s

module _ (db : DocumentDb) where
  -- The row with the defaults of its columns.
  unfoldable pub new_document : DocumentInput → Document
  unfolding txt
  new_document inp = record {
    id = db.new_id;
    owner_id = inp.owner_id;
    filename = inp.filename;
    content_type = inp.content_type;
    size_bytes = inp.size_bytes;
    storage_key = inp.storage_key;
    status = pending;
    phase = none;
    error = none;
    acl = acl_or_empty inp.acl;
    processing_started_at = none;
    processing_attempts = 0;
    created_at = db.now;
    updated_at = db.now;
  }

  unfoldable pub create_document :
      DocumentInput → Dict Document → Result DocumentError (Document × Dict Document)
  unfolding new_document lookup insert
  create_document inp docs =
      let d = new_document inp in
      if is_fresh (lookup d.id docs) && db.accepts d then ok (d, insert d.id d docs) else err failed

  -- A deleted document is not found.
  unfoldable pub get_document : Text → Dict Document → Result DocumentError Document
  unfolding lookup
  get_document id docs =
      if db.reads
      then elim (lookup id docs) [
        | none ↦ err not_found
        | some d ↦ if is_deleted d.status then err not_found else ok d
      ]
      else err failed

  -- The trigger `documents_set_updated_at` stamps every changed row.
  abbrev pub soft_deleted : Document → Document
  soft_deleted d = record d {
    status = deleted;
    storage_key = [];
    phase = none;
    updated_at = db.now;
  }

  unfoldable pub soft_delete_document : Text → Dict Document → Result DocumentError (Dict Document)
  unfolding lookup insert
  soft_delete_document id docs =
      if db.writes
      then elim (lookup id docs) [
        | none ↦ err not_found
        | some d ↦
            if is_deleted d.status then err not_found else ok (insert id (soft_deleted d) docs)
      ]
      else err failed

  abbrev pub requeued : Document → Document
  requeued d = record d {
    status = pending;
    processing_attempts = 0;
    error = none;
    processing_started_at = none;
    phase = none;
    updated_at = db.now;
  }

  unfoldable pub retry_document : Text → Dict Document → Result DocumentError (Dict Document)
  unfolding lookup insert
  retry_document id docs =
      if db.writes
      then elim (lookup id docs) [
        | none ↦ err not_found
        | some d ↦ if is_failed d.status then ok (insert id (requeued d) docs) else err not_found
      ]
      else err failed

-- `document_id = $1`
abbrev of_document : Text → SanitizationRow → Bool
of_document id r = text_eq r.document_id id

abbrev later_result : SanitizationRow → SanitizationRow → Bool
later_result r s = ltb s.created_at r.created_at

abbrev first_row : List SanitizationRow → Result DocumentError SanitizationRow
first_row [] = err not_found
first_row (r ∷ rs) = ok r

unfoldable pub get_document_sanitization_result :
    DocumentDb → Text → List SanitizationRow → Result DocumentError SanitizationRow
unfolding sort_by keep_if text_eq
get_document_sanitization_result db id rows =
    if db.reads
    then first_row (sort_by later_result (keep_if (of_document id) rows))
    else err failed

abbrev earlier_chunk : DocumentChunkRow → DocumentChunkRow → Bool
earlier_chunk r s = ltb r.chunk.chunk_index s.chunk.chunk_index

-- The LEFT JOIN: a row for each result of the document, or one without.
abbrev pub joined : Chunk → List SanitizationRow → List DocumentChunkRow
joined c [] = record { chunk = c; risk = none } ∷ []
joined c (r ∷ rs) = map (λ s. record { chunk = c; risk = some s }) (r ∷ rs)

unfoldable pub join_rows : List Chunk → List SanitizationRow → List DocumentChunkRow
join_rows [] rows = []
join_rows (c ∷ cs) rows = joined c rows ++ join_rows cs rows

unfoldable pub list_document_chunks :
    DocumentDb → Text → DocumentTables → Result DocumentError (List DocumentChunkRow)
unfolding sort_by keep_if text_eq join_rows
list_document_chunks db id t =
    if db.reads
    then ok (
        sort_by earlier_chunk (
          join_rows (keep_if (λ c. text_eq c.document_id id) t.chunks)
            (keep_if (of_document id) t.results)))
    else err failed
