-- ===== src/Api/Documents.antt =====
-- api/documents.go with storage/minio.go: the handlers of the documents. The bucket with the uploaded
-- files is a map by the key; what the services refuse is a parameter.
pub mod Upload
pub mod Reading
pub mod Changing
pub mod Hidden
pub mod Orphan
pub mod Erasing
use rubez_ai.Prelude.{
  ℕ, String, Bool, true, false, not, ◌||◌, Option, none, some, List, [], ◌∷◌, if◌then◌else◌, Text,
  text_eq,
}
use rubez_ai.Prelude.Result.{Result, ok, err}
use rubez_ai.Prelude.Dict.{Dict, lookup, insert, erase}
use rubez_ai.Crypto.{Bytes}
use rubez_ai.Auth.{Role, Identity, role_text}
use rubez_ai.Storage.{Value}
use rubez_ai.Policy.{RiskLevel, RiskClass}
use rubez_ai.Storage.Documents.{
  Document, DocumentStatus, DocumentDb, DocumentError, DocumentTables, DocumentChunkRow,
  SanitizationRow, get_document,
}
use rubez_ai.Storage.Documents.Acl.{AclCodec}
use rubez_ai.Api.Http.{Reply, http_error}
use rubez_ai.Api.Ids.{is_uuid, DbError, current_user_id}
use rubez_ai.Api.Audit.Listing.{user_or_empty}

pub data DocumentEvent : Type 0 where
  uploaded downloaded masked_downloaded removed retry_requested : DocumentEvent

pub record DocumentAudit : Type 0 where
  pub user_id : Text
  pub event_type : DocumentEvent
  pub detail : Dict Value

-- What the object store accepts, by the key.
pub record Bucket : Type 0 where
  pub puts : Text → Bool
  pub gets : Text → Bool
  pub removes : Text → Bool

-- The database, the bucket, if one is configured, and the audit events, the last first.
pub record Site : Type 0 where
  pub tables : DocumentTables
  pub objects : Dict Bytes
  pub audits : List DocumentAudit

-- `random_id` is the hexadecimal text of 16 random bytes, `lower` is `strings.ToLower`.
pub record Env : Type 0 where
  pub db : DocumentDb
  pub bucket : Option Bucket
  pub acl : AclCodec
  pub user_id_for_role : Role → Result DbError Text
  pub accepts_audit : DocumentAudit → Bool
  pub random_id : Text
  pub lower : Text → Text

-- `Upload`, `Download` and `Remove` of MinioClient.
unfoldable pub upload : Bucket → Text → Bytes → Dict Bytes → Option (Dict Bytes)
unfolding insert
upload b key content objects = if b.puts key then some (insert key content objects) else none

unfoldable pub download : Bucket → Text → Dict Bytes → Option Bytes
unfolding lookup
download b key objects = if b.gets key then lookup key objects else none

unfoldable pub remove : Bucket → Text → Dict Bytes → Dict Bytes
unfolding erase
remove b [] objects = objects
remove b (c ∷ key) objects = if b.removes (c ∷ key) then erase (c ∷ key) objects else objects

-- The error of `InsertAuditEvent` is dropped.
abbrev pub insert_audit : Env → DocumentAudit → Site → Site
insert_audit env ev site =
    if env.accepts_audit ev then record site { audits = ev ∷ site.audits } else site

-- `auth.RoleFromContext`, empty without an identity.
unfoldable pub role_of : Option Identity → Text
unfolding role_text
role_of none = []
role_of (some id) = role_text id.role

abbrev is_admin_role : Role → Bool
is_admin_role Role.admin = true
is_admin_role _ = false

abbrev pub is_admin : Option Identity → Bool
is_admin none = false
is_admin (some id) = is_admin_role id.role

-- The user for the checks: the error of `currentUserID` is dropped.
abbrev pub user_of : Env → Option Identity → Text
user_of env identity = user_or_empty (current_user_id env.user_id_for_role identity)

-- What a client sees of a document: neither its key nor its rights.
pub record DocumentDto : Type 0 where
  pub id : Text
  pub owner_id : Text
  pub filename : Text
  pub content_type : Option Text
  pub size_bytes : Option ℕ
  pub status : DocumentStatus
  pub phase : Option Text
  pub error : Option Text
  pub processing_attempts : ℕ
  pub processing_started_at : Option ℕ
  pub created_at : ℕ
  pub updated_at : ℕ

abbrev pub document_to_dto : Document → DocumentDto
document_to_dto d = record {
  id = d.id;
  owner_id = d.owner_id;
  filename = d.filename;
  content_type = d.content_type;
  size_bytes = d.size_bytes;
  status = d.status;
  phase = d.phase;
  error = d.error;
  processing_attempts = d.processing_attempts;
  processing_started_at = d.processing_started_at;
  created_at = d.created_at;
  updated_at = d.updated_at;
}

pub record DocumentChunkDto : Type 0 where
  pub id : Text
  pub document_id : Text
  pub chunk_index : ℕ
  pub content : Text
  pub token_count : Option ℕ
  pub risk_level : Option RiskLevel
  pub risk_score : Option ℕ
  pub risk_classes : List RiskClass
  pub created_at : ℕ

abbrev risk_value : {A : Type 0} → (SanitizationRow → A) → Option SanitizationRow → Option A
risk_value f none = none
risk_value f (some r) = some (f r)

abbrev classes_of : Option SanitizationRow → List RiskClass
classes_of none = []
classes_of (some r) = r.risk_classes

abbrev pub chunk_to_dto : DocumentChunkRow → DocumentChunkDto
chunk_to_dto c = record {
  id = c.chunk.id;
  document_id = c.chunk.document_id;
  chunk_index = c.chunk.chunk_index;
  content = c.chunk.content;
  token_count = c.chunk.token_count;
  risk_level = risk_value (λ (r : SanitizationRow). r.risk_level) c.risk;
  risk_score = risk_value (λ (r : SanitizationRow). r.risk_score) c.risk;
  risk_classes = classes_of c.risk;
  created_at = c.chunk.created_at;
}

pub record DocumentChunkListDto : Type 0 where
  pub document_id : Text
  pub chunks : List DocumentChunkDto

-- How every handler of one document starts: the id and the document, with the text of its 500.
unfoldable pub find_document : Env → String → Text → Site → Reply Document
unfolding http_error is_uuid get_document
find_document env message id site =
    if not (is_uuid id)
    then http_error "404 page not found" 404
    else elim (get_document env.db id site.tables.documents) [
      | ok d ↦ ok d
      | err DocumentError.not_found ↦ http_error "404 page not found" 404
      | err DocumentError.forbidden ↦ http_error message 500
      | err DocumentError.failed ↦ http_error message 500
    ]

-- The owner or an administrator.
unfoldable pub is_owner_or_admin : Env → Option Identity → Document → Bool
unfolding text_eq current_user_id
is_owner_or_admin env identity d = text_eq d.owner_id (user_of env identity) || is_admin identity
