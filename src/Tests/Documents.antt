-- ===== src/Tests/Documents.antt =====
-- The documents on small tables.
use rubez_ai.Prelude.{
  inl, ◌≡◌, refl, true, Option, none, some, List, [], ◌∷◌, arith, All, Text, txt, text_eq,
}
use rubez_ai.Prelude.Int.{pos}
use rubez_ai.Prelude.Dict.{Dict, lookup, insert, erase}
use rubez_ai.Prelude.Result.{ok, err}
use rubez_ai.Auth.{Role, Identity, role_text}
use rubez_ai.Storage.Documents.{
  Document, DocumentInput, DocumentStatus, DocumentDb, done, forbidden, create_document,
  new_document, get_document, soft_delete_document,
}
use rubez_ai.Storage.Documents.Acl.{
  AclCodec, is_supervisor, casts_user, list_documents, filter_accessible_documents,
  check_document_access, grants, has_value,
}
use rubez_ai.Storage.Documents.Access.{
  IsAclCodec, IsReadable, some_value, listed, ids_of, open_to, list_documents-open_to,
}
use rubez_ai.Storage.Documents.Lifecycle.{
  mark_done, unchanged, next, create, mark_done-soft_delete_document,
}
use rubez_ai.Api.Ids.{DbError, is_uuid, current_user_id}
use rubez_ai.Api.Documents.{Bucket, Site, Env, remove, role_of, find_document, is_owner_or_admin}
use rubez_ai.Api.Documents.Upload.{Form, with_file, upload_document_handler}
use rubez_ai.Api.Documents.Reading.{
  get_document_handler, list_document_chunks_handler, download_masked_document_handler,
}
use rubez_ai.Api.Documents.Hidden.{without, readable_document-hides}
use rubez_ai.Api.Documents.Changing.{delete_document_handler}
use rubez_ai.Api.Documents.Erasing.{IsGone, delete_document_handler-IsGone}
use rubez_ai.Api.Documents.Orphan.{Outcome, upload_document_handler-Outcome}

-- The rights of a document are one entry, for the role that the column holds.
abbrev entries_of : Text → List (Dict (Option Text))
entries_of acl = ((txt "role", some acl) ∷ []) ∷ []

abbrev codec : AclCodec
codec = record {
  unmarshal_acl = λ acl. some (entries_of acl);
  contains_entry = λ acl key v. some_value key v (entries_of acl);
  cast = λ t. some t;
}

codec-IsAclCodec : IsAclCodec codec
codec-IsAclCodec = record { contains-unmarshal = λ acl key v entries h. ground (arith, h) }

abbrev db : DocumentDb
db = record { now = 7; new_id = txt "d2"; accepts = λ d. true; reads = true; writes = true }

abbrev plan : Document
plan = record {
  id = txt "00000000-0000-0000-0000-000000000001";
  owner_id = txt "u1";
  filename = txt "plan.pdf";
  content_type = none;
  size_bytes = none;
  storage_key = txt "documents/00.pdf";
  status = DocumentStatus.pending;
  phase = none;
  error = none;
  acl = txt "user";
  processing_started_at = none;
  processing_attempts = 0;
  created_at = 3;
  updated_at = 3;
}

abbrev plan_id : Text
plan_id = txt "00000000-0000-0000-0000-000000000001"

abbrev docs : Dict Document
docs = (plan_id, plan) ∷ []

abbrev analyst : Text
analyst = txt "analyst"

readable : All (λ (e : Text × Document). IsReadable codec e.1) docs
readable = ((entries_of plan.acl, refl), tt)

user_casts : casts_user codec (txt "u2") analyst ≡ true
unfolding txt text_eq casts_user is_supervisor
user_casts = refl

list_documents-open_to_example :
    (list_documents codec db (txt "u2") analyst (pos 7) docs
      ≡ ok (listed (open_to codec codec-IsAclCodec (txt "u2") analyst) 7 docs))
    × (list_documents codec db (txt "u2") analyst (pos 0) docs
        ≡ ok (listed (open_to codec codec-IsAclCodec (txt "u2") analyst) 50 docs))
    × (filter_accessible_documents codec db (txt "u2") analyst (plan_id ∷ []) docs
        ≡ ok (ids_of (open_to codec codec-IsAclCodec (txt "u2") analyst) (plan_id ∷ []) docs))
list_documents-open_to_example =
    list_documents-open_to codec codec-IsAclCodec (txt "u2") analyst db docs refl user_casts
      (λ u e. ground (arith, e)) readable 7 (pos 0) (omega arith) (omega arith) (inl refl) plan_id
      [] refl

abbrev after : Dict Document
after =
    (
      plan_id,
      record plan {
        status = DocumentStatus.deleted;
        storage_key = [];
        phase = none;
        updated_at = 7;
      },
    )
    ∷ []

deleted_plan : soft_delete_document db plan_id docs ≡ ok after
unfolding txt text_eq lookup insert soft_delete_document
deleted_plan = refl

abbrev inp : DocumentInput
inp = record {
  owner_id = txt "u1";
  filename = txt "new.pdf";
  content_type = none;
  size_bytes = none;
  storage_key = txt "documents/01.pdf";
  acl = [];
}

abbrev later_docs : Dict Document
later_docs = insert (txt "d2") (new_document db inp) after

mark_done-soft_delete_document_example :
    (d : Document) × (get_document db plan_id (mark_done 9 plan_id after) ≡ ok d)
    × (d.status ≡ done)
mark_done-soft_delete_document_example =
    mark_done-soft_delete_document db db 9 plan_id docs after deleted_plan refl

abbrev bucket : Bucket
bucket = record { puts = λ k. true; gets = λ k. true; removes = λ k. true }

abbrev env : Env
env = record {
  db = db;
  bucket = some bucket;
  acl = codec;
  user_id_for_role = λ r. err DbError.failed;
  accepts_audit = λ a. true;
  random_id = txt "0f";
  lower = λ t. t;
}

abbrev site : Site
site = record {
  tables = record { documents = docs; chunks = []; results = [] };
  objects = [];
  audits = [];
}

abbrev other : Option Identity
other = some (record { user_id = txt "u2"; role = Role.developer })

no_right : check_document_access codec plan (txt "u2") (txt "developer") ≡ err forbidden
unfolding txt text_eq check_document_access is_supervisor grants has_value lookup
no_right = refl

stored_plan : lookup plan_id docs ≡ some plan
unfolding txt text_eq lookup
stored_plan = refl

readable_document-hides_example :
    (get_document_handler env other plan_id site
      ≡ get_document_handler env other plan_id (without plan_id site))
    × (list_document_chunks_handler env other plan_id site
        ≡ list_document_chunks_handler env other plan_id (without plan_id site))
    × ((download_masked_document_handler env other plan_id site).0
        ≡ (download_masked_document_handler env other plan_id (without plan_id site)).0)
    × ((download_masked_document_handler env other plan_id site).1 ≡ site)
unfolding role_of role_text current_user_id txt
readable_document-hides_example =
    readable_document-hides env other refl plan_id site plan stored_plan no_right

abbrev form : Form
form = with_file (record {
  filename = txt "new.pdf";
  size = 3;
  content_type = txt "application/pdf";
  content = some (1 ∷ 2 ∷ 3 ∷ []);
})

upload_document_handler-Outcome_example :
    Outcome env other form site (upload_document_handler env other form site)
unfolding lookup
upload_document_handler-Outcome_example =
    upload_document_handler-Outcome env bucket other form site refl (λ name. refl) (λ name. refl)

abbrev owner : Option Identity
owner = some (record { user_id = txt "u1"; role = Role.user })

abbrev full : Site
full = record site { objects = (plan.storage_key, 1 ∷ []) ∷ [] }

abbrev emptied : Site
emptied = (delete_document_handler env owner plan_id full).1

delete_run : delete_document_handler env owner plan_id full ≡ (ok tt, emptied)
unfolding txt text_eq lookup insert erase is_uuid get_document find_document current_user_id
    is_owner_or_admin remove soft_delete_document delete_document_handler
delete_run = refl

created_later :
    create_document db inp emptied.tables.documents ≡ ok (new_document db inp, later_docs)
unfolding txt text_eq lookup insert erase is_uuid get_document find_document current_user_id
    is_owner_or_admin remove soft_delete_document delete_document_handler create_document
    new_document
created_later = refl

delete_document_handler-IsGone_example : IsGone env bucket owner plan_id full emptied later_docs
delete_document_handler-IsGone_example =
    delete_document_handler-IsGone env bucket owner plan_id full emptied later_docs refl delete_run
      (next unchanged (create db inp created_later))
