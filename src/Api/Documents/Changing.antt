-- ===== src/Api/Documents/Changing.antt =====
-- api/documents.go: deleting a document with its file, and putting one back into the queue.
use rubez_ai.Prelude.{not, Option, none, some, [], ◌∷◌, if◌then◌else◌, Text, txt}
use rubez_ai.Prelude.Result.{ok, err}
use rubez_ai.Prelude.Dict.{Dict}
use rubez_ai.Crypto.{Bytes}
use rubez_ai.Auth.{Identity}
use rubez_ai.Storage.{text}
use rubez_ai.Storage.Documents.{DocumentError, soft_delete_document, retry_document}
use rubez_ai.Api.Http.{Reply, http_error}
use rubez_ai.Api.Documents.{
  DocumentEvent, DocumentAudit, Bucket, Site, Env, remove, insert_audit, user_of, find_document,
  is_owner_or_admin,
}

module _ (env : Env) (identity : Option Identity) where
  abbrev pub event : DocumentEvent → Text → DocumentAudit
  event kind id = record {
    user_id = user_of env identity;
    event_type = kind;
    detail = (txt "document_id", text id) ∷ [];
  }

  -- The removal of the file at best effort.
  abbrev removed_file : Option Bucket → Text → Dict Bytes → Dict Bytes
  removed_file none key objects = objects
  removed_file (some b) key objects = remove b key objects

  abbrev deleted_reply : DocumentError → Reply (Unit {0})
  deleted_reply DocumentError.not_found = http_error "404 page not found" 404
  deleted_reply DocumentError.forbidden = http_error "ошибка удаления" 500
  deleted_reply DocumentError.failed = http_error "ошибка удаления" 500

  unfoldable pub delete_document_handler : Text → Site → Reply (Unit {0}) × Site
  unfolding http_error find_document is_owner_or_admin remove soft_delete_document txt
  delete_document_handler id site = elim (find_document env "ошибка" id site) [
    | err e ↦ (err e, site)
    | ok d ↦
        if not (is_owner_or_admin env identity d)
        then (http_error "forbidden" 403, site)
        else let emptied : Site = record site {
          objects = removed_file env.bucket d.storage_key site.objects;
        } in
          elim (soft_delete_document env.db id site.tables.documents) [
            | err e ↦ (deleted_reply e, emptied)
            | ok docs ↦ (
              ok tt,
              insert_audit env (event DocumentEvent.removed id)
                  (record emptied { tables = record site.tables { documents = docs } }),
            )
          ]
  ]

  abbrev retried_reply : DocumentError → Reply (Unit {0})
  retried_reply DocumentError.not_found = http_error "документ не в статусе failed" 409
  retried_reply DocumentError.forbidden = http_error "ошибка retry" 500
  retried_reply DocumentError.failed = http_error "ошибка retry" 500

  unfoldable pub retry_document_handler : Text → Site → Reply (Unit {0}) × Site
  unfolding http_error find_document is_owner_or_admin retry_document txt
  retry_document_handler id site = elim (find_document env "ошибка" id site) [
    | err e ↦ (err e, site)
    | ok d ↦
        if not (is_owner_or_admin env identity d)
        then (http_error "forbidden" 403, site)
        else elim (retry_document env.db id site.tables.documents) [
          | err e ↦ (retried_reply e, site)
          | ok docs ↦ (
            ok tt,
            insert_audit env (event DocumentEvent.retry_requested id)
                (record site { tables = record site.tables { documents = docs } }),
          )
        ]
  ]
