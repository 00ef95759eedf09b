-- ===== src/Api/Documents/Reading.antt =====
-- api/documents.go: the list, one document, its chunks, its file and its masked text.
use rubez_ai.Prelude.{
  map, ℕ, String, not, Option, none, some, List, [], ◌∷◌, ◌++◌, if◌then◌else◌, length, Text, txt,
}
use rubez_ai.Prelude.Int.{pos}
use rubez_ai.Prelude.Result.{ok, err}
use rubez_ai.Crypto.{Bytes}
use rubez_ai.Auth.{Identity}
use rubez_ai.Storage.{text, number}
use rubez_ai.Storage.Documents.{Document, DocumentChunkRow, list_document_chunks}
use rubez_ai.Storage.Documents.Acl.{check_document_access, list_documents}
use rubez_ai.Api.Http.{Reply, http_error}
use rubez_ai.Api.Documents.{
  DocumentDto, document_to_dto, DocumentChunkListDto, chunk_to_dto, DocumentEvent, DocumentAudit,
  Site, Env, download, insert_audit, role_of, user_of, find_document, is_owner_or_admin,
}

-- The contents of the chunks, a line each.
unfoldable pub masked_lines : List DocumentChunkRow → Text
unfolding txt
masked_lines [] = []
masked_lines (c ∷ cs) = c.chunk.content ++ (txt "\n" ++ masked_lines cs)

module _ (env : Env) (identity : Option Identity) where
  unfoldable pub list_documents_handler : Site → Reply (List DocumentDto)
  unfolding http_error list_documents role_of
  list_documents_handler site =
      elim (list_documents env.acl env.db (user_of env identity) (role_of identity) (pos 100)
        site.tables.documents) [
          | ok docs ↦ ok (map document_to_dto docs)
          | err e ↦ http_error "ошибка чтения" 500
        ]

  -- A document that the user may not see is answered as one that is not there.
  unfoldable pub readable_document : String → Text → Site → Reply Document
  unfolding http_error find_document check_document_access role_of
  readable_document message id site = elim (find_document env message id site) [
    | err e ↦ err e
    | ok d ↦ elim (check_document_access env.acl d (user_of env identity) (role_of identity)) [
      | ok u ↦ ok d
      | err e ↦ http_error "404 page not found" 404
    ]
  ]

  unfoldable pub get_document_handler : Text → Site → Reply DocumentDto
  unfolding readable_document
  get_document_handler id site = elim (readable_document "ошибка чтения" id site) [
    | err e ↦ err e
    | ok d ↦ ok (document_to_dto d)
  ]

  unfoldable pub list_document_chunks_handler : Text → Site → Reply DocumentChunkListDto
  unfolding http_error readable_document list_document_chunks
  list_document_chunks_handler id site = elim (readable_document "ошибка" id site) [
    | err e ↦ err e
    | ok d ↦ elim (list_document_chunks env.db id site.tables) [
      | ok chunks ↦ ok (record { document_id = id; chunks = map chunk_to_dto chunks })
      | err e ↦ http_error "ошибка чтения" 500
    ]
  ]

  abbrev event : DocumentEvent → Document → DocumentAudit
  event kind d = record {
    user_id = user_of env identity;
    event_type = kind;
    detail = (txt "document_id", text d.id) ∷ [];
  }

  -- The name of the file and its content.
  unfoldable pub download_document_handler : Text → Site → Reply (Text × Bytes) × Site
  unfolding http_error find_document is_owner_or_admin download txt
  download_document_handler id site = elim env.bucket [
    | none ↦ (http_error "MinIO не настроен" 503, site)
    | some b ↦ elim (find_document env "ошибка" id site) [
      | err e ↦ (err e, site)
      | ok d ↦
          if not (is_owner_or_admin env identity d)
          then (http_error "404 page not found" 404, site)
          else elim (download b d.storage_key site.objects) [
            | none ↦ (http_error "ошибка загрузки" 502, site)
            | some content ↦
                (ok (d.filename, content), insert_audit env (event DocumentEvent.downloaded d) site)
          ]
    ]
  ]

  abbrev masked_event : Document → ℕ → DocumentAudit
  masked_event d n = record {
    user_id = user_of env identity;
    event_type = DocumentEvent.masked_downloaded;
    detail = (txt "document_id", text d.id) ∷ (txt "chunks", number n) ∷ [];
  }

  unfoldable pub download_masked_document_handler : Text → Site → Reply (Text × Text) × Site
  unfolding http_error readable_document list_document_chunks masked_lines txt
  download_masked_document_handler id site = elim (readable_document "ошибка" id site) [
    | err e ↦ (err e, site)
    | ok d ↦ elim (list_document_chunks env.db id site.tables) [
      | err e ↦ (http_error "ошибка чтения" 500, site)
      | ok chunks ↦ (
        ok (
          d.filename ++ txt "-masked.txt",
          txt "# Обезличенная версия (форматирование не сохранено)\n\n" ++ masked_lines chunks,
        ),
        insert_audit env (masked_event d (length chunks)) site,
      )
    ]
  ]
