-- ===== src/Api/Documents/Upload.antt =====
-- api/documents.go: storing a file and its document.
use rubez_ai.Prelude.{
  ℕ, ◌+◌, ◌*◌, Bool, not, ◌&&◌, ◌||◌, Option, none, some, [], ◌∷◌, ◌++◌, ltb, ◌==◌, if◌then◌else◌,
  length, take, Text, txt, text_eq,
}
use rubez_ai.Prelude.Result.{ok, err}
use rubez_ai.Prelude.Dict.{Dict}
use rubez_ai.Crypto.{Bytes}
use rubez_ai.Auth.{Identity}
use rubez_ai.Storage.{text}
use rubez_ai.Storage.Documents.{Document, DocumentInput, create_document}
use rubez_ai.Api.Http.{Reply, http_error}
use rubez_ai.Api.Ids.{current_user_id}
use rubez_ai.Api.Documents.{
  DocumentDto, document_to_dto, DocumentEvent, DocumentAudit, Bucket, Site, Env, upload, remove,
  insert_audit,
}

-- The part `file` of the form: `size` is what its header claims, the content `none` where reading
-- fails.
pub record UploadedFile : Type 0 where
  pub filename : Text
  pub size : ℕ
  pub content_type : Text
  pub content : Option Bytes

-- A body that does not parse, a form without the part, or the part.
pub data Form : Type 0 where
  malformed without_file : Form
  with_file : UploadedFile → Form

unfoldable pub max_document_bytes : ℕ
max_document_bytes = 50 * 1024 * 1024

-- `allowedDocumentMIMEs`
unfoldable pub allowed_mime : Text → Bool
unfolding txt text_eq
allowed_mime t =
    text_eq t (txt "application/pdf")
    || (text_eq t (txt "application/octet-stream")
        || text_eq t
            (txt "application/vnd.openxmlformats-officedocument.wordprocessingml.document"))

-- `filepath.Ext`: from the last dot after the last slash on.
abbrev ext_loop : Text → Text → Text
ext_loop acc [] = acc
ext_loop acc (c ∷ s) = ext_loop (if c == b'/' then [] else if c == b'.' then c ∷ s else acc) s

unfoldable pub is_document_ext : Text → Bool
unfolding txt text_eq
is_document_ext ext = text_eq ext (txt ".pdf") || text_eq ext (txt ".docx")

module _ (env : Env) where
  abbrev file_ext : Text → Text
  file_ext filename = env.lower (ext_loop [] filename)

  unfoldable pub generate_storage_key : Text → Text
  unfolding txt is_document_ext
  generate_storage_key filename =
      let ext = file_ext filename in
      txt "documents/" ++ (env.random_id ++ (if is_document_ext ext then ext else []))

  -- The checks up to the reading of the file: the user, and the content with its length checked.
  unfoldable pub upload_request : Option Identity → UploadedFile → Reply (Text × Bytes)
  unfolding http_error allowed_mime is_document_ext current_user_id
  upload_request identity f =
      if ltb max_document_bytes f.size
      then http_error "файл слишком большой (>50 МБ)" 413
      else if not (allowed_mime f.content_type) && not (is_document_ext (file_ext f.filename))
      then http_error "поддерживаются только pdf/docx" 415
      else elim (current_user_id env.user_id_for_role identity) [
        | err e ↦ http_error "user not resolved" 500
        | ok user_id ↦ elim f.content [
          | none ↦ http_error "ошибка чтения файла" 500
          | some content ↦
              let buf = take (max_document_bytes + 1) content in
              if ltb max_document_bytes (length buf)
              then http_error "файл слишком большой (>50 МБ)" 413
              else ok (user_id, buf)
        ]
      ]

  unfoldable pub document_input : Text → UploadedFile → Bytes → Text → DocumentInput
  unfolding txt
  document_input user_id f buf key = record {
    owner_id = user_id;
    filename = f.filename;
    content_type = some f.content_type;
    size_bytes = some (length buf);
    storage_key = key;
    acl = txt "[]";
  }

  unfoldable pub upload_audit : Text → Document → UploadedFile → DocumentAudit
  unfolding txt
  upload_audit user_id d f = record {
    user_id = user_id;
    event_type = DocumentEvent.uploaded;
    detail = (txt "document_id", text d.id) ∷ (txt "filename", text f.filename) ∷ [];
  }

  -- The file is stored under its key; the record failing, it is removed again.
  unfoldable pub record_upload :
      Bucket → Text → UploadedFile → Text → Bytes → Dict Bytes → Site → Reply DocumentDto × Site
  unfolding http_error create_document document_input upload_audit remove
  record_upload b user_id f key buf objects site =
      elim (create_document env.db (document_input user_id f buf key) site.tables.documents) [
        | err e ↦ (
          http_error "ошибка создания записи" 500,
          record site { objects = remove b key objects },
        )
        | ok (d, docs) ↦ (
          ok (document_to_dto d),
          insert_audit env (upload_audit user_id d f)
              (record site { tables = record site.tables { documents = docs }; objects = objects }),
        )
      ]

  unfoldable pub store_upload :
      Bucket → Option Identity → UploadedFile → Site → Reply DocumentDto × Site
  unfolding http_error upload_request generate_storage_key upload record_upload
  store_upload b identity f site = elim (upload_request identity f) [
    | err e ↦ (err e, site)
    | ok (user_id, buf) ↦
        let key = generate_storage_key f.filename in
        elim (upload b key buf site.objects) [
          | none ↦ (http_error "ошибка загрузки в MinIO" 502, site)
          | some objects ↦ record_upload b user_id f key buf objects site
        ]
  ]

  unfoldable pub upload_document_handler : Option Identity → Form → Site → Reply DocumentDto × Site
  unfolding http_error store_upload
  upload_document_handler identity form site = elim env.bucket [
    | none ↦ (http_error "MinIO не настроен" 503, site)
    | some b ↦ elim form [
      | malformed ↦ (http_error "ошибка разбора multipart" 400, site)
      | without_file ↦ (http_error "поле file обязательно" 400, site)
      | with_file f ↦ store_upload b identity f site
    ]
  ]
