-- ===== src/Api/Documents/Hidden.antt =====
-- api/documents.go: a document that the user may not see is answered as one that is not there.
use rubez_ai.Prelude.{
  String, ◌≡◌, refl, ◌⊎◌, inl, inr, true, false, Option, none, some, Bool-cases, Option-cases, Text,
  txt,
}
use rubez_ai.Prelude.Result.{ok, err}
use rubez_ai.Prelude.Dict.{lookup, erase, lookup-erase_self}
use rubez_ai.Auth.{Identity}
use rubez_ai.Storage.Documents.{Document, forbidden, get_document, is_deleted}
use rubez_ai.Storage.Documents.Acl.{check_document_access}
use rubez_ai.Api.Http.{HttpError, http_error}
use rubez_ai.Api.Ids.{is_uuid}
use rubez_ai.Api.Documents.{Site, Env, user_of, role_of, find_document, is_owner_or_admin}
use rubez_ai.Api.Documents.Reading.{
  readable_document, get_document_handler, list_document_chunks_handler, download_document_handler,
  download_masked_document_handler,
}

abbrev pub not_there : HttpError
not_there = record { status = 404; message = txt "404 page not found" }

-- The site without the document.
abbrev pub without : Text → Site → Site
without id site = record site {
  tables = record site.tables { documents = erase id site.tables.documents };
}

module _ (env : Env) (identity : Option Identity) (reads : env.db.reads ≡ true) where
  find_document-absent :
      (message : String) (id : Text) (site : Site)
      → lookup id site.tables.documents ≡ none
      → find_document env message id site ≡ err not_there
  unfolding find_document get_document http_error
  find_document-absent message id site q = elim (Bool-cases (is_uuid id)) [
    | inl u ↦ rw (u, reads, q, find_document, get_document) refl
    | inr u ↦ rw (u, find_document) refl
  ]

  -- A stored document is found, or answered as absent.
  find_document-cases :
      (message : String) (id : Text) (site : Site) (d : Document)
      → lookup id site.tables.documents ≡ some d
      → (find_document env message id site ≡ err not_there)
        ⊎ (find_document env message id site ≡ ok d)
  unfolding find_document get_document http_error
  find_document-cases message id site d q = elim (Bool-cases (is_uuid id)) [
    | inr u ↦ inl (rw (u, find_document) refl)
    | inl u ↦ elim (Bool-cases (is_deleted d.status)) [
      | inl g ↦ inl (rw (u, reads, q, g, find_document, get_document) refl)
      | inr g ↦ inr (rw (u, reads, q, g, find_document, get_document) refl)
    ]
  ]

  readable_document-absent :
      (message : String) (id : Text) (site : Site)
      → lookup id site.tables.documents ≡ none
      → readable_document env identity message id site ≡ err not_there
  unfolding readable_document
  readable_document-absent message id site q =
      rw (find_document-absent message id site q, readable_document) refl

  readable_document-forbidden :
      (message : String) (id : Text) (site : Site) (d : Document)
      → lookup id site.tables.documents ≡ some d
      → check_document_access env.acl d (user_of env identity) (role_of identity) ≡ err forbidden
      → readable_document env identity message id site ≡ err not_there
  unfolding readable_document http_error
  readable_document-forbidden message id site d q f =
      elim (find_document-cases message id site d q) [
        | inl n ↦ rw (n, readable_document) refl
        | inr y ↦ rw (y, f, readable_document) refl
      ]

  -- A user to whom a stored document is forbidden gets from the document, its chunks and its masked
  -- text the same answers as if it were not stored, and the request for the text changes nothing.
  pub readable_document-hides :
      (id : Text) (site : Site) (d : Document)
      → lookup id site.tables.documents ≡ some d
      → check_document_access env.acl d (user_of env identity) (role_of identity) ≡ err forbidden
      → (get_document_handler env identity id site
          ≡ get_document_handler env identity id (without id site))
        × (list_document_chunks_handler env identity id site
            ≡ list_document_chunks_handler env identity id (without id site))
        × ((download_masked_document_handler env identity id site).0
            ≡ (download_masked_document_handler env identity id (without id site)).0)
        × ((download_masked_document_handler env identity id site).1 ≡ site)
  unfolding get_document_handler list_document_chunks_handler download_masked_document_handler
  readable_document-hides id site d q f =
      let gone = lookup-erase_self id site.tables.documents in
      let here1 = λ (m : String). readable_document-forbidden m id site d q f in
      let there1 = λ (m : String). readable_document-absent m id (without id site) gone in
      (
        rw (here1 "ошибка чтения", there1 "ошибка чтения", get_document_handler) refl,
        rw (here1 "ошибка", there1 "ошибка", list_document_chunks_handler) refl,
        rw (here1 "ошибка", there1 "ошибка", download_masked_document_handler) refl,
        rw (here1 "ошибка", download_masked_document_handler) refl,
      )

  -- The same of its file, for a user who is neither its owner nor an administrator.
  pub download_document_handler-hides :
      (id : Text) (site : Site) (d : Document)
      → lookup id site.tables.documents ≡ some d
      → is_owner_or_admin env identity d ≡ false
      → ((download_document_handler env identity id site).0
          ≡ (download_document_handler env identity id (without id site)).0)
        × ((download_document_handler env identity id site).1 ≡ site)
  unfolding download_document_handler http_error
  download_document_handler-hides id site d q f = elim (Option-cases env.bucket) [
    | inl n ↦ (rw (n, download_document_handler) refl, rw (n, download_document_handler) refl)
    | inr (b, n) ↦
        let gone =
          find_document-absent "ошибка" id (without id site)
            (lookup-erase_self id site.tables.documents) in
        elim (find_document-cases "ошибка" id site d q) [
          | inl a ↦ (
            rw (n, a, gone, download_document_handler) refl,
            rw (n, a, download_document_handler) refl,
          )
          | inr a ↦ (
            rw (n, a, gone, f, download_document_handler) refl,
            rw (n, a, f, download_document_handler) refl,
          )
        ]
  ]
