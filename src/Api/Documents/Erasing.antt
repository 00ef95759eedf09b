-- ===== src/Api/Documents/Erasing.antt =====
-- api/documents.go: what is left of a deleted document.
use rubez_ai.Prelude.{
  String, ◌≡◌, refl, sym, ap, ◌∙◌, subst, inl, inr, true, false, Option, none, some, [], ◌∷◌, arith,
  Bool-cases, Option-cases, Text, is_empty,
}
use rubez_ai.Prelude.Result.{ok, err, Result-cases}
use rubez_ai.Prelude.Dict.{Dict, lookup, lookup-erase_self}
use rubez_ai.Crypto.{Bytes}
use rubez_ai.Auth.{Identity}
use rubez_ai.Storage.Documents.{
  Document, DocumentDb, DocumentError, not_found, forbidden, get_document, soft_delete_document,
}
use rubez_ai.Storage.Documents.Lifecycle.{Changes, IsErased, soft_delete_document-final}
use rubez_ai.Api.Http.{http_error}
use rubez_ai.Api.Ids.{is_uuid}
use rubez_ai.Api.Documents.{
  DocumentEvent, Bucket, Site, Env, remove, find_document, is_owner_or_admin,
}
use rubez_ai.Api.Documents.Changing.{event, delete_document_handler}
use rubez_ai.Api.Documents.Orphan.{insert_audit-site}

get_document-ok :
    (db : DocumentDb) (id : Text) (docs : Dict Document) (d : Document)
    → get_document db id docs ≡ ok d
    → lookup id docs ≡ some d
unfolding get_document
get_document-ok db id docs d h = elim (Option-cases (lookup id docs)) [
  | inl n ↦ ground (arith, h, n)
  | inr (e, q) ↦ ground (arith, h, q)
]

find_document-ok :
    (env : Env) (message : String) (id : Text) (site : Site) (d : Document)
    → find_document env message id site ≡ ok d
    → lookup id site.tables.documents ≡ some d
unfolding find_document http_error
find_document-ok env message id site d h = elim (Bool-cases (is_uuid id)) [
  | inr u ↦ let k = rw (u, find_document) at h in ground (arith, k)
  | inl u ↦ elim (Result-cases (get_document env.db id site.tables.documents)) [
    | inr (not_found, g) ↦ let k = rw (u, g, find_document) at h in ground (arith, k)
    | inr (forbidden, g) ↦ let k = rw (u, g, find_document) at h in ground (arith, k)
    | inr (DocumentError.failed, g) ↦ let k = rw (u, g, find_document) at h in ground (arith, k)
    | inl (e, g) ↦
        let k = rw (u, g, find_document) at h in
        let same : e ≡ d = ground (arith, k) in
        get_document-ok env.db id site.tables.documents d (g ∙ ap ok same)
  ]
]

lookup-remove :
    (b : Bucket) (key : Text) (objects : Dict Bytes)
    → is_empty key ≡ false
    → b.removes key ≡ true
    → lookup key (remove b key objects) ≡ none
unfolding remove
lookup-remove b [] objects n r = cc
lookup-remove b (c ∷ s) objects n r = rw (r, remove) (lookup-erase_self (c ∷ s) objects)

-- What a deletion leaves: the document was there and the user's to delete, the row is erased, and
-- the file is gone from a bucket that removes it.
pub record IsGone (env : Env) (b : Bucket) (identity : Option Identity) (id : Text)
    (before after : Site) (docs : Dict Document) : Type 0 where
  pub doc : Document
  pub stored : lookup id before.tables.documents ≡ some doc
  pub allowed : is_owner_or_admin env identity doc ≡ true
  pub file :
      is_empty doc.storage_key ≡ false
      → b.removes doc.storage_key ≡ true
      → lookup doc.storage_key after.objects ≡ none
  pub row : IsErased id docs
  pub unread :
      (later : DocumentDb) → later.reads ≡ true → get_document later id docs ≡ err not_found

-- When a deletion is answered without an error, the document was stored and the user is its owner
-- or an administrator; its file is gone, where the bucket could remove it; and whatever documents are
-- then created, deleted and put back into the queue, its row has no key of a stored file, and reading
-- it reports that there is none.
pub delete_document_handler-IsGone :
    (env : Env) (b : Bucket) (identity : Option Identity) (id : Text) (site site' : Site)
    (docs : Dict Document)
    → env.bucket ≡ some b
    → delete_document_handler env identity id site ≡ (ok tt, site')
    → Changes site'.tables.documents docs
    → IsGone env b identity id site site' docs
unfolding delete_document_handler http_error
delete_document_handler-IsGone env b identity id site site' docs bucket h run =
    elim (Result-cases (find_document env "ошибка" id site)) [
      | inr (e, f) ↦ let k = rw (f, delete_document_handler) at h in ground (arith, k)
      | inl (d, f) ↦ elim (Bool-cases (is_owner_or_admin env identity d)) [
        | inr a ↦ let k = rw (f, a, delete_document_handler) at h in ground (arith, k)
        | inl a ↦ elim (Result-cases (soft_delete_document env.db id site.tables.documents)) [
          | inr (not_found, s) ↦
              let k = rw (f, a, s, delete_document_handler) at h in ground (arith, k)
          | inr (forbidden, s) ↦
              let k = rw (f, a, s, delete_document_handler) at h in ground (arith, k)
          | inr (DocumentError.failed, s) ↦
              let k = rw (f, a, s, delete_document_handler) at h in ground (arith, k)
          | inl (docs', s) ↦
              let k = rw (f, a, s, bucket, delete_document_handler) at h in
              let left : Site = record site {
                tables = record site.tables { documents = docs' };
                objects = remove b d.storage_key site.objects;
              } in
              let (tables, objects) =
                insert_audit-site env (event env identity DocumentEvent.removed id) left in
              let last = ap (λ x. x.1) k in
              let after : docs' ≡ site'.tables.documents =
                sym (ap (λ x. x.documents) tables) ∙ ap (λ x. x.tables.documents) last in
              let final = λ (later : DocumentDb) (reads : later.reads ≡ true).
                soft_delete_document-final env.db later id site.tables.documents docs' docs s
                  (subst (λ x. Changes x docs) (sym after) run) reads in
              record {
                doc = d;
                stored = find_document-ok env "ошибка" id site d f;
                allowed = a;
                file = λ n r.
                    subst (λ x. lookup d.storage_key x ≡ none)
                      (sym objects ∙ ap (λ x. x.objects) last)
                      (lookup-remove b d.storage_key site.objects n r);
                row = (final (record env.db { reads = true }) refl).0;
                unread = λ later reads. (final later reads).1;
              }
        ]
      ]
    ]
