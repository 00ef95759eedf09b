-- ===== src/Api/Documents/Orphan.antt =====
-- api/documents.go: what an upload leaves in the bucket and in the table.
use rubez_ai.Prelude.{
  Option-cases, ◌+◌, ◌∙◌, take, take_all, ℕ, ◌≡◌, refl, sym, ap, subst, ◌⊎◌, inl, inr, true, false,
  Option, none, some, ◌∷◌, arith, ltb, Bool-cases, length, Text, txt, text_eq, text_eq_iff,
}
use rubez_ai.Prelude.Result.{ok, err, Result-cases}
use rubez_ai.Prelude.Dict.{Dict, lookup, insert, lookup-insert, lookup-insert_self, lookup-erase}
use rubez_ai.Crypto.{Bytes}
use rubez_ai.Auth.{Identity}
use rubez_ai.Storage.Documents.{Document, DocumentDb, DocumentInput, create_document, new_document}
use rubez_ai.Storage.Documents.Lifecycle.{create_document-ok}
use rubez_ai.Api.Ids.{current_user_id}
use rubez_ai.Api.Http.{Reply, HttpError, http_error}
use rubez_ai.Api.Documents.{
  DocumentDto, document_to_dto, DocumentAudit, Site, Env, Bucket, upload, remove, insert_audit,
}
use rubez_ai.Api.Documents.Upload.{
  UploadedFile, Form, malformed, without_file, with_file, max_document_bytes, generate_storage_key,
  upload_request, upload_audit, document_input, record_upload, store_upload,
  upload_document_handler,
}

-- A key begins with the name of its folder.
key-cons :
    (env : Env) (name : Text) → (c : ℕ) × (s : Text) × (generate_storage_key env name ≡ (c ∷ s))
unfolding generate_storage_key
key-cons env name = (_, _, refl)

remove-insert :
    (b : Bucket) (c : ℕ) (s : Text) (buf : Bytes) (objects : Dict Bytes)
    → b.removes (c ∷ s) ≡ true
    → lookup (c ∷ s) objects ≡ none
    → (k : Text) → lookup k (remove b (c ∷ s) (insert (c ∷ s) buf objects)) ≡ lookup k objects
unfolding remove
remove-insert b c s buf objects r n k =
    rw
      (
        r,
        lookup-erase (c ∷ s) k (insert (c ∷ s) buf objects),
        lookup-insert (c ∷ s) k buf objects,
        remove,
      )
      (elim (Bool-cases (text_eq (c ∷ s) k)) [
        | inl e ↦
            let same : lookup k objects ≡ none =
              subst (λ x. lookup x objects ≡ none) ((text_eq_iff (c ∷ s) k).0 e) n in
            rw (e, same) refl
        | inr e ↦ rw (e) refl
      ])

-- The same of the key of an upload.
remove-insert_key :
    (b : Bucket) (env : Env) (name : Text) (buf : Bytes) (objects : Dict Bytes)
    → b.removes (generate_storage_key env name) ≡ true
    → lookup (generate_storage_key env name) objects ≡ none
    → (k : Text)
    → lookup k (
        remove b
          (generate_storage_key env name)
          (insert (generate_storage_key env name) buf objects))
      ≡ lookup k objects
remove-insert_key b env name buf objects =
    let (c, s, key) = key-cons env name in
    subst
      (λ x.
        b.removes x ≡ true
        → lookup x objects ≡ none
        → (k : Text) → lookup k (remove b x (insert x buf objects)) ≡ lookup k objects)
      (sym key) (remove-insert b c s buf objects)

upload_request-ok :
    (env : Env) (identity : Option Identity) (f : UploadedFile) (user_id : Text) (buf : Bytes)
    → upload_request env identity f ≡ ok (user_id, buf)
    → (current_user_id env.user_id_for_role identity ≡ ok user_id)
      × (ltb max_document_bytes (length buf) ≡ false)
      × (f.content ≡ some buf)
unfolding upload_request http_error
upload_request-ok env identity f user_id buf h = elim (Option-cases f.content) [
  | inl n ↦ ground (arith, h, n)
  | inr (raw, q) ↦
      let cut : take (max_document_bytes + 1) raw ≡ buf = ground (arith, h, q) in
      let small : ltb max_document_bytes (length buf) ≡ false = ground (arith, h, q) in
      let whole = take_all (max_document_bytes + 1) raw (rw cut (ground (arith, small))) in
      (ground (arith, h, q), small, q ∙ ap some (sym whole ∙ cut))
]

create_document-stored :
    (db : DocumentDb) (inp : DocumentInput) (docs docs' : Dict Document) (d : Document)
    → create_document db inp docs ≡ ok (d, docs')
    → (lookup d.id docs' ≡ some d)
      × (d.storage_key ≡ inp.storage_key)
      × (d.owner_id ≡ inp.owner_id)
      × (d.filename ≡ inp.filename)
      × (d.size_bytes ≡ inp.size_bytes)
unfolding new_document
create_document-stored db inp docs docs' d h =
    let (fresh, same, made) = create_document-ok db inp docs docs' d h in
    (
      subst (λ x. lookup d.id x ≡ some d) (sym same) (lookup-insert_self d.id d docs),
      ap (λ x. x.storage_key) made,
      ap (λ x. x.owner_id) made,
      ap (λ x. x.filename) made,
      ap (λ x. x.size_bytes) made,
    )

pub insert_audit-site :
    (env : Env) (ev : DocumentAudit) (site : Site)
    → ((insert_audit env ev site).tables ≡ site.tables)
      × ((insert_audit env ev site).objects ≡ site.objects)
insert_audit-site env ev site = elim (Bool-cases (env.accepts_audit ev)) [
  | inl a ↦ (rw (a) refl, rw (a) refl)
  | inr a ↦ (rw (a) refl, rw (a) refl)
]

-- The document and the whole file of the form are stored together, for the user of the request.
pub record IsStored (env : Env) (identity : Option Identity) (form : Form) (d : Document)
    (site : Site) : Type 0 where
  pub part : UploadedFile
  pub content : Bytes
  pub sent : form ≡ with_file part
  pub whole : part.content ≡ some content
  pub named : d.filename ≡ part.filename
  pub sized : d.size_bytes ≡ some (length content)
  pub row : lookup d.id site.tables.documents ≡ some d
  pub file : lookup d.storage_key site.objects ≡ some content
  pub small : ltb max_document_bytes (length content) ≡ false
  pub owner : current_user_id env.user_id_for_role identity ≡ ok d.owner_id

-- No change but to the bucket, whose files are the same.
pub record IsKept (before after : Site) : Type 0 where
  pub tables : after.tables ≡ before.tables
  pub audits : after.audits ≡ before.audits
  pub objects : (k : Text) → lookup k after.objects ≡ lookup k before.objects

abbrev pub Outcome : Env → Option Identity → Form → Site → Reply DocumentDto × Site → Type 0
Outcome env identity form site r =
    ((e : HttpError) × (r.0 ≡ err e) × IsKept site r.1)
    ⊎ ((d : Document) × (r.0 ≡ ok (document_to_dto d)) × IsStored env identity form d r.1)

same_site : (site : Site) → IsKept site site
same_site site = record { tables = refl; audits = refl; objects = λ k. refl }

insert_audit-IsStored :
    (env : Env) (identity : Option Identity) (user_id : Text) (f : UploadedFile) (d : Document)
    (docs : Dict Document) (key : Text) (buf : Bytes) (site : Site)
    → current_user_id env.user_id_for_role identity ≡ ok user_id
    → ltb max_document_bytes (length buf) ≡ false
    → lookup d.id docs ≡ some d
    → d.storage_key ≡ key
    → d.owner_id ≡ user_id
    → f.content ≡ some buf
    → d.filename ≡ f.filename
    → d.size_bytes ≡ some (length buf)
    → IsStored env identity (with_file f) d (
        insert_audit env (upload_audit env user_id d f) (record site {
          tables = record site.tables { documents = docs };
          objects = insert key buf site.objects;
        }))
insert_audit-IsStored env identity user_id f d docs key buf site u small row same owner whole named
      sized =
    let file : lookup d.storage_key (insert key buf site.objects) ≡ some buf =
      subst (λ k. lookup k (insert key buf site.objects) ≡ some buf) (sym same)
        (lookup-insert_self key buf site.objects) in
    let by : current_user_id env.user_id_for_role identity ≡ ok d.owner_id =
      subst (λ o. current_user_id env.user_id_for_role identity ≡ ok o) (sym owner) u in
    elim (Bool-cases (env.accepts_audit (upload_audit env user_id d f))) [
      | inl a ↦ rw (a) (record {
        part = f;
        content = buf;
        sent = refl;
        whole = whole;
        named = named;
        sized = sized;
        row = row;
        file = file;
        small = small;
        owner = by;
      })
      | inr a ↦ rw (a) (record {
        part = f;
        content = buf;
        sent = refl;
        whole = whole;
        named = named;
        sized = sized;
        row = row;
        file = file;
        small = small;
        owner = by;
      })
    ]

record_upload-Outcome :
    (env : Env) (b : Bucket) (identity : Option Identity) (user_id : Text) (f : UploadedFile)
    (buf : Bytes) (site : Site)
    → current_user_id env.user_id_for_role identity ≡ ok user_id
    → ltb max_document_bytes (length buf) ≡ false
    → b.removes (generate_storage_key env f.filename) ≡ true
    → lookup (generate_storage_key env f.filename) site.objects ≡ none
    → f.content ≡ some buf
    → Outcome env identity (with_file f) site (
        record_upload env b user_id f
          (generate_storage_key env f.filename)
          buf
          (insert (generate_storage_key env f.filename) buf site.objects)
          site)
unfolding record_upload document_input http_error
record_upload-Outcome env b identity user_id f buf site u small r n whole =
    elim (Result-cases (
      create_document env.db
        (document_input env user_id f buf (generate_storage_key env f.filename))
        site.tables.documents)) [
          | inr (e, q) ↦
              rw (q, record_upload)
                (inl (
                  _,
                  refl,
                  record {
                    tables = refl;
                    audits = refl;
                    objects = remove-insert_key b env f.filename buf site.objects r n;
                  },
                ))
          | inl ((d, docs), q) ↦
              let (row, key, owner, named, sized) =
                create_document-stored env.db
                  (document_input env user_id f buf (generate_storage_key env f.filename))
                  site.tables.documents docs d q in
              let stored =
                insert_audit-IsStored env identity user_id f d docs
                  (generate_storage_key env f.filename) buf site u small row key owner whole named
                  sized in
              rw (q, record_upload) (inr (d, refl, stored))
        ]

store_upload-Outcome :
    (env : Env) (b : Bucket) (identity : Option Identity) (f : UploadedFile) (site : Site)
    → b.removes (generate_storage_key env f.filename) ≡ true
    → lookup (generate_storage_key env f.filename) site.objects ≡ none
    → Outcome env identity (with_file f) site (store_upload env b identity f site)
unfolding store_upload upload http_error
store_upload-Outcome env b identity f site r n =
    elim (Result-cases (upload_request env identity f)) [
      | inr (e, q) ↦ rw (q, store_upload) (inl (e, refl, same_site site))
      | inl ((user_id, buf), q) ↦
          let (u, small, whole) = upload_request-ok env identity f user_id buf q in
          elim (Bool-cases (b.puts (generate_storage_key env f.filename))) [
            | inr p ↦ rw (q, p, store_upload) (inl (_, refl, same_site site))
            | inl p ↦
                rw (q, p, store_upload)
                  (record_upload-Outcome env b identity user_id f buf site u small r n whole)
          ]
    ]

-- Where the new key is not in use and the bucket can remove it: an upload either stores the
-- document and the whole file of the form together, of at most 50 MiB, under the file's name and
-- size and owned by the user of the request, or answers an error and leaves the documents, the
-- audit events and every file of the bucket as they were.
pub upload_document_handler-Outcome :
    (env : Env) (b : Bucket) (identity : Option Identity) (form : Form) (site : Site)
    → env.bucket ≡ some b
    → ((name : Text) → b.removes (generate_storage_key env name) ≡ true)
    → ((name : Text) → lookup (generate_storage_key env name) site.objects ≡ none)
    → Outcome env identity form site (upload_document_handler env identity form site)
unfolding upload_document_handler http_error
upload_document_handler-Outcome env b identity malformed site h r n =
    let e : HttpError = record { status = 400; message = txt "ошибка разбора multipart" } in
    let run : upload_document_handler env identity malformed site ≡ (err e, site) =
      rw (h, upload_document_handler) refl in
    subst (λ x. Outcome env identity malformed site x) (sym run) (inl (e, refl, same_site site))
upload_document_handler-Outcome env b identity without_file site h r n =
    let e : HttpError = record { status = 400; message = txt "поле file обязательно" } in
    let run : upload_document_handler env identity without_file site ≡ (err e, site) =
      rw (h, upload_document_handler) refl in
    subst (λ x. Outcome env identity without_file site x) (sym run) (inl (e, refl, same_site site))
upload_document_handler-Outcome env b identity (with_file f) site h r n =
    let run : upload_document_handler env identity (with_file f) site
        ≡ store_upload env b identity f site =
      rw (h, upload_document_handler) refl in
    subst (λ x. Outcome env identity (with_file f) site x) (sym run)
      (store_upload-Outcome env b identity f site (r f.filename) (n f.filename))
