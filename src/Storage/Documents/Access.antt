-- ===== src/Storage/Documents/Access.antt =====
-- storage/documents.go: the check in Go and the conditions of the queries agree.
use rubez_ai.Prelude.{
  ℕ, ◌≤◌, ◌<◌, ◌∙◌, ◌⊎◌, inl, inr, Option-cases, keep_if_eq, ◌≡◌, refl, ap, Bool, true, false, not,
  ◌&&◌, ◌||◌, Option, some, List, [], ◌∷◌, map, arith, take, All, keep_if, Text, txt,
}
use rubez_ai.Prelude.Int.{ℤ, pos, negsuc}
use rubez_ai.Prelude.Result.{Result, ok, err}
use rubez_ai.Prelude.Dict.{Dict}
use rubez_ai.Prelude.Sort.{sort_by}
use rubez_ai.Storage.Audit.Query.{member}
use rubez_ai.Storage.Documents.{Document, DocumentDb, DocumentError, is_deleted}
use rubez_ai.Storage.Documents.Acl.{
  AclCodec, has_value, grants, check_document_access, acl_condition, visible, newer_document,
  document_limit, list_documents, filter_accessible_documents, casts_user, all_cast, cast_all,
}

abbrev pub some_value : Text → Text → List (Dict (Option Text)) → Bool
some_value key v [] = false
some_value key v (entry ∷ es) = has_value key v entry || some_value key v es

-- `acl @> [{key: v}]` holds of an array of objects exactly when one of them has the text `v` under
-- the key.
pub record IsAclCodec (codec : AclCodec) : Type 0 where
  pub contains-unmarshal :
      (acl key v : Text) (entries : List (Dict (Option Text)))
      → codec.unmarshal_acl acl ≡ some entries
      → codec.contains_entry acl key v ≡ some_value key v entries

-- The user's id is spelled as the database spells it, if it is the id of anyone.
abbrev pub IsSpelled : AclCodec → Text → Type 0
IsSpelled codec user_id = (u : Text) → codec.cast user_id ≡ some u → u ≡ user_id

abbrev pub accepted : Result DocumentError (Unit {0}) → Bool
accepted (ok u) = true
accepted (err e) = false

-- The rights of a document are a list of objects.
abbrev pub IsReadable : AclCodec → Document → Type 0
IsReadable codec d =
    (entries : List (Dict (Option Text))) × (codec.unmarshal_acl d.acl ≡ some entries)

grants-some_value :
    (user_id role : Text) (es : List (Dict (Option Text)))
    → (some_value (txt "user_id") user_id es || some_value (txt "role") role es)
      ≡ grants user_id role es
unfolding grants
grants-some_value user_id role [] = refl
grants-some_value user_id role (entry ∷ es) = ground (arith, grants-some_value user_id role es)

-- The latest `n` of the documents, at most.
abbrev pub listed : (Document → Bool) → ℕ → Dict Document → List Document
listed see n docs =
    take n (sort_by newer_document (keep_if see (map (λ (e : Text × Document). e.1) docs)))

abbrev pub ids_of : (Document → Bool) → List Text → Dict Document → List Text
ids_of see ids docs =
    map (λ (e : Text × Document). e.0)
      (keep_if (λ (e : Text × Document). member e.0 ids && see e.1) docs)

-- A limit below 1 or above 200.
abbrev pub IsOutside : ℤ → Type 0
IsOutside (negsuc n) = Unit
IsOutside (pos n) = (n ≡ 0) ⊎ (200 < n)

IsOutside-limit : (n : ℤ) → IsOutside n → document_limit n ≡ 50
IsOutside-limit (negsuc n) h = refl
IsOutside-limit (pos n) (inl h) = ground (arith, h)
IsOutside-limit (pos n) (inr h) = ground (arith, h)

module _ (codec : AclCodec) (law : IsAclCodec codec) (user_id role : Text) where
  -- A document that is not deleted and passes `CheckDocumentAccess`.
  abbrev pub open_to : Document → Bool
  open_to d = not (is_deleted d.status) && accepted (check_document_access codec d user_id role)

  pub visible-open_to :
      IsSpelled codec user_id
      → casts_user codec user_id role ≡ true
      → (d : Document) → IsReadable codec d
      → visible codec user_id role d ≡ open_to d
  unfolding visible check_document_access acl_condition casts_user
  visible-open_to spelled user d (entries, q) =
      let by_user = law.contains-unmarshal d.acl (txt "user_id") user_id entries q in
      let by_role = law.contains-unmarshal d.acl (txt "role") role entries q in
      let rights = grants-some_value user_id role entries in
      elim (Option-cases (codec.cast user_id)) [
        | inl n ↦ ground (arith, user, n, q, by_user, by_role, rights)
        | inr (u, c) ↦
            let same : codec.cast user_id ≡ some user_id = c ∙ ap some (spelled u c) in
            ground (arith, same, q, by_user, by_role, rights)
      ]

  ids_eq :
      IsSpelled codec user_id
      → casts_user codec user_id role ≡ true
      → (ids : List Text) (docs : Dict Document)
      → All (λ (e : Text × Document). IsReadable codec e.1) docs
      → All
          (λ (e : Text × Document).
            (member e.0 ids && visible codec user_id role e.1) ≡ (member e.0 ids && open_to e.1))
          docs
  ids_eq s u ids [] h = tt
  ids_eq s u ids (e ∷ docs) h =
      (ap (λ b. member e.0 ids && b) (visible-open_to s u e.1 h.0), ids_eq s u ids docs h.1)

  rows_eq :
      IsSpelled codec user_id
      → casts_user codec user_id role ≡ true
      → (docs : Dict Document) → All (λ (e : Text × Document). IsReadable codec e.1) docs
      → All
          (λ d. visible codec user_id role d ≡ open_to d)
          (map (λ (e : Text × Document). e.1) docs)
  rows_eq s u [] h = tt
  rows_eq s u (e ∷ docs) h = (visible-open_to s u e.1 h.0, rows_eq s u docs h.1)

  -- Where the rights of the stored documents are lists of objects, the ids are ids, and the user's
  -- id is spelled as the database spells it: with a limit from 1 to 200, the list is that of the latest
  -- documents, up to the limit, among those that are not deleted and that the check in Go lets the
  -- user see; with any other limit it has up to 50 of them; and the ids that remain of a request
  -- are exactly the requested ones of such documents.
  pub list_documents-open_to :
      (db : DocumentDb) (docs : Dict Document)
      → db.reads ≡ true
      → casts_user codec user_id role ≡ true
      → IsSpelled codec user_id
      → All (λ (e : Text × Document). IsReadable codec e.1) docs
      → (n : ℕ) (other : ℤ) → 1 ≤ n
      → n ≤ 200
      → IsOutside other
      → (id : Text) (ids : List Text) → all_cast codec (id ∷ ids) ≡ true
      → (list_documents codec db user_id role (pos n) docs ≡ ok (listed open_to n docs))
        × (list_documents codec db user_id role other docs ≡ ok (listed open_to 50 docs))
        × (filter_accessible_documents codec db user_id role (id ∷ ids) docs
            ≡ ok (ids_of open_to (cast_all codec (id ∷ ids)) docs))
  unfolding list_documents filter_accessible_documents
  list_documents-open_to db docs reads user spelled h n other low high out id ids cast =
      let rows = rows_eq spelled user docs h in
      let kept = keep_if_eq _ _ _ rows in
      let inside : document_limit (pos n) ≡ n = ground arith in
      let outside = IsOutside-limit other out in
      (
        rw (reads, user, kept, inside, list_documents) refl,
        rw (reads, user, kept, outside, list_documents) refl,
        rw
            (
              reads,
              user,
              cast,
              keep_if_eq _ _ _ (ids_eq spelled user (cast_all codec (id ∷ ids)) docs h),
              filter_accessible_documents,
            )
            refl,
      )
