-- ===== src/Storage/Documents/Acl.antt =====
-- storage/documents.go: who may see a document, as `CheckDocumentAccess` decides it in Go and as the
-- queries decide it in SQL.
use rubez_ai.Prelude.{
  ℕ, Bool, true, false, not, ◌&&◌, ◌||◌, Option, none, some, List, [], ◌∷◌, map, ltb, ◌==◌,
  if◌then◌else◌, take, keep_if, Text, txt, text_eq,
}
use rubez_ai.Prelude.Int.{ℤ, pos, negsuc}
use rubez_ai.Prelude.Result.{Result, ok, err}
use rubez_ai.Prelude.Dict.{Dict, lookup}
use rubez_ai.Prelude.Sort.{sort_by}
use rubez_ai.Storage.Audit.Query.{member}
use rubez_ai.Storage.Documents.{Document, DocumentDb, DocumentError, forbidden, failed, is_deleted}

-- The column `acl`, of type jsonb. `unmarshal_acl` is `json.Unmarshal` into a list of objects, where
-- a value that is no string is `none`; `contains_entry acl key v` is the operator `@>` with the
-- right operand `[{key: v}]`; `cast` is the cast to uuid, as the canonical text, which columns of the
-- type hold, or `none` where it fails.
pub record AclCodec : Type 0 where
  pub unmarshal_acl : Text → Option (List (Dict (Option Text)))
  pub contains_entry : Text → Text → Text → Bool
  pub cast : Text → Option Text

-- `entry[key].(string)` with the comparison.
abbrev pub is_value : Option (Option Text) → Text → Bool
is_value none v = false
is_value (some none) v = false
is_value (some (some w)) v = text_eq w v

unfoldable pub has_value : Text → Text → Dict (Option Text) → Bool
unfolding lookup text_eq
has_value key v entry = is_value (lookup key entry) v

unfoldable pub is_supervisor : Text → Bool
unfolding txt text_eq
is_supervisor role =
    text_eq role (txt "admin")
    || (text_eq role (txt "security_officer")
        || (text_eq role (txt "compliance_officer") || text_eq role (txt "auditor")))

-- The loop over the entries.
unfoldable pub grants : Text → Text → List (Dict (Option Text)) → Bool
unfolding has_value txt
grants user_id role [] = false
grants user_id role (entry ∷ es) =
    if has_value (txt "role") role entry
    then true
    else if has_value (txt "user_id") user_id entry
    then true
    else grants user_id role es

abbrev pub newer_document : Document → Document → Bool
newer_document d e = ltb e.created_at d.created_at

abbrev pub document_limit : ℤ → ℕ
document_limit (negsuc n) = 50
document_limit (pos n) = if n == 0 || ltb 200 n then 50 else n

-- `= $k::uuid`
abbrev pub is_uuid_of : Option Text → Text → Bool
is_uuid_of none id = false
is_uuid_of (some u) id = text_eq id u

abbrev pub is_cast : Option Text → Bool
is_cast none = false
is_cast (some u) = true

abbrev pub or_raw : Text → Option Text → Text
or_raw t none = t
or_raw t (some u) = u

module _ (codec : AclCodec) where
  unfoldable pub check_document_access : Document → Text → Text → Result DocumentError (Unit {0})
  unfolding text_eq is_supervisor grants
  check_document_access d user_id role =
      if text_eq d.owner_id user_id
      then ok tt
      else if is_supervisor role
      then ok tt
      else elim (codec.unmarshal_acl d.acl) [
        | none ↦ err forbidden
        | some entries ↦ if grants user_id role entries then ok tt else err forbidden
      ]

  -- The condition of the queries for a role that is no supervisor.
  unfoldable pub acl_condition : Text → Text → Document → Bool
  unfolding text_eq txt
  acl_condition user_id role d =
      is_uuid_of (codec.cast user_id) d.owner_id
      || (codec.contains_entry d.acl (txt "user_id") user_id
          || codec.contains_entry d.acl (txt "role") role)

  -- The conditions on the document that `ListDocuments` and `FilterAccessibleDocuments` share.
  unfoldable pub visible : Text → Text → Document → Bool
  unfolding is_supervisor acl_condition
  visible user_id role d =
      not (is_deleted d.status) && (is_supervisor role || acl_condition user_id role d)

  -- The casts of the arguments; a supervisor's query has no user.
  unfoldable pub casts_user : Text → Text → Bool
  unfolding is_supervisor
  casts_user user_id role = is_supervisor role || is_cast (codec.cast user_id)

  abbrev pub all_cast : List Text → Bool
  all_cast [] = true
  all_cast (i ∷ is) = is_cast (codec.cast i) && all_cast is

  -- `$k::uuid[]`, where the casts of all succeed.
  abbrev pub cast_all : List Text → List Text
  cast_all [] = []
  cast_all (i ∷ is) = or_raw i (codec.cast i) ∷ cast_all is

  unfoldable pub list_documents :
      DocumentDb → Text → Text → ℤ → Dict Document → Result DocumentError (List Document)
  unfolding sort_by keep_if visible casts_user
  list_documents db user_id role limit docs =
      if db.reads && casts_user user_id role
      then ok (
          take (document_limit limit)
            (sort_by newer_document (keep_if (visible user_id role) (map (λ e. e.1) docs))))
      else err failed

  -- The ids in the order of the table.
  unfoldable pub filter_accessible_documents :
      DocumentDb → Text → Text → List Text → Dict Document → Result DocumentError (List Text)
  unfolding keep_if visible casts_user
  filter_accessible_documents db user_id role [] docs = ok []
  filter_accessible_documents db user_id role (i ∷ is) docs =
      if db.reads && (casts_user user_id role && all_cast (i ∷ is))
      then ok (
          map (λ e. e.0)
            (keep_if (λ e. member e.0 (cast_all (i ∷ is)) && visible user_id role e.1) docs))
      else err failed
