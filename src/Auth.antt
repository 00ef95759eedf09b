-- ===== src/Auth.antt =====
-- auth/auth.go: the roles, the signed tokens and the check of the Authorization header. `sign`
-- (HMAC-SHA256 in hexadecimal) is a parameter.
pub mod Tokens
pub mod Middleware
use rubez_ai.Prelude.{
  ℕ, zero, suc, ◌+◌, ◌-◌, ◌*◌, ◌/◌, ◌%◌, ◌≤◌, ◌<◌, min, String, ◌≡◌, refl, sym, ap, ◌∙◌, subst, ◌≢◌,
  ◌↔◌, ◌⊎◌, inl, inr, Bool, true, false, not, ◌&&◌, ◌||◌, Option, none, some, List, [], ◌∷◌, ◌++◌,
  map, arith, ltb, leb, ◌==◌, if◌then◌else◌, ltb→lt, lt→ltb, leb→le, ==_iff, tests, Bool-cases,
  Option-cases, length, take, drop, length-append, take-append-drop, length-take, length-drop, All,
  Any, here, there, All-append, All-imp, All-map, Any-map, Any-imp, Any-append_left,
  Any-append_right, Text, txt, text_eq, is_empty, is_prefix, contains, rune_bytes, byte_len,
  text_lt, is_space, trim_left, trim_right, trim_space, text_eq_iff, text_eq_refl,
}
use rubez_ai.Prelude.Result.{Result, ok, err, ◌>>=◌}
use rubez_ai.Prelude.Cut.{cut}

pub data Role : Type 0 where
  user security_officer compliance_officer admin auditor developer : Role

unfoldable pub role_text : Role → Text
unfolding txt
role_text user = txt "user"
role_text security_officer = txt "security_officer"
role_text compliance_officer = txt "compliance_officer"
role_text admin = txt "admin"
role_text auditor = txt "auditor"
role_text developer = txt "developer"

abbrev pub roles : List Role
roles = user ∷ security_officer ∷ compliance_officer ∷ admin ∷ auditor ∷ developer ∷ []

unfoldable pub find_role : Text → List Role → Option Role
unfolding role_text text_eq
find_role name [] = none
find_role name (r ∷ rs) = if text_eq (role_text r) name then some r else find_role name rs

-- `validRoles[role]`, and the role that the text stands for.
unfoldable pub valid_role : Text → Option Role
unfolding find_role
valid_role name = find_role name roles

pub record Identity : Type 0 where
  pub user_id : Text
  pub role : Role

pub data AuthError : Type 0 where
  invalid_token : AuthError

module _ (sign : Text → Text → Text) where
  unfoldable pub issue_token : Role → Text → Text
  unfolding role_text
  issue_token role secret = role_text role ++ (b'.' ∷ sign (role_text role) secret)

  unfoldable pub token_payload : Text → Role → Text
  unfolding role_text
  token_payload user_id role = user_id ++ (b':' ∷ role_text role)

  unfoldable pub issue_token_for_user : Text → Role → Text → Text
  unfolding token_payload
  issue_token_for_user user_id role secret =
      let payload = token_payload user_id role in payload ++ (b'.' ∷ sign payload secret)

  -- The user and the role of a payload: the second cut of `ParseToken`.
  unfoldable pub payload_parts : Text → Text × Text
  unfolding cut
  payload_parts payload = elim (cut b':' payload) [ some parts ↦ parts | none ↦ ([], payload) ]

  unfoldable pub check_signature : Text → Text → Text → Text × Text → Result AuthError Identity
  unfolding valid_role text_eq
  check_signature payload signature secret (user_id, role_str) = elim (valid_role role_str) [
    | none ↦ err invalid_token
    | some role ↦
        if text_eq signature (sign payload secret)
        then ok (record { user_id = user_id; role = role })
        else err invalid_token
  ]

  unfoldable pub parse_token : Text → Text → Result AuthError Identity
  unfolding cut payload_parts check_signature
  parse_token token secret = elim (cut b'.' token) [
    | none ↦ err invalid_token
    | some (payload, signature) ↦ check_signature payload signature secret (payload_parts payload)
  ]
