-- ===== src/Auth/Tokens.antt =====
-- auth/auth.go: issuing a token and parsing it, and the middleware.
use rubez_ai.Prelude.{
  ◌≡◌, refl, ◌∙◌, ◌⊎◌, inl, inr, false, some, List, [], ◌∷◌, ◌++◌, arith, ◌==◌, Option-cases,
  All-append, Text, txt, text_eq, text_eq_iff, text_eq_refl,
}
use rubez_ai.Prelude.Result.{ok}
use rubez_ai.Auth.{
  Role, role_text, roles, find_role, valid_role, Identity, issue_token, token_payload,
  issue_token_for_user, payload_parts, check_signature, parse_token,
}
use rubez_ai.Prelude.Cut.{cut, IsFree, cut-append, cut-IsFree, cut_lem}

-- A role's name holds neither separator, and stands for the role.
role_text-IsFree : (role : Role) → IsFree b'.' (role_text role) × IsFree b':' (role_text role)
unfolding role_text txt
role_text-IsFree Role.user = ground arith
role_text-IsFree Role.security_officer = ground arith
role_text-IsFree Role.compliance_officer = ground arith
role_text-IsFree Role.admin = ground arith
role_text-IsFree Role.auditor = ground arith
role_text-IsFree Role.developer = ground arith

valid_role-role_text : (role : Role) → valid_role (role_text role) ≡ some role
unfolding role_text txt valid_role find_role text_eq
valid_role-role_text Role.user = refl
valid_role-role_text Role.security_officer = refl
valid_role-role_text Role.compliance_officer = refl
valid_role-role_text Role.admin = refl
valid_role-role_text Role.auditor = refl
valid_role-role_text Role.developer = refl

find_role-role_text :
    (name : Text) (rs : List Role) (r : Role) → find_role name rs ≡ some r → name ≡ role_text r
unfolding find_role
find_role-role_text name [] r h = cc
find_role-role_text name (q ∷ rs) r h =
    ground (arith, text_eq_iff (role_text q) name, find_role-role_text name rs r)

valid_role_lem : (name : Text) → find_role name roles ≡ valid_role name
unfolding valid_role
valid_role_lem name = refl

module _ (sign : Text → Text → Text) where
  parse_token-dot :
      (payload secret : Text)
      → IsFree b'.' payload
      → parse_token sign (payload ++ (b'.' ∷ sign payload secret)) secret
        ≡ check_signature sign payload (sign payload secret) secret (payload_parts sign payload)
  unfolding parse_token check_signature
  parse_token-dot payload secret h =
      rw (cut-append b'.' payload (sign payload secret) h, parse_token) refl

  check_signature-sign :
      (payload secret user_id : Text) (role : Role)
      → check_signature sign payload (sign payload secret) secret (user_id, role_text role)
        ≡ ok (record { user_id = user_id; role = role })
  unfolding check_signature
  check_signature-sign payload secret user_id role =
      rw (valid_role-role_text role, text_eq_refl (sign payload secret), check_signature) refl

  payload_parts-token_payload :
      (user_id : Text) (role : Role)
      → IsFree b':' user_id
      → payload_parts sign (token_payload sign user_id role) ≡ (user_id, role_text role)
  unfolding token_payload payload_parts
  payload_parts-token_payload user_id role h =
      rw (cut-append b':' user_id (role_text role) h, payload_parts) refl

  payload_parts-role_text :
      (role : Role) → payload_parts sign (role_text role) ≡ ([], role_text role)
  unfolding payload_parts role_text
  payload_parts-role_text role =
      rw (cut-IsFree b':' (role_text role) (role_text-IsFree role).1, payload_parts) refl

  token_payload-IsFree :
      (user_id : Text) (role : Role)
      → IsFree b'.' user_id
      → IsFree b'.' (token_payload sign user_id role)
  unfolding token_payload
  token_payload-IsFree user_id role h =
      All-append (λ c. (c == b'.') ≡ false) user_id (b':' ∷ role_text role) h
        (ground arith, (role_text-IsFree role).0)

  -- A token issued for a user whose id holds neither `:` nor `.` parses to that user and role under
  -- the same secret, and a token issued for a role alone parses to the role and the empty user id.
  pub parse_token-issue_token :
      (user_id secret : Text) (role : Role)
      → IsFree b'.' user_id
      → IsFree b':' user_id
      → (parse_token sign (issue_token_for_user sign user_id role secret) secret
          ≡ ok (record { user_id = user_id; role = role }))
        × (parse_token sign (issue_token sign role secret) secret
            ≡ ok (record { user_id = []; role = role }))
  unfolding issue_token issue_token_for_user
  parse_token-issue_token user_id secret role dots colons =
      let payload = token_payload sign user_id role in
      (
        rw
            (
              parse_token-dot payload secret (token_payload-IsFree user_id role dots),
              payload_parts-token_payload user_id role colons,
              check_signature-sign payload secret user_id role,
            )
            refl,
        rw
            (
              parse_token-dot (role_text role) secret (role_text-IsFree role).0,
              payload_parts-role_text role,
              check_signature-sign (role_text role) secret [] role,
            )
            refl,
      )

  -- what a payload's parts say of it
  payload_parts-cases :
      (payload : Text)
      → (payload ≡ (payload_parts sign payload).1) × ((payload_parts sign payload).0 ≡ [])
        ⊎ (payload ≡ (payload_parts sign payload).0 ++ (b':' ∷ (payload_parts sign payload).1))
  unfolding payload_parts
  payload_parts-cases payload = elim (Option-cases (cut b':' payload)) [
    | inl n ↦ inl (rw (n, payload_parts) (refl, refl))
    | inr ((a, b), q) ↦ inr (rw (q, payload_parts) (cut_lem b':' payload a b q))
  ]

  check_signature-ok :
      (payload signature secret : Text) (parts : Text × Text) (id : Identity)
      → check_signature sign payload signature secret parts ≡ ok id
      → (signature ≡ sign payload secret) × (parts.0 ≡ id.user_id) × (parts.1 ≡ role_text id.role)
  unfolding check_signature
  check_signature-ok payload signature secret parts id h =
      elim (Option-cases (valid_role parts.1)) [
        | inl n ↦ ground (arith, n)
        | inr (role, q) ↦
            let name = find_role-role_text parts.1 roles role (valid_role_lem parts.1 ∙ q) in
            ground (arith, q, name, text_eq_iff signature (sign payload secret))
      ]

  check_signature-issued :
      (payload signature secret : Text) (id : Identity)
      → check_signature sign payload signature secret (payload_parts sign payload) ≡ ok id
      → ((id.user_id ≡ []) × (payload ++ (b'.' ∷ signature) ≡ issue_token sign id.role secret))
        ⊎ (payload ++ (b'.' ∷ signature) ≡ issue_token_for_user sign id.user_id id.role secret)
  unfolding issue_token issue_token_for_user token_payload
  check_signature-issued payload signature secret id h =
      let (s, u, r) =
        check_signature-ok payload signature secret (payload_parts sign payload) id h in
      elim (payload_parts-cases payload) [ inl (p, e) ↦ inl (cc, cc) | inr p ↦ inr cc ]

  -- A token that parses to an identity is, character for character, the one that the service issues
  -- under the same secret, either for that user and role, or for that role alone, and then the
  -- user id is empty.
  pub parse_token-issued :
      (token secret : Text) (id : Identity)
      → parse_token sign token secret ≡ ok id
      → ((id.user_id ≡ []) × (token ≡ issue_token sign id.role secret))
        ⊎ (token ≡ issue_token_for_user sign id.user_id id.role secret)
  unfolding parse_token
  parse_token-issued token secret id h = elim (Option-cases (cut b'.' token)) [
    | inl n ↦ ground (arith, n)
    | inr ((payload, signature), q) ↦
        rw (cut_lem b'.' token payload signature q)
          (check_signature-issued payload signature secret id (ground (arith, h, q)))
  ]
