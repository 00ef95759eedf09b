-- ===== src/Auth/Middleware.antt =====
-- auth/auth.go: the middleware in front of every route but those of the login.
use rubez_ai.Prelude.{
  ◌≡◌, refl, ◌⊎◌, inl, inr, true, [], ◌∷◌, ◌++◌, arith, if◌then◌else◌, Bool-cases, length, drop,
  Text, txt, is_prefix,
}
use rubez_ai.Prelude.Result.{Result, ok, err, Result-cases}
use rubez_ai.Api.Http.{Reply, http_error}
use rubez_ai.Auth.{Identity, AuthError, parse_token, issue_token, issue_token_for_user}
use rubez_ai.Auth.Tokens.{parse_token-issued}

module _ {ℓ} {A : Type ℓ} (sign : Text → Text → Text) where
  -- An answer to a token: the next handler's, or 401.
  unfoldable pub authorized : (Identity → Reply A) → Result AuthError Identity → Reply A
  unfolding http_error
  authorized next (ok identity) = next identity
  authorized next (err e) = http_error "unauthorized" 401

  unfoldable pub middleware : Text → (Identity → Reply A) → Text → Reply A
  unfolding txt is_prefix http_error authorized parse_token
  middleware secret next header =
      if is_prefix (txt "Bearer ") header
      then authorized next (parse_token sign (drop 7 header) secret)
      else http_error "unauthorized" 401

prefix-drop : (p s : Text) → is_prefix p s ≡ true → s ≡ p ++ drop (length p) s
unfolding is_prefix
prefix-drop [] s h = refl
prefix-drop (c ∷ p) [] h = cc
prefix-drop (c ∷ p) (d ∷ s) h = ground (arith, prefix-drop p s)

module _ (sign : Text → Text → Text) where
  -- The service issued the token for the identity.
  pub data IsIssued (secret : Text) (id : Identity) (token : Text) : Type 0 where
    for_user :
        token ≡ issue_token_for_user sign id.user_id id.role secret → IsIssued secret id token
    for_role : id.user_id ≡ [] → token ≡ issue_token sign id.role secret → IsIssued secret id token

  parsed-IsIssued :
      (secret : Text) (id : Identity) (token : Text)
      → parse_token sign token secret ≡ ok id
      → IsIssued secret id token
  parsed-IsIssued secret id token h = elim (parse_token-issued sign token secret id h) [
    | inl (u, t) ↦ for_role u t
    | inr t ↦ for_user t
  ]

module _ {ℓ} {A : Type ℓ} (sign : Text → Text → Text) where
  -- For every Authorization header the answer is 401, or it is the next handler's answer to an
  -- identity, and then the header is `Bearer ` and a token that the service issued under
  -- its secret for exactly that identity.
  pub middleware-IsIssued :
      (secret header : Text) (next : Identity → Reply A)
      → (middleware sign secret next header ≡ http_error "unauthorized" 401)
        ⊎ ((id : Identity) × (token : Text) × (middleware sign secret next header ≡ next id)
            × (header ≡ txt "Bearer " ++ token)
            × IsIssued sign secret id token)
  unfolding middleware
  middleware-IsIssued secret header next = elim (Bool-cases (is_prefix (txt "Bearer ") header)) [
    | inr n ↦ inl (rw (n, middleware) refl)
    | inl p ↦ elim (Result-cases (parse_token sign (drop 7 header) secret)) [
      | inr (e, q) ↦ inl (rw (p, q, middleware, authorized) refl)
      | inl (id, q) ↦ inr (
        id,
        drop 7 header,
        rw (p, q, middleware, authorized) refl,
        prefix-drop (txt "Bearer ") header p,
        parsed-IsIssued sign secret id (drop 7 header) q,
      )
    ]
  ]
