-- ===== src/Api/Audit/Scope.antt =====
-- api/audit.go: what the roles see of the audit trail.
use rubez_ai.Prelude.{
  and_parts, ◌≡◌, refl, subst, inl, inr, true, Option, none, some, List, [], ◌∷◌, arith, Bool-cases,
  Option-cases, All, All-imp, All-map, Text, txt, text_eq, text_eq_iff,
}
use rubez_ai.Prelude.Result.{Result, ok, err, Result-cases}
use rubez_ai.Prelude.Parse.{UrlValues}
use rubez_ai.Auth.{Role, Identity}
use rubez_ai.Storage.Audit.{AuditEventRow, AuditFilter}
use rubez_ai.Storage.Audit.Query.{Sql, list_audit_events, matches, asked, asked_list, member}
use rubez_ai.Storage.Audit.Meaning.{list_audit_events-matches}
use rubez_ai.Api.Http.{Reply, http_error, OnOk}
use rubez_ai.Api.Ids.{is_uuid, DbError, current_user_id}
use rubez_ai.Api.Audit.{
  Codec, AuditEventSummaryDto, AuditEventListDto, row_to_summary, row_to_detail,
  require_audit_access,
}
use rubez_ai.Api.Audit.Listing.{
  user_or_empty, parse_audit_filter, assemble_audit_list, read_audit_list, scope_filter,
  list_audit_events_handler, get_audit_event, get_audit_event_handler,
}

OnOk-imp {ℓ κ μ} :
    {A : Type ℓ} {P : A → Type κ} {Q : A → Type μ}
    → ((a : A) → P a → Q a)
    → (r : Reply A) → OnOk P r
    → OnOk Q r
OnOk-imp h (ok a) p = h a p
OnOk-imp h (err e) p = tt

-- The event is a test of the policy by the user.
abbrev pub IsOwnTest : Text → AuditEventSummaryDto → Type 0
IsOwnTest user_id e = (e.user_id ≡ user_id) × (e.event_type ≡ txt "policy_tested")

member_single : (t u : Text) → member t (u ∷ []) ≡ true → t ≡ u
member_single t u h = ground (arith, text_eq_iff t u)

module _ (codec : Codec) (sql : Sql) (user_id_for_role : Role → Result DbError Text) where
  matches-IsOwnTest :
      (f : AuditFilter) (user_id : Text) (r : AuditEventRow)
      → f.user_id ≡ some user_id
      → f.event_types ≡ txt "policy_tested" ∷ []
      → matches sql f r ≡ true
      → IsOwnTest user_id (row_to_summary codec r)
  unfolding row_to_summary
  matches-IsOwnTest f user_id r u e h =
      let (h9, p9) = and_parts _ _ h in
      let (h8, p8) = and_parts _ _ h9 in
      let (h7, p7) = and_parts _ _ h8 in
      let (h6, p6) = and_parts _ _ h7 in
      let (h5, p5) = and_parts _ _ h6 in
      let (h4, p4) = and_parts _ _ h5 in
      let (h3, p3) = and_parts _ _ h4 in
      let own : text_eq r.user_id user_id ≡ true =
        subst (λ o. asked sql o (text_eq r.user_id) ≡ true) u p3 in
      let test = subst (λ ts. asked_list sql ts (member r.event_type) ≡ true) e p4 in
      ((text_eq_iff r.user_id user_id).0 own, member_single r.event_type (txt "policy_tested") test)

  read_audit_list-IsOwnTest :
      (table : Option (List AuditEventRow)) (f : AuditFilter) (user_id : Text)
      → f.user_id ≡ some user_id
      → f.event_types ≡ txt "policy_tested" ∷ []
      → OnOk
          (λ out. All (IsOwnTest user_id) out.events)
          (read_audit_list codec sql user_id_for_role table f)
  unfolding read_audit_list assemble_audit_list http_error
  read_audit_list-IsOwnTest none f user_id u e = tt
  read_audit_list-IsOwnTest (some table) f user_id u e =
      let rows = list_audit_events sql f table in
      All-map (IsOwnTest user_id) (row_to_summary codec) rows (
        All-imp (λ r. matches sql f r ≡ true) (λ r. IsOwnTest user_id (row_to_summary codec r))
          (λ r h. matches-IsOwnTest f user_id r u e h) rows
          (list_audit_events-matches sql f table).0)

  abbrev developer_of : Text → Option Identity
  developer_of user_id = some (record { user_id = user_id; role = Role.developer })

  -- The user that the middleware's identity stands for.
  abbrev pub known_user : Option Identity → Result DbError Text
  known_user identity = current_user_id user_id_for_role identity

  -- The user is known, and the events are their own tests.
  abbrev pub AreOwnTests : Option Identity → AuditEventListDto → Type 0
  AreOwnTests identity out =
      (user_id : Text) × (known_user identity ≡ ok user_id) × All (IsOwnTest user_id) out.events

  read_audit_list-AreOwnTests :
      (identity : Option Identity) (table : Option (List AuditEventRow)) (f : AuditFilter)
      (user_id : Text)
      → known_user identity ≡ ok user_id
      → f.user_id ≡ some user_id
      → f.event_types ≡ txt "policy_tested" ∷ []
      → OnOk (AreOwnTests identity) (read_audit_list codec sql user_id_for_role table f)
  read_audit_list-AreOwnTests identity table f user_id known u e =
      OnOk-imp (λ out own. (user_id, known, own))
        (read_audit_list codec sql user_id_for_role table f)
        (read_audit_list-IsOwnTest table f user_id u e)

  developer_list :
      (table : Option (List AuditEventRow)) (name : Text) (q : UrlValues)
      → OnOk
          (AreOwnTests (developer_of name))
          (list_audit_events_handler codec sql user_id_for_role table (developer_of name) q)
  unfolding list_audit_events_handler require_audit_access scope_filter http_error
  developer_list table name q = elim (Result-cases (parse_audit_filter codec q)) [
    | inr (e, p) ↦ rw (p, list_audit_events_handler) tt
    | inl (f, p) ↦ elim (Result-cases (known_user (developer_of name))) [
      | inr (e, n) ↦ rw (p, n, list_audit_events_handler, scope_filter) tt
      | inl (user_id, known) ↦
          rw (p, known, list_audit_events_handler, scope_filter)
            (read_audit_list-AreOwnTests (developer_of name) table
              (record f { user_id = some user_id; event_types = txt "policy_tested" ∷ [] }) user_id
              known refl refl)
    ]
  ]

  developer_get :
      (table : Option (List AuditEventRow)) (name id : Text)
      → OnOk
          (λ out. IsOwnTest (user_or_empty (known_user (developer_of name))) out.summary)
          (get_audit_event_handler codec sql user_id_for_role table (developer_of name) id)
  unfolding get_audit_event_handler require_audit_access http_error row_to_detail row_to_summary
  developer_get none name id = elim (Bool-cases (is_uuid id)) [
    | inl e ↦ rw (e, get_audit_event_handler) tt
    | inr e ↦ rw (e, get_audit_event_handler) tt
  ]
  developer_get (some rows) name id = elim (Bool-cases (is_uuid id)) [
    | inr e ↦ rw (e, get_audit_event_handler) tt
    | inl e ↦ elim (Option-cases (get_audit_event id rows)) [
      | inl n ↦ rw (e, n, get_audit_event_handler) tt
      | inr (row, p) ↦
          let user_id = user_or_empty (known_user (developer_of name)) in
          elim (Bool-cases (text_eq row.user_id user_id)) [
            | inr o ↦ rw (e, p, o, get_audit_event_handler) tt
            | inl o ↦ elim (Bool-cases (text_eq row.event_type (txt "policy_tested"))) [
              | inr t ↦ rw (e, p, o, t, get_audit_event_handler) tt
              | inl t ↦
                  rw (e, p, o, t, get_audit_event_handler)
                    (
                      (text_eq_iff row.user_id user_id).0 o,
                      (text_eq_iff row.event_type (txt "policy_tested")).0 t,
                    )
            ]
          ]
    ]
  ]

  -- Whatever a developer lists, with or without a user id of their own, the user they stand for is
  -- known and every event of the answer is that user's and a test of the policy; and whatever
  -- single event they read is, too, with the empty id for the user where they are not known.
  pub developer-IsOwnTest :
      (table : Option (List AuditEventRow)) (name id : Text) (q : UrlValues)
      → OnOk (AreOwnTests (some (record { user_id = name; role = Role.developer }))) (
          list_audit_events_handler codec sql user_id_for_role table
            (some (record { user_id = name; role = Role.developer }))
            q)
        × OnOk
            (λ out.
              IsOwnTest
                (user_or_empty
                  (known_user (some (record { user_id = name; role = Role.developer }))))
                out.summary)
            (get_audit_event_handler codec sql user_id_for_role table
              (some (record { user_id = name; role = Role.developer }))
              id)
  developer-IsOwnTest table name id q = (developer_list table name q, developer_get table name id)
