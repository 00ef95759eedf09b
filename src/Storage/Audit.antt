-- ===== src/Storage/Audit.antt =====
-- storage/audit.go: the audit events as they are read, and the query that lists them. A point in
-- time is its number of nanoseconds. The meaning of a condition of the query is `holds`; what
-- the database's `ILIKE` and `->>` compute is a parameter.

pub mod Query
pub mod Printed
pub mod Meaning
pub mod Order
use rubez_ai.Prelude.{
  suc, ℕ, zero, suc, ◌+◌, ◌-◌, ◌*◌, ◌/◌, ◌%◌, ◌≤◌, ◌<◌, min, String, ◌≡◌, refl, sym, ap, ◌∙◌, subst,
  ◌≢◌, ◌↔◌, ◌⊎◌, inl, inr, Bool, true, false, not, ◌&&◌, ◌||◌, Option, none, some, List, [], ◌∷◌,
  ◌++◌, map, arith, ltb, leb, ◌==◌, if◌then◌else◌, ltb→lt, lt→ltb, leb→le, ==_iff, tests,
  Bool-cases, Option-cases, length, take, drop, length-append, take-append-drop, length-take,
  length-drop, All, Any, here, there, All-append, All-imp, All-map, Any-map, Any-imp,
  Any-append_left, Any-append_right, Text, txt, text_eq, is_empty, is_prefix, contains, rune_bytes,
  byte_len, text_lt, is_space, trim_left, trim_right, trim_space, text_eq_iff, text_eq_refl,
}
use rubez_ai.Chat.Rag.{decimal}
use rubez_ai.Chat.Records.{join}

pub record AuditEventRow : Type 0 where
  pub id : Text
  pub created_at : ℕ
  pub user_id : Text
  pub event_type : Text
  pub model_provider_id : Option Text
  pub risk_level : Option Text
  pub risk_classes : List Text
  pub policy_decision : Option Text
  pub policy_version_id : Option Text
  pub matched_rule : Option Text
  pub masked_payload : Option Text
  pub detail : Text

pub record AuditFilter : Type 0 where
  pub from : Option ℕ
  pub to : Option ℕ
  pub user_id : Option Text
  pub event_types : List Text
  pub policy_decisions : List Text
  pub risk_levels : List Text
  pub model_provider_id : Option Text
  pub has_leak : Option Bool
  pub q : Option Text
  pub cursor_created_at : Option ℕ
  pub cursor_id : Option Text
  pub limit : ℕ

-- The arguments of a query.
pub data Arg : Type 0 where
  time number : ℕ → Arg
  str : Text → Arg
  strs : List Text → Arg

-- The conditions by the numbers of their placeholders.
pub data Cond : Type 0 where
  before_cursor : ℕ → ℕ → Cond
  at_least at_most user_is event_in decision_in risk_in model_is payload_like : ℕ → Cond
  leak_is : Bool → Cond

abbrev pub placeholder : String → ℕ → String → Text
placeholder left k right = txt left ++ (decimal k ++ txt right)

unfoldable pub cond_text : Cond → Text
unfolding txt
cond_text (before_cursor i j) =
    placeholder "(created_at, id) < ($" i "::timestamptz, $" ++ (decimal j ++ txt "::uuid)")
cond_text (at_least i) = placeholder "created_at >= $" i ""
cond_text (at_most i) = placeholder "created_at <= $" i ""
cond_text (user_is i) = placeholder "user_id = $" i "::uuid"
cond_text (event_in i) = placeholder "event_type = ANY($" i "::text[])"
cond_text (decision_in i) = placeholder "policy_decision = ANY($" i "::text[])"
cond_text (risk_in i) = placeholder "risk_level = ANY($" i "::text[])"
cond_text (model_is i) = placeholder "model_provider_id = $" i "::uuid"
cond_text (payload_like i) = placeholder "masked_payload ILIKE $" i ""
cond_text (leak_is true) = txt "(detail->>'response_leak_detected') = 'true'"
cond_text (leak_is false) = txt "COALESCE((detail->>'response_leak_detected'), 'false') = 'false'"

-- The two slices that `buildListAuditQuery` grows.
pub record QueryParts : Type 0 where
  pub conds : List Cond
  pub args : List Arg

-- The closure `add`.
abbrev pub add : QueryParts → Cond → List Arg → QueryParts
add b c vals = record { conds = b.conds ++ (c ∷ []); args = b.args ++ vals }

abbrev pub next_placeholder : QueryParts → ℕ
next_placeholder b = suc (length b.args)

abbrev pub add_optional {ℓ} :
    {A : Type ℓ} → (ℕ → Cond) → (A → Arg) → Option A → QueryParts → QueryParts
add_optional c arg none b = b
add_optional c arg (some v) b = add b (c (next_placeholder b)) (arg v ∷ [])

abbrev pub add_list : (ℕ → Cond) → List Text → QueryParts → QueryParts
add_list c [] b = b
add_list c (v ∷ vs) b = add b (c (next_placeholder b)) (strs (v ∷ vs) ∷ [])

abbrev pub add_cursor : Option ℕ → Option Text → QueryParts → QueryParts
add_cursor (some t) (some i) b =
    add b (before_cursor (next_placeholder b) (suc (next_placeholder b))) (time t ∷ str i ∷ [])
add_cursor (some t) none b = b
add_cursor none i b = b

abbrev pub add_leak : Option Bool → QueryParts → QueryParts
add_leak none b = b
add_leak (some v) b = add b (leak_is v) []

abbrev pub add_search : Option Text → QueryParts → QueryParts
add_search none b = b
add_search (some []) b = b
add_search (some (c ∷ s)) b =
    add b (payload_like (next_placeholder b)) (str (b'%' ∷ (c ∷ s) ++ (b'%' ∷ [])) ∷ [])

-- `buildListAuditQuery` up to the text of the query: each line adds a condition.
unfoldable pub audit_conditions : AuditFilter → QueryParts
audit_conditions f =
    let b0 : QueryParts = record { conds = []; args = [] } in
    let b1 = add_cursor f.cursor_created_at f.cursor_id b0 in
    let b2 = add_optional at_least time f.from b1 in
    let b3 = add_optional at_most time f.to b2 in
    let b4 = add_optional user_is str f.user_id b3 in
    let b5 = add_list event_in f.event_types b4 in
    let b6 = add_list decision_in f.policy_decisions b5 in
    let b7 = add_list risk_in f.risk_levels b6 in
    let b8 = add_optional model_is str f.model_provider_id b7 in
    add_search f.q (add_leak f.has_leak b8)

-- The limit, which no caller can make larger than 200.
abbrev pub audit_limit : ℕ → ℕ
audit_limit n = if n == 0 || ltb 200 n then 50 else n

unfoldable pub audit_columns : Text
unfolding txt
audit_columns =
    txt
      "id, created_at, user_id, event_type,\n\tmodel_provider_id, risk_level, risk_classes, policy_decision,\n\tpolicy_version_id, matched_rule, masked_payload, detail"

unfoldable pub where_text : List Cond → Text
unfolding txt cond_text
where_text [] = []
where_text (c ∷ cs) = txt " WHERE " ++ join (txt " AND ") (map cond_text (c ∷ cs))

unfoldable pub build_list_audit_query : AuditFilter → Text × List Arg
unfolding txt audit_columns where_text audit_conditions
build_list_audit_query f =
    let b = audit_conditions f in
    (
      txt "SELECT "
          ++ (audit_columns
              ++ (txt " FROM audit_events"
                  ++ (where_text b.conds
                      ++ (txt " ORDER BY created_at DESC, id DESC LIMIT $"
                          ++ decimal (length b.args + 1))))),
      b.args ++ (number (audit_limit f.limit) ∷ []),
    )
