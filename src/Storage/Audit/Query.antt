-- ===== src/Storage/Audit/Query.antt =====
-- storage/audit.go: what the conditions of the query mean, and which events it lists. Ids are
-- compared as texts, in the spelling of the column: a filter's id in another spelling of the same
-- uuid, which the cast in the query makes equal to it, is taken for another id here.
use rubez_ai.Prelude.{
  ℕ, zero, suc, Bool, true, false, ◌&&◌, ◌||◌, Option, none, some, List, [], ◌∷◌, ◌++◌, ltb, leb,
  ◌==◌, take, keep_if, Text, txt, text_eq, text_lt,
}
use rubez_ai.Prelude.Sort.{sort_by}
use rubez_ai.Storage.Audit.{
  AuditEventRow, AuditFilter, Arg, time, str, strs, Cond, before_cursor, at_least, at_most, user_is,
  event_in, decision_in, risk_in, model_is, payload_like, leak_is, audit_conditions, audit_limit,
  build_list_audit_query,
}

-- `ilike` by the pattern and the text; `leak` is `detail->>'response_leak_detected'`.
pub record Sql : Type 0 where
  pub ilike : Text → Text → Bool
  pub leak : Text → Option Text

-- `$k`
abbrev pub arg_at : List Arg → ℕ → Option Arg
arg_at [] k = none
arg_at (a ∷ as') zero = none
arg_at (a ∷ as') (suc zero) = some a
arg_at (a ∷ as') (suc (suc k)) = arg_at as' (suc k)

abbrev pub member : Text → List Text → Bool
member t [] = false
member t (u ∷ us) = text_eq t u || member t us

abbrev pub option_is : Option Text → Text → Bool
option_is none t = false
option_is (some u) t = text_eq u t

abbrev pub option_in : Option Text → List Text → Bool
option_in none ts = false
option_in (some u) ts = member u ts

-- The row value comparison of the cursor: older, or as old with a smaller id.
abbrev pub before : AuditEventRow → ℕ → Text → Bool
before r t i = ltb r.created_at t || (r.created_at == t && text_lt r.id i)

abbrev pub on_time : Option Arg → (ℕ → Bool) → Bool
on_time (some (time t)) p = p t
on_time _ p = false

abbrev pub on_text : Option Arg → (Text → Bool) → Bool
on_text (some (str t)) p = p t
on_text _ p = false

abbrev pub on_texts : Option Arg → (List Text → Bool) → Bool
on_texts (some (strs ts)) p = p ts
on_texts _ p = false

module _ (sql : Sql) where
  abbrev pub like : Text → Option Text → Bool
  like pattern none = false
  like pattern (some p) = sql.ilike pattern p

  abbrev pub leaks : Bool → Option Text → Bool
  leaks true none = false
  leaks true (some v) = text_eq v (txt "true")
  leaks false none = true
  leaks false (some v) = text_eq v (txt "false")

  abbrev pub holds : List Arg → AuditEventRow → Cond → Bool
  holds args r (before_cursor i j) =
      on_time (arg_at args i) (λ t. on_text (arg_at args j) (λ u. before r t u))
  holds args r (at_least i) = on_time (arg_at args i) (λ t. leb t r.created_at)
  holds args r (at_most i) = on_time (arg_at args i) (λ t. leb r.created_at t)
  holds args r (user_is i) = on_text (arg_at args i) (λ u. text_eq r.user_id u)
  holds args r (event_in i) = on_texts (arg_at args i) (λ ts. member r.event_type ts)
  holds args r (decision_in i) = on_texts (arg_at args i) (λ ts. option_in r.policy_decision ts)
  holds args r (risk_in i) = on_texts (arg_at args i) (λ ts. option_in r.risk_level ts)
  holds args r (model_is i) = on_text (arg_at args i) (λ m. option_is r.model_provider_id m)
  holds args r (payload_like i) = on_text (arg_at args i) (λ p. like p r.masked_payload)
  holds args r (leak_is b) = leaks b (sql.leak r.detail)

  abbrev pub all_hold : List Arg → AuditEventRow → List Cond → Bool
  all_hold args r [] = true
  all_hold args r (c ∷ cs) = holds args r c && all_hold args r cs

  abbrev pub asked {ℓ} : {A : Type ℓ} → Option A → (A → Bool) → Bool
  asked none p = true
  asked (some a) p = p a

  abbrev pub asked_list : List Text → (List Text → Bool) → Bool
  asked_list [] p = true
  asked_list (t ∷ ts) p = p (t ∷ ts)

  abbrev pub asked_cursor : Option ℕ → Option Text → (ℕ → Text → Bool) → Bool
  asked_cursor (some t) (some i) p = p t i
  asked_cursor (some t) none p = true
  asked_cursor none i p = true

  abbrev pub asked_search : Option Text → (Text → Bool) → Bool
  asked_search none p = true
  asked_search (some []) p = true
  asked_search (some (c ∷ s)) p = p (b'%' ∷ (c ∷ s) ++ (b'%' ∷ []))

  -- The filter read directly off the row.
  abbrev pub matches : AuditFilter → AuditEventRow → Bool
  matches f r =
      (((((((((asked_cursor f.cursor_created_at f.cursor_id (before r)
                        && asked f.from (λ t. leb t r.created_at))
                      && asked f.to (λ t. leb r.created_at t))
                    && asked f.user_id (text_eq r.user_id))
                  && asked_list f.event_types (member r.event_type))
                && asked_list f.policy_decisions (option_in r.policy_decision))
              && asked_list f.risk_levels (option_in r.risk_level))
            && asked f.model_provider_id (option_is r.model_provider_id))
          && asked f.has_leak (λ b. leaks b (sql.leak r.detail)))
        && asked_search f.q (λ p. like p r.masked_payload))

-- The later first, and of two at the same time the one with the larger id.
abbrev pub newer : AuditEventRow → AuditEventRow → Bool
newer r s = ltb s.created_at r.created_at || (s.created_at == r.created_at && text_lt s.id r.id)

-- `ListAuditEvents` on a table, by the conditions, the order and the limit of the query.
unfoldable pub list_audit_events : Sql → AuditFilter → List AuditEventRow → List AuditEventRow
unfolding sort_by keep_if audit_conditions build_list_audit_query
list_audit_events sql f table =
    let args = (build_list_audit_query f).1 in
    let found = keep_if (λ r. all_hold sql args r (audit_conditions f).conds) table in
    take (audit_limit f.limit) (sort_by newer found)
