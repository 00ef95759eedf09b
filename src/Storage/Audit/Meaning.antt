-- ===== src/Storage/Audit/Meaning.antt =====
-- storage/audit.go: the conditions of the query against the filter.
use rubez_ai.Prelude.{
  ℕ, suc, ◌≤◌, ◌≡◌, refl, sym, ◌∙◌, Bool, true, false, ◌&&◌, Option, none, some, List, [], ◌∷◌,
  ◌++◌, arith, leb, length, length-take, All, All-imp, keep_if, All-keep_if, take-All, Text,
  text_eq,
}
use rubez_ai.Prelude.Sort.{sort_by, All-sort_by}
use mathlib.Core.List.{append_assoc}
use rubez_ai.Storage.Audit.{
  AuditEventRow, AuditFilter, Arg, time, number, str, strs, Cond, before_cursor, at_least, at_most,
  user_is, event_in, decision_in, risk_in, model_is, payload_like, leak_is, QueryParts, add,
  add_optional, add_list, add_cursor, add_leak, add_search, next_placeholder, audit_conditions,
  audit_limit, build_list_audit_query,
}
use rubez_ai.Storage.Audit.Printed.{query_text, build_list_audit_query-text}
use rubez_ai.Storage.Audit.Query.{
  Sql, arg_at, member, option_is, option_in, before, like, leaks, holds, all_hold, asked,
  asked_list, asked_cursor, asked_search, matches, newer, list_audit_events,
}

arg_at-append : (as' bs : List Arg) (a : Arg) → arg_at (as' ++ (a ∷ bs)) (suc (length as')) ≡ some a
arg_at-append [] bs a = refl
arg_at-append (x ∷ []) bs a = refl
arg_at-append (x ∷ y ∷ as') bs a = arg_at-append (y ∷ as') bs a

arg_at-append_next :
    (as' bs : List Arg) (a b : Arg) → arg_at (as' ++ (a ∷ b ∷ bs)) (suc (suc (length as'))) ≡ some b
arg_at-append_next [] bs a b = refl
arg_at-append_next (x ∷ as') bs a b = arg_at-append_next as' bs a b

and_true : (t : Bool) → (t && true) ≡ t
and_true true = refl
and_true false = refl

module _ (sql : Sql) (r : AuditEventRow) where
  -- The conditions so far mean `t`, whatever arguments are added.
  record Means (b : QueryParts) (t : Bool) : Type 0 where
    law : (extra : List Arg) → all_hold sql (b.args ++ extra) r b.conds ≡ t

  all_hold-append :
      (args : List Arg) (cs : List Cond) (c : Cond)
      → all_hold sql args r (cs ++ (c ∷ [])) ≡ (all_hold sql args r cs && holds sql args r c)
  all_hold-append args [] c = and_true (holds sql args r c)
  all_hold-append args (d ∷ cs) c = ground (arith, all_hold-append args cs c)

  add-Means :
      (b : QueryParts) (t v : Bool) (c : Cond) (vals : List Arg)
      → Means b t
      → ((extra : List Arg) → holds sql (b.args ++ (vals ++ extra)) r c ≡ v)
      → Means (add b c vals) (t && v)
  add-Means b t v c vals m h = record {
    law = λ extra.
        rw
          (
            append_assoc b.args vals extra,
            all_hold-append (b.args ++ (vals ++ extra)) b.conds c,
            m.law (vals ++ extra),
            h extra,
          )
          refl;
  }

  skip-Means : (b : QueryParts) (t : Bool) → Means b t → Means b (t && true)
  skip-Means b t m = rw (and_true t) m

  -- One more condition over one more argument, read as `p`.
  argument-Means {ℓ} :
      {A : Type ℓ} (c : ℕ → Cond) (arg : A → Arg) (p : A → Bool) (a : A) (b : QueryParts) (t : Bool)
      → ((args : List Arg) (k : ℕ) → arg_at args k ≡ some (arg a) → holds sql args r (c k) ≡ p a)
      → Means b t
      → Means (add b (c (next_placeholder b)) (arg a ∷ [])) (t && p a)
  argument-Means c arg p a b t h m =
      add-Means b t (p a) (c (next_placeholder b)) (arg a ∷ []) m (λ extra.
        h (b.args ++ (arg a ∷ extra)) (next_placeholder b) (arg_at-append b.args extra (arg a)))

  add_optional-Means {ℓ} :
      {A : Type ℓ} (c : ℕ → Cond) (arg : A → Arg) (p : A → Bool) (o : Option A) (b : QueryParts)
      (t : Bool)
      → ((a : A) (args : List Arg) (k : ℕ)
          → arg_at args k ≡ some (arg a)
          → holds sql args r (c k) ≡ p a)
      → Means b t
      → Means (add_optional c arg o b) (t && asked sql o p)
  add_optional-Means c arg p none b t h m = skip-Means b t m
  add_optional-Means c arg p (some a) b t h m = argument-Means c arg p a b t (h a) m

  add_list-Means :
      (c : ℕ → Cond) (p : List Text → Bool) (ts : List Text) (b : QueryParts) (t : Bool)
      → ((a : List Text) (args : List Arg) (k : ℕ)
          → arg_at args k ≡ some (strs a)
          → holds sql args r (c k) ≡ p a)
      → Means b t
      → Means (add_list c ts b) (t && asked_list sql ts p)
  add_list-Means c p [] b t h m = skip-Means b t m
  add_list-Means c p (v ∷ vs) b t h m = argument-Means c strs p (v ∷ vs) b t (h (v ∷ vs)) m

  add_leak-Means :
      (o : Option Bool) (b : QueryParts) (t : Bool)
      → Means b t
      → Means (add_leak o b) (t && asked sql o (λ x. leaks sql x (sql.leak r.detail)))
  add_leak-Means none b t m = skip-Means b t m
  add_leak-Means (some x) b t m =
      add-Means b t (leaks sql x (sql.leak r.detail)) (leak_is x) [] m (λ extra. refl)

  add_search-Means :
      (o : Option Text) (b : QueryParts) (t : Bool)
      → Means b t
      → Means (add_search o b) (t && asked_search sql o (λ p. like sql p r.masked_payload))
  add_search-Means none b t m = skip-Means b t m
  add_search-Means (some []) b t m = skip-Means b t m
  add_search-Means (some (c ∷ s)) b t m =
      argument-Means payload_like str (λ p. like sql p r.masked_payload)
        (b'%' ∷ (c ∷ s) ++ (b'%' ∷ [])) b t (λ args k e. rw e refl) m

  add_cursor-Means :
      (o : Option ℕ) (i : Option Text) (b : QueryParts) (t : Bool)
      → Means b t
      → Means (add_cursor o i b) (t && asked_cursor sql o i (before r))
  add_cursor-Means none i b t m = skip-Means b t m
  add_cursor-Means (some at) none b t m = skip-Means b t m
  add_cursor-Means (some at) (some i) b t m =
      add-Means b t (before r at i) (before_cursor (next_placeholder b) (suc (next_placeholder b)))
        (time at ∷ str i ∷ []) m
        (λ extra.
          rw
            (
              arg_at-append b.args (str i ∷ extra) (time at),
              arg_at-append_next b.args extra (time at) (str i),
            )
            refl)

  conditions-Means : (f : AuditFilter) → Means (audit_conditions f) (matches sql f r)
  unfolding audit_conditions
  conditions-Means f =
      let b0 : QueryParts = record { conds = []; args = [] } in
      let m0 : Means b0 true = record { law = λ extra. refl } in
      let m1 = add_cursor-Means f.cursor_created_at f.cursor_id b0 true m0 in
      let b1 = add_cursor f.cursor_created_at f.cursor_id b0 in
      let t1 = asked_cursor sql f.cursor_created_at f.cursor_id (before r) in
      let m2 =
        add_optional-Means at_least time (λ t. leb t r.created_at) f.from b1 t1
          (λ a args k e. rw e refl) m1 in
      let b2 = add_optional at_least time f.from b1 in
      let t2 = t1 && asked sql f.from (λ t. leb t r.created_at) in
      let m3 =
        add_optional-Means at_most time (λ t. leb r.created_at t) f.to b2 t2
          (λ a args k e. rw e refl) m2 in
      let b3 = add_optional at_most time f.to b2 in
      let t3 = t2 && asked sql f.to (λ t. leb r.created_at t) in
      let m4 =
        add_optional-Means user_is str (text_eq r.user_id) f.user_id b3 t3 (λ a args k e. rw e refl)
          m3 in
      let b4 = add_optional user_is str f.user_id b3 in
      let t4 = t3 && asked sql f.user_id (text_eq r.user_id) in
      let m5 =
        add_list-Means event_in (member r.event_type) f.event_types b4 t4 (λ a args k e. rw e refl)
          m4 in
      let b5 = add_list event_in f.event_types b4 in
      let t5 = t4 && asked_list sql f.event_types (member r.event_type) in
      let m6 =
        add_list-Means decision_in (option_in r.policy_decision) f.policy_decisions b5 t5
          (λ a args k e. rw e refl) m5 in
      let b6 = add_list decision_in f.policy_decisions b5 in
      let t6 = t5 && asked_list sql f.policy_decisions (option_in r.policy_decision) in
      let m7 =
        add_list-Means risk_in (option_in r.risk_level) f.risk_levels b6 t6
          (λ a args k e. rw e refl) m6 in
      let b7 = add_list risk_in f.risk_levels b6 in
      let t7 = t6 && asked_list sql f.risk_levels (option_in r.risk_level) in
      let m8 =
        add_optional-Means model_is str (option_is r.model_provider_id) f.model_provider_id b7 t7
          (λ a args k e. rw e refl) m7 in
      let b8 = add_optional model_is str f.model_provider_id b7 in
      let t8 = t7 && asked sql f.model_provider_id (option_is r.model_provider_id) in
      let m9 = add_leak-Means f.has_leak b8 t8 m8 in
      add_search-Means f.q (add_leak f.has_leak b8)
        (t8 && asked sql f.has_leak (λ b. leaks sql b (sql.leak r.detail))) m9

  -- For every filter and every event, all the conditions of the query hold of the event, each read
  -- off its own placeholders in the query's arguments, exactly when the event matches the filter;
  -- the last placeholder holds the limit; and the text of the query selects the columns with one
  -- condition for each part that the filter asks for, the placeholders numbered from `$1` on as
  -- the arguments stand and the limit after them all, the later events first.
  pub build_list_audit_query-matches :
      (f : AuditFilter)
      → (all_hold sql (build_list_audit_query f).1 r (audit_conditions f).conds ≡ matches sql f r)
        × (arg_at (build_list_audit_query f).1 (suc (length (audit_conditions f).args))
            ≡ some (number (audit_limit f.limit)))
        × ((build_list_audit_query f).0 ≡ query_text f)
  unfolding build_list_audit_query
  build_list_audit_query-matches f = (
    (conditions-Means f).law (number (audit_limit f.limit) ∷ []),
    arg_at-append (audit_conditions f).args [] (number (audit_limit f.limit)),
    build_list_audit_query-text f,
  )

-- Every event that is listed matches the filter and has any property that all of the table have,
-- and at most 200 are listed.
pub list_audit_events-matches :
    (sql : Sql) (f : AuditFilter) (table : List AuditEventRow)
    → All (λ r. matches sql f r ≡ true) (list_audit_events sql f table)
      × (length (list_audit_events sql f table) ≤ 200)
unfolding list_audit_events
list_audit_events-matches sql f table =
    let args = (build_list_audit_query f).1 in
    let p = λ (r : AuditEventRow). all_hold sql args r (audit_conditions f).conds in
    let found = keep_if p table in
    (
      take-All (λ r. matches sql f r ≡ true) (audit_limit f.limit) (sort_by newer found)
          (All-sort_by newer (λ r. matches sql f r ≡ true) found
            (All-imp (λ r. p r ≡ true) (λ r. matches sql f r ≡ true)
              (λ r h. sym (build_list_audit_query-matches sql r f).0 ∙ h) found
              (All-keep_if p table))),
      ground (arith, length-take (audit_limit f.limit) (sort_by newer found)),
    )
