-- ===== src/Storage/Audit/Printed.antt =====
-- storage/audit.go: the text of the query against the parts that a filter asks for.
use rubez_ai.Prelude.{
  ℕ, suc, ◌+◌, ◌≡◌, refl, sym, ap, ◌∙◌, Bool, true, false, Option, none, some, List, [], ◌∷◌, ◌++◌,
  map, arith, length, length-append, Text, txt,
}
use mathlib.Core.List.{append-nil, append_assoc}
use rubez_ai.Chat.Rag.{decimal}
use rubez_ai.Chat.Records.{join}
use rubez_ai.Storage.Audit.{
  AuditFilter, Arg, time, str, strs, Cond, before_cursor, at_least, at_most, user_is, event_in,
  decision_in, risk_in, model_is, payload_like, leak_is, cond_text, QueryParts, add, add_optional,
  add_list, add_cursor, add_leak, add_search, next_placeholder, audit_conditions, where_text,
  audit_columns, build_list_audit_query,
}

-- A part of the query: how many placeholders it takes, and its text from the number of its first.
abbrev pub Part : Type 0
Part = ℕ × (ℕ → Text)

abbrev pub one : (ℕ → Text) → List Part
one f = (1, f) ∷ []

abbrev pub part_if {ℓ} : {A : Type ℓ} → Option A → (ℕ → Text) → List Part
part_if none f = []
part_if (some a) f = one f

abbrev pub part_if_any : List Text → (ℕ → Text) → List Part
part_if_any [] f = []
part_if_any (t ∷ ts) f = one f

abbrev pub part_if_text : Option Text → (ℕ → Text) → List Part
part_if_text none f = []
part_if_text (some []) f = []
part_if_text (some (c ∷ s)) f = one f

abbrev pub cursor_part : Option ℕ → Option Text → List Part
cursor_part (some t) (some i) =
    (
      2,
      λ k.
          txt "(created_at, id) < ($"
          ++ (decimal k ++ (txt "::timestamptz, $" ++ (decimal (suc k) ++ txt "::uuid)"))),
    )
    ∷ []
cursor_part (some t) none = []
cursor_part none i = []

abbrev pub leak_part : Option Bool → List Part
leak_part none = []
leak_part (some true) = (0, λ k. txt "(detail->>'response_leak_detected') = 'true'") ∷ []
leak_part (some false) =
    (0, λ k. txt "COALESCE((detail->>'response_leak_detected'), 'false') = 'false'") ∷ []

-- The parts that a filter asks for, in their order.
abbrev pub parts_of : AuditFilter → List Part
parts_of f =
    ((((((((cursor_part f.cursor_created_at f.cursor_id
                    ++ part_if f.from (λ k. txt "created_at >= $" ++ (decimal k ++ [])))
                  ++ part_if f.to (λ k. txt "created_at <= $" ++ (decimal k ++ [])))
                ++ part_if f.user_id (λ k. txt "user_id = $" ++ (decimal k ++ txt "::uuid")))
              ++ part_if_any f.event_types
                  (λ k. txt "event_type = ANY($" ++ (decimal k ++ txt "::text[])")))
            ++ part_if_any f.policy_decisions
                (λ k. txt "policy_decision = ANY($" ++ (decimal k ++ txt "::text[])")))
          ++ part_if_any f.risk_levels
              (λ k. txt "risk_level = ANY($" ++ (decimal k ++ txt "::text[])")))
        ++ part_if f.model_provider_id
            (λ k. txt "model_provider_id = $" ++ (decimal k ++ txt "::uuid")))
      ++ leak_part f.has_leak)
    ++ part_if_text f.q (λ k. txt "masked_payload ILIKE $" ++ (decimal k ++ []))

abbrev pub total : List Part → ℕ
total [] = 0
total (p ∷ ps) = p.0 + total ps

-- The texts, the first placeholder being `$k`.
abbrev pub texts : ℕ → List Part → List Text
texts k [] = []
texts k (p ∷ ps) = p.1 k ∷ texts (k + p.0) ps

abbrev pub and_each : List Text → Text
and_each [] = []
and_each (t ∷ ts) = txt " AND " ++ (t ++ and_each ts)

abbrev pub where_each : List Text → Text
where_each [] = []
where_each (t ∷ ts) = txt " WHERE " ++ (t ++ and_each ts)

texts-append :
    (k : ℕ) (ps qs : List Part) → texts k (ps ++ qs) ≡ texts k ps ++ texts (k + total ps) qs
texts-append k [] qs = ap (λ n. texts n qs) (omega arith)
texts-append k (p ∷ ps) qs =
    ap (λ (x : List Text). p.1 k ∷ x)
      (texts-append (k + p.0) ps qs ∙ ap (λ n. texts (k + p.0) ps ++ texts n qs) (omega arith))

total-append : (ps qs : List Part) → total (ps ++ qs) ≡ total ps + total qs
total-append [] qs = omega arith
total-append (p ∷ ps) qs = let ih = total-append ps qs in omega (arith, ih)

map-append : (cs ds : List Cond) → map cond_text (cs ++ ds) ≡ map cond_text cs ++ map cond_text ds
map-append [] ds = refl
map-append (c ∷ cs) ds = ap (λ (x : List Text). cond_text c ∷ x) (map-append cs ds)

-- The conditions so far print as the parts, and each placeholder has its argument.
record Prints (b : QueryParts) (ps : List Part) : Type 0 where
  printed : map cond_text b.conds ≡ texts 1 ps
  counted : length b.args ≡ total ps

nothing-Prints : (b : QueryParts) (ps : List Part) → Prints b ps → Prints b (ps ++ [])
nothing-Prints b ps h = record {
  printed = h.printed ∙ (sym (append-nil (texts 1 ps)) ∙ sym (texts-append 1 ps []));
  counted = let e = total-append ps [] in let c = h.counted in omega (arith, e, c);
}

add-Prints :
    (b : QueryParts) (ps : List Part) (c : Cond) (vals : List Arg) (f : ℕ → Text)
    → cond_text c ≡ f (next_placeholder b)
    → Prints b ps
    → Prints (add b c vals) (ps ++ ((length vals, f) ∷ []))
add-Prints b ps c vals f e h = record {
  printed =
      map-append b.conds (c ∷ [])
      ∙ (ap (λ x. x ++ (cond_text c ∷ [])) h.printed
          ∙ (ap (λ x. texts 1 ps ++ (x ∷ [])) (e ∙ ap f (let n = h.counted in omega (arith, n)))
              ∙ sym (texts-append 1 ps ((length vals, f) ∷ []))));
  counted =
      let l = length-append b.args vals in
      let t = total-append ps ((length vals, f) ∷ []) in
      let n = h.counted in omega (arith, l, t, n);
}

add_optional-Prints {ℓ} :
    {A : Type ℓ} (c : ℕ → Cond) (arg : A → Arg) (f : ℕ → Text) (o : Option A) (b : QueryParts)
    (ps : List Part)
    → ((k : ℕ) → cond_text (c k) ≡ f k)
    → Prints b ps
    → Prints (add_optional c arg o b) (ps ++ part_if o f)
add_optional-Prints c arg f none b ps e h = nothing-Prints b ps h
add_optional-Prints c arg f (some a) b ps e h =
    add-Prints b ps (c (next_placeholder b)) (arg a ∷ []) f (e (next_placeholder b)) h

add_list-Prints :
    (c : ℕ → Cond) (f : ℕ → Text) (ts : List Text) (b : QueryParts) (ps : List Part)
    → ((k : ℕ) → cond_text (c k) ≡ f k)
    → Prints b ps
    → Prints (add_list c ts b) (ps ++ part_if_any ts f)
add_list-Prints c f [] b ps e h = nothing-Prints b ps h
add_list-Prints c f (t ∷ ts) b ps e h =
    add-Prints b ps (c (next_placeholder b)) (strs (t ∷ ts) ∷ []) f (e (next_placeholder b)) h

cursor_text :
    (k : ℕ)
    → cond_text (before_cursor k (suc k))
      ≡ txt "(created_at, id) < ($"
        ++ (decimal k ++ (txt "::timestamptz, $" ++ (decimal (suc k) ++ txt "::uuid)")))
unfolding cond_text txt
cursor_text k =
    ap (λ (x : Text). txt "(created_at, id) < ($" ++ x)
      (append_assoc (decimal k) (txt "::timestamptz, $") (decimal (suc k) ++ txt "::uuid)"))

add_cursor-Prints :
    (o : Option ℕ) (i : Option Text) (b : QueryParts) (ps : List Part)
    → Prints b ps
    → Prints (add_cursor o i b) (ps ++ cursor_part o i)
unfolding cond_text
add_cursor-Prints none i b ps h = nothing-Prints b ps h
add_cursor-Prints (some t) none b ps h = nothing-Prints b ps h
add_cursor-Prints (some t) (some i) b ps h =
    add-Prints b ps (before_cursor (next_placeholder b) (suc (next_placeholder b)))
      (time t ∷ str i ∷ []) _ (cursor_text (next_placeholder b)) h

add_leak-Prints :
    (o : Option Bool) (b : QueryParts) (ps : List Part)
    → Prints b ps
    → Prints (add_leak o b) (ps ++ leak_part o)
unfolding cond_text
add_leak-Prints none b ps h = nothing-Prints b ps h
add_leak-Prints (some true) b ps h = add-Prints b ps (leak_is true) [] _ refl h
add_leak-Prints (some false) b ps h = add-Prints b ps (leak_is false) [] _ refl h

add_search-Prints :
    (o : Option Text) (f : ℕ → Text) (b : QueryParts) (ps : List Part)
    → ((k : ℕ) → cond_text (payload_like k) ≡ f k)
    → Prints b ps
    → Prints (add_search o b) (ps ++ part_if_text o f)
add_search-Prints none f b ps e h = nothing-Prints b ps h
add_search-Prints (some []) f b ps e h = nothing-Prints b ps h
add_search-Prints (some (c ∷ s)) f b ps e h =
    add-Prints b ps (payload_like (next_placeholder b)) (str (b'%' ∷ (c ∷ s) ++ (b'%' ∷ [])) ∷ []) f
      (e (next_placeholder b)) h

conditions-Prints : (f : AuditFilter) → Prints (audit_conditions f) (parts_of f)
unfolding audit_conditions cond_text
conditions-Prints f =
    let b0 : QueryParts = record { conds = []; args = [] } in
    let h0 : Prints b0 [] = record { printed = refl; counted = refl } in
    let h1 = add_cursor-Prints f.cursor_created_at f.cursor_id b0 [] h0 in
    let h2 = add_optional-Prints at_least time _ f.from _ _ (λ k. refl) h1 in
    let h3 = add_optional-Prints at_most time _ f.to _ _ (λ k. refl) h2 in
    let h4 = add_optional-Prints user_is str _ f.user_id _ _ (λ k. refl) h3 in
    let h5 = add_list-Prints event_in _ f.event_types _ _ (λ k. refl) h4 in
    let h6 = add_list-Prints decision_in _ f.policy_decisions _ _ (λ k. refl) h5 in
    let h7 = add_list-Prints risk_in _ f.risk_levels _ _ (λ k. refl) h6 in
    let h8 = add_optional-Prints model_is str _ f.model_provider_id _ _ (λ k. refl) h7 in
    let h9 = add_leak-Prints f.has_leak _ _ h8 in add_search-Prints f.q _ _ _ (λ k. refl) h9

and_each-join : (t : Text) (ts : List Text) → join (txt " AND ") (t ∷ ts) ≡ t ++ and_each ts
unfolding join
and_each-join t [] = sym (append-nil t)
and_each-join t (u ∷ us) = ap (λ (x : Text). t ++ (txt " AND " ++ x)) (and_each-join u us)

where_each-where_text : (cs : List Cond) → where_text cs ≡ where_each (map cond_text cs)
unfolding where_text
where_each-where_text [] = refl
where_each-where_text (c ∷ cs) =
    ap (λ (x : Text). txt " WHERE " ++ x) (and_each-join (cond_text c) (map cond_text cs))

abbrev pub query_head : Text
query_head =
    txt
      "SELECT id, created_at, user_id, event_type,\n\tmodel_provider_id, risk_level, risk_classes, policy_decision,\n\tpolicy_version_id, matched_rule, masked_payload, detail FROM audit_events"

-- The whole text of the query.
abbrev pub query_text : AuditFilter → Text
query_text f =
    query_head
    ++ (where_each (texts 1 (parts_of f))
        ++ (txt " ORDER BY created_at DESC, id DESC LIMIT $" ++ decimal (suc (total (parts_of f)))))

-- The text of the query is that of the parts, numbered from `$1`, with the limit after the last.
pub build_list_audit_query-text : (f : AuditFilter) → (build_list_audit_query f).0 ≡ query_text f
unfolding build_list_audit_query audit_columns txt
build_list_audit_query-text f =
    let b = audit_conditions f in
    let h = conditions-Prints f in
    let order : Text = txt " ORDER BY created_at DESC, id DESC LIMIT $" in
    ap (λ (w : Text). query_head ++ w)
      (ap (λ (w : Text). w ++ (order ++ decimal (length b.args + 1)))
          (where_each-where_text b.conds ∙ ap where_each h.printed)
        ∙ ap (λ (n : ℕ). where_each (texts 1 (parts_of f)) ++ (order ++ decimal n))
            (let n = h.counted in omega (arith, n)))
