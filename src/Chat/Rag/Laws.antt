-- ===== src/Chat/Rag/Laws.antt =====
-- What retrieval may change.
use rubez_ai.Prelude.{
  ℕ, ◌+◌, ◌≤◌, ◌<◌, min, ◌≡◌, refl, inl, inr, true, false, not, Option, none, some, List, [], ◌∷◌,
  ◌++◌, arith, Bool-cases, length, All, Any, here, there,
}
use mathlib.Core.List.{Perm, perm_middle}
use mathlib.Core.List.Perm
use rubez_ai.Prelude.Int.{ℤ, negsuc, ◌≤ℤ◌, ltb_ℤ, leb_ℤ}
use rubez_ai.Policy.{low, medium, high, critical, RiskLevel, Decision, Outcome}
use rubez_ai.Policy.Severity.{risk_order, decision_order}
use rubez_ai.Chat.Types.{RagHit}
use rubez_ai.Chat.Rag.{
  better, is_high_risk, filter_loop, filter_high_risk_for_external, truncate_loop,
  truncate_by_budget, max_hit_risk_level, max_level_loop, cap_decision, elevated_level, raises,
  revise,
}

-- After retrieval a decision is as it was or, if it was not yet `deny`, exactly one step more severe.
revise_order :
    (level : RiskLevel) (o : Outcome) (hits : List RagHit)
    → (decision_order o.decision ≤ decision_order (revise level o hits).decision)
      × (decision_order (revise level o hits).decision ≤ decision_order o.decision + 1)
unfolding revise
revise_order level o [] = ground arith
revise_order level o (h ∷ hits) = ground arith

-- The level above, which is `low` for an unknown one.
abbrev pub next_level : RiskLevel → RiskLevel
next_level low = medium
next_level medium = high
next_level high = critical
next_level critical = critical
next_level _ = low

-- Where the greatest level among the hits raises the request's, the level that the audit names is
-- the one above the request's: the index into the list of levels is in range.
pub elevated_level-next_level :
    (orig max_level : RiskLevel)
    → raises orig max_level ≡ true
    → elevated_level orig max_level ≡ some (next_level orig)
unfolding elevated_level
elevated_level-next_level low max_level h = ground arith
elevated_level-next_level medium max_level h = ground arith
elevated_level-next_level high max_level h = ground arith
elevated_level-next_level critical max_level h = ground arith
elevated_level-next_level (RiskLevel.other s) max_level h = ground arith

-- The rank of a hit's risk level, -1 if it has none.
abbrev pub rank : Option RiskLevel → ℤ
rank none = negsuc 0
rank (some l) = risk_order l

risk_order_least : (l : RiskLevel) → negsuc 0 ≤ℤ risk_order l
risk_order_least l = ground arith

better_bound :
    (r : ℤ) (l : RiskLevel) (o : Option RiskLevel)
    → risk_order l ≡ r
    → let b = better r l o in (risk_order b.1 ≡ b.0) × (r ≤ℤ b.0) × (rank o ≤ℤ b.0)
better_bound r l none e = (e, omega arith, rw (← e) (risk_order_least l))
better_bound r l (some k) e = (ground arith, ground arith, ground arith)

le_ℤ_trans : (a b c : ℤ) → a ≤ℤ b → b ≤ℤ c → a ≤ℤ c
le_ℤ_trans a b c h k = omega arith

max_loop_bound :
    (r : ℤ) (l : RiskLevel) (hits : List RagHit)
    → risk_order l ≡ r
    → (r ≤ℤ risk_order (max_level_loop r l hits))
      × All (λ h. rank h.risk_level ≤ℤ risk_order (max_level_loop r l hits)) hits
unfolding max_level_loop
max_loop_bound r l [] e = (rw e (omega arith), tt)
max_loop_bound r l (h ∷ hits) e =
    let b = better r l h.risk_level in
    let (same, low', this) = better_bound r l h.risk_level e in
    let (up, others) = max_loop_bound b.0 b.1 hits same in
    let m = risk_order (max_level_loop b.0 b.1 hits) in
    (le_ℤ_trans r b.0 m low' up, (le_ℤ_trans (rank h.risk_level) b.0 m this up, others))

better_from :
    (r : ℤ) (l : RiskLevel) (o : Option RiskLevel) (top : ℤ)
    → r ≤ℤ top
    → rank o ≤ℤ top
    → (better r l o).0 ≤ℤ top
better_from r l none top h k = h
better_from r l (some x) top h k = ground arith

max_loop_least :
    (r : ℤ) (l : RiskLevel) (hits : List RagHit) (top : ℤ)
    → risk_order l ≡ r
    → r ≤ℤ top
    → All (λ h. rank h.risk_level ≤ℤ top) hits
    → risk_order (max_level_loop r l hits) ≤ℤ top
unfolding max_level_loop
max_loop_least r l [] top e h a = rw e h
max_loop_least r l (x ∷ hits) top e h a =
    let b = better r l x.risk_level in
    let (same, _, _) = better_bound r l x.risk_level e in
    max_loop_least b.0 b.1 hits top same (better_from r l x.risk_level top h a.0) a.1

-- If no hit is riskier than the request, retrieval leaves the outcome as it was.
pub revise_same :
    (level : RiskLevel) (o : Outcome) (hits : List RagHit)
    → All (λ h. rank h.risk_level ≤ℤ risk_order level) hits
    → revise level o hits ≡ o
unfolding revise max_hit_risk_level
revise_same level o [] a = refl
revise_same level o (h ∷ hits) a =
    let top =
      max_loop_least (negsuc 0) (RiskLevel.other []) (h ∷ hits) (risk_order level) refl
        (risk_order_least level) a in
    ground arith

some_riskier :
    (level : RiskLevel) (top : ℤ) (hits : List RagHit)
    → Any (λ h. ltb_ℤ (risk_order level) (rank h.risk_level) ≡ true) hits
    → All (λ h. rank h.risk_level ≤ℤ top) hits
    → ltb_ℤ (risk_order level) top ≡ true
some_riskier level top [] a b = elim a [ ]
some_riskier level top (h ∷ hits) (here x) b = let c = b.0 in ground arith
some_riskier level top (h ∷ hits) (there a) b = some_riskier level top hits a b.1

lt_raises : (a b : ℤ) → ltb_ℤ a b ≡ true → not (leb_ℤ b a) ≡ true
lt_raises a b h = ground arith

order-cap_decision : (d : Decision) → decision_order (cap_decision d) ≡ min 4 (decision_order d + 1)
unfolding cap_decision
order-cap_decision d = ground arith

-- If some hit is riskier than the request, the decision becomes one step more severe, or stays
-- `deny`.
revise_step :
    (level : RiskLevel) (o : Outcome) (hits : List RagHit)
    → Any (λ h. ltb_ℤ (risk_order level) (rank h.risk_level) ≡ true) hits
    → decision_order (revise level o hits).decision ≡ min 4 (decision_order o.decision + 1)
unfolding revise max_hit_risk_level
revise_step level o [] a = elim a [ ]
revise_step level o (h ∷ hits) a =
    let bound = max_loop_bound (negsuc 0) (RiskLevel.other []) (h ∷ hits) refl in
    rw (lt_raises _ _ (some_riskier level _ (h ∷ hits) a bound.1)) (order-cap_decision o.decision)

filter_split :
    (hits : List RagHit)
    → All (λ h. is_high_risk h ≡ false) (filter_loop hits).0
      × All (λ h. is_high_risk h ≡ true) (filter_loop hits).1
      × Perm ((filter_loop hits).1 ++ (filter_loop hits).0) hits
unfolding filter_loop
filter_split [] = (tt, tt, Perm.refl [])
filter_split (h ∷ hits) =
    let (kept, dropped, perm) = filter_split hits in
    elim (Bool-cases (is_high_risk h)) [
      | inl e ↦ rw (e, filter_loop) (kept, (e, dropped), Perm.cons h perm)
      | inr e ↦
          rw (e, filter_loop)
            (
              (e, kept),
              dropped,
              Perm.trans (perm_middle (filter_loop hits).1 (filter_loop hits).0) (Perm.cons h perm),
            )
    ]

-- What an external model is not given: no kept hit is of high or critical risk, and every dropped one
-- is.
pub filter_high_risk_lem :
    (hits : List RagHit)
    → All (λ h. is_high_risk h ≡ false) (filter_high_risk_for_external hits true).0
      × All (λ h. is_high_risk h ≡ true) (filter_high_risk_for_external hits true).1
      × Perm
          ((filter_high_risk_for_external hits true).1
            ++ (filter_high_risk_for_external hits true).0)
          hits
unfolding filter_high_risk_for_external
filter_high_risk_lem hits = filter_split hits

-- The runes of the snippets.
abbrev pub runes : List RagHit → ℕ
runes [] = 0
runes (h ∷ hits) = length h.snippet + runes hits

truncate_fits :
    (budget used : ℕ) (hits : List RagHit)
    → used ≤ budget
    → used + runes (truncate_loop budget used hits) ≤ budget
unfolding truncate_loop
truncate_fits budget used [] h = omega arith
truncate_fits budget used (x ∷ hits) h =
    ground (arith, truncate_fits budget (used + length x.snippet) hits)

-- With a positive budget, the snippets that are kept have no more runes than the budget.
pub runes-truncate_by_budget :
    (hits : List RagHit) (budget : ℕ) → 0 < budget → runes (truncate_by_budget hits budget) ≤ budget
unfolding truncate_by_budget
runes-truncate_by_budget hits budget h = ground (arith, truncate_fits budget 0 hits)
