-- ===== src/Chat/Rag/Kept.antt =====
-- chat/rag.go: what the filter and the budget keep of the hits.
use rubez_ai.Prelude.{
  ℕ, ◌+◌, ◌≤◌, ◌≡◌, inl, inr, Bool, true, false, List, [], ◌∷◌, arith, ltb, Bool-cases, length, All,
}
use rubez_ai.Chat.Types.{RagHit}
use rubez_ai.Chat.Rag.{
  is_high_risk, filter_loop, filter_high_risk_for_external, truncate_loop, truncate_by_budget,
}
use rubez_ai.Chat.Rag.Laws.{filter_high_risk_lem}

module _ (P : RagHit → Type 0) where
  All-filter_loop : (hits : List RagHit) → All P hits → All P (filter_loop hits).0
  unfolding filter_loop
  All-filter_loop [] h = tt
  All-filter_loop (x ∷ hits) h = elim (Bool-cases (is_high_risk x)) [
    | inl e ↦ rw (e) (All-filter_loop hits h.1)
    | inr e ↦ rw (e) (h.0, All-filter_loop hits h.1)
  ]

  All-truncate_loop :
      (budget used : ℕ) (hits : List RagHit) → All P hits → All P (truncate_loop budget used hits)
  unfolding truncate_loop
  All-truncate_loop budget used [] h = tt
  All-truncate_loop budget used (x ∷ hits) h =
      elim (Bool-cases (ltb budget (used + length x.snippet))) [
        | inl e ↦ rw (e) tt
        | inr e ↦ rw (e) (h.0, All-truncate_loop budget (used + length x.snippet) hits h.1)
      ]

  pub All-truncate_by_budget :
      (hits : List RagHit) (budget : ℕ) → All P hits → All P (truncate_by_budget hits budget)
  unfolding truncate_by_budget
  All-truncate_by_budget hits budget h = All-truncate_loop _ 0 hits h

  pub All-filter_high_risk :
      (hits : List RagHit) (external : Bool)
      → All P hits
      → All P (filter_high_risk_for_external hits external).0
  unfolding filter_high_risk_for_external
  All-filter_high_risk hits true h = All-filter_loop hits h
  All-filter_high_risk hits false h = h

pub filter_high_risk_mild :
    (hits : List RagHit) (external : Bool)
    → external ≡ true
    → All (λ h. is_high_risk h ≡ false) (filter_high_risk_for_external hits external).0
filter_high_risk_mild hits true e = (filter_high_risk_lem hits).0
filter_high_risk_mild hits false e = cc

length-filter_loop : (hits : List RagHit) → length (filter_loop hits).0 ≤ length hits
unfolding filter_loop
length-filter_loop [] = omega arith
length-filter_loop (x ∷ hits) = ground (arith, length-filter_loop hits)

pub length-filter_high_risk :
    (hits : List RagHit) (external : Bool)
    → length (filter_high_risk_for_external hits external).0 ≤ length hits
unfolding filter_high_risk_for_external
length-filter_high_risk hits true = length-filter_loop hits
length-filter_high_risk hits false = omega arith

length-truncate_loop :
    (budget used : ℕ) (hits : List RagHit) → length (truncate_loop budget used hits) ≤ length hits
unfolding truncate_loop
length-truncate_loop budget used [] = omega arith
length-truncate_loop budget used (x ∷ hits) =
    ground (arith, length-truncate_loop budget (used + length x.snippet) hits)

pub length-truncate_by_budget :
    (hits : List RagHit) (budget : ℕ) → length (truncate_by_budget hits budget) ≤ length hits
unfolding truncate_by_budget
length-truncate_by_budget hits budget = length-truncate_loop _ 0 hits
