-- ===== src/Policy/Monotone.antt =====
-- How the decision of the default policy changes with the risk.
use rubez_ai.Prelude.{◌≤◌, ◌≡◌, true, arith}
use rubez_ai.Prelude.Int.{◌≤ℤ◌}
use rubez_ai.Policy.{
  ModelTrust, RiskClass, pii, secret, commercial, has_class, Input, decide, default_policy,
}
use rubez_ai.Policy.Laws.{verdict, decide-verdict}
use rubez_ai.Policy.Severity.{risk_order, decision_order}

-- The models that the rules name.
abbrev pub IsKnownTrust : ModelTrust → Type 0
IsKnownTrust (ModelTrust.other _) = ⊥
IsKnownTrust _ = Unit

-- `b` is at least as risky as `a` for the same model.
pub record Riskier (a b : Input) : Type 0 where
  pub same_model : b.model_trust ≡ a.model_trust
  pub level : risk_order a.risk.level ≤ℤ risk_order b.risk.level
  pub classes : (c : RiskClass) → has_class a.risk c ≡ true → has_class b.risk c ≡ true

verdict_mono :
    (a b : Input)
    → IsKnownTrust a.model_trust
    → Riskier a b
    → decision_order (verdict a) ≤ decision_order (verdict b)
verdict_mono a b k r = ground (arith, r.classes pii, r.classes secret, r.classes commercial)

-- With a known trust level of the model, a request with at least the risk level and all the risk
-- classes of another gets a decision at least as severe, on the scale that revises decisions after
-- retrieval.
pub decide-Riskier :
    (a b : Input)
    → IsKnownTrust a.model_trust
    → Riskier a b
    → decision_order (decide default_policy a).decision
      ≤ decision_order (decide default_policy b).decision
decide-Riskier a b k r = rw (decide-verdict a, decide-verdict b) (verdict_mono a b k r)
