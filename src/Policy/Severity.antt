-- ===== src/Policy/Severity.antt =====
-- The severity scales of rubezh-api/internal/chat/orchestrator_rag.go: risk levels and decisions as
-- numbers.
use rubez_ai.Prelude.{ℕ, ◌==◌, if◌then◌else◌}
use rubez_ai.Prelude.Int.{ℤ, pos, negsuc}
use rubez_ai.Policy.{
  RiskLevel, low, medium, high, critical, Decision, allow_raw, allow_masked, allow_summary_only,
  deny, escalate,
}

abbrev pub risk_order : RiskLevel → ℤ
risk_order low = pos 0
risk_order medium = pos 1
risk_order high = pos 2
risk_order critical = pos 3
risk_order _ = negsuc 0

abbrev pub decision_order : Decision → ℕ
decision_order allow_raw = 0
decision_order allow_masked = 1
decision_order allow_summary_only = 2
decision_order escalate = 3
decision_order deny = 4

-- The argument is at least 0 wherever the code calls it.
abbrev pub decision_by_order : ℕ → Decision
decision_by_order o =
    if o == 0
    then allow_raw
    else if o == 1
    then allow_masked
    else if o == 2
    then allow_summary_only
    else if o == 3
    then escalate
    else deny
