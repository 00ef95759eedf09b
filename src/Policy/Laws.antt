-- ===== src/Policy/Laws.antt =====
-- What the default policy decides, against the classes of data and the trust of the model.
use rubez_ai.Prelude.{
  refl, none, some, ◌≡◌, ◌↔◌, inl, inr, true, false, List, [], ◌∷◌, arith, if◌then◌else◌,
  Bool-cases,
}
use rubez_ai.Policy.{
  secret, pii, commercial, Decision, allow_raw, allow_masked, allow_summary_only, deny, escalate,
  is_critical, is_high, has_class, Input, Outcome, Rule, Policy, decide_rules, decide, is_sensitive,
  is_external_trust, is_on_prem, is_trusted_local, default_policy,
}

-- The decision as one nested test: an independent reading of the seven rules.
abbrev pub verdict : Input → Decision
verdict i =
    if has_class i.risk secret
    then deny
    else if is_critical i.risk.level
    then escalate
    else if is_external_trust i.model_trust
    then if is_high i.risk.level
      then allow_summary_only
      else if is_sensitive i
      then allow_masked
      else allow_raw
    else if is_on_prem i.model_trust
    then if is_sensitive i then allow_masked else allow_raw
    else if is_trusted_local i.model_trust
    then allow_raw
    else deny

-- The rule list of the default policy decides as the nested test does, on every input.
pub decide-verdict : (i : Input) → (decide default_policy i).decision ≡ verdict i
unfolding decide default_policy
decide-verdict i = ground arith

-- An external or Russian cloud model gets the raw text exactly when the request has none of the
-- three classes of sensitive data and its risk is neither high nor critical.
external-raw :
    (i : Input)
    → is_external_trust i.model_trust ≡ true
    → ((decide default_policy i).decision ≡ allow_raw) ↔ (
        (has_class i.risk pii ≡ false)
        × (has_class i.risk commercial ≡ false)
        × (has_class i.risk secret ≡ false)
        × (is_high i.risk.level ≡ false)
        × (is_critical i.risk.level ≡ false))
external-raw i h = rw (decide-verdict i) (ground arith)

-- Which rule a list of rules is decided by: the first that matches, or none.
pub data Decides (i : Input) : List Rule → Outcome → Type 0 where
  exhausted : {o : Outcome} → o.decision ≡ deny → o.matched_rule ≡ none → Decides i [] o
  fires :
      (r : Rule) {rs : List Rule} {o : Outcome}
      → r.match i ≡ true
      → o.decision ≡ r.decision
      → o.matched_rule ≡ some r.name
      → o.reasons ≡ r.reason ∷ []
      → Decides i (r ∷ rs) o
  skips :
      (r : Rule) {rs : List Rule} {o : Outcome}
      → r.match i ≡ false
      → Decides i rs o
      → Decides i (r ∷ rs) o

decide_rules-Decides : (i : Input) (rs : List Rule) → Decides i rs (decide_rules rs i)
unfolding decide_rules
decide_rules-Decides i [] = exhausted refl refl
decide_rules-Decides i (r ∷ rs) = elim (Bool-cases (r.match i)) [
  | inl e ↦ rw e (fires r e refl refl refl)
  | inr e ↦ rw e (skips r e (decide_rules-Decides i rs))
]

-- Whatever the rules of a policy, its outcome has the decision, the name and the reason of the first
-- rule that matches, or the decision deny and the name of no rule if none does.
pub decide-Decides : (p : Policy) (i : Input) → Decides i p.rules (decide p i)
unfolding decide
decide-Decides p i = decide_rules-Decides i p.rules
