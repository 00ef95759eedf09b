-- ===== src/Policy.antt =====
-- The deterministic policy engine: rubezh-api/internal/policy/policy.go and engine.go. The constants
-- of a Go string type are the constructors of a data type; a type whose values come from outside
-- the program (the sanitizer's risk levels and classes, the trust level of a model's record) has a
-- constructor `other` for every other string, and only these constructors are compared.
pub mod Laws
pub mod Severity
pub mod Monotone
use rubez_ai.Prelude.{
  ℕ, Text, txt, Bool, true, false, ◌&&◌, ◌||◌, Option, none, some, List, [], ◌∷◌, if◌then◌else◌,
}

pub data ModelTrust : Type 0 where
  external russian_cloud on_prem trusted_local : ModelTrust
  other : Text → ModelTrust

pub data RiskLevel : Type 0 where
  low medium high critical : RiskLevel
  other : Text → RiskLevel

pub data RiskClass : Type 0 where
  pii secret commercial : RiskClass
  other : Text → RiskClass

pub data Decision : Type 0 where
  allow_raw allow_masked allow_summary_only deny escalate : Decision

-- `score` is a float64 that the Go code only passes on: the field holds its 64 bits.
pub record Risk : Type 0 where
  pub level : RiskLevel
  pub classes : List RiskClass
  pub score : ℕ

-- Go's `==` against a constant.
abbrev pub is_critical : RiskLevel → Bool
is_critical critical = true
is_critical _ = false

abbrev pub is_high : RiskLevel → Bool
is_high high = true
is_high _ = false

abbrev pub class_eq : RiskClass → RiskClass → Bool
class_eq pii pii = true
class_eq secret secret = true
class_eq commercial commercial = true
class_eq (RiskClass.other a) (RiskClass.other b) = rubez_ai.Prelude.text_eq a b
class_eq _ _ = false

unfoldable pub has_class_in : List RiskClass → RiskClass → Bool
has_class_in [] class = false
has_class_in (c ∷ cs) class = class_eq c class || has_class_in cs class

abbrev pub has_class : Risk → RiskClass → Bool
has_class r class = has_class_in r.classes class

pub record Input : Type 0 where
  pub model_trust : ModelTrust
  pub risk : Risk
  pub entity_types : List Text
  pub user_role : Text
  pub context : Text

-- The engine never sets the id and the version of a stored policy: they are nil in every outcome.
pub record Outcome : Type 0 where
  pub decision : Decision
  pub matched_policy_id : Option Text
  pub matched_policy_version : Option ℕ
  pub matched_rule : Option Text
  pub reasons : List Text

pub record Rule : Type 0 where
  pub name : Text
  pub decision : Decision
  pub reason : Text
  pub match : Input → Bool

pub record Policy : Type 0 where
  pub name : Text
  pub rules : List Rule

abbrev pub no_rule : Outcome
no_rule = record {
  decision = deny;
  matched_policy_id = none;
  matched_policy_version = none;
  matched_rule = none;
  reasons = txt "ни одно правило политики не разрешило запрос" ∷ [];
}

abbrev pub fired : Rule → Outcome
fired r = record {
  decision = r.decision;
  matched_policy_id = none;
  matched_policy_version = none;
  matched_rule = some r.name;
  reasons = r.reason ∷ [];
}

-- The loop of `Decide`: the first rule that matches decides.
unfoldable pub decide_rules : List Rule → Input → Outcome
decide_rules [] i = no_rule
decide_rules (r ∷ rs) i = if r.match i then fired r else decide_rules rs i

unfoldable pub decide : Policy → Input → Outcome
unfolding decide_rules
decide p i = decide_rules p.rules i

abbrev pub is_sensitive : Input → Bool
is_sensitive i = has_class i.risk pii || has_class i.risk commercial

abbrev pub is_external_trust : ModelTrust → Bool
is_external_trust external = true
is_external_trust russian_cloud = true
is_external_trust _ = false

abbrev pub is_on_prem : ModelTrust → Bool
is_on_prem on_prem = true
is_on_prem _ = false

abbrev pub is_trusted_local : ModelTrust → Bool
is_trusted_local trusted_local = true
is_trusted_local _ = false

unfoldable pub default_policy : Policy
default_policy = record {
  name = txt "default";
  rules =
      record {
        name = txt "secret-deny";
        decision = deny;
        reason = txt "обнаружены секреты — отправка в любую LLM запрещена";
        match = λ i. has_class i.risk secret;
      }
      ∷ record {
        name = txt "critical-escalate";
        decision = escalate;
        reason = txt "критический уровень риска — требуется решение службы ИБ";
        match = λ i. is_critical i.risk.level;
      }
      ∷ record {
        name = txt "external-high-summary";
        decision = allow_summary_only;
        reason = txt "высокий риск при внешней модели — допустима только выжимка";
        match = λ i. is_external_trust i.model_trust && is_high i.risk.level;
      }
      ∷ record {
        name = txt "external-sensitive-masked";
        decision = allow_masked;
        reason = txt "внешняя модель получает только обезличенный текст";
        match = λ i. is_external_trust i.model_trust && is_sensitive i;
      }
      ∷ record {
        name = txt "external-clean-raw";
        decision = allow_raw;
        reason = txt "чувствительные данные не обнаружены";
        match = λ i. is_external_trust i.model_trust;
      }
      ∷ record {
        name = txt "onprem-sensitive-masked";
        decision = allow_masked;
        reason = txt "on-prem модель получает обезличенный текст";
        match = λ i. is_on_prem i.model_trust && is_sensitive i;
      }
      ∷ record {
        name = txt "trusted-raw";
        decision = allow_raw;
        reason = txt "доверенная модель в периметре заказчика";
        match = λ i. is_on_prem i.model_trust || is_trusted_local i.model_trust;
      }
      ∷ [];
}
