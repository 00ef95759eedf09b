-- ===== src/Tests/Engine.antt =====
-- The policy engine on a request of the documents: personal data of
-- medium risk, an external model.
use rubez_ai.Prelude.{◌≤◌, ◌≡◌, refl, [], ◌∷◌, arith, txt}
use rubez_ai.Policy.{
  external, medium, high, pii, commercial, allow_masked, has_class_in, Input, decide,
  default_policy,
}
use rubez_ai.Policy.Laws.{decide-verdict, Decides, decide-Decides}
use rubez_ai.Policy.Severity.{decision_order}
use rubez_ai.Policy.Monotone.{Riskier, decide-Riskier}

abbrev personal : Input
personal = record {
  model_trust = external;
  risk = record { level = medium; classes = pii ∷ []; score = 0 };
  entity_types = txt "PERSON" ∷ [];
  user_role = txt "user";
  context = txt "chat";
}

abbrev grave : Input
grave = record personal {
  risk = record { level = high; classes = pii ∷ commercial ∷ []; score = 0 };
}

decide-verdict_example : (decide default_policy personal).decision ≡ allow_masked
unfolding has_class_in
decide-verdict_example = decide-verdict personal

decide-Decides_example : Decides personal default_policy.rules (decide default_policy personal)
decide-Decides_example = decide-Decides default_policy personal

personal-Riskier : Riskier personal grave
unfolding has_class_in
personal-Riskier = record { same_model = refl; level = omega arith; classes = λ c h. ground arith }

decide-Riskier_example :
    decision_order (decide default_policy personal).decision
    ≤ decision_order (decide default_policy grave).decision
decide-Riskier_example = decide-Riskier personal grave tt personal-Riskier
