-- ===== src/Chat/Incident.antt =====
-- When an incident is opened, and how severe it is: rubezh-api/internal/chat/auto_incident.go.
use rubez_ai.Prelude.{
  ◌≡◌, ◌⊎◌, Bool, true, Option, none, some, List, [], ◌∷◌, ◌++◌, map, arith, if◌then◌else◌, Text,
  txt,
}
use rubez_ai.Chat.Records.{join}
use rubez_ai.Policy.{
  is_critical, RiskClass, pii, secret, commercial, RiskLevel, low, medium, high, critical, Decision,
  deny, escalate,
}
use rubez_ai.Storage.{
  incident_created_auto, incident_create_failed, AuditEvent, text, IncidentInput,
}
use rubez_ai.Chat.Types.{Request}
use rubez_ai.Policy.Severity.{risk_order}
use rubez_ai.Prelude.Int.{pos, ◌≤ℤ◌, ◌+ℤ◌}

-- The empty trigger is `none`.
pub data TriggerKind : Type 0 where
  trigger_deny trigger_escalate trigger_leak : TriggerKind

unfoldable pub auto_incident_trigger : Decision → Bool → Option TriggerKind
auto_incident_trigger deny leak_detected = some trigger_deny
auto_incident_trigger escalate leak_detected = some trigger_escalate
auto_incident_trigger _ leak_detected = if leak_detected then some trigger_leak else none

-- The severity is one of the four levels, never another string.
unfoldable pub severity_for : RiskLevel → TriggerKind → RiskLevel
severity_for low trigger_leak = high
severity_for medium trigger_leak = critical
severity_for high trigger_leak = critical
severity_for critical trigger_leak = critical
severity_for _ trigger_leak = high
severity_for (RiskLevel.other _) _ = medium
severity_for level _ = level

abbrev pub level_text : RiskLevel → Text
level_text low = txt "low"
level_text medium = txt "medium"
level_text high = txt "high"
level_text critical = txt "critical"
level_text (RiskLevel.other s) = s

abbrev pub trigger_text : TriggerKind → Text
trigger_text trigger_deny = txt "deny"
trigger_text trigger_escalate = txt "escalate"
trigger_text trigger_leak = txt "response_leak_detected"

-- The audit event of the transaction that opens the incident.
unfoldable pub created_event : Request → TriggerKind → Text → RiskLevel → AuditEvent
created_event req trigger termination_audit_id severity = record {
  user_id = req.user_id;
  event_type = incident_created_auto;
  model_provider_id = none;
  risk_level = none;
  risk_classes = [];
  policy_decision = none;
  policy_version_id = none;
  matched_rule = none;
  masked_payload = none;
  detail =
      (txt "request_id", text req.request_id)
      ∷ (txt "trigger", text (trigger_text trigger))
      ∷ (txt "audit_event_id", text termination_audit_id)
      ∷ (txt "severity", text (level_text severity))
      ∷ [];
}

unfoldable pub failed_event : Request → TriggerKind → Text → Text → AuditEvent
failed_event req trigger termination_audit_id error = record {
  user_id = req.user_id;
  event_type = incident_create_failed;
  model_provider_id = none;
  risk_level = none;
  risk_classes = [];
  policy_decision = none;
  policy_version_id = none;
  matched_rule = none;
  masked_payload = none;
  detail =
      (txt "request_id", text req.request_id)
      ∷ (txt "trigger", text (trigger_text trigger))
      ∷ (txt "audit_event_id", text termination_audit_id)
      ∷ (txt "error", text error)
      ∷ [];
}

abbrev pub class_text : RiskClass → Text
class_text pii = txt "pii"
class_text secret = txt "secret"
class_text commercial = txt "commercial"
class_text (RiskClass.other s) = s

-- `%v` of a list of strings.
unfoldable pub classes_text : List RiskClass → Text
unfolding join
classes_text classes = txt "[" ++ (join (txt " ") (map class_text classes) ++ txt "]")

unfoldable pub auto_incident_title : TriggerKind → RiskLevel → Text
auto_incident_title trigger_deny level =
    txt "Авто: блокировка запроса (риск " ++ (level_text level ++ txt ")")
auto_incident_title trigger_escalate level =
    txt "Авто: эскалация запроса (риск " ++ (level_text level ++ txt ")")
auto_incident_title trigger_leak level =
    txt "Авто: модель воспроизвела замаскированное значение (риск " ++ (level_text level ++ txt ")")

unfoldable pub auto_incident_summary : TriggerKind → RiskLevel → List RiskClass → Text
unfolding classes_text
auto_incident_summary trigger_leak level classes =
    txt "Модель воспроизвела одно из замаскированных значений в ответе. Уровень риска: "
    ++ (level_text level
        ++ (txt ". Классы: "
            ++ (classes_text classes ++ txt ". См. detail.leaked_pseudonyms в audit.")))
auto_incident_summary trigger level classes =
    txt "Policy engine принял решение "
    ++ (trigger_text trigger
        ++ (txt ". Уровень риска: "
            ++ (level_text level ++ (txt ". Классы: " ++ (classes_text classes ++ txt ".")))))

unfoldable pub incident_input :
    Request → TriggerKind → RiskLevel → List RiskClass → Text → IncidentInput
unfolding severity_for auto_incident_title auto_incident_summary
incident_input req trigger level classes termination_audit_id = record {
  audit_event_id = some termination_audit_id;
  user_id = some req.user_id;
  reporter_id = none;
  assignee_id = none;
  severity = level_text (severity_for level trigger);
  status = txt "open";
  title = auto_incident_title trigger level;
  summary = some (auto_incident_summary trigger level classes);
}

-- The severity of an incident is one of the four levels and at least the request's risk. That of a leak
-- is at least high and, unless the risk is critical, above it.
severity_for_order :
    (level : RiskLevel) (t : TriggerKind)
    → (pos 0 ≤ℤ risk_order (severity_for level t))
      × (risk_order level ≤ℤ risk_order (severity_for level t))
      × (pos 2 ≤ℤ risk_order (severity_for level trigger_leak))
      × ((is_critical level ≡ true)
          ⊎ (risk_order level +ℤ pos 1 ≤ℤ risk_order (severity_for level trigger_leak)))
unfolding severity_for
severity_for_order level t = ground arith
