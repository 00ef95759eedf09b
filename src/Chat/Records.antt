-- ===== src/Chat/Records.antt =====
-- The records of the audit trail and the two texts of an answer: rubezh-api/internal/chat/records.go.
use rubez_ai.Prelude.{
  Bool, true, false, none, some, List, [], ◌∷◌, ◌++◌, if◌then◌else◌, Text, txt, is_empty,
  trim_space,
}
use rubez_ai.Policy.{Outcome, Decision, allow_summary_only, escalate}
use rubez_ai.Sanitizer.{PreviewResponse}
use rubez_ai.Pseudonym.{PseudonymMap}
use rubez_ai.Pseudonym.Replace.{remask}
use rubez_ai.Storage.{
  EventType, chat_request, chat_error, AuditEvent, Detail, text, flag, texts, PseudonymMappingInput,
  ChatRequestRecord, ChatTerminationRecord,
}
use rubez_ai.Chat.Types.{Request, MetaEvent}
use rubez_ai.Chat.Decision.{Action}

unfoldable pub audit_event : Request → PreviewResponse → Outcome → EventType → Detail → AuditEvent
audit_event req preview outcome event_type detail = record {
  user_id = req.user_id;
  event_type = event_type;
  model_provider_id = some req.provider_id;
  risk_level = some preview.risk.level;
  risk_classes = preview.risk.classes;
  policy_decision = some outcome.decision;
  policy_version_id = none;
  matched_rule = outcome.matched_rule;
  masked_payload = some preview.sanitized_text;
  detail = detail;
}

-- The sanitizer's entities are stored as their JSON.
unfoldable pub request_record_with_detail :
    Request → PreviewResponse → Outcome → List PseudonymMappingInput → Detail → ChatRequestRecord
unfolding audit_event
request_record_with_detail req preview outcome mappings detail = record {
  session_id = req.session_id;
  user_content = preview.sanitized_text;
  request_id = req.request_id;
  sanitization = record {
    risk_level = preview.risk.level;
    risk_score = preview.risk.score;
    risk_classes = preview.risk.classes;
    entities = preview.entities;
  };
  mappings = mappings;
  audit = audit_event req preview outcome chat_request detail;
}

abbrev pub request_id_detail : Request → Detail
request_id_detail req = (txt "request_id", text req.request_id) ∷ []

abbrev pub leak_detail : List Text → Detail
leak_detail [] = []
leak_detail (p ∷ ps) =
    (txt "response_leak_detected", flag true) ∷ (txt "leaked_pseudonyms", texts (p ∷ ps)) ∷ []

unfoldable pub termination_record :
    Request → PreviewResponse → Outcome → EventType → Text → List Text → ChatTerminationRecord
unfolding audit_event
termination_record req preview outcome event_type assistant_content leaked = record {
  session_id = req.session_id;
  assistant_content = assistant_content;
  model_provider_id = some req.provider_id;
  request_id = req.request_id;
  audit = audit_event req preview outcome event_type (request_id_detail req ++ leak_detail leaked);
}

-- The detail with the id of the request.
unfoldable pub error_event : Request → Detail → AuditEvent
error_event req detail = record {
  user_id = req.user_id;
  event_type = chat_error;
  model_provider_id = if is_empty req.provider_id then none else some req.provider_id;
  risk_level = none;
  risk_classes = [];
  policy_decision = none;
  policy_version_id = none;
  matched_rule = none;
  masked_payload = none;
  detail = detail ++ request_id_detail req;
}

unfoldable pub policy_error_event : Request → PreviewResponse → Outcome → Detail → AuditEvent
unfolding error_event
policy_error_event req preview outcome detail = record (error_event req detail) {
  risk_level = some preview.risk.level;
  risk_classes = preview.risk.classes;
  policy_decision = some outcome.decision;
  matched_rule = outcome.matched_rule;
  masked_payload = some preview.sanitized_text;
}

unfoldable pub sanitized_error_event : Request → PreviewResponse → Detail → AuditEvent
unfolding error_event
sanitized_error_event req preview detail = record (error_event req detail) {
  risk_level = some preview.risk.level;
  risk_classes = preview.risk.classes;
  masked_payload = some preview.sanitized_text;
}

abbrev pub is_summary_only : Decision → Bool
is_summary_only allow_summary_only = true
is_summary_only _ = false

unfoldable pub meta_for : Request → PreviewResponse → Outcome → MetaEvent
meta_for req preview outcome = record {
  decision = outcome.decision;
  risk = record {
    level = preview.risk.level;
    score = preview.risk.score;
    classes = preview.risk.classes;
  };
  provider = req.provider;
  reasons =
      if is_summary_only outcome.decision
      then outcome.reasons ++ txt "Ответ обезличен: показаны псевдонимы (режим резюме)" ∷ []
      else outcome.reasons;
  request_id = req.request_id;
}

-- What is stored and what is streamed.
unfoldable pub final_texts : Action → PseudonymMap → Text → Text × Text
final_texts act pmap raw_output =
    if act.summary_mode
    then (remask pmap raw_output, remask pmap raw_output)
    else if act.restore
    then (remask pmap raw_output, remask pmap raw_output)
    else (raw_output, raw_output)

-- `strings.Join`.
unfoldable pub join : Text → List Text → Text
join sep [] = []
join sep (s ∷ []) = s
join sep (s ∷ t ∷ ss) = s ++ (sep ++ join sep (t ∷ ss))

abbrev pub notice_prefix : Decision → Text
notice_prefix escalate = txt "Запрос направлен на согласование специалисту ИБ."
notice_prefix _ = txt "Запрос отклонён политикой безопасности."

unfoldable pub blocked_notice : Outcome → Text
unfolding join
blocked_notice outcome =
    trim_space (notice_prefix outcome.decision ++ (txt " " ++ join (txt "; ") outcome.reasons))
