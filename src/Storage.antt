-- ===== src/Storage.antt =====
-- The records that the orchestrator hands to the database layer: rubezh-api/internal/storage
-- (audit.go, chat.go, mapping.go, incidents.go). A nil pointer is `none`; a JSON detail is a list of
-- named values.
pub mod Audit
pub mod Incidents
pub mod Documents
pub mod Search
use rubez_ai.Prelude.{ℕ, Bool, Option, List, Text}
use rubez_ai.Policy.{RiskLevel, RiskClass, Decision}
use rubez_ai.Sanitizer.{Entity}

pub data EventType : Type 0 where
  chat_request chat_response chat_blocked chat_error : EventType
  incident_created_auto incident_create_failed : EventType
  rag_query rag_chunk_dropped_high_risk rag_chunk_suspicious_pattern : EventType
  policy_revised_after_rag policy_revised_after_rag_throttled : EventType

-- One reviewer's system prompt in the audit detail.
pub record PromptAudit : Type 0 where
  pub name : Text
  pub sha256 : Text
  pub masked : Text
  pub fallback : Bool

pub data Value : Type 0 where
  text : Text → Value
  number : ℕ → Value
  flag : Bool → Value
  texts : List Text → Value
  numbers : List ℕ → Value
  prompts : List PromptAudit → Value

abbrev pub Detail : Type 0
Detail = List (Text × Value)

pub record AuditEvent : Type 0 where
  pub user_id : Text
  pub event_type : EventType
  pub model_provider_id : Option Text
  pub risk_level : Option RiskLevel
  pub risk_classes : List RiskClass
  pub policy_decision : Option Decision
  pub policy_version_id : Option Text
  pub matched_rule : Option Text
  pub masked_payload : Option Text
  pub detail : Detail

-- The encrypted value is a list of bytes.
pub record PseudonymMappingInput : Type 0 where
  pub pseudonym : Text
  pub entity_type : Text
  pub raw_hash : Text
  pub raw_value_encrypted : List ℕ

pub record SanitizationData : Type 0 where
  pub risk_level : RiskLevel
  pub risk_score : ℕ
  pub risk_classes : List RiskClass
  pub entities : List Entity

pub record ChatRequestRecord : Type 0 where
  pub session_id : Text
  pub user_content : Text
  pub request_id : Text
  pub sanitization : SanitizationData
  pub mappings : List PseudonymMappingInput
  pub audit : AuditEvent

pub record ChatTerminationRecord : Type 0 where
  pub session_id : Text
  pub assistant_content : Text
  pub model_provider_id : Option Text
  pub request_id : Text
  pub audit : AuditEvent

pub record ChatTerminationIds : Type 0 where
  pub assistant_message_id : Text
  pub audit_event_id : Text

pub record IncidentInput : Type 0 where
  pub audit_event_id : Option Text
  pub user_id : Option Text
  pub reporter_id : Option Text
  pub assignee_id : Option Text
  pub severity : Text
  pub status : Text
  pub title : Text
  pub summary : Option Text
