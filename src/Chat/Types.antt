-- ===== src/Chat/Types.antt =====
-- Requests and events: rubezh-api/internal/chat/types.go, with `RAGParams` and `RAGHit` of rag.go and
-- the messages of rubezh-api/internal/llm/provider.go.
use rubez_ai.Prelude.{ℕ, Bool, Option, List, Text}
use rubez_ai.Prelude.Int.{ℤ}
use rubez_ai.Policy.{ModelTrust, RiskLevel, RiskClass, Decision, Outcome}
use rubez_ai.Sanitizer.{PreviewResponse}
use rubez_ai.Pseudonym.{PseudonymMap}
use rubez_ai.Prelude.Dict.{Dict}

pub data Role : Type 0 where
  system user assistant : Role
  other : Text → Role

pub record ChatMessage : Type 0 where
  pub role : Role
  pub content : Text

pub record ChatRequest : Type 0 where
  pub model : Text
  pub messages : List ChatMessage
  pub api_key_override : Text

-- The request for a preview. The orchestrator never sets the document id.
pub record PreviewRequest : Type 0 where
  pub text : Text
  pub context : Text

pub record RagParams : Type 0 where
  pub enabled : Bool
  pub document_ids : List Text
  pub top_k : ℤ

-- `relevance` is a float64 that is only passed on: its 64 bits.
pub record RagHit : Type 0 where
  pub document_id : Text
  pub chunk_index : ℕ
  pub filename : Text
  pub relevance : ℕ
  pub snippet : Text
  pub risk_level : Option RiskLevel

pub record ReviewProvider : Type 0 where
  pub name : Text
  pub model : Text
  pub system_prompt : Text

pub record ReviewParams : Type 0 where
  pub enabled : Bool
  pub providers : List ReviewProvider
  pub max_rounds : ℤ

pub record Request : Type 0 where
  pub request_id : Text
  pub session_id : Text
  pub user_id : Text
  pub user_role : Text
  pub message : Text
  pub provider : Text
  pub provider_id : Text
  pub model_trust : ModelTrust
  pub model : Text
  pub system_prompt : Text
  pub preview_token : Text
  pub api_key_override : Text
  pub rag : Option RagParams
  pub review : Option ReviewParams

pub record RiskView : Type 0 where
  pub level : RiskLevel
  pub score : ℕ
  pub classes : List RiskClass

pub record MetaEvent : Type 0 where
  pub decision : Decision
  pub risk : RiskView
  pub provider : Text
  pub reasons : List Text
  pub request_id : Text

pub data Stage : Type 0 where
  policy_checked rag_search rag_done policy_revised blocked llm_call llm_done streaming_answer :
      Stage
  review_started review_round review_call review_done review_complete review_fallback : Stage
  review_revise review_revised : Stage

-- The text that a status shows to a person is not kept.
pub record StatusEvent : Type 0 where
  pub request_id : Text
  pub stage : Stage
  pub provider : Text
  pub model : Text

-- orchestrator.go: what `Prepare` hands to `Stream`.
pub record Prepared : Type 0 where
  pub preview : PreviewResponse
  pub outcome : Outcome
  pub pmap : PseudonymMap
  pub system_prompt_for_llm : Text
  pub system_prompt_sha256 : Text
  pub review_system_prompts : Dict Text
