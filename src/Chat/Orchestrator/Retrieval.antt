-- ===== src/Chat/Orchestrator/Retrieval.antt =====
-- The retrieval between the first event and the model: `runRetrieval`, `maybeRevisePolicy`,
-- `writeRagQueryAudit` and `shouldAttemptRAG`. Whether the retriever was used is not returned, since
-- the only caller drops it. A latency is in whole milliseconds of a clock that does not go back.
use rubez_ai.Prelude.{
  ℕ, ◌-◌, ◌/◌, Bool, true, false, not, ◌&&◌, ◌||◌, Option, none, some, List, [], ◌∷◌, map,
  if◌then◌else◌, length, take, Text, txt,
}
use rubez_ai.Policy.{
  Decision, deny, escalate, allow_raw, allow_masked, allow_summary_only, RiskLevel, Outcome,
  ModelTrust, external, russian_cloud, on_prem, trusted_local, is_external_trust,
}
use rubez_ai.Sanitizer.{PreviewResponse}
use rubez_ai.Storage.{
  EventType, rag_query, rag_chunk_dropped_high_risk, rag_chunk_suspicious_pattern,
  policy_revised_after_rag, policy_revised_after_rag_throttled, AuditEvent, Detail, text, number,
  flag, texts, numbers,
}
use rubez_ai.Chat.Types.{Request, RagParams, RagHit}
use rubez_ai.Chat.Incident.{level_text}
use rubez_ai.Chat.Rag.{
  max_hit_risk_level, raises, elevated_level, revise, filter_high_risk_for_external,
  truncate_by_budget, rag_budget_runes, build_rag_system_prompt,
}
use rubez_ai.Chat.World.{
  Env, Event, Step, panicked, ◌>>=◌, ◌>>◌, pure, stop, when, time_now, call_retriever,
}
use rubez_ai.Chat.Orchestrator.Steps.{hex, record_audit_event, allow_policy_revised}

abbrev pub is_blocking : Decision → Bool
is_blocking deny = true
is_blocking escalate = true
is_blocking _ = false

abbrev decision_text : Decision → Text
decision_text allow_raw = txt "allow_raw"
decision_text allow_masked = txt "allow_masked"
decision_text allow_summary_only = txt "allow_summary_only"
decision_text deny = txt "deny"
decision_text escalate = txt "escalate"

abbrev trust_text : ModelTrust → Text
trust_text external = txt "external"
trust_text russian_cloud = txt "russian_cloud"
trust_text on_prem = txt "on_prem"
trust_text trusted_local = txt "trusted_local"
trust_text (ModelTrust.other t) = t

abbrev optional_level_text : Option RiskLevel → Text
optional_level_text none = []
optional_level_text (some l) = level_text l

unfoldable pub rag_event : Request → EventType → Detail → AuditEvent
rag_event req event_type detail = record {
  user_id = req.user_id;
  event_type = event_type;
  model_provider_id = none;
  risk_level = none;
  risk_classes = [];
  policy_decision = none;
  policy_version_id = none;
  matched_rule = none;
  masked_payload = none;
  detail = (txt "request_id", text req.request_id) ∷ detail;
}

module _ (env : Env) where
  unfoldable pub should_attempt_rag : Request → Outcome → Bool
  should_attempt_rag req outcome = elim (env.retriever) [
    | none ↦ false
    | some _ ↦ elim (req.rag) [
      | none ↦ false
      | some params ↦ params.enabled && not (is_blocking outcome.decision)
    ]
  ]

  unfoldable pub write_rag_query_audit :
      Request → PreviewResponse → List RagHit → ℕ → Step (Unit {0})
  write_rag_query_audit req preview hits started = do
    now ← time_now env
    record_audit_event env (
        rag_event req rag_query (
          (txt "rag_mode", text (txt "chat_integrated"))
          ∷ (txt "query_hash", text (hex (take 8 (env.sha256 preview.sanitized_text))))
          ∷ (txt "top_document_ids", texts (map (λ h. h.document_id) hits))
          ∷ (txt "top_chunk_idx", numbers (map (λ h. h.chunk_index) hits))
          ∷ (txt "result_count", number (length hits))
          ∷ (txt "latency_ms", number ((now - started) / 1000000))
          ∷ []))

  -- At most 10 records an hour for a user, and one on the limit.
  unfoldable pub report_revised :
      Request → Decision → Decision → RiskLevel → RiskLevel → RiskLevel → Step (Unit {0})
  report_revised req original revised original_level elevated max_level = do
    (allowed, throttled) ← allow_policy_revised env req.user_id
    elim allowed [
      | true ↦ record_audit_event env (
          rag_event req policy_revised_after_rag (
            (txt "original_decision", text (decision_text original))
            ∷ (txt "revised_decision", text (decision_text revised))
            ∷ (txt "original_risk_level", text (level_text original_level))
            ∷ (txt "elevated_risk_level", text (level_text elevated))
            ∷ (txt "rag_max_risk_level", text (level_text max_level))
            ∷ []))
      | false ↦ when throttled (
          record_audit_event env (
            rag_event req policy_revised_after_rag_throttled
              ((txt "window_limit", number 10) ∷ [])))
    ]

  unfoldable pub maybe_revise_policy :
      Request → PreviewResponse → Outcome → List RagHit → Step Outcome
  maybe_revise_policy req preview orig [] = pure orig
  maybe_revise_policy req preview orig (h ∷ hits) =
      let max_level = max_hit_risk_level (h ∷ hits) in
      let level = preview.risk.level in
      let revised = revise level orig (h ∷ hits) in
      if raises level max_level
      then elim (elevated_level level max_level) [
        | none ↦ stop panicked
        | some elevated ↦ do
          report_revised req orig.decision revised.decision level elevated max_level
          pure revised
      ]
      else pure orig

  unfoldable pub audit_dropped : Request → List RagHit → Step (Unit {0})
  audit_dropped req [] = pure tt
  audit_dropped req (d ∷ ds) = do
    record_audit_event env (
        rag_event req rag_chunk_dropped_high_risk (
          (txt "document_id", text d.document_id)
          ∷ (txt "chunk_index", number d.chunk_index)
          ∷ (txt "risk_level", text (optional_level_text d.risk_level))
          ∷ (txt "trust_level", text (trust_text req.model_trust))
          ∷ []))
    audit_dropped req ds

  unfoldable pub audit_suspicious : Request → List RagHit → Step (Unit {0})
  audit_suspicious req [] = pure tt
  audit_suspicious req (h ∷ hs) = do
    when (env.suspicious h.snippet) (
        record_audit_event env (
          rag_event req rag_chunk_suspicious_pattern (
            (txt "document_id", text h.document_id)
            ∷ (txt "chunk_index", number h.chunk_index)
            ∷ [])))
    audit_suspicious req hs

  -- What the model gets of the hits.
  unfoldable pub keep_hits :
      Request → PreviewResponse → Outcome → List RagHit → ℕ → Step (Text × List RagHit × Outcome)
  keep_hits req preview revised hits started =
      let (kept, dropped) =
        filter_high_risk_for_external hits (is_external_trust req.model_trust) in
      let fitting = truncate_by_budget kept rag_budget_runes in
      do
        audit_dropped req dropped
        audit_suspicious req kept
        write_rag_query_audit req preview fitting started
        pure (build_rag_system_prompt fitting, fitting, revised)

  -- What is done with the answer of the retriever.
  unfoldable pub use_answer :
      Request
      → PreviewResponse
      → Outcome
      → ℕ
      → Option (List RagHit)
      → Step (Text × List RagHit × Outcome)
  use_answer req preview outcome started none = do
    now ← time_now env
    record_audit_event env (
        rag_event req rag_query (
          (txt "rag_mode", text (txt "chat_integrated"))
          ∷ (txt "error", flag true)
          ∷ (txt "latency_ms", number ((now - started) / 1000000))
          ∷ []))
    pure ([], [], outcome)
  use_answer req preview outcome started (some hits) = do
    revised ← maybe_revise_policy req preview outcome hits
    elim (is_blocking revised.decision) [
      | true ↦ do write_rag_query_audit req preview hits started; pure ([], [], revised)
      | false ↦ keep_hits req preview revised hits started
    ]

  unfoldable pub retrieve_hits :
      (List Event → Text → RagParams → Text → Text → Option (List RagHit))
      → RagParams
      → Request
      → PreviewResponse
      → Outcome
      → Step (Text × List RagHit × Outcome)
  retrieve_hits retrieve params req preview outcome = do
    started ← time_now env
    answer ← call_retriever env retrieve preview.sanitized_text params req.user_id req.user_role
    use_answer req preview outcome started answer

  -- The text for the model, the hits that it is from, and the revised outcome.
  unfoldable pub run_retrieval :
      Request → PreviewResponse → Outcome → Step (Text × List RagHit × Outcome)
  run_retrieval req preview outcome = elim (env.retriever) [
    | none ↦ pure ([], [], outcome)
    | some retrieve ↦ elim (req.rag) [
      | none ↦ pure ([], [], outcome)
      | some params ↦
          if not params.enabled || is_blocking outcome.decision
          then pure ([], [], outcome)
          else retrieve_hits retrieve params req preview outcome
    ]
  ]
