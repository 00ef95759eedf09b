-- ===== src/Chat/Orchestrator/Stream.antt =====
-- What happens once the stream is open: `Stream`, `runLLM`, `finishBlocked`, `Handle`, and
-- `createAutoIncidentIfNeeded` of auto_incident.go. The incident's goroutine is run where it is
-- started, after the final event; the only other step that follows is the measurement of the call.
use rubez_ai.Prelude.{
  ℕ, Bool, true, false, Option, none, some, List, [], ◌∷◌, ◌++◌, ◌==◌, if◌then◌else◌, Text, txt,
  is_empty,
}
use rubez_ai.Prelude.Dict.{Dict}
use rubez_ai.Prelude.Result.{Result, ok, err}
use rubez_ai.Policy.{RiskLevel, RiskClass, Decision, Outcome}
use rubez_ai.Policy.Severity.{decision_order}
use rubez_ai.Sanitizer.{PreviewResponse}
use rubez_ai.Pseudonym.{PseudonymMap}
use rubez_ai.Pseudonym.Replace.{restore}
use rubez_ai.Pseudonym.Leak.{detect_leak}
use rubez_ai.Storage.{chat_response, chat_blocked, text, flag, ChatTerminationIds}
use rubez_ai.Chat.Types.{
  Request, RagHit, Prepared, policy_checked, rag_search, rag_done, policy_revised, blocked,
  llm_call, llm_done, streaming_answer,
}
use rubez_ai.Chat.Decision.{Action, action_for, build_llm_messages}
use rubez_ai.Chat.Records.{
  termination_record, policy_error_event, meta_for, final_texts, blocked_notice,
}
use rubez_ai.Chat.Chunks.{chunk_text}
use rubez_ai.Chat.Incident.{
  severity_for, auto_incident_trigger, incident_input, created_event, failed_event,
}
use rubez_ai.Chat.Errors.{GoError, classify_llm_error}
use rubez_ai.Chat.Rag.{apply_rag_to_messages, strip_source_echoes}
use rubez_ai.Chat.Review.Messages.{should_run_model_review}
use rubez_ai.Chat.World.{
  Env, Step, Failure, created, duplicate, failed, meta, delta, done, fail, rag_hits, measured,
  inc_chat_request, observe_chat_duration, ◌>>=◌, ◌>>◌, pure, log, when, send, call_model,
  call_record_termination, call_open_incident,
}
use rubez_ai.Chat.Orchestrator.Steps.{
  attempt, settle, stage_detail, emit_status, record_audit_event,
}
use rubez_ai.Chat.Orchestrator.Prepare.{prepare}
use rubez_ai.Chat.Orchestrator.Retrieval.{should_attempt_rag, run_retrieval}
use rubez_ai.Chat.Orchestrator.Rounds.{run_model_review}

-- `==` of decisions.
abbrev same_decision : Decision → Decision → Bool
same_decision a b = decision_order a == decision_order b

module _ (env : Env) where
  unfoldable pub create_auto_incident_if_needed :
      Request → RiskLevel → List RiskClass → Text → Bool → Decision → Step (Unit {0})
  create_auto_incident_if_needed req level classes termination_audit_id leaked decision =
      elim (auto_incident_trigger decision leaked) [
        | none ↦ pure tt
        | some trigger ↦ do
          outcome ←
              call_open_incident env (incident_input req trigger level classes termination_audit_id)
                (created_event req trigger termination_audit_id (severity_for level trigger))
          elim outcome [
            | created ↦ pure tt
            | duplicate ↦ pure tt
            | failed e ↦ record_audit_event env (failed_event req trigger termination_audit_id e)
          ]
      ]

  -- The final event; the incident is opened whether it is sent or not.
  unfoldable pub finish :
      Request → PreviewResponse → ChatTerminationIds → Bool → Decision → Step (Unit {0})
  finish req preview ids leaked decision = do
    sent_done ← attempt (send env (done req.request_id ids.assistant_message_id))
    create_auto_incident_if_needed req preview.risk.level preview.risk.classes ids.audit_event_id
        leaked decision
    settle sent_done

  unfoldable pub finish_blocked : Request → PreviewResponse → Outcome → Step (Unit {0})
  finish_blocked req preview outcome = do
    ids ←
        call_record_termination env
          (termination_record req preview outcome chat_blocked (blocked_notice outcome) [])
    elim ids [
      | none ↦ do
        record_audit_event env
            (policy_error_event req preview outcome (stage_detail (txt "record_blocked")))
        send env (fail (txt "ошибка записи блокировки") req.request_id)
      | some i ↦ finish req preview i false outcome.decision
    ]

  unfoldable pub send_deltas : List Text → Step (Unit {0})
  send_deltas [] = pure tt
  send_deltas (c ∷ cs) = do send env (delta c); send_deltas cs

  abbrev pub delta_runes : ℕ
  delta_runes = 80

  abbrev pub is_leak : List Text → Bool
  is_leak [] = false
  is_leak (_ ∷ _) = true

  -- From the final content on: the leak, the record, the chunks.
  unfoldable pub deliver :
      Request → PreviewResponse → Outcome → PseudonymMap → Action → Text → Text → Step (Unit {0})
  deliver req preview outcome pmap act rag_system content =
      let leaked = detect_leak env.nfc env.to_lower pmap content in
      let (stored, streamed) = final_texts act pmap content in
      let streamed' = if is_empty rag_system then streamed else strip_source_echoes streamed in
      let stored' = if is_empty rag_system then stored else strip_source_echoes stored in
      do
        ids ←
            call_record_termination env
              (termination_record req preview outcome chat_response stored' leaked)
        elim ids [
          | none ↦ do
            record_audit_event env (
                policy_error_event req preview outcome (
                  stage_detail (txt "record_response")
                  ++ (txt "llm_completed", flag true)
                    ∷ (txt "audit_persist_failed", flag true)
                    ∷ []))
            send env (fail (txt "ошибка записи ответа") req.request_id)
          | some i ↦ do
            emit_status env req streaming_answer
            send_deltas (chunk_text streamed' delta_runes)
            finish req preview i (is_leak leaked) outcome.decision
        ]

  unfoldable pub fail_llm :
      Request → PreviewResponse → Outcome → Option GoError → Text → Step (Unit {0})
  fail_llm req preview outcome e content =
      let user_msg = classify_llm_error env.to_lower e content in
      do
        record_audit_event env (
            policy_error_event req preview outcome
              (stage_detail (txt "llm") ++ (txt "category", text user_msg) ∷ []))
        send env (fail user_msg req.request_id)

  unfoldable pub run_llm :
      Request
      → PreviewResponse
      → Outcome
      → PseudonymMap
      → Action
      → Text
      → Dict Text
      → Text
      → Step (Unit {0})
  run_llm req preview outcome pmap act system_prompt prompts rag_system = do
    emit_status env req llm_call
    answer ← call_model env req.provider (record {
      model = req.model;
      messages = apply_rag_to_messages (build_llm_messages act system_prompt) rag_system;
      api_key_override = req.api_key_override;
    })
    elim answer [
      | err e ↦ fail_llm req preview outcome (some e) []
      | ok [] ↦ fail_llm req preview outcome none []
      | ok (c ∷ cs) ↦ do
        emit_status env req llm_done
        elim (should_run_model_review req) [
          | false ↦ deliver req preview outcome pmap act rag_system (c ∷ cs)
          | true ↦ do
            reviewed ←
                attempt (run_model_review env req preview pmap act (c ∷ cs) system_prompt prompts)
            elim reviewed [
              | err _ ↦ do
                record_audit_event env (
                    policy_error_event req preview outcome (
                      stage_detail (txt "model_review")
                      ++ (txt "category", text (txt "review_failed")) ∷ []))
                send env (fail (txt "ревизия ответа не пройдена") req.request_id)
              | ok content ↦ deliver req preview outcome pmap act rag_system content
            ]
        ]
    ]

  -- What an allowed request sends where the raw text is called for: the message, or the text behind
  -- a preview token.
  abbrev pub original_for_llm : Request → Prepared → Text
  original_for_llm req p =
      if is_empty req.preview_token then req.message else restore p.pmap p.preview.sanitized_text

  unfoldable pub announce_revision : Request → Prepared → Outcome → Step (Unit {0})
  announce_revision req p revised =
      if same_decision revised.decision p.outcome.decision
      then pure tt
      else (do send env (meta (meta_for req p.preview revised)); emit_status env req policy_revised)

  abbrev pub announce_hits : Request → List RagHit → Step (Unit {0})
  announce_hits req [] = pure tt
  announce_hits req (h ∷ hits) = send env (rag_hits req.request_id (h ∷ hits))

  -- The model is called, or the request is blocked.
  unfoldable pub act_on : Request → Prepared → Text → Outcome → Step (Unit {0})
  act_on req p rag_system revised =
      let act = action_for revised.decision (original_for_llm req p) p.preview.sanitized_text in
      elim (act.call_llm) [
        | false ↦ do emit_status env req blocked; finish_blocked req p.preview revised
        | true ↦
            run_llm req p.preview revised p.pmap act p.system_prompt_for_llm p.review_system_prompts
              rag_system
      ]

  unfoldable pub stream_body : Request → Prepared → Step (Unit {0})
  stream_body req p = do
    send env (meta (meta_for req p.preview p.outcome))
    emit_status env req policy_checked
    when (should_attempt_rag env req p.outcome) (emit_status env req rag_search)
    (rag_system, hits, revised) ← run_retrieval env req p.preview p.outcome
    when (should_attempt_rag env req p.outcome) (emit_status env req rag_done)
    announce_hits req hits
    announce_revision req p revised
    act_on req p rag_system revised

  abbrev pub result_text : Result Failure (Unit {0}) → Text
  result_text (ok _) = txt "ok"
  result_text (err _) = txt "error"

  -- The deferred measurement runs on every way out.
  unfoldable pub stream : Request → Prepared → Step (Unit {0})
  stream req p = do
    result ← attempt (stream_body req p)
    log (measured (inc_chat_request p.outcome.decision req.provider (result_text result)))
    log (measured (observe_chat_duration req.provider))
    settle result

  unfoldable pub handle : Request → Step (Unit {0})
  handle req = do
    prepared ← attempt (prepare env req)
    elim prepared [
      | err _ ↦ send env (fail (txt "ошибка подготовки запроса") req.request_id)
      | ok p ↦ stream req p
    ]
