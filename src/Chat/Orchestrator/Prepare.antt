-- ===== src/Chat/Orchestrator/Prepare.antt =====
-- What happens before the stream is opened: `Prepare` and what it calls.
use rubez_ai.Prelude.{
  true, false, none, some, List, [], ◌∷◌, ◌++◌, ◌==◌, if◌then◌else◌, length, Text, txt, is_empty,
  trim_space,
}
use rubez_ai.Prelude.Dict.{Dict, insert}
use rubez_ai.Prelude.Result.{ok, err}
use rubez_ai.Policy.{Outcome, decide, default_policy}
use rubez_ai.Sanitizer.{PreviewResponse}
use rubez_ai.Pseudonym.{PseudonymMap, build_pseudonym_map}
use rubez_ai.Storage.{PromptAudit, Detail, text, flag, number, prompts}
use rubez_ai.Chat.Types.{Request, ReviewProvider, Prepared}
use rubez_ai.Chat.Mapping.{to_policy_input}
use rubez_ai.Chat.Errors.{classify_sanitize_error}
use rubez_ai.Chat.Records.{
  error_event, policy_error_event, sanitized_error_event, request_record_with_detail,
}
use rubez_ai.Chat.World.{
  Env, measured, inc_sanitize_failure, inc_throttle_event, Step, sanitize_failed, encrypt_failed,
  system_prompt_failed, record_failed, map_failed, ◌>>=◌, ◌>>◌, pure, stop, log, call_sanitizer,
  call_record_request,
}
use rubez_ai.Chat.Orchestrator.Mappings.{map_error_text, build_encrypted_mappings}
use rubez_ai.Chat.Orchestrator.Steps.{
  sha256_hex, stage_detail, record_audit_event, consume_preview, allow_token_miss,
}

module _ (env : Env) where
  unfoldable pub report_throttled : Request → Step (Unit {0})
  report_throttled req = do
    record_audit_event env (error_event req (stage_detail (txt "preview_token_miss_throttled")))
    log (measured (inc_throttle_event (txt "preview_token_miss") (txt "throttled")))

  -- A token that gave nothing is reported, at most 5 times a minute for a user.
  unfoldable pub report_token_miss : Request → Step (Unit {0})
  report_token_miss req = if is_empty req.preview_token then pure tt else do
    (allowed, emit_throttled) ← allow_token_miss env req.user_id
    elim allowed [
      | true ↦ do
        record_audit_event env (
            error_event req
              (stage_detail (txt "preview_token_miss") ++ (txt "preview_token_in", flag true) ∷ []))
        log (measured (inc_throttle_event (txt "preview_token_miss") (txt "allowed")))
      | false ↦ if emit_throttled then report_throttled req else pure tt
    ]

  unfoldable pub fresh_sanitize : Request → Step (PreviewResponse × PseudonymMap)
  fresh_sanitize req = do
    answer ← call_sanitizer env (record { text = req.message; context = txt "chat" })
    elim answer [
      | err e ↦ do
        record_audit_event env (error_event req (stage_detail (txt "sanitize")))
        log (measured (inc_sanitize_failure (txt "chat") (classify_sanitize_error env.to_lower e)))
        stop sanitize_failed
      | ok preview ↦ elim (build_pseudonym_map (sha256_hex env) req.message preview.entities) [
        | err e ↦ do
          record_audit_event env (
              sanitized_error_event req preview
                (stage_detail (txt "pseudonym_map") ++ (txt "error", text (map_error_text e)) ∷ []))
          stop (map_failed e)
        | ok pmap ↦ pure (preview, pmap)
      ]
    ]

  unfoldable pub resolve_sanitize : Request → Step (PreviewResponse × PseudonymMap)
  resolve_sanitize req = do
    cached ← consume_preview env req
    elim cached [
      | some c ↦ pure (c.preview, c.pmap)
      | none ↦ do report_token_miss req; fresh_sanitize req
    ]

  -- The masked prompt and the hash of the raw one, both empty for a blank prompt.
  unfoldable pub sanitize_system_prompt : Request → PreviewResponse → Outcome → Step (Text × Text)
  sanitize_system_prompt req preview outcome =
      let raw = trim_space req.system_prompt in
      let sha = sha256_hex env raw in
      if is_empty raw then pure ([], []) else do
        answer ← call_sanitizer env (record { text = raw; context = txt "system_prompt" })
        elim answer [
          | err e ↦ do
            record_audit_event env (
                policy_error_event req preview outcome (
                  stage_detail (txt "sanitize_system_prompt")
                  ++ (txt "system_prompt_sha256", text sha) ∷ []))
            log (
                measured (
                  inc_sanitize_failure (txt "system_prompt")
                    (classify_sanitize_error env.to_lower e)))
            stop system_prompt_failed
          | ok res ↦ pure (res.sanitized_text, sha)
        ]

  unfoldable pub prompts_loop :
      Request
      → PreviewResponse
      → Outcome
      → Dict Text
      → List PromptAudit
      → List ReviewProvider
      → Step (Dict Text × List PromptAudit)
  prompts_loop req preview outcome found audit [] = pure (found, audit)
  prompts_loop req preview outcome found audit (rev ∷ revs) =
      let raw = trim_space rev.system_prompt in
      let sha = sha256_hex env raw in
      if is_empty raw then prompts_loop req preview outcome found audit revs else do
        answer ← call_sanitizer env (record { text = raw; context = txt "review_system_prompt" })
        elim answer [
          | err e ↦ do
            record_audit_event env (
                policy_error_event req preview outcome (
                  stage_detail (txt "sanitize_review_system_prompt_fallback")
                  ++ (txt "reviewer", text rev.name) ∷ (txt "system_prompt_sha256", text sha) ∷ []))
            log (
                measured (
                  inc_sanitize_failure (txt "review_system_prompt")
                    (classify_sanitize_error env.to_lower e)))
            prompts_loop req preview outcome found
                (audit
                  ++ record { name = rev.name; sha256 = sha; masked = []; fallback = true } ∷ [])
                revs
          | ok res ↦
              prompts_loop req preview outcome (insert rev.name res.sanitized_text found)
                (audit
                  ++ record {
                    name = rev.name;
                    sha256 = sha;
                    masked = res.sanitized_text;
                    fallback = false;
                  }
                    ∷ [])
                revs
        ]

  unfoldable pub sanitize_review_prompts :
      Request → PreviewResponse → Outcome → Step (Dict Text × List PromptAudit)
  sanitize_review_prompts req preview outcome = elim (req.review) [
    | none ↦ pure ([], [])
    | some params ↦ prompts_loop req preview outcome [] [] params.providers
  ]

  abbrev pub prepare_detail : Request → PreviewResponse → Text → Text → List PromptAudit → Detail
  prepare_detail req preview sha masked audit =
      (txt "request_id", text req.request_id)
      ∷ (txt "entity_count", number (length preview.entities))
      ∷ ((if is_empty sha
            then []
            else (txt "system_prompt_sha256", text sha)
              ∷ (txt "system_prompt_masked", text masked)
              ∷ [])
          ++ (if length audit == 0 then [] else (txt "review_system_prompts", prompts audit) ∷ []))

  unfoldable pub prepare : Request → Step Prepared
  prepare req = do
    (preview, pmap) ← resolve_sanitize req
    let outcome : Outcome =
        decide default_policy (to_policy_input preview req.model_trust req.user_role)
    elim (build_encrypted_mappings env req.session_id pmap preview.entities) [
      | err message ↦ do
        record_audit_event env (
            sanitized_error_event req preview
              (stage_detail (txt "encrypt_mappings") ++ (txt "error", text message) ∷ []))
        stop encrypt_failed
      | ok mappings ↦ do
        (masked, sha) ← sanitize_system_prompt req preview outcome
        (review_prompts, audit) ← sanitize_review_prompts req preview outcome
        recorded ← call_record_request env (
            request_record_with_detail req preview outcome mappings
              (prepare_detail req preview sha masked audit))
        elim recorded [
          | true ↦ pure (record {
            preview = preview;
            outcome = outcome;
            pmap = pmap;
            system_prompt_for_llm = masked;
            system_prompt_sha256 = sha;
            review_system_prompts = review_prompts;
          })
          | false ↦ do
            record_audit_event env
                (policy_error_event req preview outcome (stage_detail (txt "record_request")))
            stop record_failed
        ]
    ]
