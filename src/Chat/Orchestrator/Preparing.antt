-- ===== src/Chat/Orchestrator/Preparing.antt =====
-- The model calls of `Prepare`.
use rubez_ai.Prelude.{refl, inl, inr, List, [], ◌∷◌, Bool-cases, Text, is_empty, trim_space}
use rubez_ai.Prelude.Dict.{Dict}
use rubez_ai.Policy.{Outcome}
use rubez_ai.Sanitizer.{PreviewResponse}
use rubez_ai.Pseudonym.{build_pseudonym_map}
use rubez_ai.Storage.{PromptAudit, ChatRequestRecord}
use rubez_ai.Chat.Types.{Request, ReviewProvider}
use rubez_ai.Chat.World.{Env, call_record_request}
use rubez_ai.Chat.Orchestrator.Steps.{consume_preview, allow_token_miss, sha256_hex}
use rubez_ai.Chat.Orchestrator.Mappings.{build_encrypted_mappings}
use rubez_ai.Chat.Orchestrator.Prepare.{
  report_throttled, report_token_miss, fresh_sanitize, resolve_sanitize, sanitize_system_prompt,
  prompts_loop, sanitize_review_prompts, prepare,
}
use rubez_ai.Chat.Orchestrator.Silence.{
  model_calls, Silent, bind-Keeps, pure-Keeps, stop-Keeps, if-Keeps, result-Keeps, option-Keeps,
  bool-Keeps, measured-Silent, audit-Silent, sanitizer-Silent,
}

module _ (env : Env) where
  consume_preview-Silent : (req : Request) → Silent (consume_preview env req)
  unfolding consume_preview
  consume_preview-Silent req = record {
    same = λ w. elim (Bool-cases (is_empty req.preview_token)) [
      | inl e ↦ rw e refl
      | inr e ↦ rw e refl
    ];
  }

  allow_token_miss-Silent : (user : Text) → Silent (allow_token_miss env user)
  unfolding allow_token_miss
  allow_token_miss-Silent user = record { same = λ w. refl }

  report_throttled-Silent : (req : Request) → Silent (report_throttled env req)
  unfolding report_throttled
  report_throttled-Silent req = bind-Keeps (audit-Silent env _) (λ _. measured-Silent _)

  report_token_miss-Silent : (req : Request) → Silent (report_token_miss env req)
  unfolding report_token_miss
  report_token_miss-Silent req = if-Keeps (is_empty req.preview_token) (pure-Keeps tt) (
      bind-Keeps (allow_token_miss-Silent req.user_id) (λ a.
        bool-Keeps a.0 (bind-Keeps (audit-Silent env _) (λ _. measured-Silent _))
          (if-Keeps a.1 (report_throttled-Silent req) (pure-Keeps tt))))

  fresh_sanitize-Silent : (req : Request) → Silent (fresh_sanitize env req)
  unfolding fresh_sanitize
  fresh_sanitize-Silent req = bind-Keeps (sanitizer-Silent env _) (λ answer.
      result-Keeps answer
        (λ e.
          bind-Keeps (audit-Silent env _) (λ _. bind-Keeps (measured-Silent _) (λ _. stop-Keeps _)))
        (λ preview.
          result-Keeps (build_pseudonym_map (sha256_hex env) req.message preview.entities)
            (λ e. bind-Keeps (audit-Silent env _) (λ _. stop-Keeps _)) (λ pmap. pure-Keeps _)))

  resolve_sanitize-Silent : (req : Request) → Silent (resolve_sanitize env req)
  unfolding resolve_sanitize
  resolve_sanitize-Silent req = bind-Keeps (consume_preview-Silent req) (λ cached.
      option-Keeps cached
        (bind-Keeps (report_token_miss-Silent req) (λ _. fresh_sanitize-Silent req))
        (λ c. pure-Keeps _))

  sanitize_system_prompt-Silent :
      (req : Request) (preview : PreviewResponse) (outcome : Outcome)
      → Silent (sanitize_system_prompt env req preview outcome)
  unfolding sanitize_system_prompt
  sanitize_system_prompt-Silent req preview outcome =
      if-Keeps (is_empty (trim_space req.system_prompt)) (pure-Keeps _) (
        bind-Keeps (sanitizer-Silent env _) (λ answer.
          result-Keeps answer
            (λ e.
              bind-Keeps (audit-Silent env _)
                (λ _. bind-Keeps (measured-Silent _) (λ _. stop-Keeps _)))
            (λ res. pure-Keeps _)))

  prompts_loop-Silent :
      (req : Request) (preview : PreviewResponse) (outcome : Outcome) (revs : List ReviewProvider)
      (found : Dict Text) (audit : List PromptAudit)
      → Silent (prompts_loop env req preview outcome found audit revs)
  unfolding prompts_loop
  prompts_loop-Silent req preview outcome [] found audit = pure-Keeps _
  prompts_loop-Silent req preview outcome (rev ∷ revs) found audit =
      if-Keeps (is_empty (trim_space rev.system_prompt))
        (prompts_loop-Silent req preview outcome revs found audit)
        (bind-Keeps (sanitizer-Silent env _) (λ answer.
          result-Keeps answer
            (λ e. bind-Keeps (audit-Silent env _) (λ _.
              bind-Keeps (measured-Silent _)
                (λ _. prompts_loop-Silent req preview outcome revs found _)))
            (λ res. prompts_loop-Silent req preview outcome revs _ _)))

  record_request-Silent : (r : ChatRequestRecord) → Silent (call_record_request env r)
  unfolding call_record_request model_calls
  record_request-Silent r = record { same = λ w. refl }

  pub prepare-Silent : (req : Request) → Silent (prepare env req)
  unfolding prepare sanitize_review_prompts
  prepare-Silent req = bind-Keeps (resolve_sanitize-Silent req) (λ a.
      result-Keeps (build_encrypted_mappings env req.session_id a.1 a.0.entities)
        (λ e. bind-Keeps (audit-Silent env _) (λ _. stop-Keeps _))
        (λ mappings. bind-Keeps (sanitize_system_prompt-Silent req a.0 _) (λ s.
          bind-Keeps
            (option-Keeps req.review (pure-Keeps _)
              (λ params. prompts_loop-Silent req a.0 _ params.providers [] []))
            (λ r. bind-Keeps (record_request-Silent _) (λ recorded.
              bool-Keeps recorded (pure-Keeps _)
                (bind-Keeps (audit-Silent env _) (λ _. stop-Keeps _)))))))
