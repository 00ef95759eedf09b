-- ===== src/Chat/Orchestrator/Order.antt =====
-- The model calls of blocked requests, in `Stream` and `Handle`.
use rubez_ai.Prelude.Result.{Result-cases}
use rubez_ai.Prelude.{◌≡◌, refl, ◌∙◌, inl, inr, Bool, true, false, List, [], arith, Text}
use rubez_ai.Policy.{Outcome, Decision, RiskLevel, RiskClass}
use rubez_ai.Sanitizer.{PreviewResponse}
use rubez_ai.Storage.{IncidentInput, AuditEvent, ChatTerminationIds, ChatTerminationRecord}
use rubez_ai.Chat.Types.{Request, Prepared}
use rubez_ai.Chat.Decision.{action_for}
use rubez_ai.Chat.World.{
  IncidentOutcome, created, duplicate, failed, Env, World, Step, ◌>>=◌, pure,
  call_record_termination, call_open_incident,
}
use rubez_ai.Chat.Incident.{auto_incident_trigger}
use rubez_ai.Chat.Orchestrator.Retrieval.{is_blocking, should_attempt_rag, run_retrieval}
use rubez_ai.Chat.Orchestrator.Stream.{
  handle, create_auto_incident_if_needed, finish, finish_blocked, original_for_llm,
  announce_revision, act_on, stream_body, stream,
}
use rubez_ai.Chat.Orchestrator.Prepare.{prepare}
use rubez_ai.Chat.Orchestrator.Preparing.{prepare-Silent}
use rubez_ai.Chat.Orchestrator.Recorded.{Yields}
use rubez_ai.Chat.Orchestrator.Silence.{
  model_calls, Silent, bind-Keeps, attempt-Keeps, settle-Keeps, pure-Keeps, if-Keeps, option-Keeps,
  measured-Silent, send-Silent, emit_status-Silent, audit-Silent,
}

call_llm-action_for :
    (d : Decision) (original sanitized : Text)
    → is_blocking d ≡ true
    → (action_for d original sanitized).call_llm ≡ false
unfolding action_for
call_llm-action_for d original sanitized h = ground arith

should_attempt-blocking :
    (env : Env) (req : Request) (o : Outcome)
    → is_blocking o.decision ≡ true
    → should_attempt_rag env req o ≡ false
unfolding should_attempt_rag
should_attempt-blocking env req o h = ground arith

run_retrieval-blocking :
    (env : Env) (req : Request) (preview : PreviewResponse) (o : Outcome)
    → is_blocking o.decision ≡ true
    → run_retrieval env req preview o ≡ pure ([], [], o)
unfolding run_retrieval
run_retrieval-blocking env req preview o h = ground arith

given-Silent : {A B : Type 0} (a : A) (f : A → Step B) → Silent (f a) → Silent (pure a >>= f)
unfolding pure ◌>>=◌
given-Silent a f h = record { same = h.same }

outcome-Silent :
    (o : IncidentOutcome) {f : Text → Step (Unit {0})}
    → ((e : Text) → Silent (f e))
    → Silent (elim o [ created ↦ pure tt | duplicate ↦ pure tt | failed e ↦ f e ])
outcome-Silent created h = pure-Keeps tt
outcome-Silent duplicate h = pure-Keeps tt
outcome-Silent (failed e) h = h e

module _ (env : Env) where
  termination-Silent : (r : ChatTerminationRecord) → Silent (call_record_termination env r)
  unfolding call_record_termination model_calls
  termination-Silent r = record { same = λ w. refl }

  incident-Silent : (i : IncidentInput) (ev : AuditEvent) → Silent (call_open_incident env i ev)
  unfolding call_open_incident model_calls
  incident-Silent i ev = record { same = λ w. refl }

  auto_incident-Silent :
      (req : Request) (level : RiskLevel) (classes : List RiskClass) (id : Text) (leaked : Bool)
      (d : Decision)
      → Silent (create_auto_incident_if_needed env req level classes id leaked d)
  unfolding create_auto_incident_if_needed
  auto_incident-Silent req level classes id leaked d =
      option-Keeps (auto_incident_trigger d leaked) (pure-Keeps tt)
        (λ t. bind-Keeps (incident-Silent _ _) (λ o. outcome-Silent o (λ e. audit-Silent env _)))

  finish-Silent :
      (req : Request) (preview : PreviewResponse) (ids : ChatTerminationIds) (leaked : Bool)
      (d : Decision)
      → Silent (finish env req preview ids leaked d)
  unfolding finish
  finish-Silent req preview ids leaked d =
      bind-Keeps (attempt-Keeps (send-Silent env _))
        (λ r. bind-Keeps (auto_incident-Silent req _ _ _ leaked d) (λ _. settle-Keeps r))

  finish_blocked-Silent :
      (req : Request) (preview : PreviewResponse) (o : Outcome)
      → Silent (finish_blocked env req preview o)
  unfolding finish_blocked
  finish_blocked-Silent req preview o = bind-Keeps (termination-Silent _) (λ ids.
      option-Keeps ids (bind-Keeps (audit-Silent env _) (λ _. send-Silent env _))
        (λ i. finish-Silent req preview i false o.decision))

  act_on-Silent :
      (req : Request) (p : Prepared) (rag_system : Text) (o : Outcome)
      → is_blocking o.decision ≡ true
      → Silent (act_on env req p rag_system o)
  unfolding act_on
  act_on-Silent req p rag_system o h =
      rw
        (
          call_llm-action_for o.decision (original_for_llm env req p) p.preview.sanitized_text h,
          act_on,
        )
        (bind-Keeps (emit_status-Silent env req _) (λ _. finish_blocked-Silent req p.preview o))

  announce_revision-Silent :
      (req : Request) (p : Prepared) (o : Outcome) → Silent (announce_revision env req p o)
  unfolding announce_revision
  announce_revision-Silent req p o =
      if-Keeps _ (pure-Keeps tt)
        (bind-Keeps (send-Silent env _) (λ _. emit_status-Silent env req _))

  stream_body-Silent :
      (req : Request) (p : Prepared)
      → is_blocking p.outcome.decision ≡ true
      → Silent (stream_body env req p)
  unfolding stream_body
  stream_body-Silent req p h = bind-Keeps (send-Silent env _) (λ _.
      bind-Keeps (emit_status-Silent env req _) (λ _.
        bind-Keeps (if-Keeps _ (emit_status-Silent env req _) (pure-Keeps tt)) (λ _.
          rw (run_retrieval-blocking env req p.preview p.outcome h) (
            given-Silent _ _ (
              bind-Keeps (if-Keeps _ (emit_status-Silent env req _) (pure-Keeps tt)) (λ _.
                bind-Keeps (pure-Keeps tt) (λ _.
                  bind-Keeps (announce_revision-Silent req p p.outcome)
                    (λ _. act_on-Silent req p [] p.outcome h))))))))

  -- The language model is not called, by any path, in the stream of a request that the policy denied or
  -- escalated: the number of model calls in the history stays the same.
  stream-Silent :
      (req : Request) (p : Prepared)
      → is_blocking p.outcome.decision ≡ true
      → (w : World) → model_calls (stream env req p w).1.history ≡ model_calls w.history
  unfolding stream
  stream-Silent req p h =
      let s : Silent (stream env req p) =
        bind-Keeps (attempt-Keeps (stream_body-Silent req p h)) (λ r.
          bind-Keeps (measured-Silent _)
            (λ _. bind-Keeps (measured-Silent _) (λ _. settle-Keeps r))) in
      s.same

  -- Where the policy denies or escalates whatever request `Prepare` makes of the input, and where
  -- `Prepare` fails, the whole handling of a chat request calls no language model.
  pub handle-Silent :
      (req : Request) (w : World)
      → ((p : Prepared) (w' : World)
          → Yields (prepare env req) w p w'
          → is_blocking p.outcome.decision ≡ true)
      → model_calls (handle env req w).1.history ≡ model_calls w.history
  unfolding handle ◌>>=◌
  handle-Silent req w h = elim (Result-cases (prepare env req w).0) [
    | inl (p, e) ↦ rw e (
        stream-Silent req p (h p _ (record { result = e; world = refl })) _
        ∙ (prepare-Silent env req).same w)
    | inr (x, e) ↦ rw e ((send-Silent env _).same _ ∙ (prepare-Silent env req).same w)
  ]
