-- ===== src/Chat/Orchestrator/Deltas.antt =====
-- What `deliver` streams, against what it has stored before.
use rubez_ai.Prelude.{
  ◌≡◌, refl, sym, ap, ◌∙◌, ◌⊎◌, inl, inr, Bool, Option, none, some, List, [], ◌∷◌, ◌++◌, arith,
  if◌then◌else◌, Text, is_empty,
}
use mathlib.Core.List.{append-nil, append_assoc}
use rubez_ai.Policy.{Outcome, Decision}
use rubez_ai.Sanitizer.{PreviewResponse}
use rubez_ai.Pseudonym.{PseudonymMap}
use rubez_ai.Pseudonym.Leak.{detect_leak}
use rubez_ai.Storage.{
  AuditEvent, IncidentInput, ChatTerminationIds, ChatTerminationRecord, chat_response,
}
use rubez_ai.Chat.Types.{Request, Stage}
use rubez_ai.Chat.Decision.{Action}
use rubez_ai.Chat.Records.{final_texts, termination_record}
use rubez_ai.Chat.Rag.{strip_source_echoes}
use rubez_ai.Chat.Chunks.{concat, chunk_text, chunk_text-whole}
use rubez_ai.Chat.Incident.{auto_incident_trigger}
use rubez_ai.Chat.World.{
  Env, World, Event, sent, delta, done, fail, IncidentOutcome, created, duplicate, failed, Step,
  ◌>>=◌, pure, log, send, call_record_termination, call_open_incident,
}
use rubez_ai.Chat.Orchestrator.Steps.{emit_status, record_audit_event}
use rubez_ai.Chat.Orchestrator.Stream.{create_auto_incident_if_needed, finish, send_deltas, deliver}
use rubez_ai.Chat.Orchestrator.Silence.{
  Keeps, bind-Keeps, attempt-Keeps, settle-Keeps, pure-Keeps, option-Keeps,
}
use rubez_ai.Chat.Orchestrator.Recorded.{Yields, bind-Yields, pure-Yields}

-- The text of the deltas so far, in the order in which they were sent.
unfoldable pub deltas_of : List Event → Text
deltas_of [] = []
deltas_of (sent (delta c) ∷ es) = deltas_of es ++ c
deltas_of (_ ∷ es) = deltas_of es

-- The step sends no delta.
abbrev Mute : {A : Type 0} → Step A → Type 0
Mute m = Keeps deltas_of m

kept :
    {A : Type 0} {m : Step A} {w w' : World} {a : A}
    → Mute m
    → Yields m w a w'
    → deltas_of w'.history ≡ deltas_of w.history
kept {w = w} k y = sym (ap (λ x. deltas_of x.history) y.world) ∙ k.same w

option-Yields :
    {A B : Type 0} (o : Option A) {m : Step B} {g : A → Step B} {w w' : World} {b : B}
    → Yields (elim o [ none ↦ m | some a ↦ g a ]) w b w'
    → Yields m w b w' ⊎ ((a : A) × (o ≡ some a) × Yields (g a) w b w')
option-Yields none y = inl y
option-Yields (some a) y = inr (a, refl, y)

outcome-Mute :
    (o : IncidentOutcome) {f : Text → Step (Unit {0})}
    → ((e : Text) → Mute (f e))
    → Mute (elim o [ created ↦ pure tt | duplicate ↦ pure tt | failed e ↦ f e ])
outcome-Mute created h = pure-Keeps tt
outcome-Mute duplicate h = pure-Keeps tt
outcome-Mute (failed e) h = h e

module _ (env : Env) where
  emit_status-Mute : (req : Request) (s : Stage) → Mute (emit_status env req s)
  unfolding emit_status send deltas_of
  emit_status-Mute req s = record { same = λ w. refl }

  fail-Mute : (m id : Text) → Mute (send env (fail m id))
  unfolding send deltas_of
  fail-Mute m id = record { same = λ w. refl }

  done-Mute : (id m : Text) → Mute (send env (done id m))
  unfolding send deltas_of
  done-Mute id m = record { same = λ w. refl }

  audit-Mute : (ev : AuditEvent) → Mute (record_audit_event env ev)
  unfolding record_audit_event log deltas_of ◌>>=◌
  audit-Mute ev = record { same = λ w. refl }

  termination-Mute : (r : ChatTerminationRecord) → Mute (call_record_termination env r)
  unfolding call_record_termination deltas_of
  termination-Mute r = record { same = λ w. refl }

  incident-Mute : (i : IncidentInput) (ev : AuditEvent) → Mute (call_open_incident env i ev)
  unfolding call_open_incident deltas_of
  incident-Mute i ev = record { same = λ w. refl }

  finish-Mute :
      (req : Request) (preview : PreviewResponse) (ids : ChatTerminationIds) (leaked : Bool)
      (d : Decision)
      → Mute (finish env req preview ids leaked d)
  unfolding finish create_auto_incident_if_needed
  finish-Mute req preview ids leaked d = bind-Keeps (attempt-Keeps (done-Mute _ _)) (λ r.
      bind-Keeps
        (option-Keeps (auto_incident_trigger d leaked) (pure-Keeps tt)
          (λ t. bind-Keeps (incident-Mute _ _) (λ o. outcome-Mute o (λ e. audit-Mute _))))
        (λ _. settle-Keeps r))

  deltas-send :
      (c : Text) {w w' : World} {a : Unit {0}}
      → Yields (send env (delta c)) w a w'
      → deltas_of w'.history ≡ deltas_of w.history ++ c
  unfolding send deltas_of
  deltas-send c y = sym (ap (λ x. deltas_of x.history) y.world)

  deltas-send_deltas :
      (cs : List Text) {w w' : World} {a : Unit {0}}
      → Yields (send_deltas env cs) w a w'
      → deltas_of w'.history ≡ deltas_of w.history ++ concat cs
  unfolding send_deltas
  deltas-send_deltas [] y =
      let (_, same) = pure-Yields y in sym (ap (λ x. deltas_of x.history) same) ∙ sym (append-nil _)
  deltas-send_deltas (c ∷ cs) {w = w} y =
      let (_, _, y1, y2) = bind-Yields y in
      let first = deltas-send c y1 in
      let rest = deltas-send_deltas cs y2 in
      rest ∙ (ap (λ x. x ++ concat cs) first ∙ append_assoc (deltas_of w.history) c (concat cs))

  stored_ids :
      (r : ChatTerminationRecord) {w v : World} {ids : Option ChatTerminationIds}
      → Yields (call_record_termination env r) w ids v
      → env.record_termination w.history r ≡ ids
  unfolding call_record_termination
  stored_ids r y = let q = y.result in ground arith

  abbrev pub without_echoes : Text → Text → Text
  without_echoes rag_system t = if is_empty rag_system then t else strip_source_echoes t

  -- If the delivery of an answer succeeds, either no delta was sent, or the answer's record was
  -- committed, with the text to store, and the deltas are together the text to stream, in order
  -- and complete.
  pub deltas-deliver :
      (req : Request) (preview : PreviewResponse) (outcome : Outcome) (pmap : PseudonymMap)
      (act : Action) (rag_system content : Text) (w w' : World)
      → Yields (deliver env req preview outcome pmap act rag_system content) w tt w'
      → (deltas_of w'.history ≡ deltas_of w.history)
        ⊎ ((ids : ChatTerminationIds) × (env.record_termination w.history (
                termination_record req preview outcome chat_response
                  (without_echoes rag_system (final_texts act pmap content).0)
                  (detect_leak env.nfc env.to_lower pmap content))
              ≡ some ids)
            × (deltas_of w'.history
                ≡ deltas_of w.history
                  ++ without_echoes rag_system (final_texts act pmap content).1))
  unfolding deliver
  deltas-deliver req preview outcome pmap act rag_system content w w' y =
      let streamed = without_echoes rag_system (final_texts act pmap content).1 in
      let (ids, v, yt, z) = bind-Yields y in
      let before = kept (termination-Mute _) yt in
      elim (option-Yields ids z) [
        | inl z' ↦ inl (kept (bind-Keeps (audit-Mute _) (λ _. fail-Mute _ _)) z' ∙ before)
        | inr (i, e, z') ↦
            let (_, _, y1, z1) = bind-Yields z' in
            let (_, _, y2, z2) = bind-Yields z1 in
            inr (
              i,
              stored_ids _ yt ∙ e,
              kept (finish-Mute req preview i _ outcome.decision) z2
                  ∙ (deltas-send_deltas _ y2
                      ∙ (ap (λ x. x ++ concat (chunk_text streamed 80))
                            (kept (emit_status-Mute req _) y1 ∙ before)
                          ∙ ap (λ x. deltas_of w.history ++ x)
                              (chunk_text-whole streamed 80 (omega arith)).0)),
            )
      ]
