-- ===== src/Chat/Orchestrator/Silence.antt =====
-- Which parts of the orchestrator call no language model.
use rubez_ai.Prelude.{
  ℕ, suc, ◌≡◌, refl, ◌∙◌, inl, inr, Bool, true, false, Option, none, some, List, [], ◌∷◌,
  if◌then◌else◌,
}
use rubez_ai.Prelude.Result.{Result, ok, err, Result-cases}
use rubez_ai.Storage.{AuditEvent}
use rubez_ai.Chat.Types.{PreviewRequest, Request, Stage}
use rubez_ai.Chat.World.{
  Metric, measured, Env, World, Event, completed, SinkEvent, Step, Failure, ◌>>=◌, pure, stop, log,
  send, call_sanitizer,
}
use rubez_ai.Chat.Orchestrator.Steps.{attempt, settle, emit_status, record_audit_event}

-- How often a model was called.
unfoldable pub model_calls : List Event → ℕ
model_calls [] = 0
model_calls (completed _ _ ∷ es) = suc (model_calls es)
model_calls (_ ∷ es) = model_calls es

-- The step leaves alone what `μ` reads off the history.
pub record Keeps {X : Type 0} (μ : List Event → X) {A : Type 0} (m : Step A) : Type 0 where
  pub same : (w : World) → μ (m w).1.history ≡ μ w.history

-- The step calls no model.
abbrev pub Silent : {A : Type 0} → Step A → Type 0
Silent m = Keeps model_calls m

pub bind-Keeps :
    {X : Type 0} {μ : List Event → X} {A B : Type 0} {m : Step A} {f : A → Step B}
    → Keeps μ m
    → ((a : A) → Keeps μ (f a))
    → Keeps μ (m >>= f)
unfolding ◌>>=◌
bind-Keeps {m = m} {f = f} h k = record {
  same = λ w. elim (Result-cases (m w).0) [
    | inl (a, e) ↦ rw e ((k a).same (m w).1 ∙ h.same w)
    | inr (x, e) ↦ rw e (h.same w)
  ];
}

pub attempt-Keeps :
    {X : Type 0} {μ : List Event → X} {A : Type 0} {m : Step A} → Keeps μ m → Keeps μ (attempt m)
attempt-Keeps h = record { same = h.same }

pub settle-Keeps :
    {X : Type 0} {μ : List Event → X} {A : Type 0} (r : Result Failure A) → Keeps μ (settle r)
settle-Keeps r = record { same = λ w. refl }

pub pure-Keeps : {X : Type 0} {μ : List Event → X} {A : Type 0} (a : A) → Keeps μ (pure a)
unfolding pure
pure-Keeps a = record { same = λ w. refl }

pub stop-Keeps :
    {X : Type 0} {μ : List Event → X} {A : Type 0} (e : Failure) → Keeps μ (stop {A = A} e)
unfolding stop
stop-Keeps e = record { same = λ w. refl }

pub if-Keeps :
    {X : Type 0} {μ : List Event → X} {A : Type 0} (b : Bool) {m n : Step A}
    → Keeps μ m
    → Keeps μ n
    → Keeps μ (if b then m else n)
if-Keeps true h k = h
if-Keeps false h k = k

-- The cases of a result, an option and a test.
pub result-Keeps :
    {X : Type 0} {μ : List Event → X} {E A B : Type 0} (r : Result E A) {f : E → Step B}
    {g : A → Step B}
    → ((e : E) → Keeps μ (f e))
    → ((a : A) → Keeps μ (g a))
    → Keeps μ (elim r [ err e ↦ f e | ok a ↦ g a ])
result-Keeps (err e) h k = h e
result-Keeps (ok a) h k = k a

pub option-Keeps :
    {X : Type 0} {μ : List Event → X} {A B : Type 0} (o : Option A) {m : Step B} {g : A → Step B}
    → Keeps μ m
    → ((a : A) → Keeps μ (g a))
    → Keeps μ (elim o [ none ↦ m | some a ↦ g a ])
option-Keeps none h k = h
option-Keeps (some a) h k = k a

pub bool-Keeps :
    {X : Type 0} {μ : List Event → X} {B : Type 0} (b : Bool) {m n : Step B}
    → Keeps μ m
    → Keeps μ n
    → Keeps μ (elim b [ true ↦ m | false ↦ n ])
bool-Keeps true h k = h
bool-Keeps false h k = k

pub measured-Silent : (x : Metric) → Silent (log (measured x))
unfolding log model_calls
measured-Silent x = record { same = λ w. refl }

module _ (env : Env) where
  pub send-Silent : (e : SinkEvent) → Silent (send env e)
  unfolding send model_calls
  send-Silent e = record { same = λ w. refl }

  pub emit_status-Silent : (req : Request) (s : Stage) → Silent (emit_status env req s)
  unfolding emit_status
  emit_status-Silent req s = send-Silent _

  pub audit-Silent : (ev : AuditEvent) → Silent (record_audit_event env ev)
  unfolding record_audit_event log model_calls ◌>>=◌
  audit-Silent ev = record { same = λ w. refl }

  pub sanitizer-Silent : (r : PreviewRequest) → Silent (call_sanitizer env r)
  unfolding call_sanitizer model_calls
  sanitizer-Silent r = record { same = λ w. refl }
