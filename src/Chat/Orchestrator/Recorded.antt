-- ===== src/Chat/Orchestrator/Recorded.antt =====
-- What a request has gone through when `Prepare` succeeds.
use rubez_ai.Prelude.{some, ◌≡◌, refl, ◌⊎◌, inl, inr, Bool, true, false, List, ◌∷◌, arith}
use rubez_ai.Prelude.Result.{Result, ok, err, Result-cases}
use rubez_ai.Policy.{decide, default_policy}
use rubez_ai.Storage.{chat_request, PseudonymMappingInput, ChatRequestRecord}
use rubez_ai.Chat.Types.{Request, Prepared}
use rubez_ai.Chat.Mapping.{to_policy_input}
use rubez_ai.Chat.World.{World, Event, request_recorded, Step, Failure, ◌>>=◌, pure, stop}

-- The step succeeds with this value and in this state.
pub record Yields {A : Type 0} (m : Step A) (w : World) (a : A) (w' : World) : Type 0 where
  pub result : (m w).0 ≡ ok a
  pub world : (m w).1 ≡ w'

pub bind-Yields :
    {A B : Type 0} {m : Step A} {f : A → Step B} {w w' : World} {b : B}
    → Yields (m >>= f) w b w'
    → (a : A) × (v : World) × Yields m w a v × Yields (f a) v b w'
unfolding ◌>>=◌
bind-Yields {m = m} {f = f} {w = w} y =
    let r = y.result in
    let s = y.world in
    elim (Result-cases (m w).0) [
      | inl (a, e) ↦ (
        a,
        (m w).1,
        record { result = e; world = refl },
        record { result = rw e at r; world = rw e at s },
      )
      | inr (x, e) ↦ let q = rw e at r in absurd (ground arith)
    ]

pub stop-Yields : {A B : Type 0} {w w' : World} {a : A} (e : Failure) → Yields (stop e) w a w' → B
unfolding stop
stop-Yields e y = let r = y.result in absurd (ground arith)

pub pure-Yields :
    {A : Type 0} {a b : A} {w w' : World} → Yields (pure a) w b w' → (a ≡ b) × (w ≡ w')
unfolding pure
pure-Yields y = let r = y.result in (ground arith, y.world)

pub result-Yields :
    {E A B : Type 0} (r : Result E A) {f : E → Step B} {g : A → Step B} {w w' : World} {b : B}
    → Yields (elim r [ err e ↦ f e | ok a ↦ g a ]) w b w'
    → ((e : E) × Yields (f e) w b w') ⊎ ((a : A) × Yields (g a) w b w')
result-Yields (err e) y = inl (e, y)
result-Yields (ok a) y = inr (a, y)

pub bool-Yields :
    {B : Type 0} (c : Bool) {m n : Step B} {w w' : World} {b : B}
    → Yields (elim c [ true ↦ m | false ↦ n ]) w b w'
    → ((c ≡ true) × Yields m w b w') ⊎ Yields n w b w'
bool-Yields true y = inl (refl, y)
bool-Yields false y = inr y

-- The state after a preparation: the request was decided by the default policy and is on record.
pub record IsRecorded (req : Request) (p : Prepared) (w : World) : Type 0 where
  pub outcome :
      p.outcome ≡ decide default_policy (to_policy_input p.preview req.model_trust req.user_role)
  pub mappings : List PseudonymMappingInput
  pub before : List Event
  pub entry : ChatRequestRecord
  pub last : w.history ≡ request_recorded entry true ∷ before
  pub content : entry.user_content ≡ p.preview.sanitized_text
  pub session : (entry.session_id ≡ req.session_id) × (entry.request_id ≡ req.request_id)
  pub found : entry.sanitization.entities ≡ p.preview.entities
  pub risk : entry.sanitization.risk_level ≡ p.preview.risk.level
  pub hidden : entry.mappings ≡ mappings
  pub audited : (entry.audit.user_id ≡ req.user_id) × (entry.audit.event_type ≡ chat_request)
  pub masked : entry.audit.masked_payload ≡ some p.preview.sanitized_text
  pub decision : entry.audit.policy_decision ≡ some p.outcome.decision
