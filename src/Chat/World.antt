-- ===== src/Chat/World.antt =====
-- What the orchestrator runs against: the state that it keeps, the calls that it makes outside, and
-- the steps that read and change them. Every answer from outside is a function of the calls made so
-- far, so a service may answer in any way and change its mind.
use rubez_ai.Prelude.{ℕ, Bool, true, false, Option, none, some, List, ◌∷◌, if◌then◌else◌, Text}
use rubez_ai.Prelude.Result.{Result, ok, err}
use rubez_ai.Policy.{Decision}
use rubez_ai.Sanitizer.{PreviewResponse}
use rubez_ai.Preview.{PreviewCache}
use rubez_ai.Pseudonym.{MapError}
use rubez_ai.Throttle.{ThrottleReporter}
use rubez_ai.Storage.{
  EventType, AuditEvent, ChatRequestRecord, ChatTerminationRecord, ChatTerminationIds,
  IncidentInput,
}
use rubez_ai.Chat.Types.{ChatRequest, PreviewRequest, RagParams, RagHit, MetaEvent, StatusEvent}
use rubez_ai.Chat.Errors.{GoError}
use rubez_ai.Chat.Review.Verdict.{ReviewVerdict}

-- The calls of `EventSink`.
pub data SinkEvent : Type 0 where
  meta : MetaEvent → SinkEvent
  status : StatusEvent → SinkEvent
  delta : Text → SinkEvent
  done : Text → Text → SinkEvent
  fail : Text → Text → SinkEvent
  rag_hits : Text → List RagHit → SinkEvent

-- The calls of `MetricsRecorder`; the seconds of `ObserveChatDuration` are not kept.
pub data Metric : Type 0 where
  inc_audit_event : EventType → Metric
  inc_sanitize_failure : Text → Text → Metric
  inc_throttle_event : Text → Text → Metric
  inc_chat_request : Decision → Text → Text → Metric
  observe_chat_duration : Text → Metric

-- A call out of the orchestrator. A transaction's event says whether it was committed.
pub data Event : Type 0 where
  sanitized : PreviewRequest → Event
  completed : Text → ChatRequest → Event
  request_recorded : ChatRequestRecord → Bool → Event
  termination_recorded : ChatTerminationRecord → Bool → Event
  audited : AuditEvent → Event
  incident_opened : IncidentInput → AuditEvent → Event
  retrieved : Text → RagParams → Text → Text → Event
  sent : SinkEvent → Event
  measured : Metric → Event

pub data IncidentOutcome : Type 0 where
  created duplicate : IncidentOutcome
  failed : Text → IncidentOutcome

-- The world outside. `retriever` and `cipher` may be nil; `cipher` also takes the position of the
-- entity, which stands for the random nonce. `retriever` answers `none` on an error,
-- and `new_token` is `newPreviewToken`.
pub record Env : Type 0 where
  pub sanitize : List Event → PreviewRequest → Result GoError PreviewResponse
  pub complete : List Event → Text → ChatRequest → Result GoError Text
  pub record_request : List Event → ChatRequestRecord → Bool
  pub record_termination : List Event → ChatTerminationRecord → Option ChatTerminationIds
  pub open_incident : List Event → IncidentInput → AuditEvent → IncidentOutcome
  pub retriever : Option (List Event → Text → RagParams → Text → Text → Option (List RagHit))
  pub sink : List Event → SinkEvent → Bool
  pub now : List Event → ℕ
  pub new_token : List Event → Option Text
  pub sha256 : Text → List ℕ
  pub nfc : Text → Text
  pub to_lower : Text → Text
  pub cipher : Option (ℕ → Text → List ℕ → Result Text (List ℕ))
  pub suspicious : Text → Bool
  pub unmarshal : Text → Option ReviewVerdict
  pub links : Text → List (Text × Text × Text)
  pub base64_decode : Text → Option Text

-- The state: the calls so far, the last first, and the orchestrator's cache and limiters.
pub record World : Type 0 where
  pub history : List Event
  pub previews : PreviewCache
  pub token_miss : ThrottleReporter
  pub policy_revised : ThrottleReporter

-- Why a function of the orchestrator returns an error.
pub data Failure : Type 0 where
  send_failed sanitize_failed encrypt_failed system_prompt_failed record_failed : Failure
  review_failed panicked preview_failed : Failure
  map_failed : MapError → Failure

abbrev pub Step : Type 0 → Type 0
Step A = World → Result Failure A × World

abbrev pub continue : {A B : Type 0} → Result Failure A → (A → Step B) → Step B
continue (ok a) f w = f a w
continue (err e) f w = (err e, w)

infixl 5 ◌>>=◌ ◌>>◌
unfoldable pub ◌>>=◌ : {A B : Type 0} → Step A → (A → Step B) → Step B
◌>>=◌ m f w = let (r, w') = m w in continue r f w'

abbrev pub ◌>>◌ : {B : Type 0} → Step (Unit {0}) → Step B → Step B
m >> k = m >>= λ _. k

unfoldable pub pure : {A : Type 0} → A → Step A
pure a w = (ok a, w)

unfoldable pub stop : {A : Type 0} → Failure → Step A
stop e w = (err e, w)

unfoldable pub log : Event → Step (Unit {0})
log e w = (ok tt, record w { history = e ∷ w.history })

-- `if` on steps that return nothing.
abbrev pub when : Bool → Step (Unit {0}) → Step (Unit {0})
when b m = if b then m else pure tt

module _ (env : Env) where
  unfoldable pub send : SinkEvent → Step (Unit {0})
  send e w = (
    if env.sink w.history e then ok tt else err send_failed,
    record w { history = sent e ∷ w.history },
  )

  unfoldable pub time_now : Step ℕ
  time_now w = (ok (env.now w.history), w)

  -- The error, or the value, is handed to the caller.
  unfoldable pub call_sanitizer : PreviewRequest → Step (Result GoError PreviewResponse)
  call_sanitizer req w =
      (ok (env.sanitize w.history req), record w { history = sanitized req ∷ w.history })

  unfoldable pub call_model : Text → ChatRequest → Step (Result GoError Text)
  call_model provider req w = (
    ok (env.complete w.history provider req),
    record w { history = completed provider req ∷ w.history },
  )

  unfoldable pub call_record_request : ChatRequestRecord → Step Bool
  call_record_request rec w =
      let committed = env.record_request w.history rec in
      (ok committed, record w { history = request_recorded rec committed ∷ w.history })

  abbrev pub committed : Option ChatTerminationIds → Bool
  committed none = false
  committed (some _) = true

  unfoldable pub call_record_termination : ChatTerminationRecord → Step (Option ChatTerminationIds)
  call_record_termination rec w =
      let ids = env.record_termination w.history rec in
      (ok ids, record w { history = termination_recorded rec (committed ids) ∷ w.history })

  unfoldable pub call_open_incident : IncidentInput → AuditEvent → Step IncidentOutcome
  call_open_incident inc ev w = (
    ok (env.open_incident w.history inc ev),
    record w { history = incident_opened inc ev ∷ w.history },
  )

  unfoldable pub call_retriever :
      (List Event → Text → RagParams → Text → Text → Option (List RagHit))
      → Text
      → RagParams
      → Text
      → Text
      → Step (Option (List RagHit))
  call_retriever retrieve query params user_id user_role w = (
    ok (retrieve w.history query params user_id user_role),
    record w { history = retrieved query params user_id user_role ∷ w.history },
  )
