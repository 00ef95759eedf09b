-- ===== src/Chat/Orchestrator/Steps.antt =====
-- The small steps of orchestrator.go: emitStatus, recordAuditEvent, consumePreview, and the calls of
-- the two limiters. The cache and the limiters that `NewOrchestrator` makes are not nil, and the
-- recorder of metrics is not either.
use rubez_ai.Prelude.{
  ℕ, ◌+◌, ◌/◌, ◌%◌, Bool, Option, none, List, [], ◌∷◌, ltb, if◌then◌else◌, Text, txt, is_empty,
}
use rubez_ai.Prelude.Result.{Result, ok}
use rubez_ai.Storage.{AuditEvent, Detail, text}
use rubez_ai.Preview.{PreviewResult, consume}
use rubez_ai.Throttle.{allow}
use rubez_ai.Chat.Types.{Request, Stage}
use rubez_ai.Chat.World.{
  Env, audited, measured, inc_audit_event, status, Step, Failure, ◌>>◌, log, send,
}

-- The result of a step as a value, its error included.
abbrev pub attempt : {A : Type 0} → Step A → Step (Result Failure A)
attempt m w = let (r, w') = m w in (ok r, w')

abbrev pub settle : {A : Type 0} → Result Failure A → Step A
settle r w = (r, w)

abbrev hex_digit : ℕ → ℕ
hex_digit d = if ltb d 10 then 48 + d else 87 + d

-- `hex.EncodeToString`.
unfoldable pub hex : List ℕ → Text
hex [] = []
hex (b ∷ bs) = hex_digit (b / 16) ∷ hex_digit (b % 16) ∷ hex bs

abbrev pub stage_detail : Text → Detail
stage_detail stage = (txt "stage", text stage) ∷ []

module _ (env : Env) where
  unfoldable pub sha256_hex : Text → Text
  unfolding hex
  sha256_hex s = hex (env.sha256 s)

  unfoldable pub emit_status : Request → Stage → Step (Unit {0})
  emit_status req stage = send env (
      status (record {
        request_id = req.request_id;
        stage = stage;
        provider = req.provider;
        model = if is_empty req.model then txt "default" else req.model;
      }))

  -- The result of `InsertAuditEvent` is not looked at.
  unfoldable pub record_audit_event : AuditEvent → Step (Unit {0})
  record_audit_event ev = do log (audited ev); log (measured (inc_audit_event ev.event_type))

  unfoldable pub consume_preview : Request → Step (Option PreviewResult)
  consume_preview req w =
      if is_empty req.preview_token
      then (ok none, w)
      else let (c, res) = consume w.previews req.preview_token req.user_id (env.now w.history) in
        (ok res, record w { previews = c })

  unfoldable pub allow_token_miss : Text → Step (Bool × Bool)
  allow_token_miss user_id w =
      let (r, allowed, emit) = allow w.token_miss user_id (env.now w.history) in
      (ok (allowed, emit), record w { token_miss = r })

  unfoldable pub allow_policy_revised : Text → Step (Bool × Bool)
  allow_policy_revised user_id w =
      let (r, allowed, emit) = allow w.policy_revised user_id (env.now w.history) in
      (ok (allowed, emit), record w { policy_revised = r })
