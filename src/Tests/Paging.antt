-- ===== src/Tests/Paging.antt =====
-- The pages of the audit trail.
use rubez_ai.Prelude.{
  ℕ, ◌≡◌, refl, true, Option, none, some, List, [], ◌∷◌, map, arith, Text, txt, text_eq,
}
use rubez_ai.Prelude.Result.{Result, err}
use rubez_ai.Auth.{Role}
use rubez_ai.Storage.Audit.{AuditEventRow, AuditFilter}
use rubez_ai.Storage.Audit.Query.{Sql}
use rubez_ai.Storage.Audit.Order.{AreDistinct}
use rubez_ai.Api.Ids.{DbError}
use rubez_ai.Api.Audit.{Codec, AuditCursor, encode_audit_cursor, row_to_summary}
use rubez_ai.Api.Audit.Cursors.{IsCodec}
use rubez_ai.Api.Audit.Paging.{walk, answers, walk-answers}

abbrev read_cursor : Text → Option AuditCursor
read_cursor [] = none
read_cursor (n ∷ s) = some (record { created_at = n; id = s })

abbrev codec : Codec
codec = record {
  parse_time = λ t. none;
  format_time = λ n. n ∷ [];
  base64_encode = λ t. t;
  base64_decode = λ t. some t;
  marshal = λ c. c.created_at ∷ c.id;
  unmarshal = read_cursor;
  unmarshal_map = λ t. some [];
}

codec-IsCodec : IsCodec codec
unfolding encode_audit_cursor
codec-IsCodec = record { base64 = λ t. refl; json = λ c. refl; nonempty = λ c. refl }

abbrev event_at : Text → ℕ → AuditEventRow
event_at id at = record {
  id = id;
  created_at = at;
  user_id = txt "u1";
  event_type = txt "policy_tested";
  model_provider_id = none;
  risk_level = none;
  risk_classes = [];
  policy_decision = none;
  policy_version_id = none;
  matched_rule = none;
  masked_payload = none;
  detail = txt "{}";
}

abbrev trail : List AuditEventRow
trail = event_at (txt "e1") 5 ∷ event_at (txt "e2") 9 ∷ event_at (txt "e3") 5 ∷ []

abbrev everything : AuditFilter
everything = record {
  from = none;
  to = none;
  user_id = none;
  event_types = [];
  policy_decisions = [];
  risk_levels = [];
  model_provider_id = none;
  has_leak = none;
  q = none;
  cursor_created_at = none;
  cursor_id = none;
  limit = 2;
}

abbrev sql : Sql
sql = record { ilike = λ p t. true; leak = λ t. none }

abbrev by_role : Role → Result DbError Text
by_role role = err DbError.failed

trail-AreDistinct : AreDistinct trail
unfolding txt text_eq
trail-AreDistinct = ((refl, (refl, tt)), ((refl, tt), (tt, tt)))

walk-answers_example :
    walk codec sql by_role trail 4 everything
    ≡ some (map (row_to_summary codec) (answers codec sql by_role trail everything))
walk-answers_example =
    walk-answers codec sql by_role trail everything 4 codec-IsCodec trail-AreDistinct refl
      (omega arith) (omega arith) (ground arith)
