-- ===== src/Tests/Incidents.antt =====
-- Incidents on small tables.
use rubez_ai.Prelude.{
  ℕ, ◌≡◌, refl, true, false, Option, none, some, [], ◌∷◌, arith, length, Text, txt, text_eq,
}
use rubez_ai.Prelude.Dict.{lookup, insert}
use rubez_ai.Prelude.Result.{Result, ok, err}
use rubez_ai.Auth.{Role, Identity}
use rubez_ai.Storage.Audit.{AuditEventRow}
use rubez_ai.Storage.Incidents.{
  Incident, conflict, Tables, Db, new_incident, insert_incident, insert_audits, finish, has_auto,
  create_incident_with_audit, create_manual_incident, check_severity, check_status, is_terminal,
}
use rubez_ai.Storage.Incidents.Patch.{
  IncidentPatch, patch_sets, apply_sets, set_closed_at, patched, apply_incident_patch,
  patch_incident,
}
use rubez_ai.Storage.Incidents.Locking.{patch_incident-conflict}
use rubez_ai.Storage.Incidents.Sound.{AreSound, empty, next, create_manual, Reachable-AreSound}
use rubez_ai.Api.Ids.{DbError}
use rubez_ai.Api.Audit.{Codec}
use rubez_ai.Api.Incidents.{IncidentCreateDto, IncidentPatchDto, incident_to_dto}
use rubez_ai.Api.Incidents.Creating.{
  find_recent, find_manual_incident_for_reporter, manual_input, manual_audit, created_reply,
  create_or_find,
}
use rubez_ai.Api.Incidents.Again.{IsReported, create_or_find-again}

abbrev at_time : ℕ → Db
at_time now = record {
  now = now;
  new_id = txt "i1";
  accepts = λ i. true;
  accepts_audit = λ a. true;
  commits = true;
  reads = true;
}

abbrev dto : IncidentCreateDto
dto = record {
  audit_event_id = txt "e1";
  severity = txt "high";
  title = txt "leak";
  summary = none;
}

abbrev start : Tables
start = record { incidents = []; audits = [] }

abbrev one : Tables
one = (create_or_find (at_time 10) dto (txt "u1") start).1

abbrev first : Incident
first = new_incident (at_time 10) (manual_input dto (txt "u1"))

create_or_find-again_example :
    (i : Incident) × IsReported dto.audit_event_id (txt "u1") one.incidents i
    × (create_or_find (at_time 20) dto (txt "u1") one
        ≡ (ok (200, incident_to_dto i (some (txt "manual"))), one))
unfolding txt text_eq lookup insert new_incident manual_input manual_audit insert_incident has_auto
    check_severity check_status insert_audits finish create_incident_with_audit
    create_manual_incident find_recent find_manual_incident_for_reporter created_reply
    create_or_find incident_to_dto
create_or_find-again_example =
    create_or_find-again (at_time 10) (at_time 20) dto dto (txt "u1") start one
      (incident_to_dto first (some (txt "manual"))) refl refl (omega arith) refl

abbrev closing : IncidentPatch
closing = record {
  status = some (txt "resolved");
  severity = none;
  assignee_id = none;
  resolution = some (txt "done");
  assignee_unset = false;
}

abbrev open_one : Incident
open_one = record {
  id = txt "i1";
  audit_event_id = none;
  user_id = none;
  reporter_id = none;
  assignee_id = none;
  severity = txt "high";
  status = txt "open";
  title = txt "leak";
  summary = none;
  resolution = none;
  closed_at = none;
  created_at = 3;
  updated_at = 3;
}

abbrev before : Tables
before = record { incidents = (txt "i1", open_one) ∷ []; audits = [] }

abbrev after : Tables
after = (patch_incident (at_time 9) (txt "i1") closing 3 [] before).1

patch_incident-conflict_example :
    patch_incident (at_time 12) (txt "i1") closing 3 [] after ≡ (err conflict, after)
unfolding txt text_eq lookup insert patch_sets apply_sets set_closed_at is_terminal patched
    check_severity check_status apply_incident_patch insert_audits finish patch_incident
patch_incident-conflict_example =
    patch_incident-conflict (at_time 9) (at_time 12) (txt "i1") closing closing 3 [] [] before after
      (patched 9 closing open_one) refl refl

Reachable-AreSound_example : AreSound one
unfolding txt text_eq lookup insert new_incident manual_input manual_audit insert_incident has_auto
    check_severity check_status insert_audits finish create_incident_with_audit
    create_manual_incident find_recent find_manual_incident_for_reporter created_reply
    create_or_find incident_to_dto is_terminal
Reachable-AreSound_example =
    Reachable-AreSound
      (next empty (create_manual (at_time 10) dto (txt "u1") (manual_audit dto (txt "u1")) start))

abbrev codec : Codec
codec = record {
  parse_time = λ t. some (length t);
  format_time = λ n. txt "2026";
  base64_encode = λ t. t;
  base64_decode = λ t. some t;
  marshal = λ c. c.id;
  unmarshal = λ t. some (record { created_at = 0; id = t });
  unmarshal_map = λ t. some [];
}

abbrev by_role : Role → Result DbError Text
by_role role = err DbError.failed

abbrev officer : Identity
officer = record { user_id = txt "u1"; role = Role.security_officer }

abbrev body : IncidentPatchDto
body = record {
  status = some (txt "resolved");
  severity = none;
  assignee_id = none;
  assignee_unset = none;
  resolution = some (txt "done");
}

abbrev no_event : Text → Option AuditEventRow
no_event id = none
