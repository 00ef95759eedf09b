-- ===== src/Tests/Notes.antt =====
-- A note by the assignee of an incident, who has no role that writes, and the ETag of an incident.
use rubez_ai.Prelude.{
  ℕ, zero, suc, ap, arith, false, length, ◌≡◌, refl, ◌⊎◌, Bool, true, Option, none, some, [], ◌∷◌,
  Text, txt, text_eq, byte_len,
}
use rubez_ai.Prelude.Dict.{lookup}
use rubez_ai.Prelude.Result.{Result, ok, err}
use rubez_ai.Auth.{Role, Identity}
use rubez_ai.Storage.Incidents.{Incident, Db, get_incident}
use rubez_ai.Api.Http.{HttpError}
use rubez_ai.Api.Ids.{DbError, is_uuid, current_user_id}
use rubez_ai.Api.Incidents.Notes.{
  IncidentNote, Notebook, add_incident_note, may_write_note, note_audit, note_request,
  add_incident_note_handler,
}
use rubez_ai.Storage.Audit.{AuditEventRow}
use rubez_ai.Storage.Incidents.Patch.{IncidentPatch, patch_incident}
use rubez_ai.Api.Audit.{Codec}
use rubez_ai.Api.Incidents.{incident_to_dto, resolve_trigger}
use rubez_ai.Api.Incidents.Editing.{parse_patch_if_match}
use rubez_ai.Api.Incidents.Reading.{get_incident_handler}
use rubez_ai.Api.Incidents.Etag.{IsUncontested, get_incident_handler-etag}
use rubez_ai.Api.Incidents.Noting.{IsNoted, add_incident_note_handler-IsNoted}

abbrev id : Text
id = txt "00000000-0000-0000-0000-000000000001"

abbrev db : Db
db = record {
  now = 5;
  new_id = txt "n1";
  accepts = λ i. true;
  accepts_audit = λ a. true;
  commits = true;
  reads = true;
}

abbrev assigned : Incident
assigned = record {
  id = id;
  audit_event_id = none;
  user_id = none;
  reporter_id = none;
  assignee_id = some (txt "u1");
  severity = txt "high";
  status = txt "open";
  title = txt "leak";
  summary = none;
  resolution = none;
  closed_at = none;
  created_at = 3;
  updated_at = 3;
}

abbrev notebook : Notebook
notebook = record { tables = record { incidents = (id, assigned) ∷ []; audits = [] }; notes = [] }

abbrev accepts_note : IncidentNote → Bool
accepts_note n = true

abbrev by_role : Role → Result DbError Text
by_role role = err DbError.failed

abbrev assignee : Option Identity
assignee = some (record { user_id = txt "u1"; role = Role.user })

abbrev other : Option Identity
other = some (record { user_id = txt "u2"; role = Role.user })

abbrev run : Option Identity → Result HttpError IncidentNote × Notebook
run who = add_incident_note_handler db accepts_note by_role who id (some (txt "seen")) notebook

assignee_writes : (run assignee).1.notes ≡ (
    record {
      id = txt "n1";
      incident_id = id;
      author_id = txt "u1";
      content = txt "seen";
      created_at = 5;
    }
    ∷ [])
unfolding txt text_eq byte_len lookup get_incident is_uuid current_user_id add_incident_note
    may_write_note note_audit note_request add_incident_note_handler
assignee_writes = refl

other_does_not : (run other).1 ≡ notebook
unfolding txt text_eq byte_len lookup get_incident is_uuid current_user_id add_incident_note
    may_write_note note_audit note_request add_incident_note_handler
other_does_not = refl

add_incident_note_handler-IsNoted_example :
    ((e : HttpError) × (run assignee ≡ (err e, notebook)))
    ⊎ ((out : IncidentNote) × (b' : Notebook) × (run assignee ≡ (ok out, b'))
        × IsNoted db accepts_note by_role assignee id (some (txt "seen")) notebook out b')
add_incident_note_handler-IsNoted_example =
    add_incident_note_handler-IsNoted db accepts_note by_role assignee id (some (txt "seen"))
      notebook

-- A codec that writes a time in unary, after a mark.
abbrev unary : ℕ → Text
unary zero = []
unary (suc n) = b'0' ∷ unary n

abbrev read_unary : Text → Option ℕ
read_unary [] = none
read_unary (c ∷ s) = some (length s)

abbrev codec : Codec
codec = record {
  parse_time = read_unary;
  format_time = λ n. b't' ∷ unary n;
  base64_encode = λ t. t;
  base64_decode = λ t. some t;
  marshal = λ c. c.id;
  unmarshal = λ t. some (record { created_at = 0; id = t });
  unmarshal_map = λ t. some [];
}

length-unary : (n : ℕ) → length (unary n) ≡ n
length-unary zero = refl
length-unary (suc n) = ground (arith, length-unary n)

abbrev no_event : Text → Option AuditEventRow
no_event event_id = none

abbrev officer : Option Identity
officer = some (record { user_id = txt "u3"; role = Role.security_officer })

abbrev close : IncidentPatch
close = record {
  status = some (txt "resolved");
  severity = none;
  assignee_id = none;
  resolution = some (txt "done");
  assignee_unset = false;
}

get_incident_handler-etag_example :
    (expected : ℕ) × (parse_patch_if_match codec (txt "t000") ≡ ok expected)
    × IsUncontested (patch_incident db id close expected [] notebook.tables).0
unfolding txt text_eq byte_len lookup get_incident is_uuid incident_to_dto resolve_trigger
    get_incident_handler
get_incident_handler-etag_example =
    get_incident_handler-etag codec no_event db (λ u. ap some (length-unary u)) refl officer id
      notebook.tables (txt "t000") (incident_to_dto assigned none) refl db close []
