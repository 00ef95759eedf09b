-- ===== src/Api/Incidents/Creating.antt =====
-- api/incidents.go and storage/incidents.go: creating an incident by hand, at most one for an event
-- and a reporter within a minute. Times are in nanoseconds.
use rubez_ai.Prelude.{
  ℕ, ◌+◌, Bool, false, not, ◌&&◌, ◌||◌, Option, none, some, [], ◌∷◌, ltb, if◌then◌else◌, Text, txt,
  text_eq, is_empty, byte_len,
}
use rubez_ai.Prelude.Result.{Result, ok, err}
use rubez_ai.Prelude.Dict.{Dict}
use rubez_ai.Auth.{Role, Identity}
use rubez_ai.Storage.{IncidentInput}
use rubez_ai.Storage.Incidents.{
  Incident, IncidentAudit, created_manual, StoreError, Tables, Db, create_manual_incident,
}
use rubez_ai.Api.Http.{Reply, http_error}
use rubez_ai.Api.Ids.{is_uuid, DbError, current_user_id}
use rubez_ai.Api.Incidents.{
  incident_write_roles, permitted, IncidentDto, IncidentCreateDto, valid_incident_severity,
  incident_to_dto,
}

abbrev pub is_text : Option Text → Text → Bool
is_text none t = false
is_text (some u) t = text_eq u t

-- The condition of `FindManualIncidentForReporter`.
abbrev pub is_recent : ℕ → Text → Text → Incident → Bool
is_recent now event reporter i =
    (is_text i.audit_event_id event && is_text i.reporter_id reporter)
    && ltb now (i.created_at + 60000000000)

abbrev pub latest : Incident → Option Incident → Option Incident
latest i none = some i
latest i (some j) = if ltb i.created_at j.created_at then some j else some i

unfoldable pub find_recent : ℕ → Text → Text → Dict Incident → Option Incident
unfolding text_eq
find_recent now event reporter [] = none
find_recent now event reporter ((k, i) ∷ m) =
    let rest = find_recent now event reporter m in
    if is_recent now event reporter i then latest i rest else rest

unfoldable pub find_manual_incident_for_reporter : Db → Text → Text → Tables → Option Incident
unfolding find_recent
find_manual_incident_for_reporter db event reporter t =
    if db.reads then find_recent db.now event reporter t.incidents else none

unfoldable pub manual_input : IncidentCreateDto → Text → IncidentInput
unfolding txt
manual_input dto reporter = record {
  audit_event_id = some dto.audit_event_id;
  user_id = none;
  reporter_id = some reporter;
  assignee_id = none;
  severity = dto.severity;
  status = txt "open";
  title = dto.title;
  summary = dto.summary;
}

unfoldable pub manual_audit : IncidentCreateDto → Text → IncidentAudit
unfolding txt
manual_audit dto reporter = record {
  user_id = reporter;
  event_type = created_manual;
  detail = (txt "audit_event_id", dto.audit_event_id) ∷ [];
}

unfoldable pub created_reply :
    Result StoreError Incident × Tables → Reply (ℕ × IncidentDto) × Tables
unfolding txt http_error incident_to_dto
created_reply (err e, t) = (http_error "ошибка создания" 500, t)
created_reply (ok inc, t) = (ok (201, incident_to_dto inc (some (txt "manual"))), t)

-- The part of the handler after the body is checked; the status stands with the answer.
unfoldable pub create_or_find :
    Db → IncidentCreateDto → Text → Tables → Reply (ℕ × IncidentDto) × Tables
unfolding txt http_error incident_to_dto find_manual_incident_for_reporter create_manual_incident
    manual_input manual_audit created_reply
create_or_find db dto reporter t =
    elim (find_manual_incident_for_reporter db dto.audit_event_id reporter t) [
      | some existing ↦ (ok (200, incident_to_dto existing (some (txt "manual"))), t)
      | none ↦
          created_reply
            (create_manual_incident db (manual_input dto reporter) (manual_audit dto reporter) t)
    ]

unfoldable pub create_request :
    (Role → Result DbError Text)
    → Option Identity
    → Option IncidentCreateDto
    → Reply (IncidentCreateDto × Text)
unfolding http_error is_uuid byte_len valid_incident_severity current_user_id
create_request user_id_for_role identity body =
    if not (permitted incident_write_roles identity)
    then http_error "forbidden" 403
    else elim body [
      | none ↦ http_error "некорректный JSON" 400
      | some dto ↦
          if not (is_uuid dto.audit_event_id)
          then http_error "audit_event_id: невалидный UUID" 400
          else if is_empty dto.title || ltb 200 (byte_len dto.title)
          then http_error "title: 1..200" 400
          else if not (valid_incident_severity dto.severity)
          then http_error "severity: low|medium|high|critical" 400
          else elim (current_user_id user_id_for_role identity) [
            | err e ↦ http_error "user not resolved" 500
            | ok reporter ↦ ok (dto, reporter)
          ]
    ]

unfoldable pub create_incident_handler :
    Db
    → (Role → Result DbError Text)
    → Option Identity
    → Option IncidentCreateDto
    → Tables
    → Reply (ℕ × IncidentDto) × Tables
unfolding create_request create_or_find
create_incident_handler db user_id_for_role identity body t =
    elim (create_request user_id_for_role identity body) [
      | err e ↦ (err e, t)
      | ok (dto, reporter) ↦ create_or_find db dto reporter t
    ]
