-- ===== src/Api/Incidents/Reading.antt =====
-- api/incidents.go and incidents_notes.go: reading one incident, the list of incidents with its
-- parameters, and the notes of an incident.
use rubez_ai.Prelude.{
  ℕ, not, Option, none, some, List, [], ◌∷◌, map, leb, if◌then◌else◌, length, Text, txt,
}
use rubez_ai.Prelude.Result.{ok, err, ◌>>=◌}
use rubez_ai.Prelude.Parse.{UrlValues, query_all, query_get, atoi, parse_bool}
use rubez_ai.Auth.{Identity}
use rubez_ai.Storage.Audit.{AuditEventRow}
use rubez_ai.Storage.Incidents.{Incident, StoreError, Tables, Db, get_incident}
use rubez_ai.Storage.Incidents.Listing.{IncidentFilter, list_incidents}
use rubez_ai.Api.Http.{Reply, http_error}
use rubez_ai.Api.Ids.{is_uuid}
use rubez_ai.Api.Audit.{Codec, encode_audit_cursor, decode_audit_cursor}
use rubez_ai.Api.Audit.Listing.{
  optional, as_uuid, in_range, limit_or_default, cursor_time, cursor_id,
}
use rubez_ai.Api.Incidents.{
  incident_read_roles, permitted, IncidentDto, resolve_trigger, incident_to_dto,
}
use rubez_ai.Api.Incidents.Notes.{IncidentNote, list_incident_notes}

pub record IncidentListDto : Type 0 where
  pub incidents : List IncidentDto
  pub next_cursor : Option Text

module _ (codec : Codec) where
  -- The field `to` stays unset: the code reads no parameter for it.
  unfoldable pub parse_incident_filter : UrlValues → Reply IncidentFilter
  unfolding txt query_all query_get is_uuid parse_bool atoi http_error decode_audit_cursor
  parse_incident_filter q = do
    assignee ← optional as_uuid "assignee_id: невалидный UUID" (query_get (txt "assignee_id") q)
    reporter ← optional parse_bool "has_reporter: true|false" (query_get (txt "has_reporter") q)
    from ← optional codec.parse_time "from: невалидный RFC3339" (query_get (txt "from") q)
    cursor ← optional (decode_audit_cursor codec) "cursor: невалидный" (query_get (txt "cursor") q)
    limit ← optional (λ v. in_range (atoi v)) "limit: 1..200" (query_get (txt "limit") q)
    ok (record {
      statuses = query_all (txt "status") q;
      severities = query_all (txt "severity") q;
      assignee_id = assignee;
      has_reporter = reporter;
      from = from;
      to = none;
      cursor_created_at = cursor_time cursor;
      cursor_id = cursor_id cursor;
      limit = limit_or_default limit;
    })

  abbrev last_incident : Incident → List Incident → Incident
  last_incident r [] = r
  last_incident r (s ∷ rs) = last_incident s rs

  abbrev next_incidents : List Incident → ℕ → Option Text
  next_incidents [] limit = none
  next_incidents (r ∷ rs) limit =
      let last = last_incident r rs in
      if leb limit (length (r ∷ rs))
      then some (encode_audit_cursor codec (record { created_at = last.created_at; id = last.id }))
      else none

  -- `incidentETag`
  abbrev pub incident_etag : ℕ → Text
  incident_etag updated_at = codec.format_time updated_at

  module _ (get : Text → Option AuditEventRow) where
    abbrev pub incident_dto_of : Incident → IncidentDto
    incident_dto_of inc = incident_to_dto inc (resolve_trigger codec get inc)

    unfoldable pub assemble_incident_list : List Incident → ℕ → IncidentListDto
    unfolding encode_audit_cursor
    assemble_incident_list rows limit = record {
      incidents = map incident_dto_of rows;
      next_cursor = next_incidents rows limit;
    }

    -- The rows of the table are `none` where the query fails.
    unfoldable pub read_incident_list :
        Option (List Incident) → IncidentFilter → Reply IncidentListDto
    unfolding http_error list_incidents assemble_incident_list
    read_incident_list none filter = http_error "ошибка чтения" 500
    read_incident_list (some table) filter =
        ok (assemble_incident_list (list_incidents filter table) filter.limit)

    unfoldable pub list_incidents_handler :
        Option (List Incident) → Option Identity → UrlValues → Reply IncidentListDto
    unfolding http_error parse_incident_filter read_incident_list
    list_incidents_handler table identity q =
        if not (permitted incident_read_roles identity)
        then http_error "forbidden" 403
        else do filter ← parse_incident_filter q; read_incident_list table filter

    -- The header ETag and the incident.
    unfoldable pub get_incident_handler :
        Db → Option Identity → Text → Tables → Reply (Text × IncidentDto)
    unfolding http_error is_uuid get_incident incident_to_dto resolve_trigger
    get_incident_handler db identity id t =
        if not (permitted incident_read_roles identity)
        then http_error "forbidden" 403
        else if not (is_uuid id)
        then http_error "404 page not found" 404
        else elim (get_incident db id t) [
          | err StoreError.not_found ↦ http_error "404 page not found" 404
          | err StoreError.conflict ↦ http_error "ошибка чтения" 500
          | err StoreError.auto_duplicate ↦ http_error "ошибка чтения" 500
          | err StoreError.note_too_long ↦ http_error "ошибка чтения" 500
          | err StoreError.failed ↦ http_error "ошибка чтения" 500
          | ok inc ↦ ok (incident_etag inc.updated_at, incident_dto_of inc)
        ]

-- The table of the notes is `none` where the query fails.
unfoldable pub list_incident_notes_handler :
    Option (List IncidentNote) → Option Identity → Text → Reply (List IncidentNote)
unfolding http_error is_uuid list_incident_notes
list_incident_notes_handler table identity id =
    if not (permitted incident_read_roles identity)
    then http_error "forbidden" 403
    else if not (is_uuid id)
    then http_error "404 page not found" 404
    else elim table [
      | none ↦ http_error "ошибка чтения" 500
      | some notes ↦ ok (list_incident_notes id notes)
    ]
