-- ===== src/Api/Incidents/Editing.antt =====
-- api/incidents.go: the change of an incident with the precondition If-Match. Times are parsed by a
-- parameter.
use rubez_ai.Prelude.{
  ℕ, String, Bool, true, false, not, ◌&&◌, ◌||◌, Option, none, some, List, [], ◌∷◌, ◌++◌, map,
  if◌then◌else◌, Text, txt, text_eq, is_empty,
}
use rubez_ai.Prelude.Result.{Result, ok, err, ◌>>=◌}
use rubez_ai.Prelude.Dict.{Dict, insert}
use rubez_ai.Auth.{Role, Identity}
use rubez_ai.Storage.Audit.{AuditEventRow}
use rubez_ai.Storage.Incidents.{
  Incident, IncidentAudit, IncidentEvent, status_changed, severity_changed, assigned, resolved,
  StoreError, Tables, Db, get_incident,
}
use rubez_ai.Storage.Incidents.Patch.{IncidentPatch, patch_incident}
use rubez_ai.Api.Http.{Reply, http_error, is_nil}
use rubez_ai.Api.Ids.{is_uuid, DbError, current_user_id}
use rubez_ai.Api.Audit.{Codec}
use rubez_ai.Api.Incidents.{
  incident_write_roles, permitted, IncidentDto, IncidentPatchDto, valid_incident_severity,
  valid_incident_status, resolve_trigger, incident_to_dto,
}

-- An optional value that must satisfy a test.
abbrev pub checked : (Text → Bool) → String → Option Text → Reply (Option Text)
checked test message none = ok none
checked test message (some v) = if test v then ok (some v) else http_error message 400

abbrev pub is_true : Option Bool → Bool
is_true none = false
is_true (some b) = b

-- The assignee and whether it is removed.
unfoldable pub patch_assignee : IncidentPatchDto → Reply (Bool × Option Text)
unfolding http_error is_uuid
patch_assignee dto =
    if is_true dto.assignee_unset
    then (if is_nil dto.assignee_id
        then ok (true, none)
        else http_error "assignee_unset + assignee_id несовместимы" 400)
    else (do id ← checked is_uuid "assignee_id: невалидный UUID" dto.assignee_id; ok (false, id))

unfoldable pub closes : Option Text → Bool
unfolding txt text_eq
closes none = false
closes (some status) = text_eq status (txt "resolved") || text_eq status (txt "false_positive")

abbrev pub is_blank : Option Text → Bool
is_blank none = true
is_blank (some s) = is_empty s

abbrev event : Text → IncidentEvent → Bool → List IncidentAudit
event actor kind true = record { user_id = actor; event_type = kind; detail = [] } ∷ []
event actor kind false = []

-- An audit event for each changed field, in the order of the code.
unfoldable pub patch_audits : IncidentPatchDto → Text → Bool × Option Text → List IncidentAudit
unfolding closes
patch_audits dto actor (unset, assignee) =
    event actor status_changed (not (is_nil dto.status))
    ++ (event actor severity_changed (not (is_nil dto.severity))
        ++ (event actor assigned (unset || not (is_nil assignee))
            ++ event actor resolved (closes dto.status)))

unfoldable pub build_incident_patch :
    IncidentPatchDto → Text → Reply (IncidentPatch × List IncidentAudit)
unfolding http_error valid_incident_status valid_incident_severity patch_assignee closes
    patch_audits
build_incident_patch dto actor = do
  status ← checked valid_incident_status "status: некорректное значение" dto.status
  severity ← checked valid_incident_severity "severity: некорректное" dto.severity
  assignee ← patch_assignee dto
  elim (closes dto.status && is_blank dto.resolution) [
    | true ↦ http_error "resolution: обязательно при resolved/false_positive" 400
    | false ↦
        let p : IncidentPatch = record {
          status = status;
          severity = severity;
          assignee_id = assignee.1;
          resolution = dto.resolution;
          assignee_unset = assignee.0;
        } in
        ok (p, patch_audits dto actor assignee)
  ]

abbrev to_value : Option Text → Dict Text → Dict Text
to_value none d = d
to_value (some v) d = insert (txt "to") v d

unfoldable pub enrich_audit : Incident → IncidentPatch → IncidentAudit → IncidentAudit
unfolding txt insert
enrich_audit prev p a = elim (a.event_type) [
  | IncidentEvent.status_changed ↦ record a {
    detail = to_value p.status (insert (txt "from") prev.status a.detail);
  }
  | IncidentEvent.severity_changed ↦ record a {
    detail = to_value p.severity (insert (txt "from") prev.severity a.detail);
  }
  | _ ↦ a
]

unfoldable pub enrich_audits_with_from :
    List IncidentAudit → Incident → IncidentPatch → List IncidentAudit
unfolding enrich_audit
enrich_audits_with_from audits prev p = map (enrich_audit prev p) audits

unfoldable pub read_error : StoreError → Reply IncidentDto
unfolding http_error
read_error StoreError.not_found = http_error "404 page not found" 404
read_error StoreError.conflict = http_error "ошибка чтения" 500
read_error StoreError.auto_duplicate = http_error "ошибка чтения" 500
read_error StoreError.note_too_long = http_error "ошибка чтения" 500
read_error StoreError.failed = http_error "ошибка чтения" 500

unfoldable pub patch_error : StoreError → Reply IncidentDto
unfolding http_error
patch_error StoreError.not_found = http_error "404 page not found" 404
patch_error StoreError.conflict = http_error "If-Match mismatch" 412
patch_error StoreError.auto_duplicate = http_error "ошибка обновления" 500
patch_error StoreError.note_too_long = http_error "ошибка обновления" 500
patch_error StoreError.failed = http_error "ошибка обновления" 500

module _ (codec : Codec) where
  -- The header If-Match.
  unfoldable pub parse_patch_if_match : Text → Reply ℕ
  unfolding http_error
  parse_patch_if_match [] = http_error "If-Match header required (RFC 7232)" 428
  parse_patch_if_match (c ∷ s) = elim (codec.parse_time (c ∷ s)) [
    | none ↦ http_error "If-Match: ожидался RFC3339Nano" 400
    | some t ↦ ok t
  ]

  -- The answer to `PatchIncident`.
  unfoldable pub patch_reply :
      (Text → Option AuditEventRow)
      → Result StoreError Incident × Tables
      → Reply IncidentDto × Tables
  unfolding patch_error resolve_trigger incident_to_dto
  patch_reply get (err e, t) = (patch_error e, t)
  patch_reply get (ok inc, t) = (ok (incident_to_dto inc (resolve_trigger codec get inc)), t)

  unfoldable pub execute_incident_patch :
      Db
      → (Text → Option AuditEventRow)
      → Text
      → ℕ
      → IncidentPatchDto
      → Text
      → Tables
      → Reply IncidentDto × Tables
  unfolding read_error build_incident_patch get_incident enrich_audits_with_from patch_incident
      patch_reply
  execute_incident_patch db get id expected dto actor t = elim (build_incident_patch dto actor) [
    | err e ↦ (err e, t)
    | ok (p, audits) ↦ elim (get_incident db id t) [
      | err e ↦ (read_error e, t)
      | ok prev ↦
          patch_reply get
            (patch_incident db id p expected (enrich_audits_with_from audits prev p) t)
    ]
  ]

  -- What is checked before the change: the time of the precondition, the body and the user.
  unfoldable pub patch_request :
      (Role → Result DbError Text)
      → Option Identity
      → Text
      → Text
      → Option IncidentPatchDto
      → Reply (ℕ × IncidentPatchDto × Text)
  unfolding http_error is_uuid parse_patch_if_match current_user_id
  patch_request user_id_for_role identity id if_match body =
      if not (permitted incident_write_roles identity)
      then http_error "forbidden" 403
      else if not (is_uuid id)
      then http_error "404 page not found" 404
      else (do
        expected ← parse_patch_if_match if_match
        elim body [
          | none ↦ http_error "некорректный JSON" 400
          | some dto ↦ elim (current_user_id user_id_for_role identity) [
            | err e ↦ http_error "user not resolved" 500
            | ok actor ↦ ok (expected, dto, actor)
          ]
        ])

  unfoldable pub patch_incident_handler :
      Db
      → (Text → Option AuditEventRow)
      → (Role → Result DbError Text)
      → Option Identity
      → Text
      → Text
      → Option IncidentPatchDto
      → Tables
      → Reply IncidentDto × Tables
  unfolding patch_request execute_incident_patch
  patch_incident_handler db get user_id_for_role identity id if_match body t =
      elim (patch_request user_id_for_role identity id if_match body) [
        | err e ↦ (err e, t)
        | ok (expected, dto, actor) ↦ execute_incident_patch db get id expected dto actor t
      ]
