-- ===== src/Api/Incidents.antt =====
-- api/incidents.go: creating, reading and changing incidents. A body is `none` where it does not
-- decode; the answer `none` of a query is a failure of the database.
pub mod Editing
pub mod Notes
pub mod Reading
pub mod Etag
pub mod Noting
pub mod Again
pub mod Creating
pub mod Closing
use rubez_ai.Prelude.{
  ℕ, zero, suc, ◌+◌, ◌-◌, ◌*◌, ◌/◌, ◌%◌, ◌≤◌, ◌<◌, min, String, ◌≡◌, refl, sym, ap, ◌∙◌, subst, ◌≢◌,
  ◌↔◌, ◌⊎◌, inl, inr, Bool, true, false, not, ◌&&◌, ◌||◌, Option, none, some, List, [], ◌∷◌, ◌++◌,
  map, arith, ltb, leb, ◌==◌, if◌then◌else◌, ltb→lt, lt→ltb, leb→le, ==_iff, tests, Bool-cases,
  Option-cases, length, take, drop, length-append, take-append-drop, length-take, length-drop, All,
  Any, here, there, All-append, All-imp, All-map, Any-map, Any-imp, Any-append_left,
  Any-append_right, keep_if, All-keep_if, keep_if-All, take-All, Text, txt, text_eq, is_empty,
  is_prefix, contains, rune_bytes, byte_len, text_lt, is_space, trim_left, trim_right, trim_space,
  text_eq_iff, text_eq_refl,
}
use rubez_ai.Prelude.Result.{Result, ok, err, ◌>>=◌}
use rubez_ai.Prelude.Dict.{Dict, lookup, insert}
use rubez_ai.Auth.{Role, Identity}
use rubez_ai.Storage.{IncidentInput}
use rubez_ai.Storage.Audit.{AuditEventRow}
use rubez_ai.Storage.Incidents.{
  Incident, IncidentAudit, IncidentEvent, created_manual, status_changed, severity_changed,
  assigned, resolved, StoreError, conflict, not_found, Tables, Db, any_of, create_manual_incident,
}
use rubez_ai.Storage.Incidents.Patch.{IncidentPatch, patch_incident}
use rubez_ai.Api.Http.{Reply, http_error, is_nil}
use rubez_ai.Api.Ids.{is_uuid, DbError, current_user_id}
use rubez_ai.Api.Audit.{Codec, has_leak}

abbrev pub incident_read_roles : Role → Bool
incident_read_roles Role.security_officer = true
incident_read_roles Role.compliance_officer = true
incident_read_roles Role.auditor = true
incident_read_roles Role.admin = true
incident_read_roles Role.developer = false
incident_read_roles Role.user = false

abbrev pub incident_write_roles : Role → Bool
incident_write_roles Role.security_officer = true
incident_write_roles Role.admin = true
incident_write_roles Role.compliance_officer = false
incident_write_roles Role.auditor = false
incident_write_roles Role.developer = false
incident_write_roles Role.user = false

-- The test of a role of the request; there is none without an identity.
abbrev pub permitted : (Role → Bool) → Option Identity → Bool
permitted may none = false
permitted may (some id) = may id.role

pub record IncidentDto : Type 0 where
  pub incident : Incident
  pub trigger : Option Text

pub record IncidentCreateDto : Type 0 where
  pub audit_event_id : Text
  pub severity : Text
  pub title : Text
  pub summary : Option Text

pub record IncidentPatchDto : Type 0 where
  pub status : Option Text
  pub severity : Option Text
  pub assignee_id : Option Text
  pub assignee_unset : Option Bool
  pub resolution : Option Text

unfoldable pub valid_incident_severity : Text → Bool
unfolding txt text_eq
valid_incident_severity s = any_of (txt "low" ∷ txt "medium" ∷ txt "high" ∷ txt "critical" ∷ []) s

unfoldable pub valid_incident_status : Text → Bool
unfolding txt text_eq
valid_incident_status s =
    any_of (txt "open" ∷ txt "investigating" ∷ txt "resolved" ∷ txt "false_positive" ∷ []) s

-- The event of an incident, where there is one and it can be read.
abbrev linked : (Text → Option AuditEventRow) → Option Text → Option AuditEventRow
linked get none = none
linked get (some id) = get id

abbrev decision_is : Option Text → Text → Bool
decision_is none t = false
decision_is (some d) t = text_eq d t

unfoldable pub event_trigger : Codec → Option AuditEventRow → Option Text
unfolding txt text_eq has_leak
event_trigger codec none = none
event_trigger codec (some row) =
    if text_eq row.event_type (txt "chat_blocked")
    then some
        (if decision_is row.policy_decision (txt "escalate") then txt "escalate" else txt "deny")
    else if text_eq row.event_type (txt "chat_response") && has_leak codec row
    then some (txt "response_leak_detected")
    else none

unfoldable pub resolve_trigger : Codec → (Text → Option AuditEventRow) → Incident → Option Text
unfolding txt event_trigger
resolve_trigger codec get inc =
    if is_nil inc.reporter_id
    then event_trigger codec (linked get inc.audit_event_id)
    else some (txt "manual")

unfoldable pub incident_to_dto : Incident → Option Text → IncidentDto
incident_to_dto inc trigger = record { incident = inc; trigger = trigger }
