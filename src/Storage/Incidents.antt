-- ===== src/Storage/Incidents.antt =====
-- storage/incidents.go with the table of migrations 000006 and 000008: creating and changing an
-- incident together with its audit events. A table is a map by its primary key. What the
-- database may refuse beyond the modelled constraints is a parameter.
pub mod Patch
pub mod Listing
pub mod Locking
pub mod Sound
use rubez_ai.Prelude.{
  ℕ, zero, suc, ◌+◌, ◌-◌, ◌*◌, ◌/◌, ◌%◌, ◌≤◌, ◌<◌, min, String, ◌≡◌, refl, sym, ap, ◌∙◌, subst, ◌≢◌,
  ◌↔◌, ◌⊎◌, inl, inr, Bool, true, false, not, ◌&&◌, ◌||◌, Option, none, some, List, [], ◌∷◌, ◌++◌,
  map, arith, ltb, leb, ◌==◌, if◌then◌else◌, ltb→lt, lt→ltb, leb→le, ==_iff, tests, Bool-cases,
  Option-cases, length, take, drop, length-append, take-append-drop, length-take, length-drop, All,
  Any, here, there, All-append, All-imp, All-map, Any-map, Any-imp, Any-append_left,
  Any-append_right, keep_if, All-keep_if, keep_if-All, take-All, Text, txt, text_eq, is_empty,
  is_prefix, contains, rune_bytes, byte_len, text_lt, is_space, trim_left, trim_right, trim_space,
  text_eq_iff, text_eq_refl,
}
use rubez_ai.Prelude.Result.{Result, ok, err}
use rubez_ai.Prelude.Dict.{Dict, lookup, insert}
use rubez_ai.Storage.{IncidentInput}

pub record Incident : Type 0 where
  pub id : Text
  pub audit_event_id : Option Text
  pub user_id : Option Text
  pub reporter_id : Option Text
  pub assignee_id : Option Text
  pub severity : Text
  pub status : Text
  pub title : Text
  pub summary : Option Text
  pub resolution : Option Text
  pub closed_at : Option ℕ
  pub created_at : ℕ
  pub updated_at : ℕ

pub data IncidentEvent : Type 0 where
  created_auto created_manual status_changed severity_changed assigned resolved note_added :
      IncidentEvent

-- An audit event about an incident.
pub record IncidentAudit : Type 0 where
  pub user_id : Text
  pub event_type : IncidentEvent
  pub detail : Dict Text

pub data StoreError : Type 0 where
  auto_duplicate conflict not_found note_too_long failed : StoreError

-- The tables, the last audit event first.
pub record Tables : Type 0 where
  pub incidents : Dict Incident
  pub audits : List IncidentAudit

-- What the database adds to a transaction: the time, a new id, and its failures.
pub record Db : Type 0 where
  pub now : ℕ
  pub new_id : Text
  pub accepts : Incident → Bool
  pub accepts_audit : IncidentAudit → Bool
  pub commits : Bool
  pub reads : Bool

abbrev pub any_of : List Text → Text → Bool
any_of [] t = false
any_of (u ∷ us) t = text_eq t u || any_of us t

-- The constraints CHECK of the columns.
unfoldable pub check_severity : Text → Bool
unfolding txt text_eq
check_severity t = any_of (txt "low" ∷ txt "medium" ∷ txt "high" ∷ txt "critical" ∷ []) t

unfoldable pub check_status : Text → Bool
unfolding txt text_eq
check_status t =
    any_of (txt "open" ∷ txt "investigating" ∷ txt "resolved" ∷ txt "false_positive" ∷ []) t

unfoldable pub is_terminal : Text → Bool
unfolding txt text_eq
is_terminal t = any_of (txt "resolved" ∷ txt "false_positive" ∷ []) t

abbrev pub or_text : Text → Text → Text
or_text d [] = d
or_text d (c ∷ s) = c ∷ s

-- The index `idx_incidents_one_auto_per_event`: an automatic incident of the same event.
abbrev same_event : Option Text → Option Text → Bool
same_event (some e) (some f) = text_eq e f
same_event (some e) none = false
same_event none f = false

-- The primary key is new.
abbrev is_absent : Option Incident → Bool
is_absent none = true
is_absent (some i) = false

abbrev pub is_auto : Option Text → Bool
is_auto none = true
is_auto (some r) = false

unfoldable pub has_auto : Option Text → Dict Incident → Bool
unfolding text_eq
has_auto e [] = false
has_auto e ((k, i) ∷ m) = (is_auto i.reporter_id && same_event e i.audit_event_id) || has_auto e m

module _ (db : Db) where
  unfoldable pub get_incident : Text → Tables → Result StoreError Incident
  unfolding lookup
  get_incident id t =
      if db.reads
      then elim (lookup id t.incidents) [ none ↦ err not_found | some i ↦ ok i ]
      else err failed

  -- The row of `insertIncident`, its defaults and its columns filled in by the database.
  unfoldable pub new_incident : IncidentInput → Incident
  unfolding txt
  new_incident inc = record {
    id = db.new_id;
    audit_event_id = inc.audit_event_id;
    user_id = inc.user_id;
    reporter_id = inc.reporter_id;
    assignee_id = inc.assignee_id;
    severity = or_text (txt "medium") inc.severity;
    status = or_text (txt "open") inc.status;
    title = inc.title;
    summary = inc.summary;
    resolution = none;
    closed_at = none;
    created_at = db.now;
    updated_at = db.now;
  }

  unfoldable pub insert_incident :
      IncidentInput → Dict Incident → Result StoreError (Incident × Dict Incident)
  unfolding new_incident has_auto check_severity check_status lookup insert
  insert_incident inc table =
      let row = new_incident inc in
      if is_auto inc.reporter_id && has_auto inc.audit_event_id table
      then err auto_duplicate
      else if is_absent (lookup row.id table)
          && (check_severity row.severity && check_status row.status && db.accepts row)
      then ok (row, insert row.id row table)
      else err failed

  -- `insertAuditEvent` for each event in order; `none` when the database refuses one.
  unfoldable pub insert_audits :
      List IncidentAudit → List IncidentAudit → Option (List IncidentAudit)
  insert_audits [] log = some log
  insert_audits (ev ∷ evs) log =
      let rest = insert_audits evs (ev ∷ log) in if db.accepts_audit ev then rest else none

  -- The end of a transaction that has changed the incidents: the audit events and the commit. An
  -- error leaves the tables as they were before the transaction.
  unfoldable pub finish :
      Tables → Incident → Dict Incident → List IncidentAudit → Result StoreError Incident × Tables
  unfolding insert_audits
  finish t out changed audits = elim (insert_audits audits t.audits) [
    | none ↦ (err failed, t)
    | some log ↦
        if db.commits
        then (ok out, record { incidents = changed; audits = log })
        else (err failed, t)
  ]

  unfoldable pub create_incident_with_audit :
      IncidentInput → IncidentAudit → Tables → Result StoreError Incident × Tables
  unfolding insert_incident finish
  create_incident_with_audit inc ev t = elim (insert_incident inc t.incidents) [
    | err e ↦ (err e, t)
    | ok (out, changed) ↦ finish t out changed (ev ∷ [])
  ]

  unfoldable pub create_auto_incident :
      IncidentInput → IncidentAudit → Tables → Result StoreError Incident × Tables
  unfolding create_incident_with_audit
  create_auto_incident inc ev t =
      if is_auto inc.reporter_id then create_incident_with_audit inc ev t else (err failed, t)

  unfoldable pub create_manual_incident :
      IncidentInput → IncidentAudit → Tables → Result StoreError Incident × Tables
  unfolding create_incident_with_audit
  create_manual_incident inc ev t =
      if is_auto inc.reporter_id then (err failed, t) else create_incident_with_audit inc ev t
