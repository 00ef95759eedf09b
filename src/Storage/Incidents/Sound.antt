-- ===== src/Storage/Incidents/Sound.antt =====
-- storage/incidents.go: what holds of every incident that the operations can store.
use rubez_ai.Prelude.{
  ℕ, ◌≡◌, refl, sym, inl, inr, Bool, true, false, Option, none, some, List, [], ◌∷◌, arith,
  Bool-cases, All, Text, txt,
}
use rubez_ai.Prelude.Result.{ok, Result-cases}
use rubez_ai.Prelude.Dict.{Dict, insert, All-insert, All_lookup}
use rubez_ai.Storage.{IncidentInput}
use rubez_ai.Storage.Incidents.{
  Incident, IncidentAudit, Tables, Db, check_severity, check_status, is_terminal, is_auto,
  new_incident, insert_incident, create_incident_with_audit, create_auto_incident,
  create_manual_incident, or_text,
}
use rubez_ai.Storage.Incidents.Patch.{
  IncidentPatch, SetColumn, set_status, set_severity, set_assignee, set_resolution, unset_assignee,
  patch_sets, apply_sets, set_closed_at, patched, patch_incident,
}
use rubez_ai.Policy.{RiskLevel, RiskClass}
use rubez_ai.Chat.Types.{Request}
use rubez_ai.Chat.Incident.{TriggerKind, incident_input}
use rubez_ai.Api.Incidents.{IncidentCreateDto}
use rubez_ai.Api.Incidents.Creating.{manual_input}
use rubez_ai.Storage.Incidents.Locking.{patch_incident-IsPatched, finish-cases}

abbrev is_some : Option ℕ → Bool
is_some none = false
is_some (some n) = true

-- The constraints of the columns, and an incident has a time of closing exactly when its status
-- is one of the two that close it.
pub record IsSound (i : Incident) : Type 0 where
  pub severity : check_severity i.severity ≡ true
  pub status : check_status i.status ≡ true
  pub closed : is_some i.closed_at ≡ is_terminal i.status

abbrev pub AreSound : Tables → Type 0
AreSound t = All (λ (e : Text × Incident). IsSound e.1) t.incidents

apply_sets-closed_at :
    (cs : List SetColumn) (i : Incident) → (apply_sets cs i).closed_at ≡ i.closed_at
unfolding apply_sets
apply_sets-closed_at [] i = refl
apply_sets-closed_at (set_status v ∷ cs) i = apply_sets-closed_at cs (record i { status = v })
apply_sets-closed_at (set_severity v ∷ cs) i = apply_sets-closed_at cs (record i { severity = v })
apply_sets-closed_at (set_assignee v ∷ cs) i =
    apply_sets-closed_at cs (record i { assignee_id = some v })
apply_sets-closed_at (unset_assignee ∷ cs) i =
    apply_sets-closed_at cs (record i { assignee_id = none })
apply_sets-closed_at (set_resolution v ∷ cs) i =
    apply_sets-closed_at cs (record i { resolution = some v })

set_closed_at-closed :
    (now : ℕ) (old new : Incident)
    → is_some old.closed_at ≡ is_terminal old.status
    → new.closed_at ≡ old.closed_at
    → is_some (set_closed_at now old new).closed_at ≡ is_terminal (set_closed_at now old new).status
unfolding set_closed_at
set_closed_at-closed now old new h e =
    ground (arith, h, e, Bool-cases (is_terminal new.status), Bool-cases (is_terminal old.status))

patch_incident-AreSound :
    (db : Db) (id : Text) (p : IncidentPatch) (expected : ℕ) (audits : List IncidentAudit)
    (t : Tables)
    → AreSound t
    → AreSound (patch_incident db id p expected audits t).1
unfolding patched
patch_incident-AreSound db id p expected audits t h =
    elim (patch_incident-IsPatched db id p expected audits t) [
      | inl (e, f) ↦ rw f h
      | inr (out, t', f, w) ↦
          let s : IsSound w.before =
            All_lookup (λ (e : Text × Incident). IsSound e.1) id w.before t.incidents h w.found in
          let sound : IsSound out = record {
            severity = w.valid.0;
            status = w.valid.1;
            closed = rw w.answer (
                set_closed_at-closed db.now w.before
                  (apply_sets (patch_sets p) (record w.before { updated_at = db.now })) s.closed
                  (apply_sets-closed_at (patch_sets p) (record w.before { updated_at = db.now })));
          } in
          rw (f, w.stored)
            (All-insert (λ (e : Text × Incident). IsSound e.1) id out t.incidents sound h)
    ]

pub insert_incident-ok :
    (db : Db) (inc : IncidentInput) (table : Dict Incident) (out : Incident)
    (changed : Dict Incident)
    → insert_incident db inc table ≡ ok (out, changed)
    → (check_severity out.severity ≡ true)
      × (check_status out.status ≡ true)
      × (out ≡ new_incident db inc)
      × (changed ≡ insert out.id out table)
unfolding insert_incident
insert_incident-ok db inc table out changed h = ground (arith, h)

create-AreSound :
    (db : Db) (inc : IncidentInput) (ev : IncidentAudit) (t : Tables)
    → is_terminal (or_text (txt "open") inc.status) ≡ false
    → AreSound t
    → AreSound (create_incident_with_audit db inc ev t).1
unfolding create_incident_with_audit new_incident
create-AreSound db inc ev t open_status h =
    elim (Result-cases (insert_incident db inc t.incidents)) [
      | inr (e, q) ↦ rw (q, create_incident_with_audit) h
      | inl ((out, changed), q) ↦
          let (sev, stat, same, store) = insert_incident-ok db inc t.incidents out changed q in
          let sound : IsSound out = record {
            severity = sev;
            status = stat;
            closed = rw same (sym open_status);
          } in
          let new =
            All-insert (λ (e : Text × Incident). IsSound e.1) out.id out t.incidents sound h in
          elim (finish-cases db t out changed (ev ∷ [])) [
            | inl f ↦ rw (q, create_incident_with_audit, f) h
            | inr f ↦ rw (q, create_incident_with_audit, f, store) new
          ]
    ]

-- The operations that change the tables, with the new incidents that their two callers make: the
-- orchestrator and the handler of reports.
pub data Change : Tables → Tables → Type 0 where
  create_auto :
      (db : Db) (req : Request) (trigger : TriggerKind) (level : RiskLevel)
      (classes : List RiskClass) (audit_id : Text) (ev : IncidentAudit) (t : Tables)
      → Change t
          (create_auto_incident db (incident_input req trigger level classes audit_id) ev t).1
  create_manual :
      (db : Db) (dto : IncidentCreateDto) (reporter : Text) (ev : IncidentAudit) (t : Tables)
      → Change t (create_manual_incident db (manual_input dto reporter) ev t).1
  patch :
      (db : Db) (id : Text) (p : IncidentPatch) (expected : ℕ) (audits : List IncidentAudit)
      (t : Tables)
      → Change t (patch_incident db id p expected audits t).1

pub data Reachable : Tables → Type 0 where
  empty : Reachable (record { incidents = []; audits = [] })
  next : {t u : Tables} → Reachable t → Change t u → Reachable u

incident_input-open :
    (req : Request) (trigger : TriggerKind) (level : RiskLevel) (classes : List RiskClass)
    (audit_id : Text)
    → is_terminal (or_text (txt "open") (incident_input req trigger level classes audit_id).status)
      ≡ false
unfolding incident_input txt is_terminal
incident_input-open req trigger level classes audit_id = refl

manual_input-open :
    (dto : IncidentCreateDto) (reporter : Text)
    → is_terminal (or_text (txt "open") (manual_input dto reporter).status) ≡ false
unfolding manual_input txt is_terminal
manual_input-open dto reporter = refl

Change-AreSound : {t u : Tables} → Change t u → AreSound t → AreSound u
unfolding create_auto_incident create_manual_incident
Change-AreSound (create_auto db req trigger level classes audit_id ev t) h =
    let inc = incident_input req trigger level classes audit_id in
    let open_status = incident_input-open req trigger level classes audit_id in
    elim (Bool-cases (is_auto inc.reporter_id)) [
      | inl a ↦ rw (a, create_auto_incident) (create-AreSound db inc ev t open_status h)
      | inr a ↦ rw (a, create_auto_incident) h
    ]
Change-AreSound (create_manual db dto reporter ev t) h =
    let inc = manual_input dto reporter in
    let open_status = manual_input-open dto reporter in
    elim (Bool-cases (is_auto inc.reporter_id)) [
      | inl a ↦ rw (a, create_manual_incident) h
      | inr a ↦ rw (a, create_manual_incident) (create-AreSound db inc ev t open_status h)
    ]
Change-AreSound (patch db id p expected audits t) h =
    patch_incident-AreSound db id p expected audits t h

-- However the orchestrator opens incidents, the handler of reports creates them and they are
-- changed, from empty tables on, with whatever the database refuses in between, every stored
-- incident has a valid severity and status, and has a time of closing exactly when its status is
-- resolved or false_positive.
pub Reachable-AreSound : {t : Tables} → Reachable t → AreSound t
Reachable-AreSound empty = tt
Reachable-AreSound (next r c) = Change-AreSound c (Reachable-AreSound r)
