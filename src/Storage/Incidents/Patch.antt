-- ===== src/Storage/Incidents/Patch.antt =====
-- storage/incidents.go: `PatchIncident`, with the triggers of the table.
use rubez_ai.Prelude.{
  ℕ, Bool, not, ◌&&◌, Option, none, some, List, [], ◌∷◌, ◌++◌, ◌==◌, if◌then◌else◌, Text,
}
use rubez_ai.Prelude.Result.{Result, ok, err}
use rubez_ai.Prelude.Dict.{Dict, lookup, insert}
use rubez_ai.Storage.Incidents.{
  Incident, IncidentAudit, StoreError, conflict, not_found, failed, Tables, Db, check_severity,
  check_status, is_terminal, finish,
}

pub record IncidentPatch : Type 0 where
  pub status : Option Text
  pub severity : Option Text
  pub assignee_id : Option Text
  pub resolution : Option Text
  pub assignee_unset : Bool

-- An expression of the list SET, with its argument.
pub data SetColumn : Type 0 where
  set_status set_severity set_assignee set_resolution : Text → SetColumn
  unset_assignee : SetColumn

abbrev pub set_if : (Text → SetColumn) → Option Text → List SetColumn
set_if c none = []
set_if c (some v) = c v ∷ []

unfoldable pub patch_sets : IncidentPatch → List SetColumn
patch_sets p =
    set_if set_status p.status
    ++ (set_if set_severity p.severity
        ++ ((if p.assignee_unset then unset_assignee ∷ [] else set_if set_assignee p.assignee_id)
            ++ set_if set_resolution p.resolution))

unfoldable pub apply_sets : List SetColumn → Incident → Incident
apply_sets [] i = i
apply_sets (set_status v ∷ cs) i = apply_sets cs (record i { status = v })
apply_sets (set_severity v ∷ cs) i = apply_sets cs (record i { severity = v })
apply_sets (set_assignee v ∷ cs) i = apply_sets cs (record i { assignee_id = some v })
apply_sets (unset_assignee ∷ cs) i = apply_sets cs (record i { assignee_id = none })
apply_sets (set_resolution v ∷ cs) i = apply_sets cs (record i { resolution = some v })

-- `incidents_set_closed_at`: the row before the update, and the new one.
unfoldable pub set_closed_at : ℕ → Incident → Incident → Incident
unfolding is_terminal
set_closed_at now old new =
    if is_terminal new.status && not (is_terminal old.status)
    then record new { closed_at = some now }
    else if not (is_terminal new.status) && is_terminal old.status
    then record new { closed_at = none }
    else new

-- The row that UPDATE writes.
unfoldable pub patched : ℕ → IncidentPatch → Incident → Incident
unfolding patch_sets apply_sets set_closed_at
patched now p i = set_closed_at now i (apply_sets (patch_sets p) (record i { updated_at = now }))

module _ (db : Db) where
  unfoldable pub apply_incident_patch :
      Text → IncidentPatch → ℕ → Dict Incident → Result StoreError (Incident × Dict Incident)
  unfolding lookup insert patched check_severity check_status
  apply_incident_patch id p expected table = elim (lookup id table) [
    | none ↦ err not_found
    | some i ↦
        let new = patched db.now p i in
        if not (i.updated_at == expected)
        then err conflict
        else if check_severity new.severity && check_status new.status && db.accepts new
        then ok (new, insert id new table)
        else err failed
  ]

  unfoldable pub patch_incident :
      Text → IncidentPatch → ℕ → List IncidentAudit → Tables → Result StoreError Incident × Tables
  unfolding apply_incident_patch finish
  patch_incident id p expected audits t = elim (apply_incident_patch id p expected t.incidents) [
    | err e ↦ (err e, t)
    | ok (out, changed) ↦ finish db t out changed audits
  ]
