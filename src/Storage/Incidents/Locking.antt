-- ===== src/Storage/Incidents/Locking.antt =====
-- storage/incidents.go: a change of an incident is all or nothing, and never overwrites one that
-- its author has not seen.
use rubez_ai.Prelude.{
  ℕ, ◌≡◌, refl, sym, ap, ◌∙◌, subst, ◌⊎◌, inl, inr, true, false, ◌&&◌, none, some, List, [], ◌∷◌,
  arith, ◌==◌, ==_iff, Bool-cases, Option-cases, Text,
}
use rubez_ai.Prelude.Result.{ok, err, Result-cases}
use rubez_ai.Prelude.Dict.{Dict, lookup, insert, lookup-insert_self}
use rubez_ai.Storage.Incidents.{
  Incident, IncidentAudit, StoreError, conflict, failed, Tables, Db, check_severity, check_status,
  insert_audits, finish,
}
use rubez_ai.Storage.Incidents.Patch.{
  IncidentPatch, SetColumn, set_status, set_severity, set_assignee, set_resolution, unset_assignee,
  patch_sets, apply_sets, set_closed_at, patched, apply_incident_patch, patch_incident,
}

-- The log after the events, the last first.
abbrev pub logged : List IncidentAudit → List IncidentAudit → List IncidentAudit
logged [] log = log
logged (ev ∷ evs) log = logged evs (ev ∷ log)

insert_audits-logged :
    (db : Db) (evs log out : List IncidentAudit)
    → insert_audits db evs log ≡ some out
    → out ≡ logged evs log
unfolding insert_audits
insert_audits-logged db [] log out h = ground arith
insert_audits-logged db (ev ∷ evs) log out h =
    ground (arith, insert_audits-logged db evs (ev ∷ log) out)

pub finish-cases :
    (db : Db) (t : Tables) (out : Incident) (changed : Dict Incident) (audits : List IncidentAudit)
    → (finish db t out changed audits ≡ (err failed, t))
      ⊎ (finish db t out changed audits
          ≡ (ok out, record { incidents = changed; audits = logged audits t.audits }))
unfolding finish
finish-cases db t out changed audits = elim (Option-cases (insert_audits db audits t.audits)) [
  | inl n ↦ inl (rw (n, finish) refl)
  | inr (log, q) ↦ elim (Bool-cases db.commits) [
    | inr c ↦ inl (rw (q, c, finish) refl)
    | inl c ↦ inr (rw (q, c, sym (insert_audits-logged db audits t.audits log q), finish) refl)
  ]
]

-- The incident `i` with the time of the precondition is replaced by the changed one, and the
-- audit events are added.
pub record IsPatched (db : Db) (id : Text) (p : IncidentPatch) (expected : ℕ)
    (audits : List IncidentAudit) (t : Tables) (out : Incident) (t' : Tables) : Type 0 where
  pub before : Incident
  pub found : lookup id t.incidents ≡ some before
  pub unseen : before.updated_at ≡ expected
  pub answer : out ≡ patched db.now p before
  pub valid : (check_severity out.severity ≡ true) × (check_status out.status ≡ true)
  pub stored :
      t' ≡ record { incidents = insert id out t.incidents; audits = logged audits t.audits }

apply_incident_patch-ok :
    (db : Db) (id : Text) (p : IncidentPatch) (expected : ℕ) (table : Dict Incident)
    (out : Incident) (changed : Dict Incident)
    → apply_incident_patch db id p expected table ≡ ok (out, changed)
    → (i : Incident) × (lookup id table ≡ some i)
      × (i.updated_at ≡ expected)
      × (out ≡ patched db.now p i)
      × (check_severity out.severity ≡ true)
      × (check_status out.status ≡ true)
      × (changed ≡ insert id out table)
unfolding apply_incident_patch
apply_incident_patch-ok db id p expected table out changed h =
    elim (Option-cases (lookup id table)) [
      | inl n ↦ ground (arith, h, n)
      | inr (i, q) ↦ elim (Bool-cases (i.updated_at == expected)) [
        | inr n ↦ ground (arith, h, n, q)
        | inl e ↦
            elim (Bool-cases (
              check_severity (patched db.now p i).severity
              && check_status (patched db.now p i).status
              && db.accepts (patched db.now p i))) [
                | inr n ↦ ground (arith, h, n, q, e)
                | inl c ↦
                    let new = patched db.now p i in
                    let same : new ≡ out = ground (arith, h, q, e, c) in
                    let store : insert id new table ≡ changed = ground (arith, h, q, e, c) in
                    let checks : (check_severity new.severity ≡ true)
                        × (check_status new.status ≡ true) =
                      ground (arith, c) in
                    (
                      i,
                      q,
                      (==_iff i.updated_at expected).0 e,
                      sym same,
                      subst (λ x. check_severity x.severity ≡ true) same checks.0,
                      subst (λ x. check_status x.status ≡ true) same checks.1,
                      sym store ∙ ap (λ x. insert id x table) same,
                    )
              ]
      ]
    ]

module _ (db : Db) where
  -- A change either reports an error and leaves both tables as they were, or replaces exactly the
  -- incident with the given id, which still has the time of the precondition, by the changed one,
  -- with a valid severity and status, and adds exactly the given audit events.
  pub patch_incident-IsPatched :
      (id : Text) (p : IncidentPatch) (expected : ℕ) (audits : List IncidentAudit) (t : Tables)
      → ((e : StoreError) × (patch_incident db id p expected audits t ≡ (err e, t)))
        ⊎ ((out : Incident) × (t' : Tables) × (patch_incident db id p expected audits t
              ≡ (ok out, t'))
            × IsPatched db id p expected audits t out t')
  unfolding patch_incident
  patch_incident-IsPatched id p expected audits t =
      elim (Result-cases (apply_incident_patch db id p expected t.incidents)) [
        | inr (e, q) ↦ inl (e, rw (q, patch_incident) refl)
        | inl ((out, changed), q) ↦ elim (finish-cases db t out changed audits) [
          | inl f ↦ inl (failed, rw (q, patch_incident) f)
          | inr f ↦
              let (i, found, unseen, answer, sev, stat, store) =
                apply_incident_patch-ok db id p expected t.incidents out changed q in
              inr (
                out,
                record { incidents = changed; audits = logged audits t.audits },
                rw (q, patch_incident) f,
                record {
                  before = i;
                  found = found;
                  unseen = unseen;
                  answer = answer;
                  valid = (sev, stat);
                  stored = rw store refl;
                },
              )
        ]
      ]

apply_sets-updated_at :
    (cs : List SetColumn) (i : Incident) → (apply_sets cs i).updated_at ≡ i.updated_at
unfolding apply_sets
apply_sets-updated_at [] i = refl
apply_sets-updated_at (set_status v ∷ cs) i = apply_sets-updated_at cs (record i { status = v })
apply_sets-updated_at (set_severity v ∷ cs) i = apply_sets-updated_at cs (record i { severity = v })
apply_sets-updated_at (set_assignee v ∷ cs) i =
    apply_sets-updated_at cs (record i { assignee_id = some v })
apply_sets-updated_at (unset_assignee ∷ cs) i =
    apply_sets-updated_at cs (record i { assignee_id = none })
apply_sets-updated_at (set_resolution v ∷ cs) i =
    apply_sets-updated_at cs (record i { resolution = some v })

patched-updated_at :
    (now : ℕ) (p : IncidentPatch) (i : Incident) → (patched now p i).updated_at ≡ now
unfolding patched set_closed_at
patched-updated_at now p i =
    ground (arith, apply_sets-updated_at (patch_sets p) (record i { updated_at = now }))

-- Of two changes with the same precondition the second, whatever it would change and whenever it
-- comes, reports the conflict and changes nothing, when the first was made at a time other than
-- that of the precondition.
pub patch_incident-conflict :
    (db later : Db) (id : Text) (p q : IncidentPatch) (expected : ℕ)
    (audits more : List IncidentAudit) (t t' : Tables) (out : Incident)
    → patch_incident db id p expected audits t ≡ (ok out, t')
    → (db.now == expected) ≡ false
    → patch_incident later id q expected more t' ≡ (err conflict, t')
unfolding patch_incident apply_incident_patch
patch_incident-conflict db later id p q expected audits more t t' out h fresh =
    elim (patch_incident-IsPatched db id p expected audits t) [
      | inl (e, f) ↦ ground (arith, h, f)
      | inr (o, t1, f, w) ↦
          let table : t'.incidents ≡ insert id o t.incidents = ground (arith, h, f, w.stored) in
          let found : lookup id t'.incidents ≡ some o =
            rw table (lookup-insert_self id o t.incidents) in
          let time : o.updated_at ≡ db.now =
            ap (λ (x : Incident). x.updated_at) w.answer ∙ patched-updated_at db.now p w.before in
          let stale : (o.updated_at == expected) ≡ false = ground (arith, time, fresh) in
          rw (found, stale, patch_incident, apply_incident_patch) refl
    ]
