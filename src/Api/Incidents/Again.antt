-- ===== src/Api/Incidents/Again.antt =====
-- api/incidents.go: an incident that is reported again within a minute.
use rubez_ai.Prelude.{
  ap, and_parts, text_eq_iff, Any, here, there, ◌⊎◌, ℕ, ◌+◌, ◌<◌, ◌≡◌, refl, sym, ◌∙◌, subst, inl,
  inr, true, Option, none, some, [], ◌∷◌, arith, ltb, Bool-cases, Option-cases, Text, txt, text_eq,
  text_eq_refl,
}
use rubez_ai.Prelude.Result.{Result, ok, err, Result-cases}
use rubez_ai.Prelude.Dict.{Dict, lookup, lookup-insert_self}
use rubez_ai.Storage.{IncidentInput}
use rubez_ai.Storage.Incidents.{
  Incident, IncidentAudit, StoreError, Tables, Db, new_incident, insert_incident,
  create_incident_with_audit, create_manual_incident,
}
use rubez_ai.Storage.Incidents.Locking.{finish-cases}
use rubez_ai.Storage.Incidents.Sound.{insert_incident-ok}
use rubez_ai.Api.Http.{http_error}
use rubez_ai.Api.Incidents.{IncidentDto, IncidentCreateDto, incident_to_dto}
use rubez_ai.Api.Incidents.Creating.{
  is_text, latest, created_reply, is_recent, find_recent, find_manual_incident_for_reporter,
  manual_input, manual_audit, create_or_find,
}

latest-some : (i : Incident) (o : Option Incident) → (j : Incident) × (latest i o ≡ some j)
latest-some i none = (i, refl)
latest-some i (some j) = elim (Bool-cases (ltb i.created_at j.created_at)) [
  | inl e ↦ (j, rw e refl)
  | inr e ↦ (i, rw e refl)
]

find_recent-lookup :
    (now : ℕ) (event reporter id : Text) (i : Incident) (m : Dict Incident)
    → lookup id m ≡ some i
    → is_recent now event reporter i ≡ true
    → (j : Incident) × (find_recent now event reporter m ≡ some j)
unfolding find_recent lookup
find_recent-lookup now event reporter id i [] h r = cc
find_recent-lookup now event reporter id i ((k, x) ∷ m) h r =
    elim (Bool-cases (is_recent now event reporter x)) [
      | inl e ↦ rw e (latest-some x (find_recent now event reporter m))
      | inr e ↦ elim (Bool-cases (text_eq k id)) [
        | inl s ↦ ground (arith, h, s, r, e)
        | inr s ↦ rw e (find_recent-lookup now event reporter id i m (rw s at h) r)
      ]
    ]

latest-either :
    (i : Incident) (o : Option Incident) (j : Incident)
    → latest i o ≡ some j
    → (i ≡ j) ⊎ (o ≡ some j)
latest-either i none j h = inl (ground (arith, h))
latest-either i (some k) j h = elim (Bool-cases (ltb i.created_at k.created_at)) [
  | inl e ↦ inr (rw e at h)
  | inr e ↦ inl (ground (arith, h, e))
]

-- The incident is stored, for the event and by the reporter.
abbrev pub IsReported : Text → Text → Dict Incident → Incident → Type 0
IsReported event reporter m i =
    Any (λ (e : Text × Incident). e.1 ≡ i) m
    × (i.audit_event_id ≡ some event)
    × (i.reporter_id ≡ some reporter)

is_text-some : (o : Option Text) (t : Text) → is_text o t ≡ true → o ≡ some t
is_text-some none t h = cc
is_text-some (some u) t h = ap some ((text_eq_iff u t).0 h)

find_recent-IsReported :
    (now : ℕ) (event reporter : Text) (m : Dict Incident) (j : Incident)
    → find_recent now event reporter m ≡ some j
    → IsReported event reporter m j
unfolding find_recent
find_recent-IsReported now event reporter [] j h = cc
find_recent-IsReported now event reporter ((k, x) ∷ m) j h =
    elim (Bool-cases (is_recent now event reporter x)) [
      | inr e ↦
          let (stored, ev, rep) = find_recent-IsReported now event reporter m j (rw e at h) in
          (there stored, ev, rep)
      | inl e ↦ elim (latest-either x (find_recent now event reporter m) j (rw e at h)) [
        | inr q ↦
            let (stored, ev, rep) = find_recent-IsReported now event reporter m j q in
            (there stored, ev, rep)
        | inl q ↦
            let (both, late) = and_parts _ _ e in
            let (ev, rep) = and_parts _ _ both in
            (
              here q,
              subst (λ y. y.audit_event_id ≡ some event) q (is_text-some x.audit_event_id event ev),
              subst (λ y. y.reporter_id ≡ some reporter) q
                  (is_text-some x.reporter_id reporter rep),
            )
      ]
    ]

create_incident_with_audit-stored :
    (db : Db) (inc : IncidentInput) (ev : IncidentAudit) (t t' : Tables) (out : Incident)
    → create_incident_with_audit db inc ev t ≡ (ok out, t')
    → (lookup out.id t'.incidents ≡ some out) × (out ≡ new_incident db inc)
unfolding create_incident_with_audit
create_incident_with_audit-stored db inc ev t t' out h =
    elim (Result-cases (insert_incident db inc t.incidents)) [
      | inr (e, q) ↦ ground (arith, h, q)
      | inl ((row, changed), q) ↦
          let (sev, stat, same, store) = insert_incident-ok db inc t.incidents row changed q in
          elim (finish-cases db t row changed (ev ∷ [])) [
            | inl f ↦ ground (arith, h, q, f)
            | inr f ↦
                let e : row ≡ out = ground (arith, h, q, f) in
                let u : changed ≡ t'.incidents = ground (arith, h, q, f) in
                (
                  subst (λ x. lookup x.id t'.incidents ≡ some x) e
                      (rw (sym u, store) (lookup-insert_self row.id row t.incidents)),
                  sym e ∙ same,
                )
          ]
    ]

created_reply-ok :
    (p : Result StoreError Incident × Tables) (t' : Tables) (n : ℕ) (out : IncidentDto)
    → created_reply p ≡ (ok (n, out), t')
    → (inc : Incident) × (p ≡ (ok inc, t'))
unfolding created_reply http_error
created_reply-ok (err e, t) t' n out h = ground arith
created_reply-ok (ok inc, t) t' n out h = (inc, ground arith)

new_incident-is_recent :
    (db : Db) (now : ℕ) (dto : IncidentCreateDto) (reporter : Text)
    → now < db.now + 60000000000
    → is_recent now dto.audit_event_id reporter (new_incident db (manual_input dto reporter)) ≡ true
unfolding new_incident manual_input
new_incident-is_recent db now dto reporter soon =
    ground (arith, text_eq_refl dto.audit_event_id, text_eq_refl reporter)

create_manual_incident-manual :
    (db : Db) (dto : IncidentCreateDto) (reporter : Text) (t : Tables)
    → create_incident_with_audit db (manual_input dto reporter) (manual_audit dto reporter) t
      ≡ create_manual_incident db (manual_input dto reporter) (manual_audit dto reporter) t
unfolding create_manual_incident manual_input
create_manual_incident-manual db dto reporter t = refl

-- After a reporter has created an incident for an event, any further request by that reporter for
-- that event in the next 60 seconds, whatever else it says, when the database answers the look for
-- it, is answered with status 200 and an incident that is stored already, for that event and by that
-- reporter, and changes nothing.
pub create_or_find-again :
    (db later : Db) (dto again : IncidentCreateDto) (reporter : Text) (t t' : Tables)
    (out : IncidentDto)
    → create_or_find db dto reporter t ≡ (ok (201, out), t')
    → later.reads ≡ true
    → later.now < db.now + 60000000000
    → again.audit_event_id ≡ dto.audit_event_id
    → (i : Incident) × IsReported dto.audit_event_id reporter t'.incidents i
      × (create_or_find later again reporter t'
          ≡ (ok (200, incident_to_dto i (some (txt "manual"))), t'))
unfolding create_or_find find_manual_incident_for_reporter
create_or_find-again db later dto again reporter t t' out h reads soon same =
    elim (Option-cases (find_manual_incident_for_reporter db dto.audit_event_id reporter t)) [
      | inr (i, q) ↦ ground (arith, h, q)
      | inl q ↦
          let input = manual_input dto reporter in
          let (inc, made) =
            created_reply-ok (create_manual_incident db input (manual_audit dto reporter) t) t' 201
              out (rw (q, create_or_find) at h) in
          let (found, new) =
            create_incident_with_audit-stored db input (manual_audit dto reporter) t t' inc
              (create_manual_incident-manual db dto reporter t ∙ made) in
          let recent : is_recent later.now again.audit_event_id reporter inc ≡ true =
            rw (same, new) (new_incident-is_recent db later.now dto reporter soon) in
          let (i, p) =
            find_recent-lookup later.now again.audit_event_id reporter inc.id inc t'.incidents found
              recent in
          (
            i,
            find_recent-IsReported later.now dto.audit_event_id reporter t'.incidents i
                (rw same at p),
            rw (reads, p, create_or_find, find_manual_incident_for_reporter) refl,
          )
    ]
