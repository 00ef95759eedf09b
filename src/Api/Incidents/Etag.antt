-- ===== src/Api/Incidents/Etag.antt =====
-- api/incidents.go: the ETag of an incident as the precondition of its change.
use rubez_ai.Prelude.{
  ℕ, ◌≡◌, refl, subst, ◌⊎◌, inl, inr, ◌&&◌, ==_iff, Option, none, some, List, [], ◌∷◌, arith,
  Bool-cases, Option-cases, Text,
}
use rubez_ai.Prelude.Result.{Result, ok, err, Result-cases}
use rubez_ai.Prelude.Dict.{Dict, lookup}
use rubez_ai.Auth.{Identity}
use rubez_ai.Storage.Audit.{AuditEventRow}
use rubez_ai.Storage.Incidents.{
  Incident, IncidentAudit, StoreError, failed, Tables, Db, get_incident, check_severity,
  check_status, finish,
}
use rubez_ai.Storage.Incidents.Patch.{IncidentPatch, patched, apply_incident_patch, patch_incident}
use rubez_ai.Storage.Incidents.Locking.{finish-cases}
use rubez_ai.Api.Http.{http_error}
use rubez_ai.Api.Audit.{Codec}
use rubez_ai.Api.Incidents.{IncidentDto}
use rubez_ai.Api.Incidents.Editing.{parse_patch_if_match}
use rubez_ai.Api.Incidents.Reading.{incident_etag, get_incident_handler}

-- A change that went through or was refused by the database, and is no conflict.
pub data IsUncontested {A : Type 0} : Result StoreError A → Type 0 where
  done : (a : A) → IsUncontested (ok a)
  refused : IsUncontested (err failed)

text-cases : (t : Text) → (t ≡ []) ⊎ ((c : ℕ) × (s : Text) × (t ≡ (c ∷ s)))
text-cases [] = inl refl
text-cases (c ∷ s) = inr (c, s, refl)

retype :
    {A B : Type 0} (e : StoreError) → IsUncontested {A = A} (err e) → IsUncontested {A = B} (err e)
retype _ refused = refused

module _ (db : Db) (id : Text) (p : IncidentPatch) where
  apply_incident_patch-IsUncontested :
      (table : Dict Incident) (i : Incident)
      → lookup id table ≡ some i
      → IsUncontested (apply_incident_patch db id p i.updated_at table)
  unfolding apply_incident_patch
  apply_incident_patch-IsUncontested table i q =
      elim (Bool-cases (
        check_severity (patched db.now p i).severity
        && check_status (patched db.now p i).status
        && db.accepts (patched db.now p i))) [
          | inl c ↦
              rw (q, (==_iff i.updated_at i.updated_at).1 refl, c, apply_incident_patch) (done _)
          | inr c ↦
              rw (q, (==_iff i.updated_at i.updated_at).1 refl, c, apply_incident_patch) refused
        ]

  finish-IsUncontested :
      (t : Tables) (out : Incident) (changed : Dict Incident) (audits : List IncidentAudit)
      → IsUncontested (finish db t out changed audits).0
  finish-IsUncontested t out changed audits = elim (finish-cases db t out changed audits) [
    | inl f ↦ rw (f) refused
    | inr f ↦ rw (f) (done out)
  ]

  patch_incident-IsUncontested :
      (audits : List IncidentAudit) (t : Tables) (i : Incident)
      → lookup id t.incidents ≡ some i
      → IsUncontested (patch_incident db id p i.updated_at audits t).0
  unfolding patch_incident
  patch_incident-IsUncontested audits t i q =
      elim (Result-cases (apply_incident_patch db id p i.updated_at t.incidents)) [
        | inl ((out, changed), a) ↦
            rw (a, patch_incident) (finish-IsUncontested t out changed audits)
        | inr (e, a) ↦
            rw (a, patch_incident)
              (retype e
                (subst IsUncontested a (apply_incident_patch-IsUncontested t.incidents i q)))
      ]

module _ (codec : Codec) (get : Text → Option AuditEventRow) (db : Db) where
  parse_patch_if_match-etag :
      (c : ℕ) (s : Text) (t : ℕ)
      → codec.parse_time (c ∷ s) ≡ some t
      → parse_patch_if_match codec (c ∷ s) ≡ ok t
  unfolding parse_patch_if_match
  parse_patch_if_match-etag c s t h = rw (h, parse_patch_if_match) refl

  parse_patch_if_match-incident_etag :
      (u : ℕ)
      → codec.parse_time (codec.format_time u) ≡ some u
      → codec.parse_time [] ≡ none
      → parse_patch_if_match codec (incident_etag codec u) ≡ ok u
  parse_patch_if_match-incident_etag u h n = elim (text-cases (codec.format_time u)) [
    | inl z ↦ ground (arith, h, n, z)
    | inr (c, s, z) ↦ rw z (parse_patch_if_match-etag c s u (rw z at h))
  ]

  get_incident_handler-ok :
      (identity : Option Identity) (id : Text) (t : Tables) (etag : Text) (dto : IncidentDto)
      → get_incident_handler codec get db identity id t ≡ ok (etag, dto)
      → (i : Incident) × (lookup id t.incidents ≡ some i)
        × (incident_etag codec i.updated_at ≡ etag)
  unfolding get_incident_handler get_incident http_error
  get_incident_handler-ok identity id t etag dto h = elim (Option-cases (lookup id t.incidents)) [
    | inl n ↦ ground (arith, h, n)
    | inr (i, g) ↦ (i, g, ground (arith, h, g))
  ]

  -- Where the codec reads back the times that it prints, and reads none from the empty text: the
  -- ETag with which an incident is read is an accepted precondition, and a change of the incident as
  -- it was read, with that precondition, either goes through or is refused by the database; it is
  -- never a conflict.
  pub get_incident_handler-etag :
      ((u : ℕ) → codec.parse_time (codec.format_time u) ≡ some u)
      → codec.parse_time [] ≡ none
      → (identity : Option Identity) (id : Text) (t : Tables) (etag : Text) (dto : IncidentDto)
      → get_incident_handler codec get db identity id t ≡ ok (etag, dto)
      → (later : Db) (p : IncidentPatch) (audits : List IncidentAudit)
      → (expected : ℕ) × (parse_patch_if_match codec etag ≡ ok expected)
        × IsUncontested (patch_incident later id p expected audits t).0
  get_incident_handler-etag back blank identity id t etag dto h later p audits =
      let (i, q, same) = get_incident_handler-ok identity id t etag dto h in
      (
        i.updated_at,
        subst (λ x. parse_patch_if_match codec x ≡ ok i.updated_at) same
            (parse_patch_if_match-incident_etag i.updated_at (back i.updated_at) blank),
        patch_incident-IsUncontested later id p audits t i q,
      )
