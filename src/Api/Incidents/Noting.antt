-- ===== src/Api/Incidents/Noting.antt =====
-- api/incidents_notes.go: what an added note has gone through.
use rubez_ai.Prelude.{
  ◌≡◌, refl, ap, ◌⊎◌, inl, inr, Bool, true, false, Option, none, some, List, ◌∷◌, arith, Bool-cases,
  Text, text_eq_iff,
}
use rubez_ai.Prelude.Result.{Result, ok, err, Result-cases}
use rubez_ai.Auth.{Role, Identity}
use rubez_ai.Storage.Incidents.{Incident, StoreError, Tables, Db, get_incident}
use rubez_ai.Api.Http.{HttpError, http_error}
use rubez_ai.Api.Ids.{DbError, current_user_id}
use rubez_ai.Api.Incidents.{incident_write_roles, permitted}
use rubez_ai.Api.Incidents.Notes.{
  IncidentNote, Notebook, content_allowed, add_incident_note, is_assignee, may_write_note,
  note_audit, note_request, audited, note_error, add_incident_note_handler,
}

-- `actor` is the assignee of the incident `id`.
pub record IsAssignedTo (db : Db) (id actor : Text) (t : Tables) : Type 0 where
  pub incident : Incident
  pub stored : get_incident db id t ≡ ok incident
  pub assigned : incident.assignee_id ≡ some actor

is_assignee-some : (a : Option Text) (actor : Text) → is_assignee a actor ≡ true → a ≡ some actor
is_assignee-some none actor h = ground (arith, h)
is_assignee-some (some a) actor h = ap some ((text_eq_iff a actor).0 h)

may_write_note-ok :
    (db : Db) (may : Bool) (id actor : Text) (t : Tables)
    → may_write_note db may id actor t ≡ ok tt
    → (may ≡ true) ⊎ IsAssignedTo db id actor t
unfolding may_write_note http_error
may_write_note-ok db true id actor t h = inl refl
may_write_note-ok db false id actor t h = elim (Result-cases (get_incident db id t)) [
  | inr (e, g) ↦ ground (arith, h, g)
  | inl (inc, g) ↦ elim (Bool-cases (is_assignee inc.assignee_id actor)) [
    | inl y ↦
        inr (record {
          incident = inc;
          stored = g;
          assigned = is_assignee-some inc.assignee_id actor y;
        })
    | inr n ↦ ground (arith, h, g, n)
  ]
]

module _ (db : Db) (accepts_note : IncidentNote → Bool)
    (user_id_for_role : Role → Result DbError Text) where
  -- A note of the incident `id` that `out` is, by a user who may write it.
  pub record IsNoted (identity : Option Identity) (id : Text) (body : Option Text) (b : Notebook)
      (out : IncidentNote) (b' : Notebook) : Type 0 where
    pub actor : Text
    pub content : Text
    pub decoded : body ≡ some content
    pub allowed : content_allowed content ≡ true
    pub user : current_user_id user_id_for_role identity ≡ ok actor
    pub writer :
        (permitted incident_write_roles identity ≡ true) ⊎ IsAssignedTo db id actor b.tables
    pub note_incident : out.incident_id ≡ id
    pub note_author : out.author_id ≡ actor
    pub note_content : out.content ≡ content
    pub appended : b'.notes ≡ (out ∷ b.notes)
    pub incidents_kept : b'.tables.incidents ≡ b.tables.incidents

  note_request-ok :
      (identity : Option Identity) (id : Text) (body : Option Text) (t : Tables)
      (actor content : Text)
      → note_request db accepts_note user_id_for_role identity id body t ≡ ok (actor, content)
      → (body ≡ some content)
        × (content_allowed content ≡ true)
        × (current_user_id user_id_for_role identity ≡ ok actor)
        × (may_write_note db (permitted incident_write_roles identity) id actor t ≡ ok tt)
  unfolding note_request http_error
  note_request-ok identity id body t actor content h = ground (arith, h)

  note_error-err :
      (e : StoreError) → (x : HttpError) × (note_error db accepts_note user_id_for_role e ≡ err x)
  unfolding http_error
  note_error-err StoreError.not_found = (_, refl)
  note_error-err StoreError.conflict = (_, refl)
  note_error-err StoreError.auto_duplicate = (_, refl)
  note_error-err StoreError.note_too_long = (_, refl)
  note_error-err StoreError.failed = (_, refl)

  add_incident_note-ok :
      (id actor content : Text) (notes : List IncidentNote) (out : IncidentNote)
      (notes' : List IncidentNote)
      → add_incident_note db accepts_note id actor content notes ≡ ok (out, notes')
      → (out.incident_id ≡ id)
        × (out.author_id ≡ actor)
        × (out.content ≡ content)
        × (notes' ≡ (out ∷ notes))
  unfolding add_incident_note
  add_incident_note-ok id actor content notes out notes' h = ground (arith, h)

  audited-incidents :
      (n : IncidentNote) (t : Tables)
      → (audited db accepts_note user_id_for_role (note_audit n) t).incidents ≡ t.incidents
  audited-incidents n t = elim (Bool-cases (db.accepts_audit (note_audit n))) [
    | inl y ↦ rw (y) refl
    | inr y ↦ rw (y) refl
  ]

  -- An error leaves the incidents and the notes as they were. Otherwise exactly one note is added in
  -- front of the others, which stay: by the user of the request to the incident of the request, with
  -- the content of the body, of 1 to 2000 bytes, where the user has a role that changes incidents or
  -- is the assignee of that incident. The incidents do not change.
  pub add_incident_note_handler-IsNoted :
      (identity : Option Identity) (id : Text) (body : Option Text) (b : Notebook)
      → ((e : HttpError) × (add_incident_note_handler db accepts_note user_id_for_role identity id
              body b
            ≡ (err e, b)))
        ⊎ ((out : IncidentNote) × (b' : Notebook) × (add_incident_note_handler db accepts_note
                user_id_for_role identity id body b
              ≡ (ok out, b'))
            × IsNoted identity id body b out b')
  unfolding add_incident_note_handler
  add_incident_note_handler-IsNoted identity id body b =
      elim (Result-cases
        (note_request db accepts_note user_id_for_role identity id body b.tables)) [
          | inr (e, q) ↦ inl (e, rw (q, add_incident_note_handler) refl)
          | inl ((actor, content), q) ↦
              elim (Result-cases (add_incident_note db accepts_note id actor content b.notes)) [
                | inr (e, a) ↦
                    let (x, r) = note_error-err e in
                    inl (x, rw (q, a, add_incident_note_handler) (ap (λ z. (z, b)) r))
                | inl ((out, notes), a) ↦
                    let (decoded, allowed, user, may) =
                      note_request-ok identity id body b.tables actor content q in
                    let (i, u, c, n) = add_incident_note-ok id actor content b.notes out notes a in
                    inr (
                      out,
                      record {
                        tables = audited db accepts_note user_id_for_role (note_audit out) b.tables;
                        notes = notes;
                      },
                      rw (q, a, add_incident_note_handler) refl,
                      record {
                        actor = actor;
                        content = content;
                        decoded = decoded;
                        allowed = allowed;
                        user = user;
                        writer =
                            may_write_note-ok db (permitted incident_write_roles identity) id actor
                              b.tables may;
                        note_incident = i;
                        note_author = u;
                        note_content = c;
                        appended = n;
                        incidents_kept = audited-incidents out b.tables;
                      },
                    )
              ]
        ]
