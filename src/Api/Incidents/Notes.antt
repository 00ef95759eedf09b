-- ===== src/Api/Incidents/Notes.antt =====
-- api/incidents_notes.go and the notes of storage/incidents.go: the notes of an incident, which are
-- only ever added.
use rubez_ai.Prelude.{
  ℕ, Bool, true, false, not, ◌&&◌, Option, none, some, List, [], ◌∷◌, leb, ltb, ◌==◌, ◌||◌, text_lt,
  keep_if, if◌then◌else◌, Text, txt, text_eq, byte_len,
}
use rubez_ai.Prelude.Sort.{sort_by}
use rubez_ai.Prelude.Result.{Result, ok, err}
use rubez_ai.Auth.{Role, Identity}
use rubez_ai.Storage.Incidents.{IncidentAudit, note_added, StoreError, Tables, Db, get_incident}
use rubez_ai.Api.Http.{Reply, http_error}
use rubez_ai.Api.Ids.{is_uuid, DbError, current_user_id}
use rubez_ai.Api.Incidents.{incident_write_roles, permitted}

pub record IncidentNote : Type 0 where
  pub id : Text
  pub incident_id : Text
  pub author_id : Text
  pub content : Text
  pub created_at : ℕ

-- The tables of an incident with the notes, the last first.
pub record Notebook : Type 0 where
  pub tables : Tables
  pub notes : List IncidentNote

-- Go's `len` counts bytes.
abbrev pub content_allowed : Text → Bool
content_allowed s = leb 1 (byte_len s) && leb (byte_len s) 2000

-- `AddIncidentNote`; `accepts_note` is what the database makes of the insertion.
unfoldable pub add_incident_note :
    Db
    → (IncidentNote → Bool)
    → Text
    → Text
    → Text
    → List IncidentNote
    → Result StoreError (IncidentNote × List IncidentNote)
unfolding byte_len
add_incident_note db accepts_note incident_id author_id content notes =
    let note : IncidentNote = record {
      id = db.new_id;
      incident_id = incident_id;
      author_id = author_id;
      content = content;
      created_at = db.now;
    } in
    if not (content_allowed content)
    then err StoreError.note_too_long
    else if accepts_note note
    then ok (note, note ∷ notes)
    else err StoreError.failed

-- The earlier first, and of two at the same time the one with the smaller id.
abbrev earlier : IncidentNote → IncidentNote → Bool
earlier m n = ltb m.created_at n.created_at || (m.created_at == n.created_at && text_lt m.id n.id)

-- `ListIncidentNotes`
unfoldable pub list_incident_notes : Text → List IncidentNote → List IncidentNote
unfolding sort_by keep_if text_eq
list_incident_notes id notes = sort_by earlier (keep_if (λ n. text_eq n.incident_id id) notes)

abbrev pub is_assignee : Option Text → Text → Bool
is_assignee none actor = false
is_assignee (some a) actor = text_eq a actor

-- A user without a role that writes must be the assignee of the incident.
unfoldable pub may_write_note : Db → Bool → Text → Text → Tables → Reply (Unit {0})
unfolding text_eq http_error get_incident
may_write_note db true id actor t = ok tt
may_write_note db false id actor t = elim (get_incident db id t) [
  | ok inc ↦ if is_assignee inc.assignee_id actor then ok tt else http_error "forbidden" 403
  | err StoreError.not_found ↦ http_error "404 page not found" 404
  | err StoreError.conflict ↦ http_error "forbidden" 403
  | err StoreError.auto_duplicate ↦ http_error "forbidden" 403
  | err StoreError.note_too_long ↦ http_error "forbidden" 403
  | err StoreError.failed ↦ http_error "forbidden" 403
]

unfoldable pub note_audit : IncidentNote → IncidentAudit
unfolding txt
note_audit n = record {
  user_id = n.author_id;
  event_type = note_added;
  detail = (txt "incident_id", n.incident_id) ∷ (txt "note_id", n.id) ∷ [];
}

module _ (db : Db) (accepts_note : IncidentNote → Bool)
    (user_id_for_role : Role → Result DbError Text) where
  -- What is checked before the note is added: the author and the content.
  unfoldable pub note_request : Option Identity → Text → Option Text → Tables → Reply (Text × Text)
  unfolding http_error is_uuid byte_len current_user_id may_write_note
  note_request identity id body t =
      if not (is_uuid id) then http_error "404 page not found" 404 else elim body [
        | none ↦ http_error "некорректный JSON" 400
        | some content ↦
            if not (content_allowed content)
            then http_error "content: 1..2000 символов" 400
            else elim (current_user_id user_id_for_role identity) [
              | err e ↦ http_error "user not resolved" 500
              | ok actor ↦
                  elim (may_write_note db (permitted incident_write_roles identity) id actor t) [
                    | err e ↦ err e
                    | ok u ↦ ok (actor, content)
                  ]
            ]
      ]

  -- The audit event after the note is inserted at best effort.
  abbrev pub audited : IncidentAudit → Tables → Tables
  audited ev t = if db.accepts_audit ev then record t { audits = ev ∷ t.audits } else t

  abbrev pub note_error : StoreError → Reply IncidentNote
  note_error StoreError.note_too_long = http_error "storage: текст заметки 1..2000 символов" 400
  note_error StoreError.not_found = http_error "ошибка записи" 500
  note_error StoreError.conflict = http_error "ошибка записи" 500
  note_error StoreError.auto_duplicate = http_error "ошибка записи" 500
  note_error StoreError.failed = http_error "ошибка записи" 500

  unfoldable pub add_incident_note_handler :
      Option Identity → Text → Option Text → Notebook → Reply IncidentNote × Notebook
  unfolding http_error note_request add_incident_note note_audit
  add_incident_note_handler identity id body b = elim (note_request identity id body b.tables) [
    | err e ↦ (err e, b)
    | ok (actor, content) ↦ elim (add_incident_note db accepts_note id actor content b.notes) [
      | err e ↦ (note_error e, b)
      | ok (note, notes) ↦
          (ok note, record { tables = audited (note_audit note) b.tables; notes = notes })
    ]
  ]
