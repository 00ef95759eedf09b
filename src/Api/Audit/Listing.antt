-- ===== src/Api/Audit/Listing.antt =====
-- api/audit.go: the parameters of a listing, and the handlers that list and read events.
use rubez_ai.Prelude.{
  ℕ, String, Bool, true, false, not, ◌&&◌, ◌||◌, Option, none, some, List, [], ◌∷◌, map, ltb, leb,
  if◌then◌else◌, length, Text, txt, text_eq,
}
use rubez_ai.Prelude.Result.{Result, ok, err, ◌>>=◌}
use rubez_ai.Prelude.Int.{ℤ, pos, negsuc}
use rubez_ai.Prelude.Parse.{UrlValues, query_all, query_get, atoi, parse_bool}
use rubez_ai.Auth.{Role, Identity}
use rubez_ai.Storage.Audit.{AuditEventRow, AuditFilter}
use rubez_ai.Storage.Audit.Query.{Sql, list_audit_events}
use rubez_ai.Api.Http.{Reply, http_error}
use rubez_ai.Api.Ids.{is_uuid, DbError, current_user_id}
use rubez_ai.Api.Audit.{
  Codec, AuditCursor, encode_audit_cursor, decode_audit_cursor, AuditEventDetailDto,
  AuditEventListDto, row_to_summary, row_to_detail, require_audit_access,
}

-- An optional parameter: absent, or read by `parse`, or the error.
abbrev pub optional {ℓ} : {A : Type ℓ} → (Text → Option A) → String → Text → Reply (Option A)
optional parse message [] = ok none
optional parse message (c ∷ s) = elim (parse (c ∷ s)) [
  | none ↦ http_error message 400
  | some a ↦ ok (some a)
]

abbrev pub as_uuid : Text → Option Text
as_uuid v = if is_uuid v then some v else none

abbrev pub in_range : Option ℤ → Option ℕ
in_range none = none
in_range (some (negsuc n)) = none
in_range (some (pos n)) = if ltb n 1 || ltb 200 n then none else some n

abbrev pub limit_or_default : Option ℕ → ℕ
limit_or_default none = 50
limit_or_default (some n) = n

abbrev pub cursor_time : Option (Option AuditCursor) → Option ℕ
cursor_time (some (some c)) = some c.created_at
cursor_time (some none) = none
cursor_time none = none

abbrev pub cursor_id : Option (Option AuditCursor) → Option Text
cursor_id (some (some c)) = some c.id
cursor_id (some none) = none
cursor_id none = none

unfoldable pub parse_audit_filter : Codec → UrlValues → Reply AuditFilter
unfolding txt query_all query_get is_uuid parse_bool atoi http_error decode_audit_cursor
parse_audit_filter codec q = do
  from ← optional codec.parse_time "from: невалидный RFC3339" (query_get (txt "from") q)
  to ← optional codec.parse_time "to: невалидный RFC3339" (query_get (txt "to") q)
  user ← optional as_uuid "user_id: невалидный UUID" (query_get (txt "user_id") q)
  model ←
      optional as_uuid "model_provider_id: невалидный UUID" (query_get (txt "model_provider_id") q)
  leak ← optional parse_bool "has_leak: ожидался true/false" (query_get (txt "has_leak") q)
  search ← optional some "" (query_get (txt "q") q)
  cursor ← optional (decode_audit_cursor codec) "cursor: невалидный" (query_get (txt "cursor") q)
  limit ← optional (λ v. in_range (atoi v)) "limit: 1..200" (query_get (txt "limit") q)
  ok (record {
    from = from;
    to = to;
    user_id = user;
    event_types = query_all (txt "event_type") q;
    policy_decisions = query_all (txt "policy_decision") q;
    risk_levels = query_all (txt "risk_level") q;
    model_provider_id = model;
    has_leak = leak;
    q = search;
    cursor_created_at = cursor_time cursor;
    cursor_id = cursor_id cursor;
    limit = limit_or_default limit;
  })

abbrev pub last_row : AuditEventRow → List AuditEventRow → AuditEventRow
last_row r [] = r
last_row r (s ∷ rs) = last_row s rs

abbrev pub next_cursor_of : Codec → List AuditEventRow → ℕ → Option Text
next_cursor_of codec [] limit = none
next_cursor_of codec (r ∷ rs) limit =
    let last = last_row r rs in
    if leb limit (length (r ∷ rs))
    then some (encode_audit_cursor codec (record { created_at = last.created_at; id = last.id }))
    else none

unfoldable pub assemble_audit_list : Codec → List AuditEventRow → ℕ → AuditEventListDto
unfolding row_to_summary encode_audit_cursor
assemble_audit_list codec rows limit = record {
  events = map (row_to_summary codec) rows;
  next_cursor = next_cursor_of codec rows limit;
}

-- `GetAuditEvent`
unfoldable pub get_audit_event : Text → List AuditEventRow → Option AuditEventRow
unfolding text_eq
get_audit_event id [] = none
get_audit_event id (r ∷ rs) = if text_eq r.id id then some r else get_audit_event id rs

-- The user for the comparison: the error is dropped, and its text is empty.
abbrev pub user_or_empty : Result DbError Text → Text
user_or_empty (ok user_id) = user_id
user_or_empty (err e) = []

module _ (codec : Codec) (sql : Sql) (user_id_for_role : Role → Result DbError Text) where
  -- The table of the events, `none` where the query fails.
  unfoldable pub read_audit_list :
      Option (List AuditEventRow) → AuditFilter → Reply AuditEventListDto
  unfolding http_error list_audit_events assemble_audit_list
  read_audit_list none filter = http_error "ошибка чтения аудита" 500
  read_audit_list (some table) filter =
      ok (assemble_audit_list codec (list_audit_events sql filter table) filter.limit)

  -- The filter of a developer: their own tests of the policy.
  unfoldable pub scope_filter : Option Identity → Bool → AuditFilter → Reply AuditFilter
  unfolding txt http_error current_user_id
  scope_filter identity false filter = ok filter
  scope_filter identity true filter = elim (current_user_id user_id_for_role identity) [
    | err e ↦ http_error "user not resolved" 500
    | ok user_id ↦
        ok (record filter { user_id = some user_id; event_types = txt "policy_tested" ∷ [] })
  ]

  unfoldable pub list_audit_events_handler :
      Option (List AuditEventRow) → Option Identity → UrlValues → Reply AuditEventListDto
  unfolding http_error require_audit_access parse_audit_filter scope_filter read_audit_list
  list_audit_events_handler table identity q =
      let access = require_audit_access identity in
      if not access.0 then http_error "forbidden" 403 else do
        filter ← parse_audit_filter codec q
        scoped ← scope_filter identity access.1 filter
        read_audit_list table scoped

  unfoldable pub get_audit_event_handler :
      Option (List AuditEventRow) → Option Identity → Text → Reply AuditEventDetailDto
  unfolding txt text_eq http_error require_audit_access is_uuid get_audit_event current_user_id
      row_to_detail
  get_audit_event_handler table identity id =
      let access = require_audit_access identity in
      if not access.0
      then http_error "forbidden" 403
      else if not (is_uuid id)
      then http_error "404 page not found" 404
      else elim table [
        | none ↦ http_error "ошибка чтения" 500
        | some rows ↦ elim (get_audit_event id rows) [
          | none ↦ http_error "404 page not found" 404
          | some row ↦
              let user_id = user_or_empty (current_user_id user_id_for_role identity) in
              let foreign =
                not (text_eq row.user_id user_id)
                || not (text_eq row.event_type (txt "policy_tested")) in
              if access.1 && foreign
              then http_error "404 page not found" 404
              else ok (row_to_detail codec row)
        ]
      ]
