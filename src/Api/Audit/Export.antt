-- ===== src/Api/Audit/Export.antt =====
-- api/audit.go: the export of the audit trail as CSV or as NDJSON. The values that are encoded as
-- JSON lines are kept as values.
use rubez_ai.Prelude.{
  ℕ, Bool, true, false, not, ◌&&◌, ◌||◌, Option, none, some, List, [], ◌∷◌, ◌++◌, map, ◌==◌,
  if◌then◌else◌, Text, txt, text_eq,
}
use rubez_ai.Prelude.Result.{Result, ok, err}
use rubez_ai.Prelude.Parse.{UrlValues, query_get}
use rubez_ai.Chat.Records.{join}
use rubez_ai.Auth.{Role, Identity}
use rubez_ai.Storage.Audit.{AuditEventRow, AuditFilter}
use rubez_ai.Storage.Audit.Query.{Sql, list_audit_events}
use rubez_ai.Api.Http.{Reply, http_error}
use rubez_ai.Api.Ids.{DbError, current_user_id}
use rubez_ai.Api.Audit.{
  Codec, AuditEventDetailDto, row_to_summary, row_to_detail, require_audit_access,
}
use rubez_ai.Api.Audit.Listing.{user_or_empty}

pub record ExportFiltersDto : Type 0 where
  pub from : Option ℕ
  pub to : Option ℕ
  pub user_id : Option Text
  pub event_types : List Text
  pub policy_decisions : List Text
  pub risk_levels : List Text
  pub model_provider_id : Option Text
  pub has_leak : Option Bool
  pub q : Option Text

pub record AuditExportRequestDto : Type 0 where
  pub format : Text
  pub include_payload : Option Bool
  pub filters : Option ExportFiltersDto

-- A GET with its query, a POST with no body, and a POST with a body, `none` if it does not decode.
pub data ExportInput : Type 0 where
  by_query : UrlValues → ExportInput
  empty_body : ExportInput
  json_body : Option AuditExportRequestDto → ExportInput

unfoldable pub no_filters : ExportFiltersDto
no_filters = record {
  from = none;
  to = none;
  user_id = none;
  event_types = [];
  policy_decisions = [];
  risk_levels = [];
  model_provider_id = none;
  has_leak = none;
  q = none;
}

abbrev filter_of : ExportFiltersDto → AuditFilter
filter_of e = record {
  from = e.from;
  to = e.to;
  user_id = e.user_id;
  event_types = e.event_types;
  policy_decisions = e.policy_decisions;
  risk_levels = e.risk_levels;
  model_provider_id = e.model_provider_id;
  has_leak = e.has_leak;
  q = e.q;
  cursor_created_at = none;
  cursor_id = none;
  limit = 200;
}

unfoldable pub to_storage_filter : Option ExportFiltersDto → AuditFilter
unfolding no_filters
to_storage_filter none = filter_of no_filters
to_storage_filter (some e) = filter_of e

abbrev or_csv : Text → Text
or_csv [] = txt "csv"
or_csv (c ∷ s) = c ∷ s

abbrev one_type : Text → Option ExportFiltersDto
one_type [] = none
one_type (c ∷ s) = some (record no_filters { event_types = (c ∷ s) ∷ [] })

unfoldable pub parse_export_request : ExportInput → Reply AuditExportRequestDto
unfolding txt http_error query_get no_filters
parse_export_request (by_query q) = ok (record {
  format = or_csv (query_get (txt "format") q);
  include_payload = none;
  filters = one_type (query_get (txt "event_type") q);
})
parse_export_request empty_body =
    ok (record { format = txt "csv"; include_payload = none; filters = none })
parse_export_request (json_body none) = http_error "некорректный JSON" 400
parse_export_request (json_body (some dto)) = ok (record dto { format = or_csv dto.format })

-- `strings.ContainsAny(f, ",\"\n")`
unfoldable pub is_special : ℕ → Bool
is_special c = c == b',' || c == 0x22 || c == 0x0a

unfoldable pub contains_special : Text → Bool
unfolding is_special
contains_special [] = false
contains_special (c ∷ s) = is_special c || contains_special s

-- Every quotation mark twice.
unfoldable pub double_quotes : Text → Text
double_quotes [] = []
double_quotes (c ∷ s) =
    let rest = double_quotes s in if c == 0x22 then 0x22 ∷ 0x22 ∷ rest else c ∷ rest

unfoldable pub escape_field : Text → Text
unfolding contains_special double_quotes
escape_field f = if contains_special f then 0x22 ∷ double_quotes f ++ (0x22 ∷ []) else f

unfoldable pub escape_csv : List Text → List Text
unfolding escape_field
escape_csv fields = map escape_field fields

abbrev pub deref_or_empty : Option Text → Text
deref_or_empty none = []
deref_or_empty (some s) = s

abbrev bool_text : Bool → Text
bool_text true = txt "true"
bool_text false = txt "false"

abbrev payload_column : Bool → Text → List Text
payload_column true v = v ∷ []
payload_column false v = []

unfoldable pub csv_columns : Bool → List Text
unfolding txt
csv_columns include_payload =
    (txt "id"
      ∷ txt "created_at"
      ∷ txt "user_id"
      ∷ txt "event_type"
      ∷ txt "policy_decision"
      ∷ txt "risk_level"
      ∷ txt "has_leak"
      ∷ txt "request_id"
      ∷ [])
    ++ payload_column include_payload (txt "masked_payload")

module _ (codec : Codec) (include_payload : Bool) where
  unfoldable pub csv_fields : AuditEventRow → List Text
  unfolding txt row_to_summary
  csv_fields r =
      let s = row_to_summary codec r in
      (s.id
        ∷ codec.format_time s.created_at
        ∷ s.user_id
        ∷ s.event_type
        ∷ deref_or_empty s.policy_decision
        ∷ deref_or_empty s.risk_level
        ∷ bool_text s.has_leak
        ∷ deref_or_empty s.request_id
        ∷ [])
      ++ payload_column include_payload (deref_or_empty r.masked_payload)

  abbrev pub csv_line : List Text → Text
  csv_line fields = join (txt ",") (escape_csv fields) ++ (0x0a ∷ [])

  unfoldable pub csv_lines : List AuditEventRow → Text
  unfolding txt join escape_csv csv_fields
  csv_lines [] = []
  csv_lines (r ∷ rs) = csv_line (csv_fields r) ++ csv_lines rs

  -- The names of the columns need no escaping.
  unfoldable pub write_csv_export : List AuditEventRow → Text
  unfolding txt join csv_columns csv_lines
  write_csv_export rows =
      (join (txt ",") (csv_columns include_payload) ++ (0x0a ∷ [])) ++ csv_lines rows

  abbrev shown_payload : Bool → AuditEventDetailDto → AuditEventDetailDto
  shown_payload true d = d
  shown_payload false d = record d { masked_payload = none }

  unfoldable pub write_ndjson : List AuditEventRow → List AuditEventDetailDto
  unfolding row_to_detail
  write_ndjson rows = map (λ r. shown_payload include_payload (row_to_detail codec r)) rows

pub data ExportBody : Type 0 where
  csv : Text → ExportBody
  ndjson : List AuditEventDetailDto → ExportBody

unfoldable pub write_export : Codec → Text → Bool → List AuditEventRow → ExportBody
unfolding txt text_eq write_csv_export write_ndjson
write_export codec format include_payload rows =
    if text_eq format (txt "csv")
    then csv (write_csv_export codec include_payload rows)
    else ndjson (write_ndjson codec include_payload rows)

-- The audit event `audit_exported`.
pub record AuditExported : Type 0 where
  pub user_id : Text
  pub format : Text
  pub include_payload : Bool
  pub filters : Option ExportFiltersDto

abbrev or_true : Option Bool → Bool
or_true none = true
or_true (some b) = b

module _ (codec : Codec) (sql : Sql) (user_id_for_role : Role → Result DbError Text) where
  unfoldable pub read_export :
      Option (List AuditEventRow) → AuditExportRequestDto → Reply ExportBody
  unfolding http_error list_audit_events to_storage_filter write_export
  read_export none dto = http_error "ошибка чтения" 500
  read_export (some table) dto = ok (
      write_export codec dto.format (or_true dto.include_payload)
        (list_audit_events sql (to_storage_filter dto.filters) table))

  -- The answer, and the audit events that are inserted before it.
  unfoldable pub export_audit_events_handler :
      Option (List AuditEventRow)
      → Option Identity
      → ExportInput
      → Reply ExportBody × List AuditExported
  unfolding txt text_eq http_error require_audit_access parse_export_request current_user_id
      read_export
  export_audit_events_handler table identity input =
      if not (require_audit_access identity).0
      then (http_error "forbidden" 403, [])
      else elim (parse_export_request input) [
        | err e ↦ (err e, [])
        | ok dto ↦
            if not (text_eq dto.format (txt "csv")) && not (text_eq dto.format (txt "ndjson"))
            then (http_error "format: csv|ndjson" 400, [])
            else (
              read_export table dto,
              record {
                user_id = user_or_empty (current_user_id user_id_for_role identity);
                format = dto.format;
                include_payload = or_true dto.include_payload;
                filters = dto.filters;
              }
                  ∷ [],
            )
      ]
