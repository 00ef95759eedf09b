-- ===== src/Api/Audit.antt =====
-- api/audit.go: reading the audit trail. The formats of times, of the cursor and of the detail are
-- parameters, and so is the table of events, `none` where the database fails.
pub mod Listing
pub mod Export
pub mod Csv
pub mod Scope
pub mod Cursors
pub mod Paging
use rubez_ai.Prelude.{
  ℕ, zero, suc, ◌+◌, ◌-◌, ◌*◌, ◌/◌, ◌%◌, ◌≤◌, ◌<◌, min, String, ◌≡◌, refl, sym, ap, ◌∙◌, subst, ◌≢◌,
  ◌↔◌, ◌⊎◌, inl, inr, Bool, true, false, not, ◌&&◌, ◌||◌, Option, none, some, List, [], ◌∷◌, ◌++◌,
  map, arith, ltb, leb, ◌==◌, if◌then◌else◌, ltb→lt, lt→ltb, leb→le, ==_iff, tests, Bool-cases,
  Option-cases, length, take, drop, length-append, take-append-drop, length-take, length-drop, All,
  Any, here, there, All-append, All-imp, All-map, Any-map, Any-imp, Any-append_left,
  Any-append_right, keep_if, All-keep_if, keep_if-All, take-All, Text, txt, text_eq, is_empty,
  is_prefix, contains, rune_bytes, byte_len, text_lt, is_space, trim_left, trim_right, trim_space,
  text_eq_iff, text_eq_refl,
}
use rubez_ai.Prelude.Result.{Result, ok, err, ◌>>=◌}
use rubez_ai.Prelude.Int.{ℤ, pos, negsuc}
use rubez_ai.Prelude.Dict.{Dict, lookup}
use rubez_ai.Prelude.Parse.{UrlValues, query_all, query_get, atoi, parse_bool}
use rubez_ai.Auth.{Role, Identity}
use rubez_ai.Storage.Audit.{AuditEventRow, AuditFilter}
use rubez_ai.Storage.Audit.Query.{Sql, list_audit_events}
use rubez_ai.Api.Http.{Reply, http_error}
use rubez_ai.Api.Ids.{is_uuid, DbError, current_user_id}

-- `auditAccessRoles`
abbrev pub audit_access_roles : Role → Bool
audit_access_roles Role.security_officer = true
audit_access_roles Role.compliance_officer = true
audit_access_roles Role.auditor = true
audit_access_roles Role.admin = true
audit_access_roles Role.developer = false
audit_access_roles Role.user = false

abbrev is_developer : Role → Bool
is_developer Role.developer = true
is_developer _ = false

-- Whether the role has access, and whether it has it to its own tests only; `none` is a request
-- with no identity.
unfoldable pub require_audit_access : Option Identity → Bool × Bool
require_audit_access none = (false, false)
require_audit_access (some id) =
    if audit_access_roles id.role
    then (true, false)
    else if is_developer id.role
    then (true, true)
    else (false, false)

pub record AuditCursor : Type 0 where
  pub created_at : ℕ
  pub id : Text

pub data Json : Type 0 where
  str : Text → Json
  flag : Bool → Json
  other : Text → Json

pub record Codec : Type 0 where
  pub parse_time : Text → Option ℕ
  pub format_time : ℕ → Text
  pub base64_encode : Text → Text
  pub base64_decode : Text → Option Text
  pub marshal : AuditCursor → Text
  pub unmarshal : Text → Option AuditCursor
  pub unmarshal_map : Text → Option (Dict Json)

pub record AuditEventSummaryDto : Type 0 where
  pub id : Text
  pub created_at : ℕ
  pub user_id : Text
  pub event_type : Text
  pub model_provider_id : Option Text
  pub risk_level : Option Text
  pub risk_classes : List Text
  pub policy_decision : Option Text
  pub request_id : Option Text
  pub has_leak : Bool

pub record AuditEventDetailDto : Type 0 where
  pub summary : AuditEventSummaryDto
  pub policy_version_id : Option Text
  pub matched_rule : Option Text
  pub masked_payload : Option Text
  pub detail : Text

pub record AuditEventListDto : Type 0 where
  pub events : List AuditEventSummaryDto
  pub next_cursor : Option Text

abbrev as_request_id : Option Json → Option Text
as_request_id (some (Json.str [])) = none
as_request_id (some (Json.str (c ∷ s))) = some (c ∷ s)
as_request_id (some (Json.flag b)) = none
as_request_id (some (Json.other t)) = none
as_request_id none = none

abbrev as_flag : Option Json → Bool
as_flag (some (Json.flag b)) = b
as_flag (some (Json.str t)) = false
as_flag (some (Json.other t)) = false
as_flag none = false

module _ (codec : Codec) where
  unfoldable pub encode_audit_cursor : AuditCursor → Text
  encode_audit_cursor c = codec.base64_encode (codec.marshal c)

  -- An error is the outer `none`.
  unfoldable pub decode_audit_cursor : Text → Option (Option AuditCursor)
  decode_audit_cursor [] = some none
  decode_audit_cursor (c ∷ s) = elim (codec.base64_decode (c ∷ s)) [
    | none ↦ none
    | some bytes ↦ elim (codec.unmarshal bytes) [ none ↦ none | some cursor ↦ some (some cursor) ]
  ]

  -- A key of the detail; nothing where the detail is no object.
  abbrev detail_key : String → Text → Option Json
  detail_key key [] = none
  detail_key key (c ∷ s) = elim (codec.unmarshal_map (c ∷ s)) [
    | none ↦ none
    | some m ↦ lookup (txt key) m
  ]

  unfoldable pub extract_request_id : Text → Option Text
  unfolding txt lookup
  extract_request_id detail = as_request_id (detail_key "request_id" detail)

  unfoldable pub has_leak : AuditEventRow → Bool
  unfolding txt lookup
  has_leak r = as_flag (detail_key "response_leak_detected" r.detail)

  unfoldable pub row_to_summary : AuditEventRow → AuditEventSummaryDto
  unfolding extract_request_id has_leak
  row_to_summary r = record {
    id = r.id;
    created_at = r.created_at;
    user_id = r.user_id;
    event_type = r.event_type;
    model_provider_id = r.model_provider_id;
    risk_level = r.risk_level;
    risk_classes = r.risk_classes;
    policy_decision = r.policy_decision;
    request_id = extract_request_id r.detail;
    has_leak = has_leak r;
  }

  unfoldable pub row_to_detail : AuditEventRow → AuditEventDetailDto
  unfolding txt row_to_summary
  row_to_detail r = record {
    summary = row_to_summary r;
    policy_version_id = r.policy_version_id;
    matched_rule = r.matched_rule;
    masked_payload = r.masked_payload;
    detail = if is_empty r.detail then txt "{}" else r.detail;
  }
