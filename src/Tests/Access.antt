-- ===== src/Tests/Access.antt =====
-- Tokens, the reveal of raw values and the audit trail on small inputs.
use rubez_ai.Prelude.{
  suc, ◌≡◌, refl, ◌⊎◌, true, false, none, some, List, [], ◌∷◌, ◌++◌, map, arith, length, drop, All,
  Text, txt, text_eq, is_prefix, rune_bytes, byte_len,
}
use rubez_ai.Prelude.Result.{Result, ok, err}
use rubez_ai.Prelude.Sort.{sort_by, insert_by}
use rubez_ai.Prelude.Dict.{lookup}
use rubez_ai.Sanitizer.{Entity}
use rubez_ai.Prelude.Int.{pos}
use rubez_ai.Storage.{PseudonymMappingInput}
use rubez_ai.Pseudonym.{PseudonymMap}
use rubez_ai.Pseudonym.Replace.{scan, find_match, at_gap}
use rubez_ai.Chat.Orchestrator.Mappings.{mapping_aad, encrypt_loop}
use rubez_ai.Crypto.{Bytes, Aead, Cipher, CryptoError, IsCipher, encrypt, decrypt}
use rubez_ai.Auth.{Role, Identity, issue_token, issue_token_for_user, parse_token}
use rubez_ai.Auth.Tokens.{parse_token-issue_token}
use rubez_ai.Auth.Middleware.{IsIssued, middleware, middleware-IsIssued}
use rubez_ai.Api.Http.{Reply, http_error, OnOk}
use rubez_ai.Api.Ids.{DbError, is_uuid, uuid_loop, is_hex_digit, current_user_id}
use rubez_ai.Api.Reveal.{
  Store, Revealed, reveal_pairs, reveal_pseudonyms, reveal_message, reveal_chat_handler, substitute,
}
use rubez_ai.Api.Reveal.Stored.{
  known_pairs, IsShown, reveal_pairs-encrypt_loop, reveal_chat_handler-IsShown,
}
use rubez_ai.Storage.Audit.{
  AuditEventRow, AuditFilter, audit_conditions, audit_limit, build_list_audit_query, number,
}
use rubez_ai.Storage.Audit.Query.{Sql, arg_at, all_hold, matches}
use rubez_ai.Storage.Audit.Printed.{query_text}
use rubez_ai.Storage.Audit.Meaning.{build_list_audit_query-matches}
use rubez_ai.Api.Audit.{Codec, row_to_summary}
use rubez_ai.Api.Audit.Listing.{list_audit_events_handler, get_audit_event_handler}
use rubez_ai.Api.Audit.Scope.{AreOwnTests, IsOwnTest, developer-IsOwnTest}
use rubez_ai.Api.Audit.Export.{csv_columns, csv_fields, write_csv_export}
use rubez_ai.Api.Audit.Csv.{free_all, IsReadable, line, read_csv, read_csv-write_csv_export}

-- A signature that depends on both texts.
abbrev sign : Text → Text → Text
sign payload key = key ++ payload

parse_token-issue_token_example :
    (parse_token sign (issue_token_for_user sign (txt "u1") Role.admin (txt "k")) (txt "k")
      ≡ ok (record { user_id = txt "u1"; role = Role.admin }))
    × (parse_token sign (issue_token sign Role.admin (txt "k")) (txt "k")
        ≡ ok (record { user_id = []; role = Role.admin }))
unfolding txt
parse_token-issue_token_example =
    parse_token-issue_token sign (txt "u1") (txt "k") Role.admin (ground arith) (ground arith)

abbrev greet : Identity → Reply Text
greet id = ok id.user_id

abbrev header : Text
header = txt "Bearer u1:admin.ku1:admin"

middleware-IsIssued_example :
    (middleware sign (txt "k") greet header ≡ http_error "unauthorized" 401)
    ⊎ ((id : Identity) × (token : Text) × (middleware sign (txt "k") greet header ≡ greet id)
        × (header ≡ txt "Bearer " ++ token)
        × IsIssued sign (txt "k") id token)
middleware-IsIssued_example = middleware-IsIssued sign (txt "k") header greet

-- A cipher that keeps the text behind its nonce and a tag.
abbrev aead : Aead
aead = record {
  nonce_size = 1;
  overhead = 1;
  seal = λ nonce plaintext aad. 7 ∷ plaintext;
  open_sealed = λ nonce ct aad. some (drop 1 ct);
}

abbrev cipher : Cipher
cipher = record { gcm = aead; rand = λ k. some (k ∷ []) }

abbrev hash : Text → Bytes
hash t = t

cipher_IsCipher : IsCipher cipher
cipher_IsCipher = record {
  rand_size = λ k nonce h. ground (arith, h);
  seal_size = λ nonce plaintext aad. omega arith;
  opened = λ nonce plaintext aad. refl;
}

abbrev person : Entity
person = record {
  type = txt "PERSON";
  category = txt "pii";
  start = pos 0;
  end = pos 4;
  pseudonym = txt "[P1]";
  raw_hash = [];
  confidence = 0;
  detector = [];
}

abbrev names : PseudonymMap
names = record { to_raw = (txt "[P1]", txt "Anna") ∷ [] }

abbrev stored : PseudonymMappingInput
stored = record {
  pseudonym = txt "[P1]";
  entity_type = txt "PERSON";
  raw_hash = [];
  raw_value_encrypted = 0 ∷ 7 ∷ txt "Anna";
}

abbrev message_of : CryptoError → Text
message_of e = []

reveal_pairs-encrypt_loop_example :
    reveal_pairs hash (some cipher) (txt "s") (stored ∷ []) ≡ known_pairs names (person ∷ [])
unfolding txt text_eq lookup encrypt mapping_aad encrypt_loop
reveal_pairs-encrypt_loop_example =
    reveal_pairs-encrypt_loop message_of cipher hash (txt "s") names 0 (person ∷ []) (stored ∷ [])
      cipher_IsCipher refl

abbrev message_id : Text
message_id = txt "00000000-0000-0000-0000-000000000000"

abbrev store : Store
store = record {
  user_id_for_role = λ role. err DbError.failed;
  get_reveal_context = λ id. ok (record {
    owner_user_id = txt "u1";
    session_id = txt "s";
    assistant_content = txt "hi [P1]";
    sanitization_result_id = txt "r";
  });
  list_pseudonym_mappings = λ id. ok (stored ∷ []);
  accepts_audit = λ ev. true;
}

abbrev identity : Identity
identity = record { user_id = txt "u1"; role = Role.user }

abbrev shown : List Revealed
shown = record { user_id = txt "u1"; message_id = message_id; revealed_count = 1 } ∷ []

reveal_chat_handler-IsShown_example :
    (user_id : Text) × (current_user_id store.user_id_for_role (some identity) ≡ ok user_id)
    × IsShown hash (some cipher) store message_id user_id (txt "hi Anna") shown
unfolding txt text_eq lookup is_uuid uuid_loop byte_len rune_bytes is_hex_digit current_user_id
    reveal_chat_handler reveal_message reveal_pseudonyms reveal_pairs substitute decrypt mapping_aad
    sort_by insert_by scan find_match at_gap is_prefix
reveal_chat_handler-IsShown_example =
    reveal_chat_handler-IsShown hash (some cipher) store (some identity) message_id (txt "hi Anna")
      shown refl

abbrev row : AuditEventRow
row = record {
  id = txt "e1";
  created_at = 5;
  user_id = txt "u1";
  event_type = txt "policy_tested";
  model_provider_id = none;
  risk_level = some (txt "low");
  risk_classes = [];
  policy_decision = none;
  policy_version_id = none;
  matched_rule = none;
  masked_payload = some (txt "a,b");
  detail = txt "{}";
}

abbrev sql : Sql
sql = record { ilike = λ p t. true; leak = λ t. none }

abbrev filter : AuditFilter
filter = record {
  from = some 3;
  to = some 9;
  user_id = some (txt "u1");
  event_types = txt "policy_tested" ∷ [];
  policy_decisions = [];
  risk_levels = txt "low" ∷ [];
  model_provider_id = none;
  has_leak = some false;
  q = some (txt "a");
  cursor_created_at = some 7;
  cursor_id = some (txt "e2");
  limit = 10;
}

build_list_audit_query-matches_example :
    (all_hold sql (build_list_audit_query filter).1 row (audit_conditions filter).conds
      ≡ matches sql filter row)
    × (arg_at (build_list_audit_query filter).1 (suc (length (audit_conditions filter).args))
        ≡ some (number (audit_limit filter.limit)))
    × ((build_list_audit_query filter).0 ≡ query_text filter)
build_list_audit_query-matches_example = build_list_audit_query-matches sql row filter

abbrev codec : Codec
codec = record {
  parse_time = λ t. some (length t);
  format_time = λ n. txt "2026";
  base64_encode = λ t. t;
  base64_decode = λ t. some t;
  marshal = λ c. c.id;
  unmarshal = λ t. some (record { created_at = 0; id = t });
  unmarshal_map = λ t. some [];
}

abbrev by_role : Role → Result DbError Text
by_role role = err DbError.failed

abbrev developer_id : Identity
developer_id = record { user_id = txt "u1"; role = Role.developer }

developer-IsOwnTest_example :
    OnOk
      (AreOwnTests codec sql by_role (some developer_id))
      (list_audit_events_handler codec sql by_role (some (row ∷ [])) (some developer_id) [])
    × OnOk
        (λ out. IsOwnTest (txt "u1") out.summary)
        (get_audit_event_handler codec sql by_role (some (row ∷ [])) (some developer_id) message_id)
unfolding txt current_user_id
developer-IsOwnTest_example =
    developer-IsOwnTest codec sql by_role (some (row ∷ [])) (txt "u1") message_id []

readable : All IsReadable (csv_fields codec true row)
unfolding csv_fields txt row_to_summary
readable =
    free_all (csv_fields codec true row)
      (refl, (refl, (refl, (refl, (refl, (refl, (refl, (refl, (refl, tt)))))))))

read_csv-write_csv_export_example :
    read_csv line (write_csv_export codec true (row ∷ []))
    ≡ csv_columns true ∷ map (csv_fields codec true) (row ∷ [])
read_csv-write_csv_export_example = read_csv-write_csv_export codec true (row ∷ []) (readable, tt)
