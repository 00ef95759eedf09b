-- ===== src/Api/Reveal.antt =====
-- api/chat_reveal.go: showing the owner of a session the raw values behind the pseudonyms of an
-- answer. The queries are fields of `Store`.
pub mod Stored
use rubez_ai.Prelude.{
  ℕ, zero, suc, ◌+◌, ◌-◌, ◌*◌, ◌/◌, ◌%◌, ◌≤◌, ◌<◌, min, String, ◌≡◌, refl, sym, ap, ◌∙◌, subst, ◌≢◌,
  ◌↔◌, ◌⊎◌, inl, inr, Bool, true, false, not, ◌&&◌, ◌||◌, Option, none, some, List, [], ◌∷◌, ◌++◌,
  map, arith, ltb, leb, ◌==◌, if◌then◌else◌, ltb→lt, lt→ltb, leb→le, ==_iff, tests, Bool-cases,
  Option-cases, length, take, drop, length-append, take-append-drop, length-take, length-drop, All,
  Any, here, there, All-append, All-imp, All-map, Any-map, Any-imp, Any-append_left,
  Any-append_right, Text, txt, text_eq, is_empty, is_prefix, contains, rune_bytes, byte_len,
  text_lt, is_space, trim_left, trim_right, trim_space, text_eq_iff, text_eq_refl,
}
use rubez_ai.Prelude.Result.{Result, ok, err, Result-cases}
use rubez_ai.Prelude.Sort.{sort_by}
use rubez_ai.Crypto.{Bytes, Cipher, CryptoError, IsCipher, encrypt, decrypt, decrypt-encrypt}
use rubez_ai.Sanitizer.{Entity}
use rubez_ai.Storage.{PseudonymMappingInput}
use rubez_ai.Pseudonym.{PseudonymMap, raw}
use rubez_ai.Pseudonym.Replace.{Pair, scan}
use rubez_ai.Chat.Orchestrator.Mappings.{mapping_aad, encrypt_loop}
use rubez_ai.Auth.{Identity, Role}
use rubez_ai.Api.Http.{Reply, http_error, is_nil}
use rubez_ai.Api.Ids.{is_uuid, DbError, not_found, current_user_id}

pub record RevealContext : Type 0 where
  pub owner_user_id : Text
  pub session_id : Text
  pub assistant_content : Text
  pub sanitization_result_id : Text

-- The audit event `response_revealed`.
pub record Revealed : Type 0 where
  pub user_id : Text
  pub message_id : Text
  pub revealed_count : ℕ

-- `accepts_audit` tells whether an insertion succeeds; its error is dropped.
pub record Store : Type 0 where
  pub user_id_for_role : Role → Result DbError Text
  pub get_reveal_context : Text → Result DbError RevealContext
  pub list_pseudonym_mappings : Text → Result DbError (List PseudonymMappingInput)
  pub accepts_audit : Revealed → Bool

module _ (sha256 : Text → Bytes) (cipher : Option Cipher) where
  -- The loop that decrypts: a mapping that does not decrypt is passed over.
  unfoldable pub reveal_pairs : Text → List PseudonymMappingInput → List Pair
  unfolding decrypt mapping_aad
  reveal_pairs session_id [] = []
  reveal_pairs session_id (m ∷ ms) =
      let rest = reveal_pairs session_id ms in
      elim (decrypt cipher m.raw_value_encrypted (mapping_aad sha256 session_id m.pseudonym)) [
        | err e ↦ rest
        | ok value ↦ record { from = m.pseudonym; to = value } ∷ rest
      ]

  -- The longer pseudonym first.
  abbrev pub longer_first : Pair → Pair → Bool
  longer_first p q = ltb (byte_len q.from) (byte_len p.from)

  unfoldable pub substitute : Text → List Pair → Text × ℕ
  unfolding sort_by scan
  substitute content [] = (content, 0)
  substitute content (p ∷ ps) = (scan (sort_by longer_first (p ∷ ps)) 0 content, length (p ∷ ps))

  unfoldable pub reveal_pseudonyms : Text → Text → List PseudonymMappingInput → Text × ℕ
  unfolding reveal_pairs substitute
  reveal_pseudonyms content session_id mappings =
      substitute content (reveal_pairs session_id mappings)

  -- The handler from the message on, for the user; the audit events that it inserts beside the answer.
  unfoldable pub reveal_message : Store → Text → Text → Reply Text × List Revealed
  unfolding http_error text_eq reveal_pseudonyms
  reveal_message store id user_id = elim (store.get_reveal_context id) [
    | err DbError.not_found ↦ (http_error "404 page not found" 404, [])
    | err _ ↦ (http_error "ошибка чтения сообщения" 500, [])
    | ok rc ↦
        if not (text_eq rc.owner_user_id user_id)
        then (http_error "404 page not found" 404, [])
        else if is_nil cipher
        then (http_error "шифрование mapping'ов не настроено" 503, [])
        else elim (store.list_pseudonym_mappings rc.sanitization_result_id) [
          | err _ ↦ (http_error "ошибка чтения mapping'ов" 500, [])
          | ok mappings ↦
              let revealed = reveal_pseudonyms rc.assistant_content rc.session_id mappings in
              let ev : Revealed = record {
                user_id = user_id;
                message_id = id;
                revealed_count = revealed.1;
              } in
              (ok revealed.0, if store.accepts_audit ev then ev ∷ [] else [])
        ]
  ]

  unfoldable pub reveal_chat_handler : Store → Option Identity → Text → Reply Text × List Revealed
  unfolding http_error is_uuid current_user_id reveal_message
  reveal_chat_handler store identity id =
      if not (is_uuid id)
      then (http_error "404 page not found" 404, [])
      else elim (current_user_id store.user_id_for_role identity) [
        | err _ ↦ (http_error "не удалось определить пользователя" 500, [])
        | ok user_id ↦ reveal_message store id user_id
      ]
