-- ===== src/Api/Reveal/Stored.antt =====
-- api/chat_reveal.go against what the orchestrator stores, and who is shown raw values.
use rubez_ai.Prelude.{
  if◌then◌else◌, ℕ, suc, ◌≡◌, refl, sym, inl, inr, Option, none, some, List, [], ◌∷◌, arith,
  Bool-cases, Option-cases, Text, text_eq, text_eq_iff,
}
use rubez_ai.Prelude.Result.{Result, ok, err, Result-cases}
use rubez_ai.Crypto.{Bytes, Cipher, CryptoError, IsCipher, encrypt, decrypt-encrypt}
use rubez_ai.Sanitizer.{Entity}
use rubez_ai.Storage.{PseudonymMappingInput}
use rubez_ai.Pseudonym.{PseudonymMap, raw}
use rubez_ai.Pseudonym.Replace.{Pair}
use rubez_ai.Chat.Orchestrator.Mappings.{mapping_aad, encrypt_loop}
use rubez_ai.Auth.{Identity}
use rubez_ai.Api.Http.{http_error}
use rubez_ai.Api.Ids.{is_uuid, current_user_id}
use rubez_ai.Api.Reveal.{
  RevealContext, Store, Revealed, reveal_pairs, reveal_pseudonyms, reveal_message,
  reveal_chat_handler,
}

-- The orchestrator's cipher: `Encrypt`, its error as the message.
abbrev pub as_cipher : (CryptoError → Text) → Cipher → ℕ → Text → Bytes → Result Text Bytes
as_cipher message c k plaintext aad = elim (encrypt (some c) k plaintext aad) [
  | ok ct ↦ ok ct
  | err e ↦ err (message e)
]

as_cipher-encrypt :
    (message : CryptoError → Text) (c : Cipher) (k : ℕ) (plaintext : Text) (aad ct : Bytes)
    → as_cipher message c k plaintext aad ≡ ok ct
    → encrypt (some c) k plaintext aad ≡ ok ct
as_cipher-encrypt message c k plaintext aad ct h =
    elim (Result-cases (encrypt (some c) k plaintext aad)) [
      | inl (b, q) ↦ ground (arith, q, h)
      | inr (e, q) ↦ ground (arith, q, h)
    ]

-- The pairs of the entities whose pseudonym the map knows.
unfoldable pub known_pairs : PseudonymMap → List Entity → List Pair
known_pairs pmap [] = []
known_pairs pmap (e ∷ es) = elim (raw pmap e.pseudonym) [
  | none ↦ known_pairs pmap es
  | some value ↦ record { from = e.pseudonym; to = value } ∷ known_pairs pmap es
]

-- When the orchestrator has encrypted the mappings of a request for a session, revealing under the
-- same key and session recovers, for every entity whose pseudonym the map knows, in the order of
-- the entities, exactly the pseudonym with its raw value.
pub reveal_pairs-encrypt_loop :
    (message : CryptoError → Text) (c : Cipher) (sha256 : Text → Bytes) (session_id : Text)
    (pmap : PseudonymMap) (k : ℕ) (entities : List Entity) (stored : List PseudonymMappingInput)
    → IsCipher c
    → encrypt_loop (as_cipher message c) sha256 session_id pmap k entities ≡ ok stored
    → reveal_pairs sha256 (some c) session_id stored ≡ known_pairs pmap entities
unfolding encrypt_loop reveal_pairs known_pairs
reveal_pairs-encrypt_loop message c sha256 session_id pmap k [] stored lawful h =
    let e : [] ≡ stored = ground arith in rw (sym e) refl
reveal_pairs-encrypt_loop message c sha256 session_id pmap k (e ∷ es) stored lawful h =
    elim (Option-cases (raw pmap e.pseudonym)) [
      | inl n ↦
          rw (n, known_pairs)
            (reveal_pairs-encrypt_loop message c sha256 session_id pmap (suc k) es stored lawful
              (rw (n, encrypt_loop) at h))
      | inr (value, q) ↦
          let aad = mapping_aad sha256 session_id e.pseudonym in
          elim (Result-cases (as_cipher message c k value aad)) [
            | inr (m, p) ↦ cc (rw (q, p, encrypt_loop) at h)
            | inl (ct, p) ↦
                elim (Result-cases
                  (encrypt_loop (as_cipher message c) sha256 session_id pmap (suc k) es)) [
                    | inr (m, r) ↦ cc (rw (q, p, r, encrypt_loop) at h)
                    | inl (rest, r) ↦
                        let ih =
                          reveal_pairs-encrypt_loop message c sha256 session_id pmap (suc k) es rest
                            lawful r in
                        let d =
                          decrypt-encrypt c k value aad ct lawful
                            (as_cipher-encrypt message c k value aad ct p) in
                        let shape : record {
                          pseudonym = e.pseudonym;
                          entity_type = e.type;
                          raw_hash = e.raw_hash;
                          raw_value_encrypted = ct;
                        }
                              ∷ rest
                            ≡ stored =
                          ground (arith, q, p, r, h) in
                        rw (sym shape, q, d, ih, reveal_pairs, known_pairs) refl
                  ]
          ]
    ]

-- What the handler found when it answered `text` for the message `id`.
pub record IsShown (sha256 : Text → Bytes) (cipher : Option Cipher) (store : Store)
    (id user_id text : Text) (audits : List Revealed) : Type 0 where
  pub context : RevealContext
  pub mappings : List PseudonymMappingInput
  pub found : store.get_reveal_context id ≡ ok context
  pub owner : context.owner_user_id ≡ user_id
  pub listed : store.list_pseudonym_mappings context.sanitization_result_id ≡ ok mappings
  pub answer :
      text
      ≡ (reveal_pseudonyms sha256 cipher context.assistant_content context.session_id mappings).0
  pub event : Revealed
  pub names : (event.user_id ≡ user_id) × (event.message_id ≡ id)
  pub counts :
      event.revealed_count
      ≡ (reveal_pseudonyms sha256 cipher context.assistant_content context.session_id mappings).1
  pub audited : audits ≡ (if store.accepts_audit event then event ∷ [] else [])

module _ (sha256 : Text → Bytes) (cipher : Option Cipher) (store : Store) where
  reveal_message-IsShown :
      (id user_id text : Text) (audits : List Revealed)
      → reveal_message sha256 cipher store id user_id ≡ (ok text, audits)
      → IsShown sha256 cipher store id user_id text audits
  unfolding reveal_message http_error
  reveal_message-IsShown id user_id text audits h =
      elim (Result-cases (store.get_reveal_context id)) [
        | inr (e, q) ↦ ground (arith, h, q)
        | inl (rc, q) ↦ elim (Bool-cases (text_eq rc.owner_user_id user_id)) [
          | inr n ↦ ground (arith, h, q, n)
          | inl o ↦ elim (Option-cases cipher) [
            | inl n ↦ ground (arith, h, q, o, n)
            | inr (c, s) ↦
                elim (Result-cases (store.list_pseudonym_mappings rc.sanitization_result_id)) [
                  | inr (e, l) ↦ ground (arith, h, q, o, s, l)
                  | inl (ms, l) ↦ record {
                    context = rc;
                    mappings = ms;
                    found = q;
                    owner = (text_eq_iff rc.owner_user_id user_id).0 o;
                    listed = l;
                    answer = ground (arith, h, q, o, s, l);
                    event = record {
                      user_id = user_id;
                      message_id = id;
                      revealed_count =
                          (reveal_pseudonyms sha256 cipher rc.assistant_content rc.session_id ms).1;
                    };
                    names = (refl, refl);
                    counts = refl;
                    audited = ground (arith, h, q, o, s, l);
                  }
                ]
          ]
        ]
      ]

  -- When the handler answers with a text, then the message exists, the user of the request is the
  -- owner of its session, the text is the message's answer revealed with that session's stored
  -- mappings, and the only audit event that is tried to insert names that user, the message and the
  -- number of the values revealed: exactly it is inserted where the database accepts it, and
  -- none where the insertion fails, in which case the text is answered all the same.
  pub reveal_chat_handler-IsShown :
      (identity : Option Identity) (id text : Text) (audits : List Revealed)
      → reveal_chat_handler sha256 cipher store identity id ≡ (ok text, audits)
      → (user_id : Text) × (current_user_id store.user_id_for_role identity ≡ ok user_id)
        × IsShown sha256 cipher store id user_id text audits
  unfolding reveal_chat_handler http_error
  reveal_chat_handler-IsShown identity id text audits h = elim (Bool-cases (is_uuid id)) [
    | inr n ↦ ground (arith, h, n)
    | inl u ↦ elim (Result-cases (current_user_id store.user_id_for_role identity)) [
      | inr (e, q) ↦ ground (arith, h, u, q)
      | inl (user_id, q) ↦
          (user_id, q, reveal_message-IsShown id user_id text audits (ground (arith, h, u, q)))
    ]
  ]
