-- ===== src/Chat/Orchestrator/Mappings.antt =====
-- The mappings that are stored with a request: the errors of the map as texts, and
-- `buildEncryptedMappings` of orchestrator.go with `MappingAAD` of pseudonym.go.
use rubez_ai.Prelude.{ℕ, suc, none, some, List, [], ◌∷◌, ◌++◌, ◌==◌, if◌then◌else◌, take, Text, txt}
use rubez_ai.Prelude.Result.{Result, ok, err}
use rubez_ai.Sanitizer.{Entity}
use rubez_ai.Pseudonym.{PseudonymMap, MapError, out_of_bounds, overlap, hash_mismatch, len, raw}
use rubez_ai.Storage.{PseudonymMappingInput}
use rubez_ai.Chat.Rag.{decimal}
use rubez_ai.Chat.Review.Attachments.{decimal_ℤ}
use rubez_ai.Chat.World.{Env}

-- The messages of the errors of `BuildPseudonymMap`.
unfoldable pub map_error_text : MapError → Text
map_error_text (out_of_bounds type start end n) =
    txt "chat: спан сущности "
    ++ (type
        ++ (txt " ["
            ++ (decimal_ℤ start
                ++ (txt ","
                    ++ (decimal_ℤ end ++ (txt ") вне границ [0," ++ (decimal n ++ txt ")")))))))
map_error_text (overlap type start end prev_end) =
    txt "chat: спан сущности "
    ++ (type
        ++ (txt " ["
            ++ (decimal_ℤ start
                ++ (txt ","
                    ++ (decimal_ℤ end
                        ++ (txt ") пересекает предыдущий (конец "
                            ++ (decimal_ℤ prev_end ++ txt ")")))))))
map_error_text (hash_mismatch type) =
    txt "chat: сущность "
    ++ (type ++ txt " — спан не соответствует raw_hash (текст или индексация рассинхронизированы)")

-- `MappingAAD` of pseudonym.go, for a hash of bytes.
unfoldable pub mapping_aad : (Text → List ℕ) → Text → Text → List ℕ
mapping_aad sha256 session_id pseudonym = take 16 (sha256 (session_id ++ pseudonym))

module _ (cipher : ℕ → Text → List ℕ → Result Text (List ℕ)) (sha256 : Text → List ℕ) where
  -- The loop over the entities, the first at the position `k`; the error is the message.
  unfoldable pub encrypt_loop :
      Text → PseudonymMap → ℕ → List Entity → Result Text (List PseudonymMappingInput)
  unfolding mapping_aad
  encrypt_loop session_id pmap k [] = ok []
  encrypt_loop session_id pmap k (e ∷ es) = elim (raw pmap e.pseudonym) [
    | none ↦ encrypt_loop session_id pmap (suc k) es
    | some value ↦ elim (cipher k value (mapping_aad sha256 session_id e.pseudonym)) [
      | err message ↦ err (txt "chat: encrypt " ++ (e.type ++ (txt ": " ++ message)))
      | ok ct ↦ elim (encrypt_loop session_id pmap (suc k) es) [
        | err message ↦ err message
        | ok rest ↦ ok (
            record {
              pseudonym = e.pseudonym;
              entity_type = e.type;
              raw_hash = e.raw_hash;
              raw_value_encrypted = ct;
            }
            ∷ rest)
      ]
    ]
  ]

module _ (env : Env) where
  unfoldable pub build_encrypted_mappings :
      Text → PseudonymMap → List Entity → Result Text (List PseudonymMappingInput)
  unfolding encrypt_loop
  build_encrypted_mappings session_id pmap entities = elim (env.cipher) [
    | none ↦ ok []
    | some cipher ↦
        if len pmap == 0 then ok [] else encrypt_loop cipher env.sha256 session_id pmap 0 entities
  ]
