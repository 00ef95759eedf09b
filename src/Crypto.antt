-- ===== src/Crypto.antt =====
-- crypto/aesgcm.go: the encryption of the stored values. AES-GCM (`cipher.AEAD`) and the source of
-- the nonces are parameters; a Go byte slice is a list, and a plaintext the text of its bytes.
use rubez_ai.Prelude.{
  ℕ, ◌+◌, ◌≤◌, ◌≡◌, refl, sym, subst, inl, inr, false, Option, none, some, List, [], ◌∷◌, ◌++◌,
  arith, ltb, ◌==◌, if◌then◌else◌, Option-cases, length, take, drop, length-append, Text,
}
use rubez_ai.Prelude.Result.{Result, ok, err}

abbrev pub Bytes : Type 0
Bytes = List ℕ

-- `cipher.AEAD`: the sizes, `Seal` and `Open` by nonce, input and additional data.
pub record Aead : Type 0 where
  pub nonce_size : ℕ
  pub overhead : ℕ
  pub seal : Bytes → Text → Bytes → Bytes
  pub open_sealed : Bytes → Bytes → Bytes → Option Text

-- `rand k` is what `io.ReadFull` gives at the k-th reading.
pub record Cipher : Type 0 where
  pub gcm : Aead
  pub rand : ℕ → Option Bytes

pub data CryptoError : Type 0 where
  invalid_key_length cipher_not_initialized ciphertext_too_short : CryptoError
  nonce_failed authentication_failed block_failed : CryptoError

-- `NewCipherWithRand`; `new_gcm` is `aes.NewCipher` and `cipher.NewGCM`.
unfoldable pub new_cipher_with_rand :
    (Bytes → Option Aead) → Bytes → (ℕ → Option Bytes) → Result CryptoError Cipher
new_cipher_with_rand new_gcm key rand =
    if length key == 32
    then elim (new_gcm key) [
      | none ↦ err block_failed
      | some gcm ↦ ok (record { gcm = gcm; rand = rand })
    ]
    else err invalid_key_length

unfoldable pub encrypt : Option Cipher → ℕ → Text → Bytes → Result CryptoError Bytes
encrypt none k plaintext aad = err cipher_not_initialized
encrypt (some c) k plaintext aad = elim (c.rand k) [
  | none ↦ err nonce_failed
  | some nonce ↦ ok (nonce ++ c.gcm.seal nonce plaintext aad)
]

unfoldable pub decrypt : Option Cipher → Bytes → Bytes → Result CryptoError Text
decrypt none ciphertext aad = err cipher_not_initialized
decrypt (some c) ciphertext aad =
    if ltb (length ciphertext) (c.gcm.nonce_size + c.gcm.overhead)
    then err ciphertext_too_short
    else elim (c.gcm.open_sealed (take c.gcm.nonce_size ciphertext)
        (drop c.gcm.nonce_size ciphertext) aad) [
          | none ↦ err authentication_failed
          | some plain ↦ ok plain
        ]

-- What the code relies on: a nonce has its size, sealing adds the tag, and opening undoes sealing.
pub record IsCipher (c : Cipher) : Type 0 where
  pub rand_size : (k : ℕ) (nonce : Bytes) → c.rand k ≡ some nonce → length nonce ≡ c.gcm.nonce_size
  pub seal_size :
      (nonce : Bytes) (plaintext : Text) (aad : Bytes)
      → c.gcm.overhead ≤ length (c.gcm.seal nonce plaintext aad)
  pub opened :
      (nonce : Bytes) (plaintext : Text) (aad : Bytes)
      → c.gcm.open_sealed nonce (c.gcm.seal nonce plaintext aad) aad ≡ some plaintext

take-append : (a b : Bytes) → take (length a) (a ++ b) ≡ a
take-append [] b = refl
take-append (x ∷ a) b = rw (take-append a b) refl

drop-append : (a b : Bytes) → drop (length a) (a ++ b) ≡ b
drop-append [] b = refl
drop-append (x ∷ a) b = drop-append a b

-- What is encrypted under some additional data decrypts under the same data to the same text, with
-- any nonce that the source of randomness gave.
pub decrypt-encrypt :
    (c : Cipher) (k : ℕ) (plaintext : Text) (aad ciphertext : Bytes)
    → IsCipher c
    → encrypt (some c) k plaintext aad ≡ ok ciphertext
    → decrypt (some c) ciphertext aad ≡ ok plaintext
unfolding encrypt decrypt
decrypt-encrypt c k plaintext aad ciphertext lawful h = elim (Option-cases (c.rand k)) [
  | inl n ↦ ground (arith, n)
  | inr (nonce, q) ↦
      let sealed = c.gcm.seal nonce plaintext aad in
      let size = lawful.rand_size k nonce q in
      let longer : ltb (length (nonce ++ sealed)) (c.gcm.nonce_size + c.gcm.overhead) ≡ false =
        ground (arith, size, lawful.seal_size nonce plaintext aad, length-append nonce sealed) in
      let shape : nonce ++ sealed ≡ ciphertext = ground (arith, q) in
      let result : decrypt (some c) (nonce ++ sealed) aad ≡ ok plaintext =
        rw
          (
            longer,
            sym size,
            take-append nonce sealed,
            drop-append nonce sealed,
            lawful.opened nonce plaintext aad,
          )
          refl in
      subst (λ b. decrypt (some c) b aad ≡ ok plaintext) shape result
]
