-- ===== src/Config/Start.antt =====
-- config/config.go: what a service that starts can rely on.
use rubez_ai.Prelude.{
  ℕ, zero, suc, ◌<◌, String, ◌≡◌, subst, ◌≢◌, inl, inr, false, Option, none, some, [], ◌∷◌, arith,
  ◌==◌, ==_iff, Bool-cases, Option-cases, length, Text, txt, is_empty,
}
use rubez_ai.Prelude.Int.{ℤ, pos, negsuc}
use rubez_ai.Prelude.Result.{Result, ok, err, Result-cases}
use rubez_ai.Crypto.{Bytes, Aead, invalid_key_length, new_cipher_with_rand}
use rubez_ai.Config.{
  Config, ConfigError, decode_mapping_key, parse_int_env, positive_or, config_of, load,
}

decode_mapping_key-length :
    (decode : Text → Option Bytes) (raw : Text) (key : Bytes)
    → decode_mapping_key decode raw ≡ ok key
    → length key ≡ 32
unfolding decode_mapping_key
decode_mapping_key-length decode [] key h = cc
decode_mapping_key-length decode (c ∷ s) key h = elim (Option-cases (decode (c ∷ s))) [
  | inl n ↦ ground (arith, h, n)
  | inr (k, q) ↦ elim (Bool-cases (length k == 32)) [
    | inr e ↦ ground (arith, h, q, e)
    | inl e ↦
        let same : k ≡ key = ground (arith, h, q, e) in
        subst (λ (x : Bytes). length x ≡ 32) same ((==_iff (length k) 32).0 e)
  ]
]

positive_or-positive :
    (getenv : Text → Text) (fallback : ℕ) (o : Option ℤ)
    → 0 < fallback
    → 0 < positive_or getenv fallback o
positive_or-positive getenv fallback none h = h
positive_or-positive getenv fallback (some (pos zero)) h = h
positive_or-positive getenv fallback (some (pos (suc n))) h = omega arith
positive_or-positive getenv fallback (some (negsuc n)) h = h

parse_int_env-positive :
    (getenv : Text → Text) (sscanf : Text → Option ℤ) (key : String) (fallback : ℕ)
    → 0 < fallback
    → 0 < parse_int_env getenv sscanf key fallback
unfolding parse_int_env
parse_int_env-positive getenv sscanf key fallback h =
    elim (Bool-cases (is_empty (getenv (txt key)))) [
      | inl e ↦ rw (e, parse_int_env) h
      | inr e ↦
          rw (e, parse_int_env) (positive_or-positive getenv fallback (sscanf (getenv (txt key))) h)
    ]

-- What the service relies on after its start.
pub record IsReady (cfg : Config) : Type 0 where
  pub key : length cfg.mapping_encryption_key ≡ 32
  pub secret : is_empty cfg.auth_secret ≡ false
  pub embedder_timeout : 0 < cfg.embedder.timeout
  pub ssh_port : 0 < cfg.ssh_llm.port
  pub ssh_timeout : 0 < cfg.ssh_llm.timeout

config_of-IsReady :
    (getenv : Text → Text) (decode : Text → Option Bytes) (sscanf : Text → Option ℤ) (key : Bytes)
    → length key ≡ 32
    → is_empty (getenv (txt "AUTH_DEV_TOKEN_SECRET")) ≡ false
    → IsReady (config_of getenv decode sscanf key)
unfolding config_of
config_of-IsReady getenv decode sscanf key k s = record {
  key = k;
  secret = s;
  embedder_timeout =
      parse_int_env-positive getenv sscanf "EMBEDDER_TIMEOUT_SECONDS" 30 (omega arith);
  ssh_port = parse_int_env-positive getenv sscanf "SSH_LLM_PORT" 22 (omega arith);
  ssh_timeout = parse_int_env-positive getenv sscanf "SSH_LLM_TIMEOUT_SECONDS" 180 (omega arith);
}

new_cipher-accepts :
    (new_gcm : Bytes → Option Aead) (key : Bytes) (rand : ℕ → Option Bytes)
    → length key ≡ 32
    → new_cipher_with_rand new_gcm key rand ≢ err invalid_key_length
unfolding new_cipher_with_rand
new_cipher-accepts new_gcm key rand k h = elim (Option-cases (new_gcm key)) [
  | inl n ↦ ground (arith, k, n, h)
  | inr (g, q) ↦ ground (arith, k, q, h)
]

config_same : (a b : Config) → ◌≡◌ {A = Result ConfigError Config} (ok a) (ok b) → a ≡ b
config_same a b h = ground (arith, h)

-- A configuration that is loaded has a key of 32 bytes, which the construction of the cipher never
-- refuses for its length, a secret that is not empty, and timeouts and a port that are positive,
-- whatever the environment holds.
pub load-IsReady :
    (getenv : Text → Text) (decode : Text → Option Bytes) (sscanf : Text → Option ℤ) (cfg : Config)
    (new_gcm : Bytes → Option Aead) (rand : ℕ → Option Bytes)
    → load getenv decode sscanf ≡ ok cfg
    → IsReady cfg
      × (new_cipher_with_rand new_gcm cfg.mapping_encryption_key rand ≢ err invalid_key_length)
unfolding load
load-IsReady getenv decode sscanf cfg new_gcm rand h =
    elim (Result-cases (decode_mapping_key decode (getenv (txt "MAPPING_ENCRYPTION_KEY")))) [
      | inr (e, q) ↦ cc (rw (q, load) at h)
      | inl (key, q) ↦ elim (Bool-cases (is_empty (getenv (txt "AUTH_DEV_TOKEN_SECRET")))) [
        | inl e ↦ cc (rw (q, e, load) at h)
        | inr e ↦
            let long =
              decode_mapping_key-length decode (getenv (txt "MAPPING_ENCRYPTION_KEY")) key q in
            let ready = config_of-IsReady getenv decode sscanf key long e in
            let same =
              config_same (config_of getenv decode sscanf key) cfg (rw (q, e, load) at h) in
            let served = subst IsReady same ready in
            (served, new_cipher-accepts new_gcm cfg.mapping_encryption_key rand served.key)
      ]
    ]
