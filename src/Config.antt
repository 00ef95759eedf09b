-- ===== src/Config.antt =====
-- config/config.go: the configuration from the environment. `getenv` is the environment, the empty
-- text for a variable that is not set; base64 and `fmt.Sscanf` are parameters.
pub mod Start
use rubez_ai.Prelude.{
  ℕ, zero, suc, ◌+◌, ◌-◌, ◌*◌, ◌/◌, ◌%◌, ◌≤◌, ◌<◌, min, String, ◌≡◌, refl, sym, ap, ◌∙◌, subst, ◌≢◌,
  ◌↔◌, ◌⊎◌, inl, inr, Bool, true, false, not, ◌&&◌, ◌||◌, Option, none, some, List, [], ◌∷◌, ◌++◌,
  map, arith, ltb, leb, ◌==◌, if◌then◌else◌, ltb→lt, lt→ltb, leb→le, ==_iff, tests, Bool-cases,
  Option-cases, length, take, drop, length-append, take-append-drop, length-take, length-drop, All,
  Any, here, there, All-append, All-imp, All-map, Any-map, Any-imp, Any-append_left,
  Any-append_right, keep_if, All-keep_if, keep_if-All, take-All, Text, txt, text_eq, is_empty,
  is_prefix, contains, rune_bytes, byte_len, text_lt, is_space, trim_left, trim_right, trim_space,
  text_eq_iff, text_eq_refl,
}
use rubez_ai.Prelude.Int.{ℤ, pos, negsuc}
use rubez_ai.Prelude.Dict.{Dict, insert, All-insert}
use rubez_ai.Prelude.Cut.{cut}
use rubez_ai.Prelude.Result.{Result, ok, err, Result-cases}
use rubez_ai.Crypto.{Bytes}
use rubez_ai.Llm.Ssh.{split_on, split_parts}

pub record SshLlmConfig : Type 0 where
  pub enabled : Bool
  pub host : Text
  pub port : ℕ
  pub user : Text
  pub key_path : Text
  pub known_hosts_path : Text
  pub remote_command : Text
  pub timeout : ℕ

unfoldable pub ssh_valid : SshLlmConfig → Bool
ssh_valid c =
    not (is_empty c.host)
    && ltb 0 c.port
    && not (is_empty c.user)
    && not (is_empty c.key_path)
    && not (is_empty c.known_hosts_path)
    && not (is_empty c.remote_command)

pub record EmbedderConfig : Type 0 where
  pub kind : Text
  pub url : Text
  pub model : Text
  pub api_key : Text
  pub timeout : ℕ

pub record OidcConfig : Type 0 where
  pub issuer : Text
  pub client_id : Text
  pub client_secret : Text
  pub redirect_url : Text
  pub frontend_url : Text
  pub role_claim : Text
  pub role_map : Dict Text

unfoldable pub oidc_enabled : OidcConfig → Bool
oidc_enabled o =
    not (is_empty o.issuer)
    && not (is_empty o.client_id)
    && not (is_empty o.client_secret)
    && not (is_empty o.redirect_url)

pub record Config : Type 0 where
  pub http_port : Text
  pub log_level : Text
  pub database_url : Text
  pub auth_secret : Text
  pub sanitizer_url : Text
  pub llm_api_key : Text
  pub mapping_encryption_key : Bytes
  pub minio_endpoint : Text
  pub minio_access_key : Text
  pub minio_secret_key : Text
  pub minio_bucket : Text
  pub minio_secure : Bool
  pub embedder : EmbedderConfig
  pub oidc : OidcConfig
  pub rag_enabled : Bool
  pub ssh_llm : SshLlmConfig
  pub metrics_scrape_bearer : Text

pub data ConfigError : Type 0 where
  key_required key_not_base64 secret_required : ConfigError
  key_length : ℕ → ConfigError

abbrev put_role : Option (Text × Text) → Dict Text → Dict Text
put_role none m = m
put_role (some (k, v)) m =
    if is_empty k || is_empty v then m else insert (trim_space k) (trim_space v) m

unfoldable pub role_map_loop : List Text → Dict Text → Dict Text
unfolding trim_space cut insert
role_map_loop [] m = m
role_map_loop (pair ∷ pairs) m = role_map_loop pairs (put_role (cut b':' (trim_space pair)) m)

unfoldable pub parse_role_map : Text → Dict Text
unfolding split_parts role_map_loop
parse_role_map raw = role_map_loop (split_on b',' raw) []

module _ (getenv : Text → Text) where
  abbrev or_fallback : Text → Text → Text
  or_fallback [] fallback = fallback
  or_fallback (c ∷ s) fallback = c ∷ s

  unfoldable pub get_env : String → String → Text
  unfolding txt
  get_env key fallback = or_fallback (getenv (txt key)) (txt fallback)

  unfoldable pub http_port : Text
  unfolding get_env
  http_port = get_env "API_PORT" "8080"

  unfoldable pub database_url : Text
  unfolding txt get_env
  database_url =
      let url = getenv (txt "DATABASE_URL") in
      if not (is_empty url)
      then url
      else txt "postgres://"
        ++ (get_env "POSTGRES_USER" "rubezh"
            ++ (txt ":"
                ++ (get_env "POSTGRES_PASSWORD" "rubezh"
                    ++ (txt "@"
                        ++ (get_env "POSTGRES_HOST" "postgres"
                            ++ (txt ":"
                                ++ (get_env "POSTGRES_PORT" "5432"
                                    ++ (txt "/"
                                        ++ (get_env "POSTGRES_DB" "rubezh"
                                            ++ txt "?sslmode=disable")))))))))

  abbrev positive_or : ℕ → Option ℤ → ℕ
  positive_or fallback none = fallback
  positive_or fallback (some (pos zero)) = fallback
  positive_or fallback (some (pos (suc n))) = suc n
  positive_or fallback (some (negsuc n)) = fallback

  unfoldable pub parse_int_env : (Text → Option ℤ) → String → ℕ → ℕ
  unfolding txt
  parse_int_env sscanf key fallback =
      let raw = getenv (txt key) in
      if is_empty raw then fallback else positive_or fallback (sscanf raw)

unfoldable pub decode_mapping_key : (Text → Option Bytes) → Text → Result ConfigError Bytes
decode_mapping_key decode [] = err key_required
decode_mapping_key decode (c ∷ s) = elim (decode (c ∷ s)) [
  | none ↦ err key_not_base64
  | some key ↦ if length key == 32 then ok key else err (key_length (length key))
]

module _ (getenv : Text → Text) (decode : Text → Option Bytes) (sscanf : Text → Option ℤ) where
  abbrev env : String → Text
  env key = getenv (txt key)

  -- The value of `Load` but for its checks.
  unfoldable pub config_of : Bytes → Config
  unfolding txt text_eq get_env http_port database_url parse_int_env parse_role_map
  config_of key = record {
    http_port = http_port getenv;
    log_level = get_env getenv "API_LOG_LEVEL" "info";
    database_url = database_url getenv;
    auth_secret = env "AUTH_DEV_TOKEN_SECRET";
    sanitizer_url = get_env getenv "SANITIZER_URL" "http://rubezh-sanitizer:8001";
    llm_api_key = env "LLM_API_KEY";
    mapping_encryption_key = key;
    minio_endpoint = env "MINIO_ENDPOINT";
    minio_access_key = env "MINIO_ROOT_USER";
    minio_secret_key = env "MINIO_ROOT_PASSWORD";
    minio_bucket = get_env getenv "MINIO_BUCKET" "rubezh-documents";
    minio_secure = text_eq (env "MINIO_SECURE") (txt "true");
    embedder = record {
      kind = get_env getenv "EMBEDDER_KIND" "mock";
      url = env "EMBEDDER_URL";
      model = env "EMBEDDER_MODEL";
      api_key = env "EMBEDDER_API_KEY";
      timeout = parse_int_env getenv sscanf "EMBEDDER_TIMEOUT_SECONDS" 30;
    };
    oidc = record {
      issuer = env "OIDC_ISSUER";
      client_id = env "OIDC_CLIENT_ID";
      client_secret = env "OIDC_CLIENT_SECRET";
      redirect_url = env "OIDC_REDIRECT_URL";
      frontend_url = get_env getenv "OIDC_FRONTEND_URL" "http://localhost:5173";
      role_claim = env "OIDC_ROLE_CLAIM";
      role_map = parse_role_map (env "OIDC_ROLE_MAP");
    };
    rag_enabled =
        not (text_eq (env "RAG_ENABLED") (txt "false"))
        && not (text_eq (env "RAG_ENABLED") (txt "0"));
    ssh_llm = record {
      enabled = text_eq (env "SSH_LLM_ENABLED") (txt "true");
      host = env "SSH_LLM_HOST";
      port = parse_int_env getenv sscanf "SSH_LLM_PORT" 22;
      user = env "SSH_LLM_USER";
      key_path = env "SSH_LLM_KEY_PATH";
      known_hosts_path = env "SSH_LLM_KNOWN_HOSTS_PATH";
      remote_command = get_env getenv "SSH_LLM_REMOTE_COMMAND" "/usr/local/bin/ai-bridge";
      timeout = parse_int_env getenv sscanf "SSH_LLM_TIMEOUT_SECONDS" 180;
    };
    metrics_scrape_bearer = env "METRICS_SCRAPE_BEARER";
  }

  unfoldable pub load : Result ConfigError Config
  unfolding txt decode_mapping_key config_of
  load = elim (decode_mapping_key decode (env "MAPPING_ENCRYPTION_KEY")) [
    | err e ↦ err e
    | ok key ↦
        if is_empty (env "AUTH_DEV_TOKEN_SECRET") then err secret_required else ok (config_of key)
  ]
