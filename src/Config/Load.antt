-- ===== src/Config/Load.antt =====
-- What `Load` of internal/config/config.go returns.
use netdata_postgres_mcp.Base.{
  ℤ, ℕ, ◌≡◌, ◌<◌, refl, ◌⊎◌, inl, inr, true, false, List, [], length, Option, none, some,
  Option-cases, Bool-cases, Result, ok, err, ◌==◌, if◌then◌else◌, arith,
}
use netdata_postgres_mcp.Base.Text.{Bytes, str, is_empty}
use netdata_postgres_mcp.Config.{
  below_one, Config, defaults, default_contexts, or_env, list_or_env, apply_env, Error,
  dsn_required, validate, effective_nodes, load, checked,
}

-- The conditions of `Validate`.
pub record IsValid (c : Config) : Type 0 where
  pub has_dsn : is_empty c.postgres_dsn ≡ false
  pub has_interval : below_one c.collection_interval_seconds ≡ false
  pub has_contexts : 0 < length c.enabled_contexts

validate-IsValid : (c : Config) → validate c ≡ none → IsValid c
unfolding validate
validate-IsValid c e = record {
  has_dsn = ground (arith, e);
  has_interval = ground (arith, e);
  has_contexts = ground (arith, e);
}

-- The variable is not set, or the field is its value.
abbrev pub Overrides : Bytes → Bytes → Type 0
Overrides v field = (is_empty v ≡ true) ⊎ (field ≡ v)

or_env-Overrides : (v old : Bytes) → Overrides v (or_env v old)
or_env-Overrides v old = elim (Bool-cases (is_empty v)) [ inl e ↦ inl e | inr e ↦ rw e (inr refl) ]

module _ (read_file : Bytes → Option Bytes) (unmarshal : Bytes → Config → Option Config)
    (getenv : Bytes → Bytes) (atoi : Bytes → Option ℤ) (parse_float : Bytes → Option ℕ) where
  -- The text fields follow the environment.
  pub record FollowsEnv (c : Config) : Type 0 where
    pub netdata_base_url : Overrides (getenv (str "NETDATA_BASE_URL")) c.netdata_base_url
    pub netdata_api_key : Overrides (getenv (str "NETDATA_API_KEY")) c.netdata_api_key
    pub postgres_dsn : Overrides (getenv (str "POSTGRES_DSN")) c.postgres_dsn
    pub node_id : Overrides (getenv (str "NODE_ID")) c.node_id
    pub mcp_bind_addr : Overrides (getenv (str "MCP_BIND_ADDR")) c.mcp_bind_addr
    pub log_level : Overrides (getenv (str "LOG_LEVEL")) c.log_level
    pub log_format : Overrides (getenv (str "LOG_FORMAT")) c.log_format
    pub mcp_auth_token : Overrides (getenv (str "MCP_AUTH_TOKEN")) c.mcp_auth_token
    pub tls_cert_file : Overrides (getenv (str "TLS_CERT_FILE")) c.tls_cert_file
    pub tls_key_file : Overrides (getenv (str "TLS_KEY_FILE")) c.tls_key_file

  apply_env-FollowsEnv : (c : Config) → FollowsEnv (apply_env getenv atoi parse_float c)
  unfolding apply_env
  apply_env-FollowsEnv c = record {
    netdata_base_url = or_env-Overrides _ c.netdata_base_url;
    netdata_api_key = or_env-Overrides _ c.netdata_api_key;
    postgres_dsn = or_env-Overrides _ c.postgres_dsn;
    node_id = or_env-Overrides _ c.node_id;
    mcp_bind_addr = or_env-Overrides _ c.mcp_bind_addr;
    log_level = or_env-Overrides _ c.log_level;
    log_format = or_env-Overrides _ c.log_format;
    mcp_auth_token = or_env-Overrides _ c.mcp_auth_token;
    tls_cert_file = or_env-Overrides _ c.tls_cert_file;
    tls_key_file = or_env-Overrides _ c.tls_key_file;
  }

  -- A config that `Load` may return.
  unfoldable pub IsLoaded : Result Error Config → Type 0
  IsLoaded (ok c) = IsValid c × FollowsEnv c
  IsLoaded (err e) = Unit

  checked-IsLoaded :
      (c : Config)
      → IsLoaded (
          checked read_file unmarshal getenv atoi parse_float (apply_env getenv atoi parse_float c))
  unfolding checked IsLoaded
  checked-IsLoaded c = elim (Option-cases (validate (apply_env getenv atoi parse_float c))) [
    | inl e ↦ rw (checked, e) (validate-IsValid _ e, apply_env-FollowsEnv c)
    | inr (x, e) ↦ rw (checked, e) tt
  ]

  -- A config that `Load` returns without an error is valid: it has a DSN, a collection interval of at
  -- least one second and a context; and each of its text fields is the environment's value
  -- wherever that is set, whatever the file says.
  pub load-IsLoaded :
      (path : Bytes) → IsLoaded (load read_file unmarshal getenv atoi parse_float path)
  unfolding load IsLoaded
  load-IsLoaded path = elim (Bool-cases (is_empty path)) [
    | inl e ↦ rw e (checked-IsLoaded defaults)
    | inr e ↦ elim (Option-cases (read_file path)) [
      | inl f ↦ rw (e, f) tt
      | inr (contents, f) ↦ elim (Option-cases (unmarshal contents defaults)) [
        | inl u ↦ rw (e, f, u) tt
        | inr (c, u) ↦ rw (e, f, u) (checked-IsLoaded c)
      ]
    ]
  ]

  list_or_env-pos :
      {A : Type 0} (item : Bytes → A) (v : Bytes) (old : List A)
      → 0 < length old
      → 0 < length (list_or_env item v old)
  unfolding list_or_env
  list_or_env-pos item v old h = ground arith

  contexts_left : (v : Bytes) → (length (list_or_env (λ t. t) v default_contexts) == 0) ≡ false
  unfolding default_contexts
  contexts_left v =
      let left : 0 < length (list_or_env (λ t. t) v default_contexts) =
        list_or_env-pos (λ t. t) v default_contexts (omega arith) in
      ground (arith, left)

  validate-defaults :
      is_empty (getenv (str "COLLECTION_INTERVAL_SECONDS")) ≡ true
      → validate (apply_env getenv atoi parse_float defaults)
        ≡ (if is_empty (getenv (str "POSTGRES_DSN")) then some dsn_required else none)
  unfolding validate apply_env defaults below_one is_empty
  validate-defaults h = elim (Bool-cases (is_empty (getenv (str "POSTGRES_DSN")))) [
    | inl e ↦ rw e refl
    | inr e ↦ rw (e, e, h, contexts_left (getenv (str "ENABLED_CONTEXTS"))) refl
  ]

  -- Without a file, and with the interval's variable not set, `Load` succeeds if and only if the
  -- environment has a DSN, with the defaults under the environment's values.
  pub load-defaults :
      is_empty (getenv (str "COLLECTION_INTERVAL_SECONDS")) ≡ true
      → load read_file unmarshal getenv atoi parse_float [] ≡ (
          if is_empty (getenv (str "POSTGRES_DSN"))
          then err dsn_required
          else ok (apply_env getenv atoi parse_float defaults))
  unfolding load checked is_empty
  load-defaults h = elim (Bool-cases (is_empty (getenv (str "POSTGRES_DSN")))) [
    | inl e ↦ rw (checked, validate-defaults h, e) refl
    | inr e ↦ rw (checked, validate-defaults h, e) refl
  ]

-- There is a node to collect from, as the program expects of its first scheduler.
pub effective_nodes-pos : (c : Config) → 0 < length (effective_nodes c)
unfolding effective_nodes
effective_nodes-pos c = ground arith
