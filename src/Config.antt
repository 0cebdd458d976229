-- ===== src/Config.antt =====
-- internal/config/config.go, and the types of internal/config/derived.go and internal/config/pool.go.
-- The environment is a function, empty where a variable is not set; the file, YAML and the parsing of
-- numbers are parameters. A float64 is its bit pattern, a duration its nanoseconds.
pub mod Load
mod Tests
use netdata_postgres_mcp.Base.{
  ℤ, pos, negsuc, ℕ, ◌+◌, ◌*◌, Bool, true, false, not, List, [], ◌∷◌, ◌++◌, map, keep, Option, none,
  some, Result, ok, err, length, ◌==◌, if◌then◌else◌,
}
use netdata_postgres_mcp.Base.Text.{Bytes, str, is_empty, split, trim_space}

-- n < 1
unfoldable pub below_one : ℤ → Bool
below_one (pos n) = n == 0
below_one (negsuc n) = true

pub record NodeConfig : Type 0 where
  pub base_url : Bytes
  pub api_key : Bytes
  pub node_id : Bytes

pub record DerivedContext : Type 0 where
  pub name : Bytes
  pub expression : Bytes
  pub input_a : Bytes
  pub input_b : Bytes
  pub unit : Bytes

pub record PoolConfig : Type 0 where
  pub min_conns : ℤ
  pub max_conns : ℤ
  pub max_conn_lifetime : ℤ
  pub max_conn_idle_time : ℤ
  pub health_check_period : ℤ

pub record Config : Type 0 where
  pub netdata_base_url : Bytes
  pub netdata_api_key : Bytes
  pub postgres_dsn : Bytes
  pub collection_interval_seconds : ℤ
  pub node_id : Bytes
  pub enabled_contexts : List Bytes
  pub mcp_bind_addr : Bytes
  pub log_level : Bytes
  pub log_format : Bytes
  pub retention_days : ℤ
  pub mcp_auth_token : Bytes
  pub rate_limit_rps : ℕ
  pub tls_cert_file : Bytes
  pub tls_key_file : Bytes
  pub nodes : List NodeConfig
  pub derived_contexts : List DerivedContext
  pub pool : PoolConfig

unfoldable pub default_contexts : List Bytes
default_contexts = map str (
    "system.cpu" ∷ "system.ram" ∷ "system.swap" ∷ "system.io" ∷ "system.pgpgio" ∷ "system.ip"
    ∷ "disk.io" ∷ "disk.ops" ∷ "disk.util" ∷ "disk.space" ∷ "disk.inodes" ∷ "apps.cpu" ∷ "apps.mem"
    ∷ [])

default_pool_config : PoolConfig
default_pool_config = record {
  min_conns = pos 2;
  max_conns = pos 10;
  max_conn_lifetime = pos 1800000000000;
  max_conn_idle_time = pos 300000000000;
  health_check_period = pos 30000000000;
}

unfoldable pub defaults : Config
unfolding default_pool_config
defaults = record {
  netdata_base_url = str "http://localhost:19999";
  netdata_api_key = [];
  postgres_dsn = [];
  collection_interval_seconds = pos 60;
  node_id = [];
  enabled_contexts = default_contexts;
  mcp_bind_addr = str "127.0.0.1:8765";
  log_level = str "info";
  log_format = str "text";
  retention_days = pos 30;
  mcp_auth_token = [];
  rate_limit_rps = 0;
  tls_cert_file = [];
  tls_key_file = [];
  nodes = [];
  derived_contexts = [];
  pool = default_pool_config;
}

-- The parts between the commas, trimmed, those that are empty left out.
unfoldable pub trimmed_parts : Bytes → List Bytes
trimmed_parts v = keep (λ t. not (is_empty t)) (map trim_space (split b',' v))

-- The value of a text field, and of a list, after its variable.
abbrev pub or_env : Bytes → Bytes → Bytes
or_env v old = if is_empty v then old else v

unfoldable pub list_or_env : {A : Type 0} → (Bytes → A) → Bytes → List A → List A
unfolding trimmed_parts
list_or_env item v old =
    let items = map item (trimmed_parts v) in
    if is_empty v then old else if length items == 0 then old else items

abbrev pub or_parsed : {A : Type 0} → Option A → A → A
or_parsed none old = old
or_parsed (some n) old = n

abbrev pub number_or_env : {A : Type 0} → (Bytes → Option A) → Bytes → A → A
number_or_env parse v old = if is_empty v then old else or_parsed (parse v) old

module _ (getenv : Bytes → Bytes) (atoi : Bytes → Option ℤ) (parse_float : Bytes → Option ℕ) where
  unfoldable pub apply_env : Config → Config
  unfolding list_or_env
  apply_env cfg = record {
    netdata_base_url = or_env (getenv (str "NETDATA_BASE_URL")) cfg.netdata_base_url;
    netdata_api_key = or_env (getenv (str "NETDATA_API_KEY")) cfg.netdata_api_key;
    postgres_dsn = or_env (getenv (str "POSTGRES_DSN")) cfg.postgres_dsn;
    collection_interval_seconds =
        number_or_env atoi (getenv (str "COLLECTION_INTERVAL_SECONDS"))
          cfg.collection_interval_seconds;
    node_id = or_env (getenv (str "NODE_ID")) cfg.node_id;
    enabled_contexts = list_or_env (λ t. t) (getenv (str "ENABLED_CONTEXTS")) cfg.enabled_contexts;
    mcp_bind_addr = or_env (getenv (str "MCP_BIND_ADDR")) cfg.mcp_bind_addr;
    log_level = or_env (getenv (str "LOG_LEVEL")) cfg.log_level;
    log_format = or_env (getenv (str "LOG_FORMAT")) cfg.log_format;
    retention_days = number_or_env atoi (getenv (str "RETENTION_DAYS")) cfg.retention_days;
    mcp_auth_token = or_env (getenv (str "MCP_AUTH_TOKEN")) cfg.mcp_auth_token;
    rate_limit_rps = number_or_env parse_float (getenv (str "RATE_LIMIT_RPS")) cfg.rate_limit_rps;
    tls_cert_file = or_env (getenv (str "TLS_CERT_FILE")) cfg.tls_cert_file;
    tls_key_file = or_env (getenv (str "TLS_KEY_FILE")) cfg.tls_key_file;
    nodes =
        list_or_env (λ u. record { base_url = u; api_key = []; node_id = [] })
          (getenv (str "NETDATA_NODES")) cfg.nodes;
    derived_contexts = cfg.derived_contexts;
    pool = cfg.pool;
  }

pub data Error : Type 0 where
  reading_failed parsing_failed dsn_required interval_too_small contexts_empty : Error

-- `none` for no error.
unfoldable pub validate : Config → Option Error
unfolding below_one
validate c =
    if is_empty c.postgres_dsn
    then some dsn_required
    else if below_one c.collection_interval_seconds
    then some interval_too_small
    else if length c.enabled_contexts == 0
    then some contexts_empty
    else none

unfoldable pub effective_nodes : Config → List NodeConfig
effective_nodes c =
    if length c.nodes == 0
    then record { base_url = c.netdata_base_url; api_key = c.netdata_api_key; node_id = c.node_id }
      ∷ []
    else c.nodes

-- The file's bytes, and what yaml.Unmarshal leaves in the config that it is given.
module _ (read_file : Bytes → Option Bytes) (unmarshal : Bytes → Config → Option Config)
    (getenv : Bytes → Bytes) (atoi : Bytes → Option ℤ) (parse_float : Bytes → Option ℕ) where
  -- cfg.Validate(), and the config if it is valid.
  pub checked : Config → Result Error Config
  checked cfg = elim (validate cfg) [ none ↦ ok cfg | some e ↦ err e ]

  unfoldable pub load : Bytes → Result Error Config
  unfolding checked
  load path =
      if is_empty path
      then checked (apply_env getenv atoi parse_float defaults)
      else elim (read_file path) [
        | none ↦ err reading_failed
        | some contents ↦ elim (unmarshal contents defaults) [
          | none ↦ err parsing_failed
          | some cfg ↦ checked (apply_env getenv atoi parse_float cfg)
        ]
      ]
