-- ===== src/Config.antt =====
-- internal/config: the sections that Validate reads and normalises, and the workers setting. Text
-- is ASCII.
pub mod Validated
use hydra_dns.Base.{
  ℕ, zero, suc, ◌+◌, ◌-◌, ◌*◌, [], ◌∷◌, List, Bool, true, false, not, ◌&&◌, ◌||◌, ltb, leb, ◌==◌,
  if◌then◌else◌, length, take, map, Option, none, some, Bytes, bytes_eq,
}
use hydra_dns.Base.Int.{ℤ, pos, negsuc}
use hydra_dns.Base.Text.{trim_space}
use hydra_dns.Dns.Name.{is_empty, to_lower}

pub data WorkerSetting : Type 0 where
  workers_auto : WorkerSetting
  workers_fixed : ℤ → WorkerSetting

pub record ServerConfig : Type 0 where
  pub host : Bytes
  pub port : ℤ
  pub workers : WorkerSetting
  pub workers_raw : Bytes
  pub max_concurrency : ℤ
  pub upstream_socket_pool_size : ℤ
  pub enable_tcp : Bool
  pub tcp_fallback : Bool

pub record UpstreamConfig : Type 0 where
  pub servers : List Bytes
  pub udp_timeout : Bytes
  pub tcp_timeout : Bytes
  pub max_retries : ℤ

pub record CustomDnsConfig : Type 0 where
  pub hosts : List (Bytes × List Bytes)
  pub cnames : List (Bytes × Bytes)

-- A nil map of extra fields is `none`.
pub record LoggingConfig : Type 0 where
  pub level : Bytes
  pub structured : Bool
  pub structured_format : Bytes
  pub include_pid : Bool
  pub extra_fields : Option (List (Bytes × Bytes))

pub record BlocklistConfig : Type 0 where
  pub name : Bytes
  pub url : Bytes
  pub format : Bytes

pub record FilteringConfig : Type 0 where
  pub enabled : Bool
  pub log_blocked : Bool
  pub log_allowed : Bool
  pub whitelist_domains : List Bytes
  pub blacklist_domains : List Bytes
  pub blocklists : List BlocklistConfig
  pub refresh_interval : Bytes

pub record ApiConfig : Type 0 where
  pub enabled : Bool
  pub host : Bytes
  pub port : ℤ
  pub api_key : Bytes

pub data ClusterMode : Type 0 where
  standalone primary secondary : ClusterMode

pub record ClusterConfig : Type 0 where
  pub mode : ClusterMode
  pub node_id : Bytes
  pub primary_url : Bytes
  pub shared_secret : Bytes
  pub sync_interval : Bytes
  pub sync_timeout : Bytes

pub record Config : Type 0 where
  pub server : ServerConfig
  pub upstream : UpstreamConfig
  pub logging : LoggingConfig
  pub filtering : FilteringConfig
  pub api : ApiConfig

-- `8.8.8.8`, `INFO`, `json`, `24h`, `0.0.0.0` and `auto`.
abbrev pub fallback_upstream : Bytes
fallback_upstream = b'8' ∷ b'.' ∷ b'8' ∷ b'.' ∷ b'8' ∷ b'.' ∷ b'8' ∷ []

abbrev pub info : Bytes
info = b'I' ∷ b'N' ∷ b'F' ∷ b'O' ∷ []

abbrev pub json : Bytes
json = b'j' ∷ b's' ∷ b'o' ∷ b'n' ∷ []

abbrev pub one_day : Bytes
one_day = b'2' ∷ b'4' ∷ b'h' ∷ []

abbrev pub any_host : Bytes
any_host = b'0' ∷ b'.' ∷ b'0' ∷ b'.' ∷ b'0' ∷ b'.' ∷ b'0' ∷ []

abbrev pub workers_auto_str : Bytes
workers_auto_str = b'a' ∷ b'u' ∷ b't' ∷ b'o' ∷ []

-- The decimal digits behind what was read; `none` at another byte.
unfoldable pub digits_from : ℕ → Bytes → Option ℕ
digits_from n [] = some n
digits_from n (c ∷ cs) =
    let rest = digits_from (n * 10 + (c - b'0')) cs in
    if leb b'0' c && leb c b'9' then rest else none

-- strconv.Atoi of a text without a sign, and of one behind a minus sign; an int has 64 bits.
unfoldable pub atoi_unsigned : Bytes → Option ℤ
atoi_unsigned [] = none
atoi_unsigned (c ∷ cs) = elim (digits_from 0 (c ∷ cs)) [
  | none ↦ none
  | some n ↦ if leb n 9223372036854775807 then some (pos n) else none
]

-- The negative of a number.
abbrev pub negated : ℕ → ℤ
negated zero = pos 0
negated (suc n) = negsuc n

unfoldable pub atoi_negative : Bytes → Option ℤ
atoi_negative [] = none
atoi_negative (c ∷ cs) = elim (digits_from 0 (c ∷ cs)) [
  | none ↦ none
  | some n ↦ if leb n 9223372036854775808 then some (negated n) else none
]

-- strconv.Atoi
unfoldable pub atoi : Bytes → Option ℤ
atoi [] = none
atoi (c ∷ cs) =
    if c == b'-'
    then atoi_negative cs
    else if c == b'+'
    then atoi_unsigned cs
    else atoi_unsigned (c ∷ cs)

-- `n > 0`
unfoldable pub is_above_zero : ℤ → Bool
is_above_zero (pos (suc n)) = true
is_above_zero n = false

unfoldable pub parse_workers : Bytes → WorkerSetting
parse_workers text =
    let raw = trim_space (to_lower text) in
    if is_empty raw || bytes_eq raw workers_auto_str then workers_auto else (elim (atoi raw) [
      | none ↦ workers_auto
      | some n ↦ if is_above_zero n then workers_fixed n else workers_auto
    ])

-- ServerConfig.ParseWorkers, which does with its own field what parseWorkers does.
unfoldable pub parse_workers_of : ServerConfig → ServerConfig
parse_workers_of s = record s { workers = parse_workers s.workers_raw }

-- `strings.ToUpper` on ASCII.
unfoldable pub upper_byte : ℕ → ℕ
upper_byte c = if leb b'a' c && leb c b'z' then c - 32 else c

unfoldable pub to_upper : Bytes → Bytes
to_upper = map upper_byte

-- The text, or the default for the empty one.
unfoldable pub text_or_default : Bytes → Bytes → Bytes
text_or_default default text = if is_empty text then default else text

-- `port <= 0 || port > 65535`
unfoldable pub is_bad_port : ℤ → Bool
is_bad_port (pos n) = n == 0 || ltb 65535 n
is_bad_port (negsuc n) = true

unfoldable pub normalize_servers : List Bytes → List Bytes
normalize_servers servers = take 3 (elim servers [ [] ↦ fallback_upstream ∷ [] | s ∷ ss ↦ s ∷ ss ])

unfoldable pub normalize_logging : LoggingConfig → LoggingConfig
normalize_logging l = record l {
  level = to_upper (text_or_default info l.level);
  structured_format = text_or_default json l.structured_format;
  extra_fields = some (elim l.extra_fields [ none ↦ [] | some fields ↦ fields ]);
}

-- What Validate has changed when it comes to the port of the API.
unfoldable pub normalize_config : Config → Config
normalize_config cfg = record cfg {
  upstream = record cfg.upstream { servers = normalize_servers cfg.upstream.servers };
  logging = normalize_logging cfg.logging;
  filtering = record cfg.filtering {
    refresh_interval = text_or_default one_day cfg.filtering.refresh_interval;
  };
  api = record cfg.api { host = text_or_default any_host cfg.api.host };
}

pub data ConfigError : Type 0 where
  bad_server_port bad_api_port : ConfigError

-- Validate: its error, and the configuration, which it changes also where it fails.
unfoldable pub validate : Config → Option ConfigError × Config
validate cfg =
    let normal = normalize_config cfg in
    if is_bad_port cfg.server.port
    then (some bad_server_port, cfg)
    else if normal.api.enabled && is_bad_port normal.api.port
    then (some bad_api_port, normal)
    else (
      none,
      record normal {
        server = record normal.server { workers = parse_workers normal.server.workers_raw };
      },
    )
