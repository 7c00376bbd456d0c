-- ===== src/Config/Validated.antt =====
-- What Validate promises of a configuration that it accepts.
use hydra_dns.Base.{
  ℕ, zero, suc, ◌≤◌, ◌≡◌, refl, ap, ◌∙◌, inl, inr, arith, [], ◌∷◌, List, true, false, ◌&&◌, ◌||◌,
  length, none, Bytes, bytes_eq, Bool-cases, Option-cases,
}
use hydra_dns.Base.Int.{ℤ, pos, negsuc, pos_part}
use hydra_dns.Base.Text.{trim_space}
use hydra_dns.Dns.Name.{is_empty, to_lower}
use hydra_dns.Config.{
  WorkerSetting, workers_auto, workers_fixed, LoggingConfig, Config, atoi, is_above_zero,
  parse_workers, upper_byte, to_upper, text_or_default, is_bad_port, normalize_servers,
  normalize_logging, normalize_config, validate, info, json, one_day, any_host, workers_auto_str,
}

abbrev pub IsPort : ℤ → Type 0
IsPort p = (n : ℕ) × (p ≡ pos n) × (1 ≤ n) × (n ≤ 65535)

-- Workers that are counted are at least one.
abbrev pub IsWorkers : WorkerSetting → Type 0
IsWorkers workers_auto = Unit {0}
IsWorkers (workers_fixed n) = 1 ≤ pos_part n

-- A configuration with its ports, one to three upstreams, and no text that has a default left out.
pub record IsValidated (cfg : Config) : Type 0 where
  pub server_port : IsPort cfg.server.port
  pub api_port : cfg.api.enabled ≡ true → IsPort cfg.api.port
  pub servers_some : 1 ≤ length cfg.upstream.servers
  pub servers_few : length cfg.upstream.servers ≤ 3
  pub level : is_empty cfg.logging.level ≡ false
  pub structured_format : is_empty cfg.logging.structured_format ≡ false
  pub refresh_interval : is_empty cfg.filtering.refresh_interval ≡ false
  pub api_host : is_empty cfg.api.host ≡ false
  pub workers : IsWorkers cfg.server.workers

is_bad_port-IsPort : (p : ℤ) → is_bad_port p ≡ false → IsPort p
unfolding is_bad_port
is_bad_port-IsPort (pos n) h = (n, refl, ground (arith, h), ground (arith, h))
is_bad_port-IsPort (negsuc n) h = ground (arith, h)

text_or_default-is_empty :
    (default text : Bytes)
    → is_empty default ≡ false
    → is_empty (text_or_default default text) ≡ false
unfolding text_or_default
text_or_default-is_empty default text h = ground (arith, h)

text_or_default_again :
    (default text : Bytes) → is_empty text ≡ false → text_or_default default text ≡ text
unfolding text_or_default
text_or_default_again default text h = rw (h) refl

to_upper-is_empty : (s : Bytes) → is_empty (to_upper s) ≡ is_empty s
unfolding to_upper is_empty
to_upper-is_empty [] = refl
to_upper-is_empty (c ∷ cs) = refl

upper_byte_twice : (c : ℕ) → upper_byte (upper_byte c) ≡ upper_byte c
unfolding upper_byte
upper_byte_twice c = ground arith

to_upper_twice : (s : Bytes) → to_upper (to_upper s) ≡ to_upper s
unfolding to_upper
to_upper_twice [] = refl
to_upper_twice (c ∷ cs) = rw (upper_byte_twice c) (ap (◌∷◌ (upper_byte c)) (to_upper_twice cs))

normalize_servers-length :
    (ss : List Bytes) → (1 ≤ length (normalize_servers ss)) × (length (normalize_servers ss) ≤ 3)
unfolding normalize_servers
normalize_servers-length [] = (omega arith, omega arith)
normalize_servers-length (a ∷ []) = (omega arith, omega arith)
normalize_servers-length (a ∷ b ∷ []) = (omega arith, omega arith)
normalize_servers-length (a ∷ b ∷ c ∷ rest) = (omega arith, omega arith)

normalize_servers_twice :
    (ss : List Bytes) → normalize_servers (normalize_servers ss) ≡ normalize_servers ss
unfolding normalize_servers
normalize_servers_twice [] = refl
normalize_servers_twice (a ∷ []) = refl
normalize_servers_twice (a ∷ b ∷ []) = refl
normalize_servers_twice (a ∷ b ∷ c ∷ rest) = refl

is_above_zero-pos_part : (n : ℤ) → is_above_zero n ≡ true → 1 ≤ pos_part n
unfolding is_above_zero
is_above_zero-pos_part (pos zero) h = ground (arith, h)
is_above_zero-pos_part (pos (suc n)) h = omega arith
is_above_zero-pos_part (negsuc n) h = ground (arith, h)

IsWorkers-parse_workers : (text : Bytes) → IsWorkers (parse_workers text)
unfolding parse_workers
IsWorkers-parse_workers text =
    let raw = trim_space (to_lower text) in
    elim (Bool-cases (is_empty raw || bytes_eq raw workers_auto_str)) [
      | inl e ↦ rw (parse_workers, e) tt
      | inr e ↦ elim (Option-cases (atoi raw)) [
        | inl e' ↦ rw (parse_workers, e, e') tt
        | inr (n, e') ↦ elim (Bool-cases (is_above_zero n)) [
          | inl above ↦ rw (parse_workers, e, e', above) (is_above_zero-pos_part n above)
          | inr below ↦ rw (parse_workers, e, e', below) tt
        ]
      ]
    ]

normalize_logging_twice :
    (l : LoggingConfig) → normalize_logging (normalize_logging l) ≡ normalize_logging l
unfolding normalize_logging is_empty
normalize_logging_twice l =
    let level_full : is_empty (to_upper (text_or_default info l.level)) ≡ false =
      to_upper-is_empty (text_or_default info l.level)
      ∙ text_or_default-is_empty info l.level refl in
    rw
      (
        text_or_default_again info (to_upper (text_or_default info l.level)) level_full,
        to_upper_twice (text_or_default info l.level),
        text_or_default_again json (text_or_default json l.structured_format)
            (text_or_default-is_empty json l.structured_format refl),
      )
      refl

normalize_config_twice :
    (cfg : Config) → normalize_config (normalize_config cfg) ≡ normalize_config cfg
unfolding normalize_config is_empty
normalize_config_twice cfg =
    rw
      (
        normalize_servers_twice cfg.upstream.servers,
        normalize_logging_twice cfg.logging,
        text_or_default_again one_day (text_or_default one_day cfg.filtering.refresh_interval)
            (text_or_default-is_empty one_day cfg.filtering.refresh_interval refl),
        text_or_default_again any_host (text_or_default any_host cfg.api.host)
            (text_or_default-is_empty any_host cfg.api.host refl),
      )
      refl

-- The last line of Validate.
abbrev with_workers : Config → Config
with_workers cfg = record cfg {
  server = record cfg.server { workers = parse_workers cfg.server.workers_raw };
}

-- What Validate leaves where it accepts.
accepted : Config → Config
accepted cfg = with_workers (normalize_config cfg)

validate_bad_server :
    (cfg : Config) → is_bad_port cfg.server.port ≡ true → ¬ ((validate cfg).0 ≡ none)
unfolding validate
validate_bad_server cfg e h = ground (arith, e, h)

validate_bad_api :
    (cfg : Config)
    → is_bad_port cfg.server.port ≡ false
    → (cfg.api.enabled && is_bad_port cfg.api.port) ≡ true
    → ¬ ((validate cfg).0 ≡ none)
unfolding validate normalize_config
validate_bad_api cfg e e' h = ground (arith, e, e', h)

validate_good :
    (cfg : Config)
    → is_bad_port cfg.server.port ≡ false
    → (cfg.api.enabled && is_bad_port cfg.api.port) ≡ false
    → validate cfg ≡ (none, accepted cfg)
unfolding validate accepted normalize_config
validate_good cfg server api = rw (server, api) refl

normalize_config-with_workers :
    (cfg : Config) → normalize_config (with_workers cfg) ≡ with_workers (normalize_config cfg)
unfolding normalize_config
normalize_config-with_workers cfg = refl

accepted_twice : (cfg : Config) → accepted (accepted cfg) ≡ accepted cfg
unfolding accepted
accepted_twice cfg =
    ap with_workers (normalize_config-with_workers (normalize_config cfg))
    ∙ ap with_workers (normalize_config_twice cfg)

IsValidated-accepted :
    (cfg : Config)
    → is_bad_port cfg.server.port ≡ false
    → (cfg.api.enabled && is_bad_port cfg.api.port) ≡ false
    → IsValidated (accepted cfg)
unfolding accepted normalize_config normalize_logging is_empty
IsValidated-accepted cfg server api = record {
  server_port = is_bad_port-IsPort cfg.server.port server;
  api_port = λ on. is_bad_port-IsPort cfg.api.port (ground (arith, on, api));
  servers_some = (normalize_servers-length cfg.upstream.servers).0;
  servers_few = (normalize_servers-length cfg.upstream.servers).1;
  level =
      to_upper-is_empty (text_or_default info cfg.logging.level)
      ∙ text_or_default-is_empty info cfg.logging.level refl;
  structured_format = text_or_default-is_empty json cfg.logging.structured_format refl;
  refresh_interval = text_or_default-is_empty one_day cfg.filtering.refresh_interval refl;
  api_host = text_or_default-is_empty any_host cfg.api.host refl;
  workers = IsWorkers-parse_workers cfg.server.workers_raw;
}

-- A configuration that Validate accepts has, as Validate leaves it, the port of the server between 1
-- and 65535, that of the API too where it is enabled, one to three upstreams, a log level, a log
-- format, a refresh interval and an API host that are not empty, and a positive number of workers
-- where it is fixed; and to validate it again accepts it and changes nothing.
pub validate-IsValidated :
    (cfg : Config)
    → (validate cfg).0 ≡ none
    → IsValidated (validate cfg).1 × (validate (validate cfg).1 ≡ (none, (validate cfg).1))
validate-IsValidated cfg h = elim (Bool-cases (is_bad_port cfg.server.port)) [
  | inl e ↦ absurd (validate_bad_server cfg e h)
  | inr server ↦ elim (Bool-cases (cfg.api.enabled && is_bad_port cfg.api.port)) [
    | inl e ↦ absurd (validate_bad_api cfg server e h)
    | inr api ↦
        let done = validate_good cfg server api in
        let again : validate (accepted cfg) ≡ (none, accepted (accepted cfg)) =
          unfold accepted normalize_config in validate_good (accepted cfg) server api in
        rw (done) (IsValidated-accepted cfg server api, rw (again, accepted_twice cfg) refl)
  ]
]
