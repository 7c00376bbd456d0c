-- ===== src/Cluster.antt =====
-- internal/cluster/cluster.go: a secondary node takes its configuration from the primary. The
-- database, the HTTP client and the JSON decoder are operations on a world; counters are below 2^63.
pub mod Recorded
use hydra_dns.Base.{
  ℕ, suc, ◌+◌, [], ◌∷◌, ◌++◌, List, Bool, true, false, not, ◌==◌, leb, if◌then◌else◌, Option, none,
  some, Bytes,
}
use hydra_dns.Base.Int.{ℤ, pos, ltb_ℤ}
use hydra_dns.Dns.Name.{is_empty}
use hydra_dns.Config.{
  UpstreamConfig, CustomDnsConfig, FilteringConfig, ClusterMode, standalone, primary, secondary,
  ClusterConfig,
}

pub record ExportData : Type 0 where
  pub version : ℤ
  pub timestamp : Bytes
  pub node_id : Bytes
  pub upstream : UpstreamConfig
  pub custom_dns : CustomDnsConfig
  pub filtering : FilteringConfig

-- The errors of a sync; that of an import with its text.
pub data SyncError : Type 0 where
  http_request decode_response : SyncError
  unexpected_status : ℕ → SyncError
  import_failed : Bytes → SyncError

pub record SyncRequest : Type 0 where
  pub url : Bytes
  pub headers : List (Bytes × Bytes)

-- The callbacks of a syncer, its HTTP client, and the decoder. A response is its status and body;
-- an import that succeeds gives `none`, and so do a decoder and a read of the version that fail.
pub record SyncOps (W : Type 0) : Type 0 where
  pub send : SyncRequest → W → Option (ℕ × Bytes) × W
  pub decode : Bytes → Option ExportData
  pub import_data : ExportData → W → Option Bytes × W
  pub reload : W → Bool × W
  pub version : W → Option ℤ

-- The fields under the mutex; an empty error text is `none`.
pub record Syncer : Type 0 where
  pub cfg : ClusterConfig
  pub running : Bool
  pub last_sync_time : Option ℕ
  pub last_sync_version : ℤ
  pub last_sync_error : Option SyncError
  pub next_sync_time : Option ℕ
  pub sync_count : ℕ
  pub error_count : ℕ

pub data NewSyncerError : Type 0 where
  not_secondary no_primary_url : NewSyncerError

unfoldable pub is_secondary : ClusterMode → Bool
is_secondary secondary = true
is_secondary other = false

pub data NewSyncer : Type 0 where
  made : Syncer → NewSyncer
  refused : NewSyncerError → NewSyncer

unfoldable pub new_syncer : ClusterConfig → NewSyncer
new_syncer cfg =
    if not (is_secondary cfg.mode)
    then refused not_secondary
    else if is_empty cfg.primary_url
    then refused no_primary_url
    else made (record {
      cfg = cfg;
      running = false;
      last_sync_time = none;
      last_sync_version = pos 0;
      last_sync_error = none;
      next_sync_time = none;
      sync_count = 0;
      error_count = 0;
    })

unfoldable pub record_success : ℕ → ℤ → Syncer → Syncer
record_success now version s = record s {
  last_sync_time = some now;
  last_sync_version = version;
  last_sync_error = none;
  sync_count = suc s.sync_count;
}

unfoldable pub record_sync_error : SyncError → Syncer → Syncer
record_sync_error err s = record s { last_sync_error = some err; error_count = suc s.error_count }

-- `/api/v1/cluster/export`
abbrev pub export_path : Bytes
export_path =
    b'/' ∷ b'a' ∷ b'p' ∷ b'i' ∷ b'/' ∷ b'v' ∷ b'1' ∷ b'/' ∷ b'c' ∷ b'l' ∷ b'u' ∷ b's' ∷ b't' ∷ b'e'
    ∷ b'r' ∷ b'/' ∷ b'e' ∷ b'x' ∷ b'p' ∷ b'o' ∷ b'r' ∷ b't' ∷ []

-- `X-Cluster-Secret`, `Accept`, `application/json` and `X-Node-Id`.
abbrev pub secret_header : Bytes
secret_header =
    b'X' ∷ b'-' ∷ b'C' ∷ b'l' ∷ b'u' ∷ b's' ∷ b't' ∷ b'e' ∷ b'r' ∷ b'-' ∷ b'S' ∷ b'e' ∷ b'c' ∷ b'r'
    ∷ b'e' ∷ b't' ∷ []

abbrev pub accept_header : Bytes
accept_header = b'A' ∷ b'c' ∷ b'c' ∷ b'e' ∷ b'p' ∷ b't' ∷ []

abbrev pub json_type : Bytes
json_type =
    b'a' ∷ b'p' ∷ b'p' ∷ b'l' ∷ b'i' ∷ b'c' ∷ b'a' ∷ b't' ∷ b'i' ∷ b'o' ∷ b'n' ∷ b'/' ∷ b'j' ∷ b's'
    ∷ b'o' ∷ b'n' ∷ []

abbrev pub node_header : Bytes
node_header = b'X' ∷ b'-' ∷ b'N' ∷ b'o' ∷ b'd' ∷ b'e' ∷ b'-' ∷ b'I' ∷ b'd' ∷ []

-- A header that is set unless its value is empty.
unfoldable pub header_if : Bytes → Bytes → List (Bytes × Bytes)
header_if name value = if is_empty value then [] else (name, value) ∷ []

unfoldable pub sync_request : ClusterConfig → SyncRequest
sync_request cfg = record {
  url = cfg.primary_url ++ export_path;
  headers =
      header_if secret_header cfg.shared_secret
      ++ ((accept_header, json_type) ∷ header_if node_header cfg.node_id);
}

pub data Fetched : Type 0 where
  fetched : ExportData → Fetched
  fetch_failed : SyncError → Fetched

-- What fetchConfig makes of a response.
unfoldable pub read_response : (Bytes → Option ExportData) → Option (ℕ × Bytes) → Fetched
read_response decode none = fetch_failed http_request
read_response decode (some (status, body)) =
    if not (status == 200)
    then fetch_failed (unexpected_status status)
    else (elim (decode body) [ none ↦ fetch_failed decode_response | some data' ↦ fetched data' ])

unfoldable pub fetch_config : {W : Type 0} → SyncOps W → Syncer → W → Fetched × W
fetch_config ops s w =
    let (response, w') = ops.send (sync_request s.cfg) w in (read_response ops.decode response, w')

-- doSync once the import was tried; an error of the reload is logged only.
unfoldable pub imported :
    {W : Type 0} → SyncOps W → ℕ → ℤ → Syncer → Option Bytes × W → Option SyncError × Syncer × W
imported ops now version s (some why, w) =
    (some (import_failed why), record_sync_error (import_failed why) s, w)
imported ops now version s (none, w) = (none, record_success now version s, (ops.reload w).1)

-- `version, _ := s.versionFunc()`, which is 0 where the read fails.
unfoldable pub read_version : {W : Type 0} → SyncOps W → W → ℤ
read_version ops w = elim (ops.version w) [ none ↦ pos 0 | some v ↦ v ]

-- doSync once the configuration was fetched.
unfoldable pub apply_fetched :
    {W : Type 0} → SyncOps W → ℕ → Syncer → Fetched × W → Option SyncError × Syncer × W
apply_fetched ops now s (fetch_failed why, w) = (some why, record_sync_error why s, w)
apply_fetched ops now s (fetched d, w) =
    if ltb_ℤ (read_version ops w) d.version
    then imported ops now d.version s (ops.import_data d w)
    else (none, record_success now d.version s, w)

-- doSync, where `now` is the time at which it ends.
unfoldable pub do_sync : {W : Type 0} → SyncOps W → ℕ → Syncer → W → Option SyncError × Syncer × W
do_sync ops now s w = apply_fetched ops now s (fetch_config ops s w)

-- A tick of runLoop: it sets the time of the next tick, and then waits and syncs.
unfoldable pub run_tick :
    {W : Type 0} → SyncOps W → ℕ → ℕ → Syncer → W → Option SyncError × Syncer × W
run_tick ops next_sync now s w = do_sync ops now (record s { next_sync_time = some next_sync }) w

-- Start up to the loop: `false` if the syncer is running.
unfoldable pub start : {W : Type 0} → SyncOps W → ℕ → Syncer → W → Bool × Syncer × W
start ops now s w =
    let (err, s', w') = do_sync ops now (record s { running = true }) w in
    if s.running then (false, s, w) else (true, s', w')

unfoldable pub stop : Syncer → Syncer
stop s = record s { running = false }

pub record SyncStatus : Type 0 where
  pub mode : ClusterMode
  pub node_id : Bytes
  pub primary_url : Bytes
  pub last_sync_time : Option ℕ
  pub last_sync_version : ℤ
  pub last_sync_error : Option SyncError
  pub next_sync_time : Option ℕ
  pub sync_count : ℕ
  pub error_count : ℕ
  pub config_version : ℤ

unfoldable pub status : {W : Type 0} → SyncOps W → Syncer → W → SyncStatus
status ops s w = record {
  mode = s.cfg.mode;
  node_id = s.cfg.node_id;
  primary_url = s.cfg.primary_url;
  last_sync_time = s.last_sync_time;
  last_sync_version = s.last_sync_version;
  last_sync_error = s.last_sync_error;
  next_sync_time = s.next_sync_time;
  sync_count = s.sync_count;
  error_count = s.error_count;
  config_version = read_version ops w;
}
