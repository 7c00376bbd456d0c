-- ===== src/Examples/Clusters.antt =====
-- A secondary whose world is its local version and the bodies that the primary will answer.
use hydra_dns.Base.{ℕ, ◌≡◌, refl, [], ◌∷◌, List, true, false, Option, none, some, Bytes}
use hydra_dns.Base.Int.{ℤ, pos}
use hydra_dns.Config.{UpstreamConfig, FilteringConfig, secondary}
use hydra_dns.Cluster.{
  ExportData, SyncRequest, SyncError, unexpected_status, SyncOps, Syncer, do_sync, new_syncer, made,
  status,
}
use hydra_dns.Cluster.Recorded.{run_syncs}

abbrev no_filtering : FilteringConfig
no_filtering = record {
  enabled = false;
  log_blocked = false;
  log_allowed = false;
  whitelist_domains = [];
  blacklist_domains = [];
  blocklists = [];
  refresh_interval = [];
}

abbrev no_upstream : UpstreamConfig
no_upstream = record { servers = []; udp_timeout = []; tcp_timeout = []; max_retries = pos 0 }

-- A body is one byte, the version.
abbrev decode_version : Bytes → Option ExportData
decode_version [] = none
decode_version (v ∷ rest) = some (record {
  version = pos v;
  timestamp = [];
  node_id = [];
  upstream = no_upstream;
  custom_dns = record { hosts = []; cnames = [] };
  filtering = no_filtering;
})

-- The primary answers in turn what the world holds, and 503 behind that.
abbrev next_answer : SyncRequest → ℤ × List Bytes → Option (ℕ × Bytes) × (ℤ × List Bytes)
next_answer req (v, []) = (some (503, []), (v, []))
next_answer req (v, body ∷ rest) = (some (200, body), (v, rest))

abbrev version_of : ℤ × List Bytes → ℤ
version_of w = w.0

abbrev ops : SyncOps (ℤ × List Bytes)
ops = record {
  send = next_answer;
  decode = decode_version;
  import_data = λ d w. (none, (d.version, w.1));
  reload = λ w. (true, w);
  version = λ w. some (version_of w);
}

abbrev node : Syncer
node = record {
  cfg = record {
    mode = secondary;
    node_id = [];
    primary_url = b'p' ∷ [];
    shared_secret = [];
    sync_interval = [];
    sync_timeout = [];
  };
  running = true;
  last_sync_time = none;
  last_sync_version = pos 0;
  last_sync_error = none;
  next_sync_time = none;
  sync_count = 0;
  error_count = 0;
}

-- Version 5, then an older one that is not imported, then an error.
abbrev primary_answers : ℤ × List Bytes
primary_answers = (pos 1, (5 ∷ []) ∷ (3 ∷ []) ∷ [])

older_not_imported : (run_syncs ops (10 ∷ 20 ∷ []) node primary_answers).2.0 ≡ pos 5
unfolding run_syncs do_sync hydra_dns.Cluster.apply_fetched hydra_dns.Cluster.read_version
    hydra_dns.Cluster.fetch_config hydra_dns.Cluster.read_response hydra_dns.Cluster.imported
older_not_imported = refl

third_fails :
    (run_syncs ops (10 ∷ 20 ∷ 30 ∷ []) node primary_answers).1.last_sync_error
    ≡ some (unexpected_status 503)
unfolding run_syncs do_sync hydra_dns.Cluster.apply_fetched hydra_dns.Cluster.read_version
    hydra_dns.Cluster.fetch_config hydra_dns.Cluster.read_response hydra_dns.Cluster.imported
    hydra_dns.Cluster.record_sync_error
third_fails = refl
