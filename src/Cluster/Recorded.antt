-- ===== src/Cluster/Recorded.antt =====
-- What a sequence of syncs leaves in the syncer and in the local configuration.
use hydra_dns.Base.{
  ℕ, suc, ◌+◌, ◌≡◌, refl, ap, ◌∙◌, inl, inr, arith, [], ◌∷◌, List, Option, none, some, Bytes,
  Bool-cases,
}
use hydra_dns.Base.Int.{ℤ, ltb_ℤ, ◌≤ℤ◌}
use hydra_dns.Cluster.{
  ExportData, SyncError, import_failed, SyncOps, Syncer, record_success, record_sync_error, Fetched,
  fetched, fetch_failed, read_response, fetch_config, imported, read_version, apply_fetched,
  do_sync, start,
}

-- The syncs at the times of a list: their errors, and what they leave.
unfoldable pub run_syncs :
    {W : Type 0} → SyncOps W → List ℕ → Syncer → W → List (Option SyncError) × Syncer × W
run_syncs ops [] s w = ([], s, w)
run_syncs ops (t ∷ ts) s w =
    let (err, s', w') = do_sync ops t s w in
    let (errs, s'', w'') = run_syncs ops ts s' w' in (err ∷ errs, s'', w'')

unfoldable pub successes : List (Option SyncError) → ℕ
successes [] = 0
successes (none ∷ rest) = suc (successes rest)
successes (some e ∷ rest) = successes rest

unfoldable pub failures : List (Option SyncError) → ℕ
failures [] = 0
failures (none ∷ rest) = failures rest
failures (some e ∷ rest) = suc (failures rest)

-- The last of the outcomes, or the one before them.
unfoldable pub last_or : Option SyncError → List (Option SyncError) → Option SyncError
last_or before [] = before
last_or before (e ∷ rest) = last_or e rest

-- What the database and the callbacks do to the version that the database holds: it can be read, an
-- import that succeeds sets it to the version of its data, one that fails does not lower it, and
-- nothing else changes it.
pub record SyncLaws {W : Type 0} (ops : SyncOps W) (held : W → ℤ) : Type 0 where
  pub version_reads : (w : W) → ops.version w ≡ some (held w)
  pub send_keeps : (req : hydra_dns.Cluster.SyncRequest) (w : W) → held (ops.send req w).1 ≡ held w
  pub reload_keeps : (w : W) → held (ops.reload w).1 ≡ held w
  pub import_sets :
      (d : ExportData) (w : W)
      → (ops.import_data d w).0 ≡ none
      → held (ops.import_data d w).1 ≡ d.version
  pub import_keeps :
      (d : ExportData) (w : W) (why : Bytes)
      → (ops.import_data d w).0 ≡ some why
      → held w ≤ℤ held (ops.import_data d w).1

-- One sync by its outcome.
pub record SyncDone {W : Type 0} (ops : SyncOps W) (s : Syncer) (w : W)
    (r : Option SyncError × Syncer × W) : Type 0 where
  pub sync_count : r.1.sync_count ≡ s.sync_count + successes (r.0 ∷ [])
  pub error_count : r.1.error_count ≡ s.error_count + failures (r.0 ∷ [])
  pub last_error : r.1.last_sync_error ≡ r.0

module _ {W : Type 0} (ops : SyncOps W) where
  imported-SyncDone :
      (now : ℕ) (v : ℤ) (s : Syncer) (w : W) (r : Option Bytes × W)
      → SyncDone ops s w (imported ops now v s r)
  unfolding imported record_success record_sync_error successes failures
  imported-SyncDone now v s w (none, w') = record {
    sync_count = omega arith;
    error_count = omega arith;
    last_error = refl;
  }
  imported-SyncDone now v s w (some why, w') = record {
    sync_count = omega arith;
    error_count = omega arith;
    last_error = refl;
  }

  apply_fetched-SyncDone :
      (now : ℕ) (s : Syncer) (w : W) (r : Fetched × W)
      → SyncDone ops s w (apply_fetched ops now s r)
  unfolding apply_fetched record_success record_sync_error successes failures
  apply_fetched-SyncDone now s w (fetch_failed why, w') = record {
    sync_count = omega arith;
    error_count = omega arith;
    last_error = refl;
  }
  apply_fetched-SyncDone now s w (fetched d, w') =
      elim (Bool-cases (ltb_ℤ (read_version ops w') d.version)) [
        | inl newer ↦ rw (newer) (imported-SyncDone now d.version s w (ops.import_data d w'))
        | inr same ↦
            rw (same)
              (record { sync_count = omega arith; error_count = omega arith; last_error = refl })
      ]

  do_sync-SyncDone : (now : ℕ) (s : Syncer) (w : W) → SyncDone ops s w (do_sync ops now s w)
  unfolding do_sync
  do_sync-SyncDone now s w = apply_fetched-SyncDone now s w (fetch_config ops s w)

-- A sync does not lower the local version, and where it succeeds the local version is at least the
-- one that was fetched.
abbrev Rises : {W : Type 0} → (W → ℤ) → W → Option SyncError × Syncer × W → Type 0
Rises held w r = (held w ≤ℤ held r.2) × (r.0 ≡ none → r.1.last_sync_version ≤ℤ held r.2)

successes-cons :
    (e : Option SyncError) (rest : List (Option SyncError))
    → successes (e ∷ rest) ≡ successes (e ∷ []) + successes rest
unfolding successes
successes-cons none rest = omega arith
successes-cons (some why) rest = omega arith

failures-cons :
    (e : Option SyncError) (rest : List (Option SyncError))
    → failures (e ∷ rest) ≡ failures (e ∷ []) + failures rest
unfolding failures
failures-cons none rest = omega arith
failures-cons (some why) rest = omega arith

-- Whatever syncs run one after another, the syncer counts those that succeed and those that fail,
-- and its last error is that of the last one.
pub run_syncs-counts :
    {W : Type 0} (ops : SyncOps W) (ts : List ℕ) (s : Syncer) (w : W)
    → (let r = run_syncs ops ts s w in
        (r.1.sync_count ≡ s.sync_count + successes r.0)
        × (r.1.error_count ≡ s.error_count + failures r.0)
        × (r.1.last_sync_error ≡ last_or s.last_sync_error r.0))
unfolding run_syncs successes failures last_or
run_syncs-counts ops [] s w = (omega arith, omega arith, refl)
run_syncs-counts ops (t ∷ ts) s w =
    let step = do_sync-SyncDone ops t s w in
    let (err, s', w') = do_sync ops t s w in
    let rest = run_syncs-counts ops ts s' w' in
    let errs = (run_syncs ops ts s' w').0 in
    (
      omega (arith, step.sync_count, rest.0, successes-cons err errs),
      omega (arith, step.error_count, rest.1, failures-cons err errs),
      rest.2 ∙ ap (λ e. last_or e errs) step.last_error,
    )
