-- ===== src/Module/Stores/Cache.antt =====
-- Cache accesses as calls of the entry point (lib.rs), with a shared zone and without one.
pub mod Laws
use mathlib.Core.Option
use ngx_vts.Prelude.{
  ℕ, Bytes, is_utf8, Bool, Option, none, some, List, [], ◌∷◌, ◌&&◌, ◌≡◌, true, false, refl, sym, ap,
  ◌∙◌, arith, eqb, eqb_iff, eqb_refl, within, All, if◌then◌else◌, Bool-cases, Option-cases, inl,
  inr,
}
use ngx_vts.Float.{F64}
use ngx_vts.HashMap
use ngx_vts.CacheStats
use ngx_vts.CacheStats.{
  CacheStatsManager, CacheZoneStats, Unicode, new_zone, update_zone_size, update_zone_status,
  get_cache_zone,
}
use ngx_vts.CacheStats.Laws.{get_cache_zone-update_cache_size, get_cache_zone-update_cache_stats}
use ngx_vts.Shm.Cache
use ngx_vts.Shm.Cache.History.{Observation, summary, update-summary}
use ngx_vts.Shm.Table.{RbTreeMap, IsLawful}
use ngx_vts.Shm.Record.{VtsShared, shared, record_cache}
use ngx_vts.Shm.Record.Laws.{cache_counters}
use ngx_vts.Shm.Init.{empty_shared}
use ngx_vts.Shm.Snapshot.{snapshot_caches}
use ngx_vts.Shm.Snapshot.Laws.{get-build_cache_snapshot}
use ngx_vts.Shm.Trace
use ngx_vts.Shm.Trace.{Call, fits, stored, cache_history}
use ngx_vts.Shm.Trace.Laws.{shared-run, cache_counters-run}
use ngx_vts.Module
use ngx_vts.Module.{Globals, cache_status_str, vts_update_cache_stats_ffi}
use ngx_vts.Module.Laws.{vts_update_cache_stats_ffi_lem}
use ngx_vts.Module.Statuses.{into_stats-update_zone}
use ngx_vts.Module.Stores.{roomy, accept-roomy}
use ngx_vts.Prometheus.Status.{cache_zones}

-- A zone name that both stores keep: UTF-8, of 1 to 256 bytes.
abbrev pub IsZoneName : Bytes × Observation → Type 0
IsZoneName (zone, _) = (is_utf8 zone ≡ true) × (fits zone ≡ true)

-- A status that nginx reports, by its number.
abbrev pub is_known : ℕ → Bool
is_known = within 1 8

-- The accesses of a zone with a known status, newest first.
abbrev pub observations_of : Bytes → List (Bytes × Observation) → List Observation
observations_of k [] = []
observations_of k ((zone, o) ∷ os) =
    if eqb k zone && is_known o.status then o ∷ observations_of k os else observations_of k os

abbrev pub to_calls : List (Bytes × Observation) → List Call
to_calls [] = []
to_calls ((zone, o) ∷ os) =
    let rest : List Call = to_calls os in
    if is_known o.status then Call.cache zone o roomy ∷ rest else rest

known_of_some : (n : ℕ) (s : Bytes) → cache_status_str n ≡ some s → is_known n ≡ true
unfolding cache_status_str
known_of_some n s h = ground arith

unknown_of_none : (n : ℕ) → cache_status_str n ≡ none → is_known n ≡ false
unfolding cache_status_str
unknown_of_none n h = ground arith

pub cache_history-to_calls :
    (k : Bytes) (os : List (Bytes × Observation))
    → All IsZoneName os
    → cache_history k (to_calls os) ≡ observations_of k os
cache_history-to_calls k [] _ = refl
cache_history-to_calls k ((zone, o) ∷ os) (z, zs) = elim (Bool-cases (is_known o.status)) [
  | inl known ↦ rw known (
      rw (cache_history-to_calls k os zs, accept-roomy o (observations_of k os))
        (ground (arith, z)))
  | inr unknown ↦ rw unknown (ground (arith, cache_history-to_calls k os zs))
]

-- What a history shows of a zone.
abbrev pub shown : Bytes → List Observation → Option CacheZoneStats
shown k os = Option.map (λ c. Cache.into_stats c k) (stored summary os)

module _ (U : Unicode) where
  grown :
      (k s : Bytes) (o : Observation) (os : List Observation)
      → cache_status_str o.status ≡ some s
      → update_zone_size
          (update_zone_status U (Cache.into_stats (summary os) k) s)
          o.max_size
          o.used_size
        ≡ Cache.into_stats (summary (o ∷ os)) k
  grown k s o os h =
      into_stats-update_zone U (summary os) k s o.status o.max_size o.used_size h
      ∙ ap (λ c. Cache.into_stats c k) (update-summary o os)

  into_stats-new : (k : Bytes) → Cache.into_stats Cache.new k ≡ new_zone k
  unfolding Cache.into_stats Cache.new new_zone
  into_stats-new k = refl

  grow_local :
      (k s : Bytes) (o : Observation) (os : List Observation)
      → cache_status_str o.status ≡ some s
      → some (
          update_zone_size
            (update_zone_status U (Option.get_or (shown k os) (new_zone k)) s)
            o.max_size
            o.used_size)
        ≡ shown k (o ∷ os)
  unfolding Cache.new
  grow_local k s o [] h = rw (sym (into_stats-new k)) (ap some (grown k s o [] h))
  grow_local k s o (x ∷ os) h = ap some (grown k s o (x ∷ os) h)

  -- The two updates of the process-local manager, on every zone.
  get-update_local :
      (m : CacheStatsManager) (zone s : Bytes) (max used : ℕ) (j : Bytes)
      → get_cache_zone
          (CacheStats.update_cache_size (CacheStats.update_cache_stats U m zone s) zone max used)
          j
        ≡ (if eqb j zone
            then some (
                update_zone_size
                  (update_zone_status U (Option.get_or (get_cache_zone m zone) (new_zone zone)) s)
                  max
                  used)
            else get_cache_zone m j)
  get-update_local m zone s max used j = ground (
    arith,
    get_cache_zone-update_cache_size (CacheStats.update_cache_stats U m zone s) zone max used j,
    get_cache_zone-update_cache_stats U m zone s zone,
    get_cache_zone-update_cache_stats U m zone s j,
    eqb_refl zone,
  )

module _ (R : RbTreeMap) (U : Unicode) where
  -- A worker's entry point, called for each cache access, the oldest first.
  unfoldable pub observe : List (Bytes × Observation) → Globals R → Globals R
  observe [] g = g
  observe ((zone, o) ∷ os) g =
      vts_update_cache_stats_ffi R U (observe os g) (some zone) o.status o.max_size o.used_size
        roomy

  pub observe-shared :
      (os : List (Bytes × Observation)) (g : Globals R) (sh : VtsShared R)
      → All IsZoneName os
      → shared R g.shm ≡ some sh
      → (observe os g).shm ≡ Trace.run R (to_calls os) g.shm
  unfolding observe Trace.run
  observe-shared [] g sh _ h = refl
  observe-shared ((zone, o) ∷ os) g sh (z, zs) h =
      let before : (observe os g).shm ≡ Trace.run R (to_calls os) g.shm =
        observe-shared os g sh zs h in
      let (sh', e) = shared-run R (to_calls os) g.shm sh h in
      rw
        (vts_update_cache_stats_ffi_lem R U (observe os g) zone o.status o.max_size o.used_size
          roomy)
        (elim (Option-cases (cache_status_str o.status)) [
          | inl no_name ↦ rw (no_name, unknown_of_none o.status no_name) before
          | inr (s, name) ↦
              rw (name, known_of_some o.status s name, z.0, before, e)
                (ap (λ t. (record_cache R t zone o.status o.max_size o.used_size roomy).0) before)
        ])

  pub observe_local :
      (os : List (Bytes × Observation)) (g : Globals R) (k : Bytes)
      → All IsZoneName os
      → shared R g.shm ≡ none
      → g.cache_manager.cache_zones ≡ []
      → (shared R (observe os g).shm ≡ none)
        × (get_cache_zone (observe os g).cache_manager k ≡ shown k (observations_of k os))
  unfolding observe HashMap.get get_cache_zone
  observe_local [] g k _ h e = (h, rw e refl)
  observe_local ((zone, o) ∷ os) g k (z, zs) h e =
      let (unset, at_k) = observe_local os g k zs h e in
      rw
        (vts_update_cache_stats_ffi_lem R U (observe os g) zone o.status o.max_size o.used_size
          roomy)
        (elim (Option-cases (cache_status_str o.status)) [
          | inl no_name ↦
              rw (no_name, unknown_of_none o.status no_name) (unset, ground (arith, at_k))
          | inr (s, name) ↦
              rw (name, known_of_some o.status s name, z.0, unset)
                (
                  unset,
                  ground (
                    arith,
                    get-update_local U (observe os g).cache_manager zone s o.max_size o.used_size k,
                    (observe_local os g zone zs h e).1,
                    at_k,
                    grow_local U zone s o (observations_of zone os) name,
                    eqb_iff k zone,
                  ),
                )
        ])
