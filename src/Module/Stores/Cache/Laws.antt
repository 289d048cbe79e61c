-- ===== src/Module/Stores/Cache/Laws.antt =====
-- What the two stores of cache accesses show (lib.rs, src/prometheus/mod.rs).
use mathlib.Core.Option
use ngx_vts.Prelude.{
  Bytes, is_utf8, none, some, List, [], ◌∷◌, ◌≡◌, false, refl, ap, ◌∙◌, arith, eqb_iff, All,
  if◌then◌else◌, Bool-cases, inl, inr,
}
use ngx_vts.Float.{F64}
use ngx_vts.HashMap
use ngx_vts.CacheStats.{Unicode, get_cache_zone}
use ngx_vts.Shm.Cache
use ngx_vts.Shm.Cache.History.{Observation}
use ngx_vts.Shm.Table.{RbTreeMap, IsLawful}
use ngx_vts.Shm.Record.{VtsShared, shared}
use ngx_vts.Shm.Record.Laws.{cache_counters}
use ngx_vts.Shm.Init.{empty_shared}
use ngx_vts.Shm.Snapshot.{snapshot_caches}
use ngx_vts.Shm.Snapshot.Laws.{get-build_cache_snapshot}
use ngx_vts.Shm.Trace
use ngx_vts.Shm.Trace.{Call, fits, stored, cache_history}
use ngx_vts.Shm.Trace.Laws.{shared-run, cache_counters-run}
use ngx_vts.Module
use ngx_vts.Module.{Globals, cache_status_str, vts_update_cache_stats_ffi}
use ngx_vts.Prometheus.Status.{cache_zones}
use ngx_vts.Module.Stores.Cache.{
  IsZoneName, observations_of, to_calls, cache_history-to_calls, observe, observe-shared,
  observe_local,
}

observations_of-eq-nil :
    (k : Bytes) (os : List (Bytes × Observation))
    → All IsZoneName os
    → is_utf8 k ≡ false
    → observations_of k os ≡ []
observations_of-eq-nil k [] _ _ = refl
observations_of-eq-nil k ((zone, o) ∷ os) (h, hs) e =
    ground (arith, eqb_iff k zone, observations_of-eq-nil k os hs e)

module _ (R : RbTreeMap) (L : IsLawful R) (F : F64) where
  cache_zones-shared :
      (g : Globals R) (sh : VtsShared R) (k : Bytes)
      → shared R g.shm ≡ some sh
      → HashMap.get (cache_zones R F g) k ≡ (
          if is_utf8 k
          then Option.map (λ c. Cache.into_stats c k) (cache_counters R g.shm k)
          else none)
  unfolding cache_zones snapshot_caches
  cache_zones-shared g sh k h =
      rw
        (
          h,
          get-build_cache_snapshot (R.entries sh.caches) k (L.entries-NodupKeys sh.caches),
          L.get-entries sh.caches k,
        )
        refl

  cache_zones-local :
      (g : Globals R) (k : Bytes)
      → shared R g.shm ≡ none
      → HashMap.get (cache_zones R F g) k ≡ get_cache_zone g.cache_manager k
  unfolding cache_zones snapshot_caches Module.get_all_cache_zones get_cache_zone
  cache_zones-local g k h = rw h refl

  -- For every lawful map of the slab pool: a worker with published empty tables that have room, and a
  -- worker with none published and no cache zones, show the same statistics of every zone after the
  -- same cache accesses, if the zone names are UTF-8 and of 1 to 256 bytes.
  pub get-cache_zones-observe :
      (U : Unicode) (os : List (Bytes × Observation)) (g g' : Globals R) (k : Bytes)
      → All IsZoneName os
      → shared R g.shm ≡ some (empty_shared R)
      → shared R g'.shm ≡ none
      → g'.cache_manager.cache_zones ≡ []
      → HashMap.get (cache_zones R F (observe R U os g)) k
        ≡ HashMap.get (cache_zones R F (observe R U os g')) k
  get-cache_zones-observe U os g g' k z h h' e =
      let before : (observe R U os g).shm ≡ Trace.run R (to_calls os) g.shm =
        observe-shared R U os g (empty_shared R) z h in
      let (sh, now) = shared-run R (to_calls os) g.shm (empty_shared R) h in
      let (unset, at_k) = observe_local R U os g' k z h' e in
      rw
        (
          cache_zones-shared (observe R U os g) sh k (ap (shared R) before ∙ now),
          cache_zones-local (observe R U os g') k unset,
          at_k,
          before,
          cache_counters-run R L (to_calls os) g.shm k h,
          cache_history-to_calls k os z,
        )
        (elim (Bool-cases (is_utf8 k)) [
          | inl valid ↦ rw valid refl
          | inr invalid ↦ rw (invalid, observations_of-eq-nil k os z invalid) refl
        ])
