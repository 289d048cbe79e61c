-- ===== src/CacheStats/Invariant.antt =====
-- The names that the manager of the cache zones stores agree with its keys.
use ngx_vts.Prelude.{ℕ, Bytes, ◌≡◌, refl}
use ngx_vts.HashMap
use ngx_vts.HashMap.{HashMap, NodupKeys}
use ngx_vts.HashMap.Keys.{Each, or_insert-NodupKeys, modify-NodupKeys, or_insert-Each, modify-Each}
use ngx_vts.CacheStats
use ngx_vts.CacheStats.{
  CacheStatsManager, CacheZoneStats, Unicode, new_manager, new_zone, update_zone_size,
  update_zone_status,
}

abbrev pub IsNamed : Bytes → CacheZoneStats → Type 0
IsNamed name z = z.name ≡ name

-- No cache zone stands twice, and each is stored under its name.
pub record IsCache (m : CacheStatsManager) : Type 0 where
  pub distinct : NodupKeys m.cache_zones
  pub named : Each IsNamed m.cache_zones

module _ (m : CacheStatsManager) (zone : Bytes) (h : IsCache m) where
  entry-IsCache :
      (f : CacheZoneStats → CacheZoneStats)
      → ((z : CacheZoneStats) → (f z).name ≡ z.name)
      → IsCache (record m {
        cache_zones = HashMap.modify (HashMap.or_insert m.cache_zones zone (new_zone zone)) zone f;
      })
  unfolding new_zone
  entry-IsCache f keeps = record {
    distinct =
        modify-NodupKeys (HashMap.or_insert m.cache_zones zone (new_zone zone)) zone f
          (or_insert-NodupKeys m.cache_zones zone (new_zone zone) h.distinct);
    named =
        modify-Each IsNamed (HashMap.or_insert m.cache_zones zone (new_zone zone)) zone f
          (λ z e. rw (keeps z) e)
          (or_insert-Each IsNamed m.cache_zones zone (new_zone zone) refl h.named);
  }

  pub update_cache_size-IsCache :
      (max used : ℕ) → IsCache (CacheStats.update_cache_size m zone max used)
  unfolding CacheStats.update_cache_size
  update_cache_size-IsCache max used = entry-IsCache (λ z. update_zone_size z max used) (λ z. refl)

  pub update_cache_stats-IsCache :
      (U : Unicode) (status : Bytes) → IsCache (CacheStats.update_cache_stats U m zone status)
  unfolding CacheStats.update_cache_stats
  update_cache_stats-IsCache U status =
      entry-IsCache (λ z. update_zone_status U z status) (λ z. refl)
