-- ===== src/CacheStats/Laws.antt =====
-- What an update does to the zones of the manager.
use mathlib.Core.Option
use ngx_vts.Prelude.{ℕ, ◌≡◌, Bytes, eqb, some, if◌then◌else◌}
use ngx_vts.HashMap
use ngx_vts.CacheStats.{
  CacheStatsManager, Unicode, new_zone, update_zone_size, update_zone_status, update_cache_size,
  update_cache_stats, get_cache_zone,
}

pub get_cache_zone-update_cache_size :
    (m : CacheStatsManager) (zone : Bytes) (max used : ℕ) (j : Bytes)
    → get_cache_zone (update_cache_size m zone max used) j ≡ (
        if eqb j zone
        then some
            (update_zone_size (Option.get_or (get_cache_zone m zone) (new_zone zone)) max used)
        else get_cache_zone m j)
unfolding get_cache_zone update_cache_size
get_cache_zone-update_cache_size m zone max used j =
    HashMap.get-modify-or_insert m.cache_zones zone (new_zone zone)
      (λ z. update_zone_size z max used) j

module _ (U : Unicode) where
  pub get_cache_zone-update_cache_stats :
      (m : CacheStatsManager) (zone status : Bytes) (j : Bytes)
      → get_cache_zone (update_cache_stats U m zone status) j ≡ (
          if eqb j zone
          then some
              (update_zone_status U (Option.get_or (get_cache_zone m zone) (new_zone zone)) status)
          else get_cache_zone m j)
  unfolding get_cache_zone update_cache_stats
  get_cache_zone-update_cache_stats m zone status j =
      HashMap.get-modify-or_insert m.cache_zones zone (new_zone zone)
        (λ z. update_zone_status U z status) j
