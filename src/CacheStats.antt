-- ===== src/CacheStats.antt =====
-- src/cache_stats.rs: cache statistics of the zones of one process.
pub mod Laws
pub mod Invariant
pub mod Totals
use ngx_vts.Prelude.{
  ℕ, ◌-◌, Bytes, codes, eqb, Bool, Option, List, [], ◌<◌, All, ◌≡◌, map, add64, ◌==◌, within,
  if◌then◌else◌,
}
use ngx_vts.Float.{F64}
use ngx_vts.HashMap
use ngx_vts.HashMap.{HashMap}

pub record VtsCacheStats : Type 0 where
  pub miss : ℕ
  pub bypass : ℕ
  pub expired : ℕ
  pub stale : ℕ
  pub updating : ℕ
  pub revalidated : ℕ
  pub hit : ℕ
  pub scarce : ℕ

pub record VtsCacheSizeStats : Type 0 where
  pub max_size : ℕ
  pub used_size : ℕ

pub record CacheZoneStats : Type 0 where
  pub name : Bytes
  pub cache : VtsCacheStats
  pub size : VtsCacheSizeStats

-- `VtsCacheStats::default()`
abbrev pub default_cache : VtsCacheStats
default_cache = record {
  miss = 0;
  bypass = 0;
  expired = 0;
  stale = 0;
  updating = 0;
  revalidated = 0;
  hit = 0;
  scarce = 0;
}

-- `str::to_uppercase`, which follows the Unicode tables: over ASCII it is letter by letter.
abbrev pub ascii_upper : ℕ → ℕ
ascii_upper c = if within b'a' b'z' c then c - 32 else c

pub record Unicode : Type 0 where
  pub to_uppercase : Bytes → Bytes
  pub to_uppercase_ascii : (s : Bytes) → All (λ c. c < 128) s → to_uppercase s ≡ map ascii_upper s

-- The arms of the `match` on the status in capitals.
unfoldable pub count_status : Bytes → VtsCacheStats → VtsCacheStats
count_status status c =
    if eqb status (codes "HIT")
    then record c { hit = add64 c.hit 1 }
    else if eqb status (codes "MISS")
    then record c { miss = add64 c.miss 1 }
    else if eqb status (codes "BYPASS")
    then record c { bypass = add64 c.bypass 1 }
    else if eqb status (codes "EXPIRED")
    then record c { expired = add64 c.expired 1 }
    else if eqb status (codes "STALE")
    then record c { stale = add64 c.stale 1 }
    else if eqb status (codes "UPDATING")
    then record c { updating = add64 c.updating 1 }
    else if eqb status (codes "REVALIDATED")
    then record c { revalidated = add64 c.revalidated 1 }
    else if eqb status (codes "SCARCE")
    then record c { scarce = add64 c.scarce 1 }
    else c

unfoldable pub total_requests : VtsCacheStats → ℕ
total_requests c =
    add64
      (add64
        (add64 (add64 (add64 (add64 (add64 c.hit c.miss) c.bypass) c.expired) c.stale) c.updating)
        c.revalidated)
      c.scarce

module _ (F : F64) where
  unfoldable pub hit_ratio : VtsCacheStats → F.Carrier
  unfolding total_requests
  hit_ratio c =
      let total : ℕ = total_requests c in
      if total == 0
      then F.of_u64 0
      else F.mul (F.div (F.of_u64 c.hit) (F.of_u64 total)) (F.of_u64 100)

  unfoldable pub utilization_percentage : VtsCacheSizeStats → F.Carrier
  utilization_percentage s =
      if s.max_size == 0
      then F.of_u64 0
      else F.mul (F.div (F.of_u64 s.used_size) (F.of_u64 s.max_size)) (F.of_u64 100)

-- `VtsCacheSizeStats::new` and `update_used_size`
unfoldable pub new_size : ℕ → ℕ → VtsCacheSizeStats
new_size max_size used_size = record { max_size = max_size; used_size = used_size }

unfoldable pub update_used_size : VtsCacheSizeStats → ℕ → VtsCacheSizeStats
update_used_size s used_size = record s { used_size = used_size }

-- `CacheZoneStats::new`
unfoldable pub new_zone : Bytes → CacheZoneStats
new_zone name = record {
  name = name;
  cache = default_cache;
  size = record { max_size = 0; used_size = 0 };
}

-- `CacheZoneStats::update_cache_size`
unfoldable pub update_zone_size : CacheZoneStats → ℕ → ℕ → CacheZoneStats
update_zone_size z max_size used_size = record z {
  size = record { max_size = max_size; used_size = used_size };
}

-- `CacheStatsManager`. Every method holds the lock, and recovers the map of a poisoned one.
pub record CacheStatsManager : Type 0 where
  pub cache_zones : HashMap CacheZoneStats

unfoldable pub new_manager : CacheStatsManager
new_manager = record { cache_zones = [] }

unfoldable pub update_cache_size : CacheStatsManager → Bytes → ℕ → ℕ → CacheStatsManager
unfolding new_zone update_zone_size
update_cache_size m zone_name max_size used_size = record m {
  cache_zones =
      HashMap.modify (HashMap.or_insert m.cache_zones zone_name (new_zone zone_name)) zone_name
        (λ z. update_zone_size z max_size used_size);
}

unfoldable pub get_cache_zone : CacheStatsManager → Bytes → Option CacheZoneStats
get_cache_zone m zone_name = HashMap.get m.cache_zones zone_name

unfoldable pub get_all_cache_zones : CacheStatsManager → HashMap CacheZoneStats
get_all_cache_zones m = m.cache_zones

unfoldable pub clear : CacheStatsManager → CacheStatsManager
clear m = record m { cache_zones = [] }

module _ (U : Unicode) where
  -- `VtsCacheStats::update_cache_status`
  unfoldable pub update_cache_status : VtsCacheStats → Bytes → VtsCacheStats
  unfolding count_status
  update_cache_status c cache_status = count_status (U.to_uppercase cache_status) c

  -- `CacheZoneStats::update_cache_status`
  unfoldable pub update_zone_status : CacheZoneStats → Bytes → CacheZoneStats
  unfolding update_cache_status
  update_zone_status z cache_status = record z { cache = update_cache_status z.cache cache_status }

  unfoldable pub update_cache_stats : CacheStatsManager → Bytes → Bytes → CacheStatsManager
  unfolding new_zone update_zone_status
  update_cache_stats m zone_name cache_status = record m {
    cache_zones =
        HashMap.modify (HashMap.or_insert m.cache_zones zone_name (new_zone zone_name)) zone_name
          (λ z. update_zone_status z cache_status);
  }
