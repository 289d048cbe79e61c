-- ===== src/Shm/Cache.antt =====
-- src/shm.rs: `CacheCounters`, the counters of one cache zone.
pub mod History
use ngx_vts.Prelude.{ℕ, Bytes, if◌then◌else◌, ◌==◌, add64}
use ngx_vts.CacheStats.{CacheZoneStats, new_zone}

pub record CacheCounters : Type 0 where
  pub miss : ℕ
  pub bypass : ℕ
  pub expired : ℕ
  pub stale : ℕ
  pub updating : ℕ
  pub revalidated : ℕ
  pub hit : ℕ
  pub scarce : ℕ
  pub max_size : ℕ
  pub used_size : ℕ

unfoldable pub new : CacheCounters
new = record {
  miss = 0;
  bypass = 0;
  expired = 0;
  stale = 0;
  updating = 0;
  revalidated = 0;
  hit = 0;
  scarce = 0;
  max_size = 0;
  used_size = 0;
}

-- The `match status` of `update`.
unfoldable pub count_status : ℕ → CacheCounters → CacheCounters
count_status status c =
    if status == 1
    then record c { miss = add64 c.miss 1 }
    else if status == 2
    then record c { bypass = add64 c.bypass 1 }
    else if status == 3
    then record c { expired = add64 c.expired 1 }
    else if status == 4
    then record c { stale = add64 c.stale 1 }
    else if status == 5
    then record c { updating = add64 c.updating 1 }
    else if status == 6
    then record c { revalidated = add64 c.revalidated 1 }
    else if status == 7
    then record c { hit = add64 c.hit 1 }
    else if status == 8
    then record c { scarce = add64 c.scarce 1 }
    else c

unfoldable pub update : CacheCounters → ℕ → ℕ → ℕ → CacheCounters
unfolding count_status
update c status max_size used_size = record (count_status status c) {
  max_size = max_size;
  used_size = used_size;
}

unfoldable pub into_stats : CacheCounters → Bytes → CacheZoneStats
unfolding new_zone
into_stats c zone =
    let out : CacheZoneStats = new_zone zone in
    record out {
      cache = record {
        miss = c.miss;
        bypass = c.bypass;
        expired = c.expired;
        stale = c.stale;
        updating = c.updating;
        revalidated = c.revalidated;
        hit = c.hit;
        scarce = c.scarce;
      };
      size = record { max_size = c.max_size; used_size = c.used_size };
    }
