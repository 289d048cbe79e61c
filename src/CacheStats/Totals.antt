-- ===== src/CacheStats/Totals.antt =====
-- The total of a zone's statuses (src/cache_stats.rs) under an update.
use ngx_vts.Prelude.{◌≡◌, Bytes, codes, eqb, Bool, ◌||◌, arith, add64, if◌then◌else◌}
use ngx_vts.CacheStats.{VtsCacheStats, Unicode, count_status, update_cache_status, total_requests}

-- The eight statuses that are counted.
abbrev pub is_status : Bytes → Bool
is_status s =
    eqb s (codes "HIT")
    || eqb s (codes "MISS")
    || eqb s (codes "BYPASS")
    || eqb s (codes "EXPIRED")
    || eqb s (codes "STALE")
    || eqb s (codes "UPDATING")
    || eqb s (codes "REVALIDATED")
    || eqb s (codes "SCARCE")

total_requests-count_status :
    (s : Bytes) (c : VtsCacheStats)
    → total_requests (count_status s c)
      ≡ (if is_status s then add64 (total_requests c) 1 else total_requests c)
unfolding total_requests count_status
total_requests-count_status s c = ground arith

-- A status whose capitals are one of the eight names raises the total of requests by one, modulo
-- 2 ^ 64, and any other text leaves it alone.
pub total_requests-update_cache_status :
    (U : Unicode) (c : VtsCacheStats) (s : Bytes)
    → total_requests (update_cache_status U c s)
      ≡ (if is_status (U.to_uppercase s) then add64 (total_requests c) 1 else total_requests c)
unfolding update_cache_status
total_requests-update_cache_status U c s = total_requests-count_status (U.to_uppercase s) c
