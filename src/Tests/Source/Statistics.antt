-- ===== src/Tests/Source/Statistics.antt =====
-- The tests of src/cache_stats.rs and src/upstream_stats.rs.
use ngx_vts.Prelude.{
  ℕ, Bytes, codes, eqb, Bool, true, not, List, [], ◌∷◌, ◌==◌, ◌&&◌, ◌≡◌, refl, all_of, length,
  get_elem?,
}
use ngx_vts.HashMap
use ngx_vts.UpstreamStats
use ngx_vts.UpstreamStats.{UpstreamServerStats, UpstreamZone}
use ngx_vts.CacheStats
use ngx_vts.CacheStats.{VtsCacheStats, CacheStatsManager, CacheZoneStats, default_cache}
use ngx_vts.Instances.{quotients, ascii}
use ngx_vts.Tests.Source.{fold, same_float, unwrap_or_fail}

-- The calls of `update_cache_status` with some statuses.
abbrev after_statuses : List Bytes → VtsCacheStats
after_statuses = fold (CacheStats.update_cache_status ascii) default_cache

abbrev test_cache_stats_new : Bool
test_cache_stats_new =
    let stats = default_cache in
    stats.hit == 0
    && stats.miss == 0
    && CacheStats.total_requests stats == 0
    && same_float (CacheStats.hit_ratio quotients stats) (0, 1)

abbrev test_cache_stats_update : Bool
test_cache_stats_update =
    let stats = after_statuses (codes "HIT" ∷ codes "HIT" ∷ codes "MISS" ∷ codes "BYPASS" ∷ []) in
    stats.hit == 2
    && stats.miss == 1
    && stats.bypass == 1
    && CacheStats.total_requests stats == 4
    && same_float (CacheStats.hit_ratio quotients stats) (50, 1)

abbrev test_cache_stats_unknown_status : Bool
test_cache_stats_unknown_status =
    CacheStats.total_requests (after_statuses (codes "UNKNOWN" ∷ [])) == 0

abbrev test_cache_size_stats : Bool
test_cache_size_stats =
    let size_stats = CacheStats.new_size 1000 500 in
    let grown = CacheStats.update_used_size size_stats 750 in
    size_stats.max_size == 1000
    && size_stats.used_size == 500
    && same_float (CacheStats.utilization_percentage quotients size_stats) (50, 1)
    && grown.used_size == 750
    && same_float (CacheStats.utilization_percentage quotients grown) (75, 1)

abbrev test_cache_zone_stats : Bool
test_cache_zone_stats =
    let new = CacheStats.new_zone (codes "test_zone") in
    let zone =
      CacheStats.update_zone_size (CacheStats.update_zone_status ascii new (codes "HIT")) 2048
        1024 in
    eqb new.name (codes "test_zone")
    && zone.cache.hit == 1
    && zone.size.max_size == 2048
    && zone.size.used_size == 1024
    && same_float (CacheStats.utilization_percentage quotients zone.size) (50, 1)

-- The calls of `update_cache_stats` of a manager, for zones and statuses.
abbrev after_accesses : List (Bytes × Bytes) → CacheStatsManager
after_accesses =
    fold (λ m access. CacheStats.update_cache_stats ascii m access.0 access.1)
      CacheStats.new_manager

abbrev test_cache_stats_manager : Bool
test_cache_stats_manager =
    let zone1 : Bytes = codes "zone1" in
    let manager =
      CacheStats.update_cache_size
        (after_accesses ((zone1, codes "HIT") ∷ (zone1, codes "MISS") ∷ [])) zone1 1000 500 in
    let all_zones = CacheStats.get_all_cache_zones manager in
    unwrap_or_fail (CacheStats.get_cache_zone manager zone1) (λ z.
      eqb z.name zone1
      && z.cache.hit == 1
      && z.cache.miss == 1
      && z.size.max_size == 1000
      && z.size.used_size == 500)
    && length all_zones == 1
    && unwrap_or_fail (HashMap.get all_zones zone1) (λ _. true)

abbrev test_cache_stats_multiple_zones : Bool
test_cache_stats_multiple_zones =
    let manager =
      after_accesses ((codes "zone1", codes "HIT") ∷ (codes "zone2", codes "MISS") ∷ []) in
    let all_zones = CacheStats.get_all_cache_zones manager in
    length all_zones == 2
    && unwrap_or_fail (HashMap.get all_zones (codes "zone1")) (λ z. z.cache.hit == 1)
    && unwrap_or_fail (HashMap.get all_zones (codes "zone2")) (λ z. z.cache.miss == 1)

abbrev test_cache_stats_clear : Bool
test_cache_stats_clear =
    let manager = after_accesses ((codes "zone1", codes "HIT") ∷ []) in
    length (CacheStats.get_all_cache_zones (CacheStats.clear manager)) == 0

cache_stats_pass :
    all_of
      (λ b. b)
      (test_cache_stats_new ∷ test_cache_stats_update ∷ test_cache_stats_unknown_status
        ∷ test_cache_size_stats ∷ test_cache_zone_stats ∷ test_cache_stats_manager
        ∷ test_cache_stats_multiple_zones ∷ test_cache_stats_clear ∷ [])
    ≡ true
unfolding eqb CacheStats.update_cache_status CacheStats.count_status CacheStats.total_requests
    CacheStats.hit_ratio CacheStats.new_size CacheStats.update_used_size CacheStats.new_zone
    CacheStats.utilization_percentage CacheStats.update_zone_size CacheStats.update_zone_status
    CacheStats.new_manager CacheStats.update_cache_stats CacheStats.update_cache_size
    CacheStats.get_all_cache_zones CacheStats.get_cache_zone CacheStats.clear HashMap.get
    HashMap.or_insert HashMap.modify
cache_stats_pass = refl

abbrev test_upstream_server_stats_new : Bool
test_upstream_server_stats_new =
    let stats = UpstreamStats.new_server (codes "192.168.1.1:80") in
    eqb stats.server (codes "192.168.1.1:80")
    && stats.request_counter == 0
    && stats.in_bytes == 0
    && stats.out_bytes == 0
    && stats.weight == 1
    && not stats.backup
    && not stats.down

abbrev test_update_response_status : Bool
test_update_response_status =
    let stats =
      fold UpstreamStats.update_response_status (UpstreamStats.new_server (codes "test:80"))
        (200 ∷ 404 ∷ 500 ∷ []) in
    stats.responses.status_2xx == 1
    && stats.responses.status_4xx == 1
    && stats.responses.status_5xx == 1

abbrev test_update_timing : Bool
test_update_timing =
    let stats =
      UpstreamStats.update_timing
        (UpstreamStats.update_timing (UpstreamStats.new_server (codes "test:80")) 100 50) 200 75 in
    stats.request_time_total == 300
    && stats.request_time_counter == 2
    && stats.response_time_total == 125
    && stats.response_time_counter == 2
    && same_float (UpstreamStats.avg_request_time quotients stats) (150, 1)
    && same_float (UpstreamStats.avg_response_time quotients stats) (125, 2)
    && unwrap_or_fail (get_elem? stats.response_buckets 3) (λ n. n == 1)
    && unwrap_or_fail (get_elem? stats.response_buckets 4) (λ n. n == 2)

-- The reference that `get_or_create_server` returns, and the three assignments through it.
abbrev assign : UpstreamZone → Bytes → ℕ → ℕ → ℕ → UpstreamZone
assign zone server requests in_bytes out_bytes =
    let created = UpstreamStats.get_or_create_server zone server in
    record created {
      servers = HashMap.modify created.servers server (λ (s : UpstreamServerStats). record s {
        request_counter = requests;
        in_bytes = in_bytes;
        out_bytes = out_bytes;
      });
    }

abbrev test_upstream_zone : Bool
test_upstream_zone =
    let new = UpstreamStats.new_zone (codes "backend") in
    let zone =
      assign (assign new (codes "10.0.0.1:80") 100 1000 500) (codes "10.0.0.2:80") 200 2000 1000 in
    let (in_bytes, out_bytes) = UpstreamStats.total_bytes zone in
    eqb new.name (codes "backend")
    && length new.servers == 0
    && UpstreamStats.total_requests zone == 300
    && in_bytes == 3000
    && out_bytes == 1500

upstream_stats_pass :
    all_of
      (λ b. b)
      (test_upstream_server_stats_new ∷ test_update_response_status ∷ test_update_timing
        ∷ test_upstream_zone ∷ [])
    ≡ true
unfolding eqb UpstreamStats.new_server UpstreamStats.update_response_status
    UpstreamStats.status_class UpstreamStats.update_timing UpstreamStats.count_buckets
    UpstreamStats.avg_request_time UpstreamStats.avg_response_time UpstreamStats.new_zone
    UpstreamStats.get_or_create_server UpstreamStats.total_requests UpstreamStats.total_bytes
    UpstreamStats.sum64 HashMap.or_insert HashMap.modify
upstream_stats_pass = refl
