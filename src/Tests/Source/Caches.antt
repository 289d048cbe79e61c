-- ===== src/Tests/Source/Caches.antt =====
-- The tests of the cache statistics of a worker (src/lib.rs).
use ngx_vts.Prelude.{
  ℕ, Bytes, codes, eqb, Bool, true, [], ◌∷◌, map, ◌==◌, ◌&&◌, ◌≡◌, refl, all_of, length,
}
use ngx_vts.HashMap
use ngx_vts.CacheStats
use ngx_vts.Module
use ngx_vts.Module.{Globals, get_all_cache_zones}
use ngx_vts.Instances.{list_map, ascii, quotients}
use ngx_vts.Tests.Worker.{local}
use ngx_vts.Tests.Source.{same_float, unwrap_or_fail}
use ngx_vts.Tests.Source.Pages.{content_of, contains_all, after}

-- One call of `update_cache_stats`, and one of `update_cache_size`.
unfoldable accessed : Bytes → Bytes → Globals list_map → Globals list_map
unfolding Module.update_cache_stats CacheStats.update_cache_stats CacheStats.new_zone
    CacheStats.update_zone_status CacheStats.update_cache_status CacheStats.count_status
    HashMap.or_insert HashMap.modify eqb
accessed zone status g = Module.update_cache_stats list_map ascii g zone status

unfoldable sized : Bytes → ℕ → ℕ → Globals list_map → Globals list_map
unfolding Module.update_cache_size CacheStats.update_cache_size CacheStats.new_zone
    CacheStats.update_zone_size HashMap.or_insert HashMap.modify eqb
sized zone max used g = Module.update_cache_size list_map g zone max used

abbrev hit_ratio_is : CacheStats.CacheZoneStats → ℕ × ℕ → Bool
hit_ratio_is z = same_float (CacheStats.hit_ratio quotients z.cache)

abbrev utilization_is : CacheStats.CacheZoneStats → ℕ × ℕ → Bool
utilization_is z = same_float (CacheStats.utilization_percentage quotients z.size)

abbrev zone1 : Bytes
zone1 = codes "zone1"

abbrev zone2 : Bytes
zone2 = codes "zone2"

abbrev test_cache_stats_basic_functionality : Bool
test_cache_stats_basic_functionality =
    let cache_zones = get_all_cache_zones list_map (
      after (
        accessed zone1 (codes "HIT")
        ∷ accessed zone1 (codes "HIT")
        ∷ accessed zone1 (codes "MISS")
        ∷ accessed zone1 (codes "BYPASS")
        ∷ sized zone1 1048576 524288
        ∷ [])) in
    length cache_zones == 1
    && unwrap_or_fail (HashMap.get cache_zones zone1) (λ z.
      eqb z.name zone1
      && z.cache.hit == 2
      && z.cache.miss == 1
      && z.cache.bypass == 1
      && CacheStats.total_requests z.cache == 4
      && hit_ratio_is z (50, 1)
      && z.size.max_size == 1048576
      && z.size.used_size == 524288
      && utilization_is z (50, 1))

abbrev test_cache_stats_multiple_zones : Bool
test_cache_stats_multiple_zones =
    let cache_zones = get_all_cache_zones list_map (
      after (
        accessed zone1 (codes "HIT")
        ∷ accessed zone1 (codes "MISS")
        ∷ accessed zone2 (codes "HIT")
        ∷ accessed zone2 (codes "HIT")
        ∷ accessed zone2 (codes "HIT")
        ∷ sized zone1 1048576 262144
        ∷ sized zone2 2097152 1572864
        ∷ [])) in
    length cache_zones == 2
    && unwrap_or_fail (HashMap.get cache_zones zone1)
        (λ z. z.cache.hit == 1 && z.cache.miss == 1 && hit_ratio_is z (50, 1))
    && unwrap_or_fail (HashMap.get cache_zones zone2) (λ z.
      z.cache.hit == 3 && z.cache.miss == 0 && hit_ratio_is z (100, 1) && utilization_is z (75, 1))

abbrev test_cache_stats_all_status_variants : Bool
test_cache_stats_all_status_variants =
    let zone : Bytes = codes "comprehensive_zone" in
    let cache_zones = get_all_cache_zones list_map (
      after (
        map (accessed zone) (
          codes "HIT"
          ∷ codes "MISS"
          ∷ codes "BYPASS"
          ∷ codes "EXPIRED"
          ∷ codes "STALE"
          ∷ codes "UPDATING"
          ∷ codes "REVALIDATED"
          ∷ codes "SCARCE"
          ∷ []))) in
    unwrap_or_fail (HashMap.get cache_zones zone) (λ z.
      z.cache.hit == 1
      && z.cache.miss == 1
      && z.cache.bypass == 1
      && z.cache.expired == 1
      && z.cache.stale == 1
      && z.cache.updating == 1
      && z.cache.revalidated == 1
      && z.cache.scarce == 1
      && CacheStats.total_requests z.cache == 8
      && hit_ratio_is z (25, 2))

abbrev test_cache_metrics_appear_in_status_output : Bool
test_cache_metrics_appear_in_status_output =
    let zone : Bytes = codes "test_cache" in
    let g : Globals list_map = after (
      accessed zone (codes "HIT")
      ∷ accessed zone (codes "HIT")
      ∷ accessed zone (codes "MISS")
      ∷ sized zone 1048576 524288
      ∷ []) in
    contains_all (content_of g) (
      codes "# HELP nginx_vts_cache_requests_total"
      ∷ codes "# TYPE nginx_vts_cache_requests_total counter"
      ∷ codes "nginx_vts_cache_requests_total{zone=\"test_cache\",status=\"hit\"} 2"
      ∷ codes "nginx_vts_cache_requests_total{zone=\"test_cache\",status=\"miss\"} 1"
      ∷ codes "# HELP nginx_vts_cache_size_bytes"
      ∷ codes "# TYPE nginx_vts_cache_size_bytes gauge"
      ∷ codes "nginx_vts_cache_size_bytes{zone=\"test_cache\",type=\"max\"} 1048576"
      ∷ codes "nginx_vts_cache_size_bytes{zone=\"test_cache\",type=\"used\"} 524288"
      ∷ codes "# HELP nginx_vts_cache_hit_ratio"
      ∷ codes "# TYPE nginx_vts_cache_hit_ratio gauge"
      ∷ codes "nginx_vts_cache_hit_ratio{zone=\"test_cache\"} 66.67"
      ∷ [])

abbrev test_empty_cache_metrics_emit_headers : Bool
test_empty_cache_metrics_emit_headers = contains_all (content_of local) (
    codes "# HELP nginx_vts_cache_requests_total"
    ∷ codes "# TYPE nginx_vts_cache_requests_total counter"
    ∷ codes "# HELP nginx_vts_cache_size_bytes"
    ∷ codes "# TYPE nginx_vts_cache_size_bytes gauge"
    ∷ [])

caches_pass :
    all_of
      (λ b. b)
      (test_cache_stats_basic_functionality ∷ test_cache_stats_multiple_zones
        ∷ test_cache_stats_all_status_variants ∷ test_cache_metrics_appear_in_status_output
        ∷ test_empty_cache_metrics_emit_headers ∷ [])
    ≡ true
unfolding content_of contains_all accessed sized get_all_cache_zones CacheStats.get_all_cache_zones
    CacheStats.total_requests CacheStats.hit_ratio CacheStats.utilization_percentage HashMap.get eqb
caches_pass = refl
