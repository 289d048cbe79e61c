-- ===== src/Tests/Source/Counters.antt =====
-- The tests of the shared-memory counters and keys (src/shm.rs).
use ngx_vts.Prelude.{
  get_elem?, ℕ, ◌+◌, ◌*◌, codes, eqb, Bool, true, [], ◌∷◌, ◌==◌, ◌&&◌, ◌≡◌, refl, all_of,
}
use ngx_vts.UpstreamStats
use ngx_vts.CacheStats
use ngx_vts.Shm.Server
use ngx_vts.Shm.Server.{ServerCounters}
use ngx_vts.Shm.Upstream
use ngx_vts.Shm.Upstream.{UpstreamCounters}
use ngx_vts.Shm.Cache
use ngx_vts.Shm.Cache.{CacheCounters}
use ngx_vts.Shm.Keys.{upstream_key_bytes, split_upstream_key}
use ngx_vts.Instances.{quotients}
use ngx_vts.Tests.Source.{fold, same_float, unwrap_or_fail, is_none}

-- The third request of the first test, after the first and the second.
abbrev pub three_requests : ServerCounters
three_requests =
    Server.update (Server.update (Server.update Server.new 200 100 1000 50) 200 200 2000 70) 404 50
      80 10

abbrev server_counters_accumulate_correctly : Bool
server_counters_accumulate_correctly =
    let c = three_requests in
    c.requests == 3
    && c.bytes_in == 350
    && c.bytes_out == 3080
    && c.status_2xx == 2
    && c.status_4xx == 1
    && c.request_time_max == 70
    && c.request_time_min == 10
    && c.request_time_total == 130

abbrev server_counters_status_buckets_cover_all_classes : Bool
server_counters_status_buckets_cover_all_classes =
    let c =
      fold (λ c status. Server.update c status 0 0 0) Server.new
        (101 ∷ 204 ∷ 304 ∷ 404 ∷ 503 ∷ 600 ∷ []) in
    c.status_1xx == 1
    && c.status_2xx == 1
    && c.status_3xx == 1
    && c.status_4xx == 1
    && c.status_5xx == 1
    && c.requests == 6

abbrev server_counters_into_stats_handles_unset_min : Bool
server_counters_into_stats_handles_unset_min =
    let stats = Server.into_stats quotients Server.new in
    stats.requests == 0
    && same_float stats.request_times.min (0, 1)
    && same_float stats.request_times.avg (0, 1)

abbrev upstream_counters_accumulate_correctly : Bool
upstream_counters_accumulate_correctly =
    let c =
      Upstream.update
        (Upstream.update (Upstream.update Upstream.new 100 50 1000 500 200) 120 60 1200 600 200) 150
        70 1500 700 404 in
    c.request_counter == 3
    && c.in_bytes == 1800
    && c.out_bytes == 3700
    && c.status_2xx == 2
    && c.status_4xx == 1
    && c.request_time_total == 370
    && c.request_time_counter == 3
    && c.response_time_total == 180
    && c.response_time_counter == 3

-- `buckets[i] == n`
abbrev pub has_bucket : UpstreamCounters → ℕ → ℕ → Bool
has_bucket c i n = unwrap_or_fail (get_elem? c.response_buckets i) (λ m. m == n)

abbrev upstream_counters_request_time_filter_vs_response_time_no_filter : Bool
upstream_counters_request_time_filter_vs_response_time_no_filter =
    let c =
      Upstream.update
        (Upstream.update (Upstream.update Upstream.new 0 0 100 50 200) 50 0 100 50 200) 0 30 100 50
        200 in
    c.request_counter == 3
    && c.request_time_counter == 1
    && c.request_time_total == 50
    && c.response_time_counter == 3
    && c.response_time_total == 30
    && has_bucket c 0 2
    && has_bucket c 2 2
    && has_bucket c 3 3
    && has_bucket c 10 3

abbrev upstream_counters_response_buckets_track_distribution : Bool
upstream_counters_response_buckets_track_distribution =
    let c =
      fold (λ c sample. Upstream.update c 0 sample 0 0 200) Upstream.new
        (3 ∷ 7 ∷ 30 ∷ 75 ∷ 600 ∷ 50000 ∷ []) in
    c.response_time_counter == 6
    && has_bucket c 0 1
    && has_bucket c 1 2
    && has_bucket c 2 2
    && has_bucket c 3 3
    && has_bucket c 4 4
    && has_bucket c 5 4
    && has_bucket c 6 4
    && has_bucket c 7 5
    && has_bucket c 8 5
    && has_bucket c 9 5
    && has_bucket c 10 5

abbrev upstream_key_round_trip : Bool
upstream_key_round_trip =
    unwrap_or_fail (split_upstream_key (upstream_key_bytes (codes "backend") (codes "10.0.0.1:80")))
      (λ p. eqb p.0 (codes "backend") && eqb p.1 (codes "10.0.0.1:80"))

abbrev split_upstream_key_rejects_missing_separator : Bool
split_upstream_key_rejects_missing_separator = is_none (split_upstream_key (codes "no-nul-here"))

abbrev cache_counters_accumulate_correctly : Bool
cache_counters_accumulate_correctly =
    let c = fold (λ c status. Cache.update c status 0 0) Cache.new (7 ∷ 7 ∷ 1 ∷ 2 ∷ 3 ∷ []) in
    c.hit == 2
    && c.miss == 1
    && c.bypass == 1
    && c.expired == 1
    && c.stale == 0
    && c.updating == 0
    && c.revalidated == 0
    && c.scarce == 0

abbrev cache_counters_cover_all_variants : Bool
cache_counters_cover_all_variants =
    let c =
      fold (λ c status. Cache.update c status 0 0) Cache.new (1 ∷ 2 ∷ 3 ∷ 4 ∷ 5 ∷ 6 ∷ 7 ∷ 8 ∷ []) in
    c.miss == 1
    && c.bypass == 1
    && c.expired == 1
    && c.stale == 1
    && c.updating == 1
    && c.revalidated == 1
    && c.hit == 1
    && c.scarce == 1

abbrev cache_counters_ignore_unknown_status : Bool
cache_counters_ignore_unknown_status =
    let c = fold (λ c status. Cache.update c status 0 0) Cache.new (0 ∷ 9 ∷ 7 ∷ []) in
    c.hit == 1
    && c.miss + c.bypass + c.expired + c.stale + c.updating + c.revalidated + c.scarce == 0

abbrev cache_counters_into_stats : Bool
cache_counters_into_stats =
    let c = fold (λ c status. Cache.update c status 0 0) Cache.new (7 ∷ 7 ∷ 1 ∷ 2 ∷ []) in
    let stats = Cache.into_stats c (codes "my_cache") in
    eqb stats.name (codes "my_cache")
    && stats.cache.hit == 2
    && stats.cache.miss == 1
    && stats.cache.bypass == 1
    && CacheStats.total_requests stats.cache == 4
    && same_float (CacheStats.hit_ratio quotients stats.cache) (50, 1)
    && stats.size.max_size == 0
    && stats.size.used_size == 0

abbrev cache_counters_overwrite_size_each_update : Bool
cache_counters_overwrite_size_each_update =
    let c1 = Cache.update Cache.new 1 (10 * 1024 * 1024) 0 in
    let c2 = Cache.update c1 7 (10 * 1024 * 1024) (512 * 1024) in
    c1.max_size == 10 * 1024 * 1024
    && c1.used_size == 0
    && c2.max_size == 10 * 1024 * 1024
    && c2.used_size == 512 * 1024
    && c2.miss == 1
    && c2.hit == 1

abbrev cache_counters_into_stats_carries_size : Bool
cache_counters_into_stats_carries_size =
    let c = Cache.update Cache.new 7 (10 * 1024 * 1024) (2 * 1024 * 1024) in
    let stats = Cache.into_stats c (codes "sized") in
    stats.size.max_size == 10 * 1024 * 1024 && stats.size.used_size == 2 * 1024 * 1024

server_counters_pass :
    all_of
      (λ b. b)
      (server_counters_accumulate_correctly ∷ server_counters_status_buckets_cover_all_classes
        ∷ server_counters_into_stats_handles_unset_min ∷ [])
    ≡ true
unfolding Server.update Server.new Server.into_stats UpstreamStats.status_class
server_counters_pass = refl

upstream_counters_pass :
    all_of
      (λ b. b)
      (upstream_counters_accumulate_correctly
        ∷ upstream_counters_request_time_filter_vs_response_time_no_filter
        ∷ upstream_counters_response_buckets_track_distribution ∷ upstream_key_round_trip
        ∷ split_upstream_key_rejects_missing_separator ∷ [])
    ≡ true
unfolding Upstream.update Upstream.new UpstreamStats.status_class UpstreamStats.count_buckets eqb
    split_upstream_key upstream_key_bytes
upstream_counters_pass = refl

cache_counters_pass :
    all_of
      (λ b. b)
      (cache_counters_accumulate_correctly ∷ cache_counters_cover_all_variants
        ∷ cache_counters_ignore_unknown_status ∷ cache_counters_into_stats
        ∷ cache_counters_overwrite_size_each_update ∷ cache_counters_into_stats_carries_size ∷ [])
    ≡ true
unfolding Cache.update Cache.new Cache.into_stats CacheStats.new_zone CacheStats.total_requests
    CacheStats.hit_ratio eqb
cache_counters_pass = refl
