-- ===== src/Tests/Source/Snapshots.antt =====
-- The tests of the snapshots (src/shm.rs).
use ngx_vts.Prelude.{
  get_elem?, codes, eqb, is_utf8, Bool, true, [], ◌∷◌, ◌==◌, ◌&&◌, ◌≡◌, refl, not, length, all_of,
}
use ngx_vts.HashMap
use ngx_vts.HashMap.{HashMap}
use ngx_vts.UpstreamStats
use ngx_vts.CacheStats
use ngx_vts.Shm.Server
use ngx_vts.Shm.Server.{ServerCounters}
use ngx_vts.Shm.Upstream
use ngx_vts.Shm.Upstream.{UpstreamCounters}
use ngx_vts.Shm.Cache
use ngx_vts.Shm.Cache.{CacheCounters}
use ngx_vts.Shm.Keys.{upstream_key_bytes, split_upstream_key}
use ngx_vts.Shm.Record.{
  ShmState, is_configured, shared, record_server, record_upstream, record_cache,
}
use ngx_vts.Shm.Snapshot.{
  add_servers, build_server_snapshot, add_upstream, add_upstreams, build_upstream_snapshot,
  add_caches, build_cache_snapshot, snapshot_servers, snapshot_upstreams, snapshot_caches,
}
use ngx_vts.Module.Stores.{roomy}
use ngx_vts.Instances.{list_map, quotients}
use ngx_vts.Tests.Worker.{local}
use ngx_vts.Tests.Source.{fold, same_float, unwrap_or_fail, is_none}
use ngx_vts.Tests.Source.Counters.{three_requests}

abbrev build_server_snapshot_converts_entries : Bool
build_server_snapshot_converts_entries =
    let c2 = Server.update Server.new 200 300 4000 30 in
    let snap =
      build_server_snapshot quotients
        ((codes "example.com", three_requests) ∷ (codes "api.example.com", c2) ∷ []) in
    length snap == 2
    && unwrap_or_fail (HashMap.get snap (codes "example.com")) (λ s.
      s.requests == 3
      && s.bytes_in == 350
      && s.bytes_out == 3080
      && s.responses.status_2xx == 2
      && s.responses.status_4xx == 1
      && same_float s.request_times.max (70, 1000)
      && same_float s.request_times.min (10, 1000)
      && same_float s.request_times.avg (130, 3000))
    && unwrap_or_fail (HashMap.get snap (codes "api.example.com")) (λ api. api.requests == 1)

abbrev be1 : UpstreamCounters
be1 =
    Upstream.update
      (Upstream.update (Upstream.update Upstream.new 100 50 1000 500 200) 120 60 1200 600 200) 150
      70 1500 700 404

abbrev build_upstream_snapshot_groups_by_upstream_name : Bool
build_upstream_snapshot_groups_by_upstream_name =
    let be2 = Upstream.update Upstream.new 200 80 2000 800 500 in
    let api = Upstream.update Upstream.new 80 40 800 400 200 in
    let snap = build_upstream_snapshot (
      (upstream_key_bytes (codes "backend") (codes "10.0.0.1:80"), be1)
      ∷ (upstream_key_bytes (codes "backend") (codes "10.0.0.2:80"), be2)
      ∷ (upstream_key_bytes (codes "api") (codes "10.0.1.1:8080"), api)
      ∷ []) in
    length snap == 2
    && unwrap_or_fail (HashMap.get snap (codes "backend")) (λ backend.
      length backend.servers == 2
      && unwrap_or_fail (HashMap.get backend.servers (codes "10.0.0.1:80")) (λ s.
        s.request_counter == 3
        && s.in_bytes == 1800
        && s.out_bytes == 3700
        && s.responses.status_2xx == 2
        && s.responses.status_4xx == 1
        && s.request_time_total == 370
        && s.request_time_counter == 3
        && unwrap_or_fail (get_elem? s.response_buckets 3) (λ n. n == 1)
        && unwrap_or_fail (get_elem? s.response_buckets 4) (λ n. n == 3))
      && unwrap_or_fail (HashMap.get backend.servers (codes "10.0.0.2:80"))
          (λ s. s.request_counter == 1 && s.responses.status_5xx == 1))
    && unwrap_or_fail (HashMap.get snap (codes "api")) (λ group. length group.servers == 1)

abbrev build_upstream_snapshot_skips_malformed_keys : Bool
build_upstream_snapshot_skips_malformed_keys =
    length (build_upstream_snapshot ((codes "no-nul", Upstream.new) ∷ [])) == 0

-- The process-local worker has no published tables.
abbrev no_shm_configured_returns_none : Bool
no_shm_configured_returns_none =
    let s : ShmState list_map = local.shm in
    not (is_configured list_map s)
    && is_none (snapshot_servers list_map quotients s)
    && is_none (snapshot_upstreams list_map s)
    && is_none (snapshot_caches list_map s)
    && not (record_server list_map s (codes "test") 200 0 0 0 roomy).1
    && not (record_upstream list_map s (codes "u") (codes "s") 0 0 0 0 200 roomy).1
    && not (record_cache list_map s (codes "zone") 7 0 0 roomy).1

abbrev build_cache_snapshot_converts_entries : Bool
build_cache_snapshot_converts_entries =
    let c1 = fold (λ c status. Cache.update c status 0 0) Cache.new (7 ∷ 7 ∷ 1 ∷ []) in
    let c2 = fold (λ c status. Cache.update c status 0 0) Cache.new (2 ∷ 2 ∷ []) in
    let snap = build_cache_snapshot ((codes "static", c1) ∷ (codes "api", c2) ∷ []) in
    length snap == 2
    && unwrap_or_fail (HashMap.get snap (codes "static"))
        (λ s. eqb s.name (codes "static") && s.cache.hit == 2 && s.cache.miss == 1)
    && unwrap_or_fail (HashMap.get snap (codes "api"))
        (λ a. a.cache.bypass == 2 && a.cache.hit == 0)

abbrev build_cache_snapshot_skips_non_utf8_keys : Bool
build_cache_snapshot_skips_non_utf8_keys =
    length (build_cache_snapshot ((0xff ∷ 0xfe ∷ [], Cache.new) ∷ [])) == 0

snapshots_pass :
    all_of
      (λ b. b)
      (build_server_snapshot_converts_entries ∷ build_upstream_snapshot_groups_by_upstream_name
        ∷ build_upstream_snapshot_skips_malformed_keys ∷ no_shm_configured_returns_none
        ∷ build_cache_snapshot_converts_entries ∷ build_cache_snapshot_skips_non_utf8_keys ∷ [])
    ≡ true
unfolding Server.update Server.new Server.into_stats Upstream.update Upstream.new
    Upstream.into_stats Cache.update Cache.new Cache.into_stats UpstreamStats.status_class
    UpstreamStats.count_buckets UpstreamStats.new_server UpstreamStats.new_zone CacheStats.new_zone
    split_upstream_key upstream_key_bytes is_utf8 eqb HashMap.get HashMap.insert HashMap.or_insert
    HashMap.modify add_servers add_upstream add_upstreams add_caches is_configured shared
    snapshot_servers snapshot_upstreams snapshot_caches record_server record_upstream record_cache
snapshots_pass = refl
