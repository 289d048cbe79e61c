-- ===== src/Tests/Source/Pages.antt =====
-- The tests of the status page (src/lib.rs), each from a fresh worker without shared memory.
use ngx_vts.Prelude.{
  ℕ, Bytes, codes, decimal, is_utf8, eqb, Bool, true, none, some, List, [], ◌∷◌, ◌++◌, map, ◌==◌,
  ◌&&◌, ◌≡◌, refl, all_of,
}
use ngx_vts.HashMap
use ngx_vts.UpstreamStats
use ngx_vts.Manager
use ngx_vts.Clock.{calculate_time_diff_ms}
use ngx_vts.Module.{
  Globals, update_server_zone_stats, update_upstream_zone_stats, update_connection_stats,
  get_all_cache_zones,
}
use ngx_vts.Prometheus.Status.{
  Outside, cargo_pkg_version, get_hostname, get_current_time, generate_vts_status_content,
}
use ngx_vts.Prometheus.Status
use ngx_vts.Prometheus.Lines
use ngx_vts.Prometheus.Connections.{format_connection_stats}
use ngx_vts.Prometheus.Server
use ngx_vts.Prometheus.Upstream
use ngx_vts.Prometheus.Cache
use ngx_vts.CacheStats
use ngx_vts.ConnectionStats.{read}
use ngx_vts.Shm.Server as ServerCounters
use ngx_vts.Shm.Record.{shared}
use ngx_vts.Shm.Snapshot.{snapshot_servers, snapshot_upstreams, snapshot_caches}
use ngx_vts.Module.Connections.{vts_collect_nginx_connections}
use ngx_vts.Instances.{list_map}
use ngx_vts.Tests.Worker.{local, plain}
use ngx_vts.Tests.Source.{fold, unwrap_or_fail, is_none, starts_with, contains}
use ngx_vts.Tests.Source.Formats.{rounded}

-- What a test build has in place of nginx: a fixed host name and time, and no counters to collect.
abbrev pub test_outside : Outside
test_outside = record {
  process = plain;
  ngx_cycle = none;
  hostname = some (codes "test-hostname");
  ngx_time = 1234567890;
}

unfoldable pub content_of : Globals list_map → Bytes
unfolding decimal is_utf8 HashMap.get ServerCounters.into_stats Lines.new Lines.header Lines.sample
    Lines.each Lines.format_nginx_info format_connection_stats Server.requests_lines
    Server.bytes_lines Server.responses_lines Server.seconds_lines Server.format_server_stats
    Upstream.trim_end_matches Upstream.trim_bound Upstream.format_le_bound Upstream.upstream_sample
    Upstream.each_server Upstream.requests_lines Upstream.bytes_lines Upstream.server_up_lines
    Upstream.responses_lines Upstream.format_upstream_status_metrics Upstream.seconds_lines
    Upstream.bucket_lines Upstream.histogram_lines Upstream.format_upstream_response_histogram
    Upstream.format_upstream_stats UpstreamStats.avg_request_time UpstreamStats.avg_response_time
    Cache.requests_lines Cache.size_lines Cache.ratio_lines Cache.format_cache_stats
    CacheStats.total_requests CacheStats.hit_ratio generate_vts_status_content
    Status.upstream_section Status.no_upstreams Status.banner get_hostname get_current_time
    Status.server_zone_stats Status.upstream_zones Status.cache_zones snapshot_servers
    snapshot_upstreams snapshot_caches shared get_all_cache_zones CacheStats.get_all_cache_zones
    vts_collect_nginx_connections read Manager.get_connection_stats Manager.get_all_server_stats
    Manager.get_all_upstream_zones HashMap.map_values
content_of g = (generate_vts_status_content list_map rounded test_outside g).0

-- Every one of some texts is in the content.
unfoldable pub contains_all : Bytes → List Bytes → Bool
unfolding contains starts_with
contains_all content = all_of (contains content)

-- One call of `update_upstream_zone_stats`, with its arguments in their order.
unfoldable pub upstream_call :
    Bytes → Bytes → ℕ → ℕ → ℕ → ℕ → ℕ → Globals list_map → Globals list_map
unfolding eqb Manager.record_request Manager.record_in_zone Manager.update_upstream_stats
    UpstreamStats.status_class UpstreamStats.count_buckets UpstreamStats.new_server
    UpstreamStats.new_zone HashMap.or_insert HashMap.modify update_upstream_zone_stats
upstream_call name addr request_time response_time sent received status g =
    update_upstream_zone_stats list_map g name addr request_time response_time sent received status

unfoldable server_call : Bytes → ℕ → ℕ → ℕ → ℕ → Globals list_map → Globals list_map
unfolding update_server_zone_stats Manager.update_server_stats ServerCounters.update
    ServerCounters.new UpstreamStats.status_class HashMap.or_insert HashMap.modify eqb
server_call name status bytes_in bytes_out request_time g =
    update_server_zone_stats list_map g name status bytes_in bytes_out request_time

-- Calls, the first one first, on a fresh worker.
abbrev pub after : List (Globals list_map → Globals list_map) → Globals list_map
after = fold (λ g call. call g) local

connected : Globals list_map → Globals list_map
unfolding update_connection_stats Manager.update_connection_stats
connected g = update_connection_stats list_map g 1 0 1 0 16 16

abbrev pool : Bytes
pool = codes "test1-backend_pool"

abbrev test_integrated_vts_status_functionality : Bool
test_integrated_vts_status_functionality =
    let g : Globals list_map = after (
      connected
      ∷ server_call (codes "test1-example.com") 200 1024 2048 150
      ∷ server_call (codes "test1-example.com") 404 512 256 80
      ∷ server_call (codes "test1-api.example.com") 200 2048 4096 200
      ∷ upstream_call pool (codes "192.168.1.10:80") 100 50 1500 800 200
      ∷ upstream_call pool (codes "192.168.1.11:80") 150 75 2000 1000 200
      ∷ upstream_call pool (codes "192.168.1.10:80") 120 60 1200 600 404
      ∷ upstream_call (codes "test1-api_pool") (codes "192.168.2.10:8080") 80 40 800 400 200
      ∷ upstream_call (codes "test1-api_pool") (codes "192.168.2.11:8080") 300 200 3000 1500 500
      ∷ []) in
    contains_all (content_of g) (
      codes "# nginx-vts-rust"
      ∷ codes "# VTS Status: Active"
      ∷ codes "# Prometheus Metrics:"
      ∷ codes "nginx_vts_upstream_requests_total"
      ∷ codes "nginx_vts_upstream_responses_total"
      ∷ codes "test1-backend_pool"
      ∷ codes "192.168.1.10:80"
      ∷ codes "192.168.1.11:80"
      ∷ codes "test1-api_pool"
      ∷ [])

abbrev test_issue6_complete_metrics_output : Bool
test_issue6_complete_metrics_output =
    let g : Globals list_map = after (
      connected
      ∷ server_call (codes "test2-example.com") 200 50000 2000000 125
      ∷ server_call (codes "test2-example.com") 404 5000 100000 50
      ∷ upstream_call (codes "test2-backend") (codes "10.0.0.1:8080") 50 25 750000 250000 200
      ∷ upstream_call (codes "test2-backend") (codes "10.0.0.2:8080") 60 30 680000 230000 200
      ∷ upstream_call (codes "test2-api_backend") (codes "192.168.1.10:9090") 80 40 400000 200000
          200
      ∷ []) in
    contains_all (content_of g) (
      codes "# HELP nginx_vts_info Nginx VTS module information"
      ∷ codes "# TYPE nginx_vts_info gauge"
      ∷ codes "nginx_vts_info{hostname="
      ∷ codes "# HELP nginx_vts_connections Current nginx connections"
      ∷ codes "nginx_vts_connections{state=\"active\"} 1"
      ∷ codes "nginx_vts_connections{state=\"writing\"} 1"
      ∷ codes "nginx_vts_connections_total{state=\"accepted\"} 16"
      ∷ codes "nginx_vts_connections_total{state=\"handled\"} 16"
      ∷ codes "# HELP nginx_vts_server_requests_total Total number of requests"
      ∷ codes "nginx_vts_server_requests_total{zone=\"test2-example.com\"}"
      ∷ codes "# HELP nginx_vts_server_bytes_total Total bytes transferred"
      ∷ codes "nginx_vts_server_bytes_total{zone=\"test2-example.com\",direction=\"in\"}"
      ∷ codes "nginx_vts_server_bytes_total{zone=\"test2-example.com\",direction=\"out\"}"
      ∷ codes
          "nginx_vts_upstream_requests_total{upstream=\"test2-backend\",server=\"10.0.0.1:8080\"}"
      ∷ codes
          "nginx_vts_upstream_requests_total{upstream=\"test2-api_backend\",server=\"192.168.1.10:9090\"}"
      ∷ [])

abbrev test_vts_stats_persistence : Bool
test_vts_stats_persistence =
    let name : Bytes = codes "test3-persistence_backend" in
    let g : Globals list_map = after (
      upstream_call name (codes "10.0.0.1:80") 100 50 1000 500 200
      ∷ upstream_call name (codes "10.0.0.1:80") 120 60 1200 600 200
      ∷ upstream_call name (codes "10.0.0.2:80") 80 40 800 400 200
      ∷ []) in
    contains_all (content_of g) (name ∷ codes "nginx_vts_upstream_requests_total" ∷ [])
    && unwrap_or_fail (Manager.get_upstream_zone g.vts_manager name) (λ zone.
      unwrap_or_fail (HashMap.get zone.servers (codes "10.0.0.1:80")) (λ _. true)
      && unwrap_or_fail (HashMap.get zone.servers (codes "10.0.0.2:80")) (λ _. true)
      && UpstreamStats.sum64 (map (λ s. s.request_counter) (HashMap.values zone.servers)) == 3)

abbrev test_empty_vts_stats : Bool
test_empty_vts_stats = contains_all (content_of local) (
    codes "# nginx-vts-rust"
    ∷ codes "# VTS Status: Active"
    ∷ codes "# Prometheus Metrics:"
    ∷ codes "# HELP nginx_vts_server_requests_total Total number of requests"
    ∷ codes "# TYPE nginx_vts_server_requests_total counter"
    ∷ codes "# HELP nginx_vts_server_bytes_total Total bytes transferred"
    ∷ codes "# TYPE nginx_vts_server_bytes_total counter"
    ∷ [])

abbrev test_get_hostname : Bool
test_get_hostname = eqb (get_hostname test_outside.hostname) (codes "test-hostname")

abbrev test_generate_vts_status_content : Bool
test_generate_vts_status_content = contains_all (content_of local) (
    codes "nginx-vts-rust"
    ∷ (codes "Version: " ++ cargo_pkg_version)
    ∷ codes "# VTS Status: Active"
    ∷ codes "test-hostname"
    ∷ codes "# Prometheus Metrics:"
    ∷ [])

abbrev test_get_current_time : Bool
test_get_current_time = eqb (get_current_time test_outside.ngx_time) (codes "1234567890")

abbrev test_build_returns_none_in_tests : Bool
test_build_returns_none_in_tests = is_none (read test_outside.process none).0

abbrev calculate_time_diff_ms_handles_same_second : Bool
calculate_time_diff_ms_handles_same_second = calculate_time_diff_ms 100 200 100 250 == 50

abbrev calculate_time_diff_ms_handles_msec_wraparound : Bool
calculate_time_diff_ms_handles_msec_wraparound = calculate_time_diff_ms 100 900 101 100 == 200

abbrev calculate_time_diff_ms_clamps_zero_on_clock_skew : Bool
calculate_time_diff_ms_clamps_zero_on_clock_skew = calculate_time_diff_ms 100 500 100 100 == 0

pages_pass :
    all_of
      (λ b. b)
      (test_integrated_vts_status_functionality ∷ test_issue6_complete_metrics_output
        ∷ test_vts_stats_persistence ∷ test_empty_vts_stats ∷ test_get_hostname
        ∷ test_generate_vts_status_content ∷ test_get_current_time
        ∷ test_build_returns_none_in_tests ∷ calculate_time_diff_ms_handles_same_second
        ∷ calculate_time_diff_ms_handles_msec_wraparound
        ∷ calculate_time_diff_ms_clamps_zero_on_clock_skew ∷ [])
    ≡ true
unfolding read calculate_time_diff_ms content_of contains_all connected server_call upstream_call
    Manager.get_upstream_zone UpstreamStats.sum64 HashMap.get eqb get_hostname get_current_time
    decimal is_utf8
pages_pass = refl
