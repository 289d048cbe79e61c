-- ===== src/Tests/Source/Formats.antt =====
-- The tests of the metric families (src/prometheus).
use ngx_vts.Prelude.{
  ℕ, ◌+◌, ◌*◌, ◌/◌, ◌^◌, Bytes, codes, decimal, eqb, Bool, true, not, [], ◌∷◌, ◌++◌, ◌&&◌, ◌≡◌,
  refl, all_of,
}
use ngx_vts.Float.{F64}
use ngx_vts.HashMap.{HashMap}
use ngx_vts.Stats.{VtsServerStats, VtsConnectionStats}
use ngx_vts.CacheStats
use ngx_vts.CacheStats.{CacheZoneStats}
use ngx_vts.Prometheus.Lines
use ngx_vts.Prometheus.Connections.{format_connection_stats}
use ngx_vts.Prometheus.Server
use ngx_vts.Prometheus.Cache
use ngx_vts.Instances.{quotients, digits}
use ngx_vts.Tests.Source.{starts_with, contains}

-- Quotients that are rounded to the nearest when they are printed.
abbrev pub rounded : F64
rounded = record quotients {
  to_fixed = λ x p.
      let n : ℕ = (2 * x.0 * 10 ^ p + x.1) / (2 * x.1) in
      decimal (n / 10 ^ p) ++ (codes "." ++ digits p n);
}

abbrev format_connection_stats_emits_all_six_states : Bool
format_connection_stats_emits_all_six_states =
    let stats : VtsConnectionStats = record {
      active = 7;
      reading = 1;
      writing = 2;
      waiting = 4;
      accepted = 1000;
      handled = 999;
    } in
    let out : Bytes = format_connection_stats Lines.new stats in
    contains out (codes "nginx_vts_connections{state=\"active\"} 7")
    && contains out (codes "nginx_vts_connections{state=\"reading\"} 1")
    && contains out (codes "nginx_vts_connections{state=\"writing\"} 2")
    && contains out (codes "nginx_vts_connections{state=\"waiting\"} 4")
    && contains out (codes "nginx_vts_connections_total{state=\"accepted\"} 1000")
    && contains out (codes "nginx_vts_connections_total{state=\"handled\"} 999")

abbrev example_zones : HashMap (VtsServerStats rounded)
example_zones =
    (
      codes "example.test",
      record {
        requests = 42;
        bytes_in = 1024;
        bytes_out = 2048;
        responses = record {
          status_1xx = 0;
          status_2xx = 40;
          status_3xx = 0;
          status_4xx = 1;
          status_5xx = 1;
        };
        request_times = record {
          total = (42, 10);
          min = (5, 1000);
          max = (250, 1000);
          avg = (100, 1000);
        };
      },
    )
    ∷ []

abbrev format_server_stats_emits_all_families : Bool
format_server_stats_emits_all_families =
    let out : Bytes = Server.format_server_stats rounded Lines.new example_zones in
    contains out (codes "nginx_vts_server_requests_total{zone=\"example.test\"} 42")
    && contains out
        (codes "nginx_vts_server_bytes_total{zone=\"example.test\",direction=\"in\"} 1024")
    && contains out
        (codes "nginx_vts_server_bytes_total{zone=\"example.test\",direction=\"out\"} 2048")
    && contains out
        (codes "nginx_vts_server_responses_total{zone=\"example.test\",status=\"2xx\"} 40")
    && contains out
        (codes "nginx_vts_server_responses_total{zone=\"example.test\",status=\"4xx\"} 1")
    && contains out
        (codes "nginx_vts_server_request_seconds{zone=\"example.test\",type=\"avg\"} 0.100000")
    && contains out
        (codes "nginx_vts_server_request_seconds{zone=\"example.test\",type=\"min\"} 0.005000")

abbrev empty_cache_zones_emit_only_headers : Bool
empty_cache_zones_emit_only_headers =
    let out : Bytes = Cache.format_cache_stats rounded Lines.new [] in
    contains out (codes "# HELP nginx_vts_cache_requests_total")
    && contains out (codes "# TYPE nginx_vts_cache_requests_total counter")
    && contains out (codes "# HELP nginx_vts_cache_size_bytes")
    && contains out (codes "# TYPE nginx_vts_cache_size_bytes gauge")
    && not (contains out (codes "nginx_vts_cache_requests_total{"))

abbrev populated_zone : CacheZoneStats
populated_zone =
    let new : CacheZoneStats = CacheStats.new_zone (codes "test_cache") in
    record new {
      cache = record new.cache { hit = 7; miss = 3 };
      size = record { max_size = 1048576; used_size = 524288 };
    }

abbrev populated_cache_zone_renders_all_three_families : Bool
populated_cache_zone_renders_all_three_families =
    let out : Bytes =
      Cache.format_cache_stats rounded Lines.new ((codes "test_cache", populated_zone) ∷ []) in
    contains out (codes "nginx_vts_cache_requests_total{zone=\"test_cache\",status=\"hit\"} 7")
    && contains out (codes "nginx_vts_cache_requests_total{zone=\"test_cache\",status=\"miss\"} 3")
    && contains out (codes "nginx_vts_cache_size_bytes{zone=\"test_cache\",type=\"max\"} 1048576")
    && contains out (codes "nginx_vts_cache_size_bytes{zone=\"test_cache\",type=\"used\"} 524288")
    && contains out (codes "nginx_vts_cache_hit_ratio{zone=\"test_cache\"} 70.00")

abbrev formatter_creation_uses_default_prefix : Bool
formatter_creation_uses_default_prefix = eqb Lines.new.metric_prefix (codes "nginx_vts_")

abbrev formatter_with_prefix_overrides_default : Bool
formatter_with_prefix_overrides_default =
    let f = Lines.with_prefix (codes "custom_") in eqb f.metric_prefix (codes "custom_")

abbrev format_nginx_info_includes_hostname_and_version : Bool
format_nginx_info_includes_hostname_and_version =
    let out : Bytes = Lines.format_nginx_info Lines.new (codes "h.example.test") (codes "1.2.3") in
    contains out (codes "# HELP nginx_vts_info Nginx VTS module information")
    && contains out (codes "# TYPE nginx_vts_info gauge")
    && contains out (codes "nginx_vts_info{hostname=\"h.example.test\",version=\"1.2.3\"} 1")

formats_pass :
    all_of
      (λ b. b)
      (format_connection_stats_emits_all_six_states ∷ format_server_stats_emits_all_families
        ∷ empty_cache_zones_emit_only_headers ∷ populated_cache_zone_renders_all_three_families
        ∷ formatter_creation_uses_default_prefix ∷ formatter_with_prefix_overrides_default
        ∷ format_nginx_info_includes_hostname_and_version ∷ [])
    ≡ true
unfolding contains starts_with decimal eqb Lines.new Lines.with_prefix Lines.header Lines.sample
    Lines.each Lines.format_nginx_info format_connection_stats Server.requests_lines
    Server.bytes_lines Server.responses_lines Server.seconds_lines Server.format_server_stats
    Cache.requests_lines Cache.size_lines Cache.ratio_lines Cache.format_cache_stats
    CacheStats.new_zone CacheStats.total_requests CacheStats.hit_ratio
formats_pass = refl
