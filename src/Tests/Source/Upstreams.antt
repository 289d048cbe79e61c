-- ===== src/Tests/Source/Upstreams.antt =====
-- The tests of the upstream metrics (src/prometheus/upstream.rs).
use ngx_vts.Prelude.{
  Bytes, codes, decimal, eqb, Bool, true, false, not, [], ◌∷◌, ◌++◌, ◌&&◌, ◌≡◌, refl, all_of,
  length, ◌==◌,
}
use ngx_vts.HashMap
use ngx_vts.HashMap.{HashMap}
use ngx_vts.UpstreamStats
use ngx_vts.UpstreamStats.{UpstreamServerStats, UpstreamZone, avg_request_time, avg_response_time}
use ngx_vts.Prometheus.Lines
use ngx_vts.Prometheus.Upstream
use ngx_vts.Prometheus.Upstream.{format_upstream_stats, format_le_bound}
use ngx_vts.Tests.Source.{starts_with, contains}
use ngx_vts.Tests.Source.Formats.{rounded}

abbrev create_test_upstream_zone : UpstreamZone
create_test_upstream_zone =
    let new1 : UpstreamServerStats = UpstreamStats.new_server (codes "10.0.0.1:80") in
    let new2 : UpstreamServerStats = UpstreamStats.new_server (codes "10.0.0.2:80") in
    let server1 : UpstreamServerStats = record new1 {
      request_counter = 100;
      in_bytes = 50000;
      out_bytes = 25000;
      request_time_total = 5000;
      request_time_counter = 100;
      response_time_total = 2500;
      response_time_counter = 100;
      response_buckets = 10 ∷ 20 ∷ 35 ∷ 60 ∷ 80 ∷ 95 ∷ 98 ∷ 99 ∷ 100 ∷ 100 ∷ 100 ∷ [];
      responses = record new1.responses { status_2xx = 95; status_4xx = 3; status_5xx = 2 };
      down = false;
    } in
    let server2 : UpstreamServerStats = record new2 {
      request_counter = 50;
      in_bytes = 25000;
      out_bytes = 12500;
      down = true;
    } in
    let zone : UpstreamZone = UpstreamStats.new_zone (codes "test_backend") in
    record zone {
      servers =
          HashMap.insert (HashMap.insert zone.servers (codes "10.0.0.1:80") server1)
            (codes "10.0.0.2:80") server2;
    }

abbrev format_le_bound_trims_trailing_zeros : Bool
format_le_bound_trims_trailing_zeros =
    eqb (format_le_bound rounded (5, 1000)) (codes "0.005")
    && eqb (format_le_bound rounded (1, 100)) (codes "0.01")
    && eqb (format_le_bound rounded (1, 10)) (codes "0.1")
    && eqb (format_le_bound rounded (1, 1)) (codes "1")
    && eqb (format_le_bound rounded (25, 10)) (codes "2.5")
    && eqb (format_le_bound rounded (10, 1)) (codes "10")

abbrev empty_upstream_zones_render_to_empty_string : Bool
empty_upstream_zones_render_to_empty_string =
    length (format_upstream_stats rounded Lines.new []) == 0

-- A metric of a server of the group, up to its value.
abbrev metric_of : Bytes → Bytes → Bytes → Bytes
metric_of metric server more =
    metric ++ (codes "{upstream=\"test_backend\",server=\"" ++ (server ++ (codes "\"" ++ more)))

abbrev upstream_stats_render_all_families : Bool
upstream_stats_render_all_families =
    let out : Bytes =
      format_upstream_stats rounded Lines.new
        ((codes "test_backend", create_test_upstream_zone) ∷ []) in
    let has : Bytes → Bytes → Bytes → Bool = λ metric server more.
      contains out (metric_of (codes "nginx_vts_upstream_" ++ metric) server more) in
    let one : Bytes = codes "10.0.0.1:80" in
    let two : Bytes = codes "10.0.0.2:80" in
    let histogram : Bytes = codes "nginx_vts_upstream_response_duration_seconds" in
    contains out (codes "# HELP nginx_vts_upstream_requests_total")
    && has (codes "requests_total") one (codes "} 100")
    && has (codes "requests_total") two (codes "} 50")
    && has (codes "bytes_total") one (codes ",direction=\"in\"} 50000")
    && has (codes "bytes_total") one (codes ",direction=\"out\"} 25000")
    && has (codes "server_up") one (codes "} 1")
    && has (codes "server_up") two (codes "} 0")
    && has (codes "response_seconds") one (codes ",type=\"request_avg\"} 0.050000")
    && has (codes "response_seconds") one (codes ",type=\"upstream_avg\"} 0.025000")
    && contains out (
        codes
          "# HELP nginx_vts_upstream_response_duration_seconds Upstream response time distribution")
    && contains out (codes "# TYPE nginx_vts_upstream_response_duration_seconds histogram")
    && has (codes "response_duration_seconds_bucket") one (codes ",le=\"0.005\"} 10")
    && has (codes "response_duration_seconds_bucket") one (codes ",le=\"0.1\"} 80")
    && has (codes "response_duration_seconds_bucket") one (codes ",le=\"1\"} 99")
    && has (codes "response_duration_seconds_bucket") one (codes ",le=\"+Inf\"} 100")
    && has (codes "response_duration_seconds_sum") one (codes "} 2.500000")
    && has (codes "response_duration_seconds_count") one (codes "} 100")

abbrev custom_prefix_replaces_default_throughout : Bool
custom_prefix_replaces_default_throughout =
    let out : Bytes =
      format_upstream_stats rounded (Lines.with_prefix (codes "custom_vts_"))
        ((codes "test_backend", create_test_upstream_zone) ∷ []) in
    contains out (codes "# HELP custom_vts_upstream_requests_total")
    && contains out (codes "custom_vts_upstream_requests_total{upstream=\"test_backend\"")
    && not (contains out (codes "nginx_vts_"))

upstreams_pass :
    all_of
      (λ b. b)
      (format_le_bound_trims_trailing_zeros ∷ empty_upstream_zones_render_to_empty_string
        ∷ upstream_stats_render_all_families ∷ custom_prefix_replaces_default_throughout ∷ [])
    ≡ true
unfolding contains starts_with decimal eqb Lines.new Lines.with_prefix Lines.header Lines.sample
    Lines.each UpstreamStats.new_server UpstreamStats.new_zone HashMap.insert avg_request_time
    avg_response_time Upstream.trim_end_matches Upstream.trim_bound format_le_bound
    Upstream.upstream_sample Upstream.each_server Upstream.requests_lines Upstream.bytes_lines
    Upstream.server_up_lines Upstream.responses_lines Upstream.format_upstream_status_metrics
    Upstream.seconds_lines Upstream.bucket_lines Upstream.histogram_lines
    Upstream.format_upstream_response_histogram format_upstream_stats
upstreams_pass = refl
