-- ===== src/Prometheus/Upstream.antt =====
-- src/prometheus/upstream.rs: the metrics of the upstream servers and the response-time histogram.
use ngx_vts.Prelude.{
  ℕ, Bytes, codes, decimal, Bool, true, false, ◌&&◌, ◌==◌, List, [], ◌∷◌, ◌++◌, if◌then◌else◌,
}
use ngx_vts.Float.{F64}
use ngx_vts.HashMap.{HashMap}
use ngx_vts.UpstreamStats.{
  UpstreamZone, UpstreamServerStats, avg_request_time, avg_response_time,
  response_time_bucket_bounds_ms,
}
use ngx_vts.Prometheus.Lines.{PrometheusFormatter, Labels, newline, header, sample, each}

abbrev is_empty {ℓ} : {A : Type ℓ} → List A → Bool
is_empty [] = true
is_empty (x ∷ xs) = false

-- `trim_end_matches(c)`
unfoldable pub trim_end_matches : ℕ → Bytes → Bytes
trim_end_matches c [] = []
trim_end_matches c (x ∷ xs) =
    let rest : Bytes = trim_end_matches c xs in if is_empty rest && x == c then [] else x ∷ rest

-- A sample with the two labels of every upstream metric in front.
unfoldable pub upstream_sample : Bytes → Bytes → Bytes → Labels → Bytes → Bytes
upstream_sample metric upstream_name server_addr labels value =
    sample metric (codes "upstream", upstream_name) ((codes "server", server_addr) ∷ labels) value

-- The two nested loops over the groups and their servers.
unfoldable pub each_server :
    (Bytes → Bytes × UpstreamServerStats → Bytes) → HashMap UpstreamZone → Bytes
unfolding each
each_server line = each (λ (group : Bytes × UpstreamZone). each (line group.0) group.1.servers)

unfoldable pub requests_lines : Bytes → Bytes → Bytes × UpstreamServerStats → Bytes
requests_lines metric upstream (server, stats) =
    upstream_sample metric upstream server [] (decimal stats.request_counter)

unfoldable pub bytes_lines : Bytes → Bytes → Bytes × UpstreamServerStats → Bytes
bytes_lines metric upstream (server, stats) =
    upstream_sample metric upstream server ((codes "direction", codes "in") ∷ [])
      (decimal stats.in_bytes)
    ++ upstream_sample metric upstream server ((codes "direction", codes "out") ∷ [])
        (decimal stats.out_bytes)

unfoldable pub server_up_lines : Bytes → Bytes → Bytes × UpstreamServerStats → Bytes
server_up_lines metric upstream (server, stats) =
    upstream_sample metric upstream server [] (decimal (if stats.down then 0 else 1))

unfoldable pub responses_lines : Bytes → Bytes → Bytes × UpstreamServerStats → Bytes
responses_lines metric upstream (server, stats) =
    each
      (λ (e : Bytes × ℕ).
        upstream_sample metric upstream server ((codes "status", e.0) ∷ []) (decimal e.1))
      ((codes "1xx", stats.responses.status_1xx)
        ∷ (codes "2xx", stats.responses.status_2xx)
        ∷ (codes "3xx", stats.responses.status_3xx)
        ∷ (codes "4xx", stats.responses.status_4xx)
        ∷ (codes "5xx", stats.responses.status_5xx)
        ∷ [])

unfoldable pub format_upstream_status_metrics : PrometheusFormatter → HashMap UpstreamZone → Bytes
format_upstream_status_metrics f upstream_zones =
    let metric : Bytes = f.metric_prefix ++ codes "upstream_responses_total" in
    header metric (codes "Upstream responses by status code") (codes "counter")
    ++ (each_server (responses_lines metric) upstream_zones ++ newline)

-- The trimming of trailing zeros and points.
unfoldable pub trim_bound : Bytes → Bytes
unfolding trim_end_matches
trim_bound text =
    let trimmed : Bytes = trim_end_matches b'.' (trim_end_matches b'0' text) in
    if is_empty trimmed then codes "0" else trimmed

module _ (F : F64) where
  unfoldable pub format_le_bound : F.Carrier → Bytes
  unfolding trim_bound
  format_le_bound seconds = trim_bound (F.to_fixed seconds 3)

  abbrev pub thousandth : F.Carrier → F.Carrier
  thousandth x = F.div x (F.of_u64 1000)

  unfoldable pub seconds_lines : Bytes → Bytes → Bytes × UpstreamServerStats → Bytes
  unfolding avg_request_time avg_response_time
  seconds_lines metric upstream (server, stats) =
      each
        (λ (e : Bytes × F.Carrier).
          upstream_sample metric upstream server ((codes "type", e.0) ∷ []) (F.to_fixed e.1 6))
        ((codes "request_avg", thousandth (avg_request_time F stats))
          ∷ (codes "upstream_avg", thousandth (avg_response_time F stats))
          ∷ (codes "request_total", thousandth (F.of_u64 stats.request_time_total))
          ∷ (codes "upstream_total", thousandth (F.of_u64 stats.response_time_total))
          ∷ [])

  -- The buckets of the bounds. The arrays of bounds and of counts have one length.
  unfoldable pub bucket_lines : Bytes → Bytes → Bytes → List ℕ → List ℕ → Bytes
  unfolding format_le_bound
  bucket_lines metric upstream server [] buckets = []
  bucket_lines metric upstream server (bound_ms ∷ bounds) [] = []
  bucket_lines metric upstream server (bound_ms ∷ bounds) (n ∷ buckets) =
      upstream_sample metric upstream server
        ((codes "le", format_le_bound (thousandth (F.of_u64 bound_ms))) ∷ []) (decimal n)
      ++ bucket_lines metric upstream server bounds buckets

  unfoldable pub histogram_lines : Bytes → Bytes → Bytes × UpstreamServerStats → Bytes
  histogram_lines metric upstream (server, stats) =
      bucket_lines (metric ++ codes "_bucket") upstream server response_time_bucket_bounds_ms
        stats.response_buckets
      ++ (upstream_sample (metric ++ codes "_bucket") upstream server
            ((codes "le", codes "+Inf") ∷ []) (decimal stats.response_time_counter)
          ++ (upstream_sample (metric ++ codes "_sum") upstream server []
                (F.to_fixed (thousandth (F.of_u64 stats.response_time_total)) 6)
              ++ upstream_sample (metric ++ codes "_count") upstream server []
                  (decimal stats.response_time_counter)))

  unfoldable pub format_upstream_response_histogram :
      PrometheusFormatter → HashMap UpstreamZone → Bytes
  format_upstream_response_histogram f upstream_zones =
      let metric : Bytes = f.metric_prefix ++ codes "upstream_response_duration_seconds" in
      header metric (codes "Upstream response time distribution") (codes "histogram")
      ++ (each_server (histogram_lines metric) upstream_zones ++ newline)

  unfoldable pub format_upstream_stats : PrometheusFormatter → HashMap UpstreamZone → Bytes
  format_upstream_stats f [] = []
  format_upstream_stats f (group ∷ groups) =
      let upstream_zones : HashMap UpstreamZone = group ∷ groups in
      let requests : Bytes = f.metric_prefix ++ codes "upstream_requests_total" in
      let bytes : Bytes = f.metric_prefix ++ codes "upstream_bytes_total" in
      let seconds : Bytes = f.metric_prefix ++ codes "upstream_response_seconds" in
      let up : Bytes = f.metric_prefix ++ codes "upstream_server_up" in
      header requests (codes "Total upstream requests") (codes "counter")
      ++ (each_server (requests_lines requests) upstream_zones
          ++ (newline
              ++ (header bytes (codes "Total bytes transferred to/from upstream") (codes "counter")
                  ++ (each_server (bytes_lines bytes) upstream_zones
                      ++ (newline
                          ++ (header seconds (codes "Upstream response time statistics")
                                (codes "gauge")
                              ++ (each_server (seconds_lines seconds) upstream_zones
                                  ++ (newline
                                      ++ (header up (codes "Upstream server status (1=up, 0=down)")
                                            (codes "gauge")
                                          ++ (each_server (server_up_lines up) upstream_zones
                                              ++ (newline
                                                  ++ (format_upstream_status_metrics f
                                                        upstream_zones
                                                      ++ format_upstream_response_histogram f
                                                          upstream_zones))))))))))))
