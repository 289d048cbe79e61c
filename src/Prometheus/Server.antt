-- ===== src/Prometheus/Server.antt =====
-- src/prometheus/server.rs: the metrics of the server zones.
use ngx_vts.Prelude.{ℕ, Bytes, codes, decimal, [], ◌∷◌, ◌++◌}
use ngx_vts.Float.{F64}
use ngx_vts.HashMap.{HashMap}
use ngx_vts.Stats.{VtsServerStats}
use ngx_vts.Prometheus.Lines.{PrometheusFormatter, newline, header, sample, each}

module _ (F : F64) where
  -- The samples of one zone in each family.
  unfoldable pub requests_lines : Bytes → Bytes × VtsServerStats F → Bytes
  requests_lines metric (zone, stats) =
      sample metric (codes "zone", zone) [] (decimal stats.requests)

  unfoldable pub bytes_lines : Bytes → Bytes × VtsServerStats F → Bytes
  bytes_lines metric (zone, stats) =
      sample metric (codes "zone", zone) ((codes "direction", codes "in") ∷ [])
        (decimal stats.bytes_in)
      ++ sample metric (codes "zone", zone) ((codes "direction", codes "out") ∷ [])
          (decimal stats.bytes_out)

  unfoldable pub responses_lines : Bytes → Bytes × VtsServerStats F → Bytes
  responses_lines metric (zone, stats) =
      each
        (λ (e : Bytes × ℕ).
          sample metric (codes "zone", zone) ((codes "status", e.0) ∷ []) (decimal e.1))
        ((codes "1xx", stats.responses.status_1xx)
          ∷ (codes "2xx", stats.responses.status_2xx)
          ∷ (codes "3xx", stats.responses.status_3xx)
          ∷ (codes "4xx", stats.responses.status_4xx)
          ∷ (codes "5xx", stats.responses.status_5xx)
          ∷ [])

  unfoldable pub seconds_lines : Bytes → Bytes × VtsServerStats F → Bytes
  seconds_lines metric (zone, stats) =
      each
        (λ (e : Bytes × F.Carrier).
          sample metric (codes "zone", zone) ((codes "type", e.0) ∷ []) (F.to_fixed e.1 6))
        ((codes "avg", stats.request_times.avg)
          ∷ (codes "min", stats.request_times.min)
          ∷ (codes "max", stats.request_times.max)
          ∷ [])

  unfoldable pub format_server_stats : PrometheusFormatter → HashMap (VtsServerStats F) → Bytes
  format_server_stats f server_stats =
      let requests : Bytes = f.metric_prefix ++ codes "server_requests_total" in
      let bytes : Bytes = f.metric_prefix ++ codes "server_bytes_total" in
      let responses : Bytes = f.metric_prefix ++ codes "server_responses_total" in
      let seconds : Bytes = f.metric_prefix ++ codes "server_request_seconds" in
      header requests (codes "Total number of requests") (codes "counter")
      ++ (each (requests_lines requests) server_stats
          ++ (newline
              ++ (header bytes (codes "Total bytes transferred") (codes "counter")
                  ++ (each (bytes_lines bytes) server_stats
                      ++ (newline
                          ++ (header responses (codes "Total responses by status code")
                                (codes "counter")
                              ++ (each (responses_lines responses) server_stats
                                  ++ (newline
                                      ++ (header seconds (codes "Request processing time")
                                            (codes "gauge")
                                          ++ (each (seconds_lines seconds) server_stats
                                              ++ newline))))))))))
