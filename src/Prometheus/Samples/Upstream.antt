-- ===== src/Prometheus/Samples/Upstream.antt =====
-- The samples of the upstream servers (src/prometheus/upstream.rs).
use ngx_vts.Prelude.{ℕ, Bytes, codes, decimal, List, [], ◌∷◌, ◌++◌, if◌then◌else◌}
use ngx_vts.Float.{F64}
use ngx_vts.HashMap.{HashMap}
use ngx_vts.UpstreamStats.{UpstreamZone, UpstreamServerStats, avg_request_time, avg_response_time}
use ngx_vts.Prometheus.Lines.{Labels}
use ngx_vts.Prometheus.Upstream.{thousandth}
use ngx_vts.Prometheus.Reader.{Sample, counted, samples_of}
pub mod Rows
pub mod Buckets
pub mod Laws

-- The labels of a server's sample, with more behind them.
abbrev pub server_labels : Bytes → Bytes → Labels → Labels
server_labels upstream server more = (codes "upstream", upstream) ∷ (codes "server", server) ∷ more

unfoldable pub request_samples : Bytes → Bytes → Bytes × UpstreamServerStats → List Sample
request_samples metric upstream (server, s) =
    counted metric (server_labels upstream server []) s.request_counter ∷ []

unfoldable pub byte_samples : Bytes → Bytes → Bytes × UpstreamServerStats → List Sample
byte_samples metric upstream (server, s) =
    counted metric (server_labels upstream server ((codes "direction", codes "in") ∷ [])) s.in_bytes
    ∷ counted metric (server_labels upstream server ((codes "direction", codes "out") ∷ []))
        s.out_bytes
    ∷ []

unfoldable pub up_samples : Bytes → Bytes → Bytes × UpstreamServerStats → List Sample
up_samples metric upstream (server, s) =
    counted metric (server_labels upstream server []) (if s.down then 0 else 1) ∷ []

unfoldable pub response_samples : Bytes → Bytes → Bytes × UpstreamServerStats → List Sample
response_samples metric upstream (server, s) =
    let of : Bytes → ℕ → Sample =
      λ status. counted metric (server_labels upstream server ((codes "status", status) ∷ [])) in
    of (codes "1xx") s.responses.status_1xx
    ∷ of (codes "2xx") s.responses.status_2xx
    ∷ of (codes "3xx") s.responses.status_3xx
    ∷ of (codes "4xx") s.responses.status_4xx
    ∷ of (codes "5xx") s.responses.status_5xx
    ∷ []

-- The upper bounds of the buckets in seconds.
abbrev pub le_labels : List Bytes
le_labels =
    codes "0.005"
    ∷ codes "0.01"
    ∷ codes "0.025"
    ∷ codes "0.05"
    ∷ codes "0.1"
    ∷ codes "0.25"
    ∷ codes "0.5"
    ∷ codes "1"
    ∷ codes "2.5"
    ∷ codes "5"
    ∷ codes "10"
    ∷ []

unfoldable pub bucket_samples : Bytes → Bytes → Bytes → List Bytes → List ℕ → List Sample
bucket_samples metric upstream server [] buckets = []
bucket_samples metric upstream server (le ∷ les) [] = []
bucket_samples metric upstream server (le ∷ les) (n ∷ buckets) =
    counted metric (server_labels upstream server ((codes "le", le) ∷ [])) n
    ∷ bucket_samples metric upstream server les buckets

-- One row for each server of each group.
unfoldable pub server_rows :
    (Bytes → Bytes × UpstreamServerStats → List Sample) → HashMap UpstreamZone → List Sample
server_rows row = samples_of (λ (g : Bytes × UpstreamZone). samples_of (row g.0) g.1.servers)

module _ (F : F64) where
  abbrev pub fixed : Bytes → Labels → F.Carrier → Sample
  fixed metric labels x = record { metric = metric; labels = labels; value = F.to_fixed x 6 }

  unfoldable pub second_samples : Bytes → Bytes → Bytes × UpstreamServerStats → List Sample
  second_samples metric upstream (server, s) =
      let of : Bytes → F.Carrier → Sample = λ type x.
        fixed metric (server_labels upstream server ((codes "type", type) ∷ [])) (thousandth F x) in
      of (codes "request_avg") (avg_request_time F s)
      ∷ of (codes "upstream_avg") (avg_response_time F s)
      ∷ of (codes "request_total") (F.of_u64 s.request_time_total)
      ∷ of (codes "upstream_total") (F.of_u64 s.response_time_total)
      ∷ []

  unfoldable pub histogram_samples : Bytes → Bytes → Bytes × UpstreamServerStats → List Sample
  unfolding bucket_samples
  histogram_samples metric upstream (server, s) =
      bucket_samples (metric ++ codes "_bucket") upstream server le_labels s.response_buckets
      ++ (counted (metric ++ codes "_bucket")
            (server_labels upstream server ((codes "le", codes "+Inf") ∷ []))
            s.response_time_counter
          ∷ fixed (metric ++ codes "_sum") (server_labels upstream server [])
              (thousandth F (F.of_u64 s.response_time_total))
          ∷ counted (metric ++ codes "_count") (server_labels upstream server [])
              s.response_time_counter
          ∷ [])

  unfoldable pub upstream_samples : Bytes → HashMap UpstreamZone → List Sample
  unfolding server_rows request_samples byte_samples up_samples response_samples second_samples
      histogram_samples
  upstream_samples prefix zones =
      server_rows (request_samples (prefix ++ codes "upstream_requests_total")) zones
      ++ (server_rows (byte_samples (prefix ++ codes "upstream_bytes_total")) zones
          ++ (server_rows (second_samples (prefix ++ codes "upstream_response_seconds")) zones
              ++ (server_rows (up_samples (prefix ++ codes "upstream_server_up")) zones
                  ++ (server_rows (response_samples (prefix ++ codes "upstream_responses_total"))
                        zones
                      ++ server_rows
                          (histogram_samples (prefix ++ codes "upstream_response_duration_seconds"))
                          zones))))
