-- ===== src/Prometheus/Samples/Upstream/Rows.antt =====
-- The rows of the upstream metrics (src/prometheus/upstream.rs) are read as their samples.
use ngx_vts.Prelude.{ℕ, ◌≡◌, refl, Bytes, codes, true, [], ◌∷◌, all_of, arith}
use ngx_vts.Float.{F64}
use ngx_vts.UpstreamStats.{UpstreamServerStats}
use ngx_vts.Prometheus.Lines.{Labels}
use ngx_vts.Prometheus.Upstream.{
  upstream_sample, requests_lines, bytes_lines, server_up_lines, responses_lines, seconds_lines,
}
use ngx_vts.Prometheus.Reader.{counted}
use ngx_vts.Prometheus.Reader.Laws.{
  is_plain, is_clean, is_value, is_float, is_value_of_float, is_word,
}
use ngx_vts.Prometheus.Reader.Pages.{
  Reads, Reads-append, Reads-rows, Reads-sample, is_value-decimal,
}
use ngx_vts.Prometheus.Samples.Upstream.{
  server_labels, request_samples, byte_samples, up_samples, response_samples, fixed, second_samples,
}

module _ (metric upstream : Bytes) (z : Bytes × UpstreamServerStats) (hm : is_word metric ≡ true)
    (hu : all_of is_plain upstream ≡ true) (hz : all_of is_plain z.0 ≡ true) where
  pub upstream_sample-Reads :
      (labels : Labels) (value : Bytes)
      → is_clean labels ≡ true
      → is_value value ≡ true
      → Reads (upstream_sample metric upstream z.0 labels value) (
          record { metric = metric; labels = server_labels upstream z.0 labels; value = value }
          ∷ [])
  unfolding upstream_sample
  upstream_sample-Reads labels value hl hv =
      Reads-sample metric _ _ value hm (ground (arith, hu, hz, hl)) hv

  pub requests_row : Reads (requests_lines metric upstream z) (request_samples metric upstream z)
  unfolding requests_lines request_samples
  requests_row = upstream_sample-Reads [] _ refl (is_value-decimal _)

  pub bytes_row : Reads (bytes_lines metric upstream z) (byte_samples metric upstream z)
  unfolding bytes_lines byte_samples
  bytes_row =
      Reads-append (upstream_sample-Reads _ _ refl (is_value-decimal _))
        (upstream_sample-Reads _ _ refl (is_value-decimal _))

  pub server_up_row : Reads (server_up_lines metric upstream z) (up_samples metric upstream z)
  unfolding server_up_lines up_samples
  server_up_row = upstream_sample-Reads [] _ refl (is_value-decimal _)

  pub responses_row : Reads (responses_lines metric upstream z) (response_samples metric upstream z)
  unfolding responses_lines response_samples
  responses_row =
      Reads-rows (λ e. all_of is_plain e.0 ≡ true) _
        (λ e. counted metric (server_labels upstream z.0 ((codes "status", e.0) ∷ [])) e.1 ∷ []) _
        (λ e he. upstream_sample-Reads _ _ (ground arith) (is_value-decimal e.1))
        (refl, (refl, (refl, (refl, (refl, _)))))

  pub seconds_row :
      (F : F64)
      → ((x : F.Carrier) (digits : ℕ) → is_float (F.to_fixed x digits) ≡ true)
      → Reads (seconds_lines F metric upstream z) (second_samples F metric upstream z)
  unfolding seconds_lines second_samples
  seconds_row F fixed_is_float =
      Reads-rows (λ e. all_of is_plain e.0 ≡ true) _
        (λ e. fixed F metric (server_labels upstream z.0 ((codes "type", e.0) ∷ [])) e.1 ∷ []) _
        (λ e he.
          upstream_sample-Reads _ _ (ground arith)
            (is_value_of_float (F.to_fixed e.1 6) (fixed_is_float e.1 6)))
        (refl, (refl, (refl, (refl, _))))
