-- ===== src/Prometheus/Samples/Upstream/Laws.antt =====
-- What a reader finds in the upstream metrics (src/prometheus/upstream.rs).
use ngx_vts.Prelude.{ℕ, ◌≡◌, ◌≤◌, refl, Bytes, codes, some, true, List, [], ◌∷◌, ◌++◌, all_of, All}
use ngx_vts.Float.{F64}
use ngx_vts.HashMap.{HashMap}
use ngx_vts.UpstreamStats.{UpstreamZone, UpstreamServerStats}
use ngx_vts.Prometheus.Lines.{with_prefix}
use ngx_vts.Prometheus.Upstream.{
  each_server, thousandth, format_upstream_status_metrics, format_upstream_response_histogram,
  format_upstream_stats,
}
use ngx_vts.Prometheus.Reader.{Sample, is_name_char, read_page}
use ngx_vts.Prometheus.Reader.Laws.{is_plain, is_float, is_word, is_word-append}
use ngx_vts.Prometheus.Reader.Pages.{
  Reads, Reads-nil, Reads-append, Reads-page, Reads-rows, Reads-last, Reads-family, Reads-header,
  PlainKeys,
}
use ngx_vts.Prometheus.Samples.Upstream.{
  server_rows, response_samples, histogram_samples, upstream_samples,
}
use ngx_vts.Prometheus.Samples.Upstream.Rows.{
  requests_row, bytes_row, server_up_row, responses_row, seconds_row,
}
use ngx_vts.Prometheus.Samples.Upstream.Buckets.{in_seconds, histogram_row}

-- The names of the groups and of their servers can stand in a label as they are.
abbrev pub PlainGroups : HashMap UpstreamZone → Type 0
PlainGroups =
    All (λ (g : Bytes × UpstreamZone). (all_of is_plain g.0 ≡ true) × PlainKeys g.1.servers)

each_server-Reads :
    (line : Bytes → Bytes × UpstreamServerStats → Bytes)
    (row : Bytes → Bytes × UpstreamServerStats → List Sample) (zones : HashMap UpstreamZone)
    → ((upstream : Bytes) (z : Bytes × UpstreamServerStats)
        → all_of is_plain upstream ≡ true
        → all_of is_plain z.0 ≡ true
        → Reads (line upstream z) (row upstream z))
    → PlainGroups zones
    → Reads (each_server line zones) (server_rows row zones)
unfolding each_server server_rows
each_server-Reads line row zones h hz =
    Reads-rows _ _ _ zones (λ g hg. Reads-rows _ _ _ g.1.servers (λ z hs. h g.0 z hg.0 hs) hg.1) hz

module _ (F : F64)
    (fixed_is_float : (x : F.Carrier) (digits : ℕ) → is_float (F.to_fixed x digits) ≡ true)
    (to_fixed_in_seconds : (n : ℕ)
      → n ≤ 10000
      → F.to_fixed (thousandth F (F.of_u64 n)) 3 ≡ in_seconds n)
    (prefix : Bytes) (hp : all_of is_name_char prefix ≡ true) where
  prefixed : (name : Bytes) → is_word name ≡ true → is_word (prefix ++ name) ≡ true
  prefixed name h = is_word-append prefix name hp h

  status-Reads :
      (zones : HashMap UpstreamZone)
      → PlainGroups zones
      → Reads
          (format_upstream_status_metrics (with_prefix prefix) zones)
          (server_rows (response_samples (prefix ++ codes "upstream_responses_total")) zones)
  unfolding format_upstream_status_metrics with_prefix
  status-Reads zones hz =
      let m = prefixed (codes "upstream_responses_total") refl in
      Reads-last (Reads-header _ _ _ m refl refl)
        (each_server-Reads _ _ zones (λ u z. responses_row _ u z m) hz)

  histogram-Reads :
      (zones : HashMap UpstreamZone)
      → PlainGroups zones
      → Reads (format_upstream_response_histogram F (with_prefix prefix) zones) (
          server_rows
            (histogram_samples F (prefix ++ codes "upstream_response_duration_seconds"))
            zones)
  unfolding format_upstream_response_histogram with_prefix
  histogram-Reads zones hz =
      let m = prefixed (codes "upstream_response_duration_seconds") refl in
      Reads-last (Reads-header _ _ _ m refl refl) (
        each_server-Reads _ _ zones
          (λ u z. histogram_row F fixed_is_float to_fixed_in_seconds _ u z m) hz)

  pub upstream-Reads :
      (zones : HashMap UpstreamZone)
      → PlainGroups zones
      → Reads (format_upstream_stats F (with_prefix prefix) zones) (upstream_samples F prefix zones)
  unfolding format_upstream_stats upstream_samples with_prefix
  upstream-Reads [] hz = Reads-nil
  upstream-Reads (group ∷ groups) hz =
      let zones : HashMap UpstreamZone = group ∷ groups in
      let requests = prefixed (codes "upstream_requests_total") refl in
      let bytes = prefixed (codes "upstream_bytes_total") refl in
      let seconds = prefixed (codes "upstream_response_seconds") refl in
      let up = prefixed (codes "upstream_server_up") refl in
      Reads-family (Reads-header _ _ _ requests refl refl)
        (each_server-Reads _ _ zones (λ u z. requests_row _ u z requests) hz)
        (Reads-family (Reads-header _ _ _ bytes refl refl)
          (each_server-Reads _ _ zones (λ u z. bytes_row _ u z bytes) hz)
          (Reads-family (Reads-header _ _ _ seconds refl refl)
            (each_server-Reads _ _ zones
              (λ u z hu hs. seconds_row _ u z seconds hu hs F fixed_is_float) hz)
            (Reads-family (Reads-header _ _ _ up refl refl)
              (each_server-Reads _ _ zones (λ u z. server_up_row _ u z up) hz)
              (Reads-append (status-Reads zones hz) (histogram-Reads zones hz)))))

-- For a prefix of letters, digits, underscores and colons, names without quotes, backslashes and
-- newlines, floats that print as digits and signs or as the names of the special values, and
-- quotients by 1000 that print exactly up to 10: a reader of the upstream metrics finds, for every
-- server of every group, its counters, its times, whether it is up, and the histogram, whose buckets
-- are labelled with the eleven bounds from 0.005 to 10 and with +Inf.
pub read_page-format_upstream_stats :
    (F : F64) (prefix : Bytes) (zones : HashMap UpstreamZone)
    → ((x : F.Carrier) (digits : ℕ) → is_float (F.to_fixed x digits) ≡ true)
    → ((n : ℕ) → n ≤ 10000 → F.to_fixed (thousandth F (F.of_u64 n)) 3 ≡ in_seconds n)
    → all_of is_name_char prefix ≡ true
    → PlainGroups zones
    → read_page (format_upstream_stats F (with_prefix prefix) zones)
      ≡ some (upstream_samples F prefix zones)
read_page-format_upstream_stats F prefix zones fixed_is_float to_fixed_in_seconds hp hz =
    Reads-page (upstream-Reads F fixed_is_float to_fixed_in_seconds prefix hp zones hz)
