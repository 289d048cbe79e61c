-- ===== src/Prometheus/Samples/Server.antt =====
-- The samples of the server zones (src/prometheus/server.rs).
use ngx_vts.Prelude.{ℕ, ◌≡◌, refl, Bytes, codes, some, true, List, [], ◌∷◌, ◌++◌, all_of, arith}
use ngx_vts.Float.{F64}
use ngx_vts.HashMap.{HashMap}
use ngx_vts.Stats.{VtsServerStats}
use ngx_vts.Prometheus.Lines.{with_prefix}
use ngx_vts.Prometheus.Server.{
  requests_lines, bytes_lines, responses_lines, seconds_lines, format_server_stats,
}
use ngx_vts.Prometheus.Reader.{Sample, counted, samples_of, is_name_char, read_page}
use ngx_vts.Prometheus.Reader.Laws.{is_plain, is_float, is_value_of_float, is_word, is_word-append}
use ngx_vts.Prometheus.Reader.Pages.{
  Reads, Reads-append, Reads-page, Reads-rows, Reads-last, Reads-family, Reads-header, Reads-sample,
  PlainKeys, is_value-decimal,
}

module _ (F : F64) where
  abbrev pub fixed : Bytes → List (Bytes × Bytes) → F.Carrier → Sample
  fixed metric labels x = record { metric = metric; labels = labels; value = F.to_fixed x 6 }

  unfoldable pub request_samples : Bytes → Bytes × VtsServerStats F → List Sample
  request_samples metric (zone, s) = counted metric ((codes "zone", zone) ∷ []) s.requests ∷ []

  unfoldable pub byte_samples : Bytes → Bytes × VtsServerStats F → List Sample
  byte_samples metric (zone, s) =
      counted metric ((codes "zone", zone) ∷ (codes "direction", codes "in") ∷ []) s.bytes_in
      ∷ counted metric ((codes "zone", zone) ∷ (codes "direction", codes "out") ∷ []) s.bytes_out
      ∷ []

  unfoldable pub response_samples : Bytes → Bytes × VtsServerStats F → List Sample
  response_samples metric (zone, s) =
      let of : Bytes → ℕ → Sample =
        λ status n. counted metric ((codes "zone", zone) ∷ (codes "status", status) ∷ []) n in
      of (codes "1xx") s.responses.status_1xx
      ∷ of (codes "2xx") s.responses.status_2xx
      ∷ of (codes "3xx") s.responses.status_3xx
      ∷ of (codes "4xx") s.responses.status_4xx
      ∷ of (codes "5xx") s.responses.status_5xx
      ∷ []

  unfoldable pub second_samples : Bytes → Bytes × VtsServerStats F → List Sample
  second_samples metric (zone, s) =
      let of : Bytes → F.Carrier → Sample =
        λ type. fixed metric ((codes "zone", zone) ∷ (codes "type", type) ∷ []) in
      of (codes "avg") s.request_times.avg
      ∷ of (codes "min") s.request_times.min
      ∷ of (codes "max") s.request_times.max
      ∷ []

  unfoldable pub server_samples : Bytes → HashMap (VtsServerStats F) → List Sample
  unfolding request_samples byte_samples response_samples second_samples
  server_samples prefix zones =
      samples_of (request_samples (prefix ++ codes "server_requests_total")) zones
      ++ (samples_of (byte_samples (prefix ++ codes "server_bytes_total")) zones
          ++ (samples_of (response_samples (prefix ++ codes "server_responses_total")) zones
              ++ samples_of (second_samples (prefix ++ codes "server_request_seconds")) zones))

  module _ (metric : Bytes) (z : Bytes × VtsServerStats F) (hm : is_word metric ≡ true)
      (hz : all_of is_plain z.0 ≡ true) where
    requests_row : Reads (requests_lines F metric z) (request_samples metric z)
    unfolding requests_lines request_samples
    requests_row = Reads-sample metric _ [] _ hm (ground arith) (is_value-decimal _)

    bytes_row : Reads (bytes_lines F metric z) (byte_samples metric z)
    unfolding bytes_lines byte_samples
    bytes_row =
        Reads-append (Reads-sample metric _ _ _ hm (ground arith) (is_value-decimal _))
          (Reads-sample metric _ _ _ hm (ground arith) (is_value-decimal _))

    responses_row : Reads (responses_lines F metric z) (response_samples metric z)
    unfolding responses_lines response_samples
    responses_row =
        Reads-rows (λ e. all_of is_plain e.0 ≡ true) _
          (λ e. counted metric ((codes "zone", z.0) ∷ (codes "status", e.0) ∷ []) e.1 ∷ []) _
          (λ e he. Reads-sample metric _ _ _ hm (ground arith) (is_value-decimal e.1))
          (refl, (refl, (refl, (refl, (refl, _)))))

    seconds_row :
        ((x : F.Carrier) (digits : ℕ) → is_float (F.to_fixed x digits) ≡ true)
        → Reads (seconds_lines F metric z) (second_samples metric z)
    unfolding seconds_lines second_samples
    seconds_row fixed_is_float =
        Reads-rows (λ e. all_of is_plain e.0 ≡ true) _
          (λ e. fixed metric ((codes "zone", z.0) ∷ (codes "type", e.0) ∷ []) e.1 ∷ []) _
          (λ e he.
            Reads-sample metric _ _ _ hm (ground arith)
              (is_value_of_float (F.to_fixed e.1 6) (fixed_is_float e.1 6)))
          (refl, (refl, (refl, _)))

pub server-Reads :
    (F : F64) (prefix : Bytes) (zones : HashMap (VtsServerStats F))
    → ((x : F.Carrier) (digits : ℕ) → is_float (F.to_fixed x digits) ≡ true)
    → all_of is_name_char prefix ≡ true
    → PlainKeys zones
    → Reads (format_server_stats F (with_prefix prefix) zones) (server_samples F prefix zones)
unfolding format_server_stats server_samples with_prefix
server-Reads F prefix zones fixed_is_float hp hz =
    let word : (name : Bytes) → is_word name ≡ true → is_word (prefix ++ name) ≡ true =
      λ name h. is_word-append prefix name hp h in
    let requests = word (codes "server_requests_total") refl in
    let bytes = word (codes "server_bytes_total") refl in
    let responses = word (codes "server_responses_total") refl in
    let seconds = word (codes "server_request_seconds") refl in
    (Reads-family (Reads-header _ _ _ requests refl refl)
      (Reads-rows _ _ _ zones (λ z h. requests_row F _ z requests h) hz)
      (Reads-family (Reads-header _ _ _ bytes refl refl)
        (Reads-rows _ _ _ zones (λ z h. bytes_row F _ z bytes h) hz)
        (Reads-family (Reads-header _ _ _ responses refl refl)
          (Reads-rows _ _ _ zones (λ z h. responses_row F _ z responses h) hz)
          (Reads-last (Reads-header _ _ _ seconds refl refl)
            (Reads-rows _ _ _ zones (λ z h. seconds_row F _ z seconds h fixed_is_float) hz)))))

-- For a prefix of letters, digits, underscores and colons, zone names without quotes, backslashes
-- and newlines, and floats that print as digits and signs or as the names of
-- the special values: a reader of the server metrics finds,
-- for every zone, its requests, its bytes by direction, its responses by class and its three times.
pub read_page-format_server_stats :
    (F : F64) (prefix : Bytes) (zones : HashMap (VtsServerStats F))
    → ((x : F.Carrier) (digits : ℕ) → is_float (F.to_fixed x digits) ≡ true)
    → all_of is_name_char prefix ≡ true
    → PlainKeys zones
    → read_page (format_server_stats F (with_prefix prefix) zones)
      ≡ some (server_samples F prefix zones)
read_page-format_server_stats F prefix zones fixed_is_float hp hz =
    Reads-page (server-Reads F prefix zones fixed_is_float hp hz)
