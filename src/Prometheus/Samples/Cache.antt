-- ===== src/Prometheus/Samples/Cache.antt =====
-- The samples of the cache zones (src/prometheus/cache.rs).
use ngx_vts.Prelude.{
  ℕ, ◌≡◌, refl, Bytes, codes, some, true, List, [], ◌∷◌, ◌++◌, all_of, arith, All,
}
use ngx_vts.Float.{F64}
use ngx_vts.HashMap.{HashMap}
use ngx_vts.CacheStats.{CacheZoneStats, hit_ratio}
use ngx_vts.Prometheus.Lines.{with_prefix}
use ngx_vts.Prometheus.Cache.{requests_lines, size_lines, ratio_lines, format_cache_stats}
use ngx_vts.Prometheus.Reader.{Sample, counted, samples_of, is_name_char, read_page}
use ngx_vts.Prometheus.Reader.Laws.{is_plain, is_float, is_value_of_float, is_word, is_word-append}
use ngx_vts.Prometheus.Reader.Pages.{
  Reads, Reads-append, Reads-page, Reads-rows, Reads-last, Reads-family, Reads-header, Reads-sample,
  Reads-newline, is_value-decimal,
}

unfoldable pub status_samples : Bytes → Bytes × CacheZoneStats → List Sample
status_samples metric (_, z) =
    let of : Bytes → ℕ → Sample =
      λ status. counted metric ((codes "zone", z.name) ∷ (codes "status", status) ∷ []) in
    of (codes "hit") z.cache.hit
    ∷ of (codes "miss") z.cache.miss
    ∷ of (codes "bypass") z.cache.bypass
    ∷ of (codes "expired") z.cache.expired
    ∷ of (codes "stale") z.cache.stale
    ∷ of (codes "updating") z.cache.updating
    ∷ of (codes "revalidated") z.cache.revalidated
    ∷ of (codes "scarce") z.cache.scarce
    ∷ []

unfoldable pub size_samples : Bytes → Bytes × CacheZoneStats → List Sample
size_samples metric (_, z) =
    let of : Bytes → ℕ → Sample =
      λ type. counted metric ((codes "zone", z.name) ∷ (codes "type", type) ∷ []) in
    of (codes "max") z.size.max_size ∷ of (codes "used") z.size.used_size ∷ []

unfoldable pub ratio_samples : (F : F64) → Bytes → Bytes × CacheZoneStats → List Sample
ratio_samples F metric (_, z) =
    record {
      metric = metric;
      labels = (codes "zone", z.name) ∷ [];
      value = F.to_fixed (hit_ratio F z.cache) 2;
    }
    ∷ []

unfoldable pub cache_samples : F64 → Bytes → HashMap CacheZoneStats → List Sample
unfolding status_samples size_samples ratio_samples
cache_samples F prefix zones =
    samples_of (status_samples (prefix ++ codes "cache_requests_total")) zones
    ++ (samples_of (size_samples (prefix ++ codes "cache_size_bytes")) zones
        ++ samples_of (ratio_samples F (prefix ++ codes "cache_hit_ratio")) zones)

-- The names of the zones can stand in a label as they are.
abbrev pub PlainNames : HashMap CacheZoneStats → Type 0
PlainNames = All (λ (e : Bytes × CacheZoneStats). all_of is_plain e.1.name ≡ true)

module _ (metric : Bytes) (z : Bytes × CacheZoneStats) (hm : is_word metric ≡ true)
    (hz : all_of is_plain z.1.name ≡ true) where
  status_row : Reads (requests_lines metric z) (status_samples metric z)
  unfolding requests_lines status_samples
  status_row =
      Reads-rows (λ e. all_of is_plain e.0 ≡ true) _
        (λ e. counted metric ((codes "zone", z.1.name) ∷ (codes "status", e.0) ∷ []) e.1 ∷ []) _
        (λ e he. Reads-sample metric _ _ _ hm (ground arith) (is_value-decimal e.1))
        (refl, (refl, (refl, (refl, (refl, (refl, (refl, (refl, _))))))))

  size_row : Reads (size_lines metric z) (size_samples metric z)
  unfolding size_lines size_samples
  size_row =
      Reads-append (Reads-sample metric _ _ _ hm (ground arith) (is_value-decimal _))
        (Reads-sample metric _ _ _ hm (ground arith) (is_value-decimal _))

  ratio_row :
      (F : F64)
      → ((x : F.Carrier) (digits : ℕ) → is_float (F.to_fixed x digits) ≡ true)
      → Reads (ratio_lines F metric z) (ratio_samples F metric z)
  unfolding ratio_lines ratio_samples
  ratio_row F fixed_is_float =
      let ratio : F.Carrier = hit_ratio F z.1.cache in
      Reads-sample metric _ [] _ hm (ground arith)
        (is_value_of_float (F.to_fixed ratio 2) (fixed_is_float ratio 2))

pub cache-Reads :
    (F : F64) (prefix : Bytes) (zones : HashMap CacheZoneStats)
    → ((x : F.Carrier) (digits : ℕ) → is_float (F.to_fixed x digits) ≡ true)
    → all_of is_name_char prefix ≡ true
    → PlainNames zones
    → Reads (format_cache_stats F (with_prefix prefix) zones) (cache_samples F prefix zones)
unfolding format_cache_stats cache_samples with_prefix
cache-Reads F prefix [] fixed_is_float hp hz =
    (Reads-append (Reads-header _ _ _ refl refl refl)
      (Reads-append (Reads-header _ _ _ refl refl refl) Reads-newline))
cache-Reads F prefix (zone ∷ rest) fixed_is_float hp hz =
    let zones : HashMap CacheZoneStats = zone ∷ rest in
    let word : (name : Bytes) → is_word name ≡ true → is_word (prefix ++ name) ≡ true =
      λ name h. is_word-append prefix name hp h in
    let requests = word (codes "cache_requests_total") refl in
    let sizes = word (codes "cache_size_bytes") refl in
    let ratios = word (codes "cache_hit_ratio") refl in
    (Reads-family (Reads-header _ _ _ refl refl refl)
      (Reads-rows _ _ _ zones (λ z h. status_row _ z requests h) hz)
      (Reads-family (Reads-header _ _ _ refl refl refl)
        (Reads-rows _ _ _ zones (λ z h. size_row _ z sizes h) hz)
        (Reads-last (Reads-header _ _ _ refl refl refl)
          (Reads-rows _ _ _ zones (λ z h. ratio_row _ z ratios h F fixed_is_float) hz))))

-- For a prefix of letters, digits, underscores and colons, zone names without quotes, backslashes
-- and newlines, and floats that print as digits and signs or as the names of the special values: a
-- reader of the cache metrics finds, for every zone, the eight status counters, the two sizes and
-- the hit ratio, under the formatter's prefix, and nothing where there is no zone.
pub read_page-format_cache_stats :
    (F : F64) (prefix : Bytes) (zones : HashMap CacheZoneStats)
    → ((x : F.Carrier) (digits : ℕ) → is_float (F.to_fixed x digits) ≡ true)
    → all_of is_name_char prefix ≡ true
    → PlainNames zones
    → read_page (format_cache_stats F (with_prefix prefix) zones)
      ≡ some (cache_samples F prefix zones)
read_page-format_cache_stats F prefix zones fixed_is_float hp hz =
    Reads-page (cache-Reads F prefix zones fixed_is_float hp hz)
