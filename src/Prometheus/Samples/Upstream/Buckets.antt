-- ===== src/Prometheus/Samples/Upstream/Buckets.antt =====
-- The rows of the histogram (src/prometheus/upstream.rs) are read as their samples.
use ngx_vts.Prelude.{
  ℕ, ◌≡◌, ◌≤◌, refl, eqb, eqb_iff, leb, leb→le, Bool, false, ◌&&◌, Bytes, codes, decimal, true,
  List, [], ◌∷◌, ◌++◌, all_of, arith, ◌/◌, ◌%◌, ◌+◌,
}
use ngx_vts.Float.{F64}
use ngx_vts.UpstreamStats.{UpstreamServerStats, response_time_bucket_bounds_ms}
use ngx_vts.Prometheus.Upstream.{
  bucket_lines, histogram_lines, format_le_bound, thousandth, trim_bound,
}
use ngx_vts.Prometheus.Reader.Laws.{is_plain, is_float, is_value_of_float, is_word, is_word-append}
use ngx_vts.Prometheus.Reader.Pages.{Reads, Reads-append, Reads-nil, is_value-decimal}
use ngx_vts.Prometheus.Samples.Upstream.{le_labels, bucket_samples, histogram_samples}
use ngx_vts.Prometheus.Samples.Upstream.Rows.{upstream_sample-Reads}

-- A number of milliseconds as seconds with three decimals.
abbrev pub in_seconds : ℕ → Bytes
in_seconds n =
    decimal (n / 1000)
    ++ (b'.' ∷ (b'0' + n / 100 % 10) ∷ (b'0' + n / 10 % 10) ∷ (b'0' + n % 10) ∷ [])

-- Whether bounds of milliseconds print as labels that can stand as they are.
abbrev prints : List ℕ → List Bytes → Bool
prints [] [] = true
prints [] (le ∷ les) = false
prints (n ∷ bounds) [] = false
prints (n ∷ bounds) (le ∷ les) =
    leb n 10000 && eqb (trim_bound (in_seconds n)) le && all_of is_plain le && prints bounds les

bounds-print : prints response_time_bucket_bounds_ms le_labels ≡ true
unfolding trim_bound decimal eqb
bounds-print = refl

module _ (F : F64)
    (to_fixed_in_seconds : (n : ℕ)
      → n ≤ 10000
      → F.to_fixed (thousandth F (F.of_u64 n)) 3 ≡ in_seconds n)
    (metric upstream : Bytes) (z : Bytes × UpstreamServerStats) (hm : is_word metric ≡ true)
    (hu : all_of is_plain upstream ≡ true) (hz : all_of is_plain z.0 ≡ true) where
  le_label :
      (n : ℕ) (le : Bytes)
      → n ≤ 10000
      → eqb (trim_bound (in_seconds n)) le ≡ true
      → format_le_bound F (thousandth F (F.of_u64 n)) ≡ le
  unfolding format_le_bound
  le_label n le h e = rw (to_fixed_in_seconds n h) ((eqb_iff (trim_bound (in_seconds n)) le).0 e)

  buckets_row :
      (bounds : List ℕ) (les : List Bytes) (buckets : List ℕ)
      → prints bounds les ≡ true
      → Reads
          (bucket_lines F metric upstream z.0 bounds buckets)
          (bucket_samples metric upstream z.0 les buckets)
  unfolding bucket_lines bucket_samples
  buckets_row [] [] buckets h = Reads-nil
  buckets_row [] (le ∷ les) buckets h = ground arith
  buckets_row (n ∷ bounds) [] buckets h = ground arith
  buckets_row (n ∷ bounds) (le ∷ les) [] h = Reads-nil
  buckets_row (n ∷ bounds) (le ∷ les) (k ∷ buckets) h =
      rw (le_label n le (leb→le n 10000 (ground arith)) (ground arith)) (
        Reads-append
          (upstream_sample-Reads metric upstream z hm hu hz _ _ (ground arith) (is_value-decimal k))
          (buckets_row bounds les buckets (ground arith)))

pub histogram_row :
    (F : F64)
    → ((x : F.Carrier) (digits : ℕ) → is_float (F.to_fixed x digits) ≡ true)
    → ((n : ℕ) → n ≤ 10000 → F.to_fixed (thousandth F (F.of_u64 n)) 3 ≡ in_seconds n)
    → (metric upstream : Bytes) (z : Bytes × UpstreamServerStats) → is_word metric ≡ true
    → all_of is_plain upstream ≡ true
    → all_of is_plain z.0 ≡ true
    → Reads (histogram_lines F metric upstream z) (histogram_samples F metric upstream z)
unfolding histogram_lines histogram_samples
histogram_row F fixed_is_float to_fixed_in_seconds metric upstream z hm hu hz =
    let word : (name : Bytes) → is_word name ≡ true → is_word (metric ++ name) ≡ true =
      λ name h. is_word-append metric name (ground arith) h in
    let sum : F.Carrier = thousandth F (F.of_u64 z.1.response_time_total) in
    let bucket = word (codes "_bucket") refl in
    Reads-append
      (buckets_row F to_fixed_in_seconds _ upstream z bucket hu hz response_time_bucket_bounds_ms
        le_labels z.1.response_buckets bounds-print)
      (Reads-append (upstream_sample-Reads _ upstream z bucket hu hz _ _ refl (is_value-decimal _))
        (Reads-append
          (upstream_sample-Reads _ upstream z (word (codes "_sum") refl) hu hz [] _ refl
            (is_value_of_float (F.to_fixed sum 6) (fixed_is_float sum 6)))
          (upstream_sample-Reads _ upstream z (word (codes "_count") refl) hu hz [] _ refl
            (is_value-decimal _))))
