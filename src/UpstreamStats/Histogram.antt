-- ===== src/UpstreamStats/Histogram.antt =====
-- The cumulative histogram of `response_buckets`, against the samples that it was fed.
use ngx_vts.Prelude.{ℕ, ◌%◌, ◌≡◌, refl, List, [], ◌∷◌, map, arith, count_of, u64_mod, leb}
use ngx_vts.UpstreamStats.{count_buckets}

-- The samples at or below a bound, over a history.
abbrev pub at_most : ℕ → List ℕ → ℕ
at_most bound = count_of (λ time. leb time bound)

-- The bucket of each bound, by an independent count.
abbrev pub histogram : List ℕ → List ℕ → List ℕ
histogram bounds times = map (λ bound. at_most bound times % u64_mod) bounds

-- Counting one more sample into the histogram of a history gives the histogram of the longer one.
pub count_buckets-histogram :
    (time : ℕ) (times bounds : List ℕ)
    → count_buckets time bounds (histogram bounds times) ≡ histogram bounds (time ∷ times)
unfolding count_buckets
count_buckets-histogram time times [] = refl
count_buckets-histogram time times (bound ∷ bounds) =
    ground (arith, count_buckets-histogram time times bounds)
