-- ===== src/Shm/Upstream/Bounds.antt =====
-- The histogram of an upstream server is cumulative while no counter has wrapped around.
use ngx_vts.Prelude.{
  ℕ, ◌%◌, ◌≤◌, ◌<◌, ◌≡◌, List, [], ◌∷◌, arith, length, u64_mod, leb, count_of_mono,
  count_of-le-length,
}
use ngx_vts.UpstreamStats.{response_time_bucket_bounds_ms}
use ngx_vts.UpstreamStats.Histogram.{histogram, at_most}
use ngx_vts.Shm.Upstream.History.{UpstreamRequest, replay, response_times, replay-summary}

-- The bound of the last bucket is infinite, and its count stands apart.
abbrev first_of : List ℕ → ℕ → ℕ
first_of [] top = top
first_of (n ∷ ns) top = n

-- No bucket counts more than the next, nor the last more than `top`.
abbrev pub IsCumulative : List ℕ → ℕ → Type 0
IsCumulative [] top = Unit
IsCumulative (n ∷ ns) top = (n ≤ first_of ns top) × IsCumulative ns top

-- A list of bounds that grow.
abbrev pub Grows : List ℕ → Type 0
Grows [] = Unit
Grows (b ∷ bounds) = (b ≤ first_of bounds b) × Grows bounds

at_most_mono : (b c : ℕ) (ts : List ℕ) → b ≤ c → at_most b ts ≤ at_most c ts
at_most_mono b c ts h = count_of_mono (λ t. leb t b) (λ t. leb t c) ts (λ t e. ground arith)

histogram-IsCumulative :
    (bounds ts : List ℕ)
    → Grows bounds
    → length ts < u64_mod
    → IsCumulative (histogram bounds ts) (length ts % u64_mod)
histogram-IsCumulative [] ts g h = tt
histogram-IsCumulative (b ∷ []) ts g h = (omega (arith, count_of-le-length (λ t. leb t b) ts), tt)
histogram-IsCumulative (b ∷ c ∷ bounds) ts (bc, g) h = (
  omega (
    arith,
    at_most_mono b c ts bc,
    count_of-le-length (λ t. leb t b) ts,
    count_of-le-length (λ t. leb t c) ts,
  ),
  histogram-IsCumulative (c ∷ bounds) ts g h,
)

length-response_times : (rs : List UpstreamRequest) → length (response_times rs) ≡ length rs
length-response_times [] = omega arith
length-response_times (r ∷ rs) = omega (arith, length-response_times rs)

-- The buckets of an upstream server never decrease from a bound to the next, and the last is at
-- most the number of responses, which stands for the infinite bound, as long as the number of
-- requests is below 2 ^ 64.
pub response_buckets-IsCumulative :
    (rs : List UpstreamRequest)
    → length rs < u64_mod
    → let c = replay rs in IsCumulative c.response_buckets c.response_time_counter
response_buckets-IsCumulative rs h =
    rw (replay-summary rs, ← length-response_times rs)
      (histogram-IsCumulative response_time_bucket_bounds_ms (response_times rs) (omega arith)
        (omega (arith, length-response_times rs)))
