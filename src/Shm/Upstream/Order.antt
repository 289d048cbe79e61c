-- ===== src/Shm/Upstream/Order.antt =====
-- The order in which the workers' requests reach an upstream server does not matter.
use mathlib.Core.Logic.{∥∥₁_elim}
use native.Mathlib.Nat.{ℕ_set}
use ngx_vts.Prelude.{
  ℕ, ◌/◌, ◌==◌, List, [], ◌∷◌, ◌≡◌, ◌∙◌, refl, sym, Perm, Permᴰ, arith, ltb, sum_of-perm,
  count_of-perm, length-perm,
}
use ngx_vts.UpstreamStats.{response_time_bucket_bounds_ms}
use ngx_vts.UpstreamStats.Histogram.{histogram, at_most}
use ngx_vts.Shm.Upstream.{UpstreamCounters}
use ngx_vts.Shm.Upstream.History.{UpstreamRequest, replay, summary, response_times, replay-summary}

UpstreamCounters-set : IsSet UpstreamCounters
UpstreamCounters-set = hlevel ℕ_set

at_most-perm :
    (bound : ℕ) {rs qs : List UpstreamRequest}
    → Permᴰ rs qs
    → at_most bound (response_times rs) ≡ at_most bound (response_times qs)
at_most-perm bound Permᴰ.nil = refl
at_most-perm bound (Permᴰ.cons e p) = rw (e, at_most-perm bound p)
at_most-perm bound (Permᴰ.swap e d) = rw (e, d) (omega arith)
at_most-perm bound (Permᴰ.trans p q) = at_most-perm bound p ∙ at_most-perm bound q

histogram-perm :
    (bounds : List ℕ) {rs qs : List UpstreamRequest}
    → Permᴰ rs qs
    → histogram bounds (response_times rs) ≡ histogram bounds (response_times qs)
histogram-perm [] p = refl
histogram-perm (bound ∷ bounds) p = rw (at_most-perm bound p, histogram-perm bounds p)

summary-perm : {rs qs : List UpstreamRequest} → Permᴰ rs qs → summary rs ≡ summary qs
summary-perm p = rw (
  length-perm p,
  sum_of-perm (λ (r : UpstreamRequest). r.bytes_received) p,
  sum_of-perm (λ (r : UpstreamRequest). r.bytes_sent) p,
  sum_of-perm (λ (r : UpstreamRequest). r.request_time) p,
  sum_of-perm (λ (r : UpstreamRequest). r.response_time) p,
  count_of-perm (λ (r : UpstreamRequest). ltb 0 r.request_time) p,
  count_of-perm (λ (r : UpstreamRequest). r.status / 100 == 1) p,
  count_of-perm (λ (r : UpstreamRequest). r.status / 100 == 2) p,
  count_of-perm (λ (r : UpstreamRequest). r.status / 100 == 3) p,
  count_of-perm (λ (r : UpstreamRequest). r.status / 100 == 4) p,
  count_of-perm (λ (r : UpstreamRequest). r.status / 100 == 5) p,
  histogram-perm response_time_bucket_bounds_ms p,
)

-- The counters of an upstream server are the same for every order of the same requests.
pub upstream_replay-perm : (rs qs : List UpstreamRequest) → Perm rs qs → replay rs ≡ replay qs
upstream_replay-perm rs qs p =
    replay-summary rs
    ∙ (∥∥₁_elim p (UpstreamCounters-set (summary rs) (summary qs)) summary-perm
        ∙ sym (replay-summary qs))
