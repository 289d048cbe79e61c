-- ===== src/Shm/Server/Bounds.antt =====
-- What holds of the counters of a zone while no counter has wrapped around.
use ngx_vts.Prelude.{ℕ, ◌*◌, ◌%◌, ◌<◌, ◌≤◌, ◌≡◌, List, [], ◌∷◌, arith, length, sum_of, u64_mod}
use ngx_vts.Shm.Server.History.{Request, replay, longest, shortest, replay-summary}

abbrev pub times : List Request → ℕ
times = sum_of (λ (r : Request). r.request_time)

mul_mono : (a b n : ℕ) → a ≤ b → a * n ≤ b * n
mul_mono a b n h = grind arith

shortest-le : (rs : List Request) → shortest rs * length rs ≤ times rs
shortest-le [] = omega arith
shortest-le (r ∷ rs) =
    ground (arith, shortest-le rs, mul_mono r.request_time (shortest rs) (length rs))

longest-le : (rs : List Request) → times rs ≤ longest rs * length rs
longest-le [] = omega arith
longest-le (r ∷ rs) =
    ground (arith, longest-le rs, mul_mono (longest rs) r.request_time (length rs))

-- The total request time lies between the shortest and the longest time taken once for each
-- request, as long as the total and the number of requests are below 2 ^ 64.
pub request_time_bounds :
    (rs : List Request)
    → length rs < u64_mod
    → times rs < u64_mod
    → let c = replay rs in
      (c.request_time_min * c.requests ≤ c.request_time_total)
      × (c.request_time_total ≤ c.request_time_max * c.requests)
request_time_bounds rs n t =
    let requests : length rs % u64_mod ≡ length rs = omega arith in
    let total : times rs % u64_mod ≡ times rs = omega arith in
    rw (replay-summary rs, requests, total) (shortest-le rs, longest-le rs)
