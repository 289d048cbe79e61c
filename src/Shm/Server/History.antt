-- ===== src/Shm/Server/History.antt =====
-- What the counters of a server zone hold, by a description of the requests that does not run the
-- code. A history lists the requests, newest first.
use ngx_vts.Prelude.{
  ℕ, ◌%◌, ◌/◌, ◌==◌, ◌≡◌, refl, List, [], ◌∷◌, arith, length, count_of, sum_of, ltb, if◌then◌else◌,
  u64_mod, u64_max,
}
use ngx_vts.Shm.Server.{ServerCounters, new, update}

pub record Request : Type 0 where
  pub status : ℕ
  pub bytes_in : ℕ
  pub bytes_out : ℕ
  pub request_time : ℕ

-- The counters after the requests of a history.
unfoldable pub replay : List Request → ServerCounters
replay [] = new
replay (r ∷ rs) = update (replay rs) r.status r.bytes_in r.bytes_out r.request_time

-- The requests whose status code has these hundreds: 2 for 200 to 299.
abbrev pub of_hundreds : ℕ → List Request → ℕ
of_hundreds k = count_of (λ (r : Request). r.status / 100 == k)

abbrev pub longest : List Request → ℕ
longest [] = 0
longest (r ∷ rs) = if ltb (longest rs) r.request_time then r.request_time else longest rs

abbrev pub shortest : List Request → ℕ
shortest [] = u64_max
shortest (r ∷ rs) = if ltb r.request_time (shortest rs) then r.request_time else shortest rs

-- Each counter as a number about the whole history.
abbrev pub summary : List Request → ServerCounters
summary rs = record {
  requests = length rs % u64_mod;
  bytes_in = sum_of (λ (r : Request). r.bytes_in) rs % u64_mod;
  bytes_out = sum_of (λ (r : Request). r.bytes_out) rs % u64_mod;
  status_1xx = of_hundreds 1 rs % u64_mod;
  status_2xx = of_hundreds 2 rs % u64_mod;
  status_3xx = of_hundreds 3 rs % u64_mod;
  status_4xx = of_hundreds 4 rs % u64_mod;
  status_5xx = of_hundreds 5 rs % u64_mod;
  request_time_total = sum_of (λ (r : Request). r.request_time) rs % u64_mod;
  request_time_max = longest rs;
  request_time_min = shortest rs;
}

pub update-summary :
    (r : Request) (rs : List Request)
    → update (summary rs) r.status r.bytes_in r.bytes_out r.request_time ≡ summary (r ∷ rs)
unfolding update
update-summary r rs = ground arith

-- The counters of a zone are the summary of its history: the number of its requests, the sums of
-- its bytes and times and the number of requests in each status class, all modulo 2 ^ 64, and the
-- longest and the shortest time.
pub replay-summary : (rs : List Request) → replay rs ≡ summary rs
unfolding replay new
replay-summary [] = refl
replay-summary (r ∷ rs) = rw (replay-summary rs) (update-summary r rs)
