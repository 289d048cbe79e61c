-- ===== src/Shm/Upstream/History.antt =====
-- What the counters of an upstream server hold, by a description of the requests that does not run
-- the code. A history lists the requests, newest first.
use ngx_vts.Prelude.{
  ℕ, ◌%◌, ◌/◌, ◌==◌, ◌≡◌, refl, List, [], ◌∷◌, map, arith, length, count_of, sum_of, ltb, u64_mod,
}
use ngx_vts.UpstreamStats.{response_time_bucket_bounds_ms}
use ngx_vts.UpstreamStats.Classes.{within-hundreds, status_class-hundreds}
use ngx_vts.UpstreamStats.Histogram.{histogram, count_buckets-histogram}
use ngx_vts.Shm.Upstream.{UpstreamCounters, new, update}

pub record UpstreamRequest : Type 0 where
  pub request_time : ℕ
  pub response_time : ℕ
  pub bytes_sent : ℕ
  pub bytes_received : ℕ
  pub status : ℕ

-- The counters after the requests of a history.
unfoldable pub replay : List UpstreamRequest → UpstreamCounters
replay [] = new
replay (r ∷ rs) =
    update (replay rs) r.request_time r.response_time r.bytes_sent r.bytes_received r.status

abbrev pub response_times : List UpstreamRequest → List ℕ
response_times = map (λ (r : UpstreamRequest). r.response_time)

-- The requests whose status code has these hundreds: 2 for 200 to 299.
abbrev pub of_hundreds : ℕ → List UpstreamRequest → ℕ
of_hundreds k = count_of (λ (r : UpstreamRequest). r.status / 100 == k)

-- Each counter as a number about the whole history.
abbrev pub summary : List UpstreamRequest → UpstreamCounters
summary rs = record {
  request_counter = length rs % u64_mod;
  in_bytes = sum_of (λ (r : UpstreamRequest). r.bytes_received) rs % u64_mod;
  out_bytes = sum_of (λ (r : UpstreamRequest). r.bytes_sent) rs % u64_mod;
  status_1xx = of_hundreds 1 rs % u64_mod;
  status_2xx = of_hundreds 2 rs % u64_mod;
  status_3xx = of_hundreds 3 rs % u64_mod;
  status_4xx = of_hundreds 4 rs % u64_mod;
  status_5xx = of_hundreds 5 rs % u64_mod;
  request_time_total = sum_of (λ (r : UpstreamRequest). r.request_time) rs % u64_mod;
  request_time_counter = count_of (λ (r : UpstreamRequest). ltb 0 r.request_time) rs % u64_mod;
  response_time_total = sum_of (λ (r : UpstreamRequest). r.response_time) rs % u64_mod;
  response_time_counter = length rs % u64_mod;
  response_buckets = histogram response_time_bucket_bounds_ms (response_times rs);
}

-- The buckets stay shut in the step of the other counters.
pub update-summary :
    (r : UpstreamRequest) (rs : List UpstreamRequest)
    → update (summary rs) r.request_time r.response_time r.bytes_sent r.bytes_received r.status
      ≡ summary (r ∷ rs)
unfolding update
update-summary r rs =
    let (one, two, three, four, five) = within-hundreds r.status in
    let (first, second, third, fourth, fifth) = status_class-hundreds r.status in
    rw (one, two, three, four, five)
      (rw (first, second, third, fourth, fifth)
        (ground
          (
            arith,
            count_buckets-histogram r.response_time (response_times rs)
                response_time_bucket_bounds_ms,
          )
          steps 10000000))

-- The counters of an upstream server are the summary of its history: the number of its requests,
-- the sums of its bytes and times, the requests whose own time is positive and those of each
-- status class, and for each bucket the responses that took at most its bound, all modulo 2 ^ 64.
pub replay-summary : (rs : List UpstreamRequest) → replay rs ≡ summary rs
unfolding replay new
replay-summary [] = refl
replay-summary (r ∷ rs) = rw (replay-summary rs) (update-summary r rs)
