-- ===== src/Shm/Server/Shown.antt =====
-- src/shm.rs: what `ServerCounters::into_stats` shows of the requests of a zone.
use ngx_vts.Prelude.{
  ℕ, List, [], ◌∷◌, ◌%◌, ◌==◌, ◌<◌, ◌≡◌, All, length, sum_of, if◌then◌else◌, arith, u64_mod,
  u64_max,
}
use ngx_vts.Float.{F64}
use ngx_vts.Stats.{VtsServerStats}
use ngx_vts.Shm.Server.{into_stats}
use ngx_vts.Shm.Server.History.{
  Request, replay, replay-summary, of_hundreds, longest, shortest, summary,
}

module _ (F : F64) where
  abbrev of_ms : ℕ → F.Carrier
  of_ms ms = F.div (F.of_u64 ms) (F.of_u64 1000)

  -- The shortest time of a zone, where there is a request.
  abbrev shown_min : List Request → F.Carrier
  shown_min [] = F.of_u64 0
  shown_min (r ∷ rs) = of_ms (shortest (r ∷ rs))

  -- What the page shows of a history, without the counters.
  abbrev pub shown : List Request → VtsServerStats F
  shown rs =
      let total : ℕ = sum_of (λ (r : Request). r.request_time) rs % u64_mod in
      let requests : ℕ = length rs % u64_mod in
      record {
        requests = requests;
        bytes_in = sum_of (λ (r : Request). r.bytes_in) rs % u64_mod;
        bytes_out = sum_of (λ (r : Request). r.bytes_out) rs % u64_mod;
        responses = record {
          status_1xx = of_hundreds 1 rs % u64_mod;
          status_2xx = of_hundreds 2 rs % u64_mod;
          status_3xx = of_hundreds 3 rs % u64_mod;
          status_4xx = of_hundreds 4 rs % u64_mod;
          status_5xx = of_hundreds 5 rs % u64_mod;
        };
        request_times = record {
          total = of_ms total;
          min = shown_min rs;
          max = of_ms (longest rs);
          avg = if requests == 0 then F.of_u64 0 else F.div (of_ms total) (F.of_u64 requests);
        };
      }

  -- The shortest time is not the value that stands for no request.
  shortest-lt :
      (r : Request) (rs : List Request) → r.request_time < u64_max → shortest (r ∷ rs) < u64_max
  shortest-lt r rs h = ground arith

  into_stats-summary :
      (rs : List Request)
      → All (λ (r : Request). r.request_time < u64_max) rs
      → into_stats F (summary rs) ≡ shown rs
  unfolding into_stats
  into_stats-summary [] h = ground arith
  into_stats-summary (r ∷ rs) (h, hs) = ground (arith, shortest-lt r rs h)

  -- A zone whose requests each took less than 2 ^ 64 - 1 milliseconds is shown with the number of
  -- its requests, the sums of their bytes, and the number of those with a status from 100 to 199,
  -- from 200 to 299 and so on up to 599, all modulo 2 ^ 64; with the total of their times, modulo
  -- 2 ^ 64, and the longest one in milliseconds over 1000; with the shortest one likewise, or 0 if
  -- there is no request; and with the average, which is the total shown over the number of requests
  -- shown, or 0 if that number is 0.
  pub into_stats-replay :
      (rs : List Request)
      → All (λ (r : Request). r.request_time < u64_max) rs
      → into_stats F (replay rs) ≡ shown rs
  into_stats-replay rs h = rw (replay-summary rs) (into_stats-summary rs h)
