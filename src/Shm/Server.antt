-- ===== src/Shm/Server.antt =====
-- src/shm.rs: `ServerCounters`, the counters of one server zone.
pub mod History
pub mod Order
pub mod Bounds
pub mod Shown
use ngx_vts.Prelude.{ℕ, Bool, if◌then◌else◌, ltb, within, ◌==◌, add64, u64_max}
use ngx_vts.Float.{F64}
use ngx_vts.Stats.{VtsServerStats}

-- The value of `request_time_min` before any request.
abbrev pub time_min_unset : ℕ
time_min_unset = u64_max

pub record ServerCounters : Type 0 where
  pub requests : ℕ
  pub bytes_in : ℕ
  pub bytes_out : ℕ
  pub status_1xx : ℕ
  pub status_2xx : ℕ
  pub status_3xx : ℕ
  pub status_4xx : ℕ
  pub status_5xx : ℕ
  pub request_time_total : ℕ
  pub request_time_max : ℕ
  pub request_time_min : ℕ

unfoldable pub new : ServerCounters
new = record {
  requests = 0;
  bytes_in = 0;
  bytes_out = 0;
  status_1xx = 0;
  status_2xx = 0;
  status_3xx = 0;
  status_4xx = 0;
  status_5xx = 0;
  request_time_total = 0;
  request_time_max = 0;
  request_time_min = time_min_unset;
}

-- The `match status` that ends `update`.
abbrev count_status : ℕ → ServerCounters → ServerCounters
count_status status c =
    if within 100 199 status
    then record c { status_1xx = add64 c.status_1xx 1 }
    else if within 200 299 status
    then record c { status_2xx = add64 c.status_2xx 1 }
    else if within 300 399 status
    then record c { status_3xx = add64 c.status_3xx 1 }
    else if within 400 499 status
    then record c { status_4xx = add64 c.status_4xx 1 }
    else if within 500 599 status
    then record c { status_5xx = add64 c.status_5xx 1 }
    else c

unfoldable pub update : ServerCounters → ℕ → ℕ → ℕ → ℕ → ServerCounters
update c status bytes_in bytes_out request_time =
    let counted : ServerCounters = record c {
      requests = add64 c.requests 1;
      bytes_in = add64 c.bytes_in bytes_in;
      bytes_out = add64 c.bytes_out bytes_out;
      request_time_total = add64 c.request_time_total request_time;
    } in
    let longest : ServerCounters =
      if ltb counted.request_time_max request_time
      then record counted { request_time_max = request_time }
      else counted in
    let shortest : ServerCounters =
      if ltb request_time longest.request_time_min
      then record longest { request_time_min = request_time }
      else longest in
    count_status status shortest

module _ (F : F64) where
  -- Milliseconds as seconds.
  abbrev seconds : ℕ → F.Carrier
  seconds ms = F.div (F.of_u64 ms) (F.of_u64 1000)

  unfoldable pub into_stats : ServerCounters → VtsServerStats F
  into_stats c =
      let total : F.Carrier = seconds c.request_time_total in
      let avg : F.Carrier =
        if ltb 0 c.requests then F.div total (F.of_u64 c.requests) else F.of_u64 0 in
      let min : F.Carrier =
        if c.request_time_min == time_min_unset then F.of_u64 0 else seconds c.request_time_min in
      record {
        requests = c.requests;
        bytes_in = c.bytes_in;
        bytes_out = c.bytes_out;
        responses = record {
          status_1xx = c.status_1xx;
          status_2xx = c.status_2xx;
          status_3xx = c.status_3xx;
          status_4xx = c.status_4xx;
          status_5xx = c.status_5xx;
        };
        request_times = record {
          total = total;
          min = min;
          max = seconds c.request_time_max;
          avg = avg;
        };
      }
