-- ===== src/Shm/Upstream.antt =====
-- src/shm.rs: `UpstreamCounters`, the counters of one server of an upstream.
pub mod History
pub mod Order
pub mod Bounds
use ngx_vts.Prelude.{ℕ, Bytes, List, if◌then◌else◌, ltb, within, add64}
use ngx_vts.UpstreamStats.{
  UpstreamServerStats, new_server, count_buckets, response_time_bucket_bounds_ms, no_buckets,
}

pub record UpstreamCounters : Type 0 where
  pub request_counter : ℕ
  pub in_bytes : ℕ
  pub out_bytes : ℕ
  pub status_1xx : ℕ
  pub status_2xx : ℕ
  pub status_3xx : ℕ
  pub status_4xx : ℕ
  pub status_5xx : ℕ
  pub request_time_total : ℕ
  pub request_time_counter : ℕ
  pub response_time_total : ℕ
  pub response_time_counter : ℕ
  pub response_buckets : List ℕ

unfoldable pub new : UpstreamCounters
new = record {
  request_counter = 0;
  in_bytes = 0;
  out_bytes = 0;
  status_1xx = 0;
  status_2xx = 0;
  status_3xx = 0;
  status_4xx = 0;
  status_5xx = 0;
  request_time_total = 0;
  request_time_counter = 0;
  response_time_total = 0;
  response_time_counter = 0;
  response_buckets = no_buckets;
}

unfoldable pub into_stats : UpstreamCounters → Bytes → UpstreamServerStats
unfolding new_server
into_stats c server =
    let stats : UpstreamServerStats = new_server server in
    record stats {
      request_counter = c.request_counter;
      in_bytes = c.in_bytes;
      out_bytes = c.out_bytes;
      responses = record {
        status_1xx = c.status_1xx;
        status_2xx = c.status_2xx;
        status_3xx = c.status_3xx;
        status_4xx = c.status_4xx;
        status_5xx = c.status_5xx;
      };
      request_time_total = c.request_time_total;
      request_time_counter = c.request_time_counter;
      response_time_total = c.response_time_total;
      response_time_counter = c.response_time_counter;
      response_buckets = c.response_buckets;
    }

-- The `match status` that ends `update`.
abbrev count_status : ℕ → UpstreamCounters → UpstreamCounters
count_status status c =
    if within 100 199 status
    then record c { status_1xx = add64 c.status_1xx 1 }
    else if within 200 299 status
    then record c { status_2xx = add64 c.status_2xx 1 }
    else if within 300 399 status
    then record c { status_3xx = add64 c.status_3xx 1 }
    else if within 400 499 status
    then record c { status_4xx = add64 c.status_4xx 1 }
    else if within 500 599 status
    then record c { status_5xx = add64 c.status_5xx 1 }
    else c

unfoldable pub update : UpstreamCounters → ℕ → ℕ → ℕ → ℕ → ℕ → UpstreamCounters
update c request_time upstream_response_time bytes_sent bytes_received status =
    let counted : UpstreamCounters = record c {
      request_counter = add64 c.request_counter 1;
      in_bytes = add64 c.in_bytes bytes_received;
      out_bytes = add64 c.out_bytes bytes_sent;
    } in
    let requested : UpstreamCounters =
      if ltb 0 request_time
      then record counted {
        request_time_total = add64 counted.request_time_total request_time;
        request_time_counter = add64 counted.request_time_counter 1;
      }
      else counted in
    let responded : UpstreamCounters = record requested {
      response_time_total = add64 requested.response_time_total upstream_response_time;
      response_time_counter = add64 requested.response_time_counter 1;
      response_buckets =
          count_buckets upstream_response_time response_time_bucket_bounds_ms
            requested.response_buckets;
    } in
    count_status status responded
