-- ===== src/UpstreamStats.antt =====
-- src/upstream_stats.rs: statistics of one upstream server and of an upstream group, and the
-- response-time histogram.
pub mod Histogram
pub mod Classes
use ngx_vts.Prelude.{
  ℕ, zero, suc, Bytes, Bool, true, false, List, [], ◌∷◌, map, replicate, add64, ltb, leb, within,
  if◌then◌else◌,
}
use ngx_vts.Float.{F64}
use ngx_vts.HashMap
use ngx_vts.HashMap.{HashMap}

-- The arms of the `match` on a status code in `update_response_status`; the counters in shared memory
-- have such a `match` each of their own.
pub data StatusClass : Type 0 where
  status_1xx status_2xx status_3xx status_4xx status_5xx : StatusClass
  other : StatusClass

unfoldable pub status_class : ℕ → StatusClass
status_class status =
    if within 100 199 status
    then StatusClass.status_1xx
    else if within 200 299 status
    then StatusClass.status_2xx
    else if within 300 399 status
    then StatusClass.status_3xx
    else if within 400 499 status
    then StatusClass.status_4xx
    else if within 500 599 status
    then StatusClass.status_5xx
    else StatusClass.other

abbrev pub response_time_bucket_bounds_ms : List ℕ
response_time_bucket_bounds_ms =
    5 ∷ 10 ∷ 25 ∷ 50 ∷ 100 ∷ 250 ∷ 500 ∷ 1000 ∷ 2500 ∷ 5000 ∷ 10000 ∷ []

abbrev pub response_time_bucket_count : ℕ
response_time_bucket_count = 11

pub record VtsResponseStats : Type 0 where
  pub status_1xx : ℕ
  pub status_2xx : ℕ
  pub status_3xx : ℕ
  pub status_4xx : ℕ
  pub status_5xx : ℕ

pub record UpstreamServerStats : Type 0 where
  pub server : Bytes
  pub request_counter : ℕ
  pub in_bytes : ℕ
  pub out_bytes : ℕ
  pub responses : VtsResponseStats
  pub request_time_total : ℕ
  pub request_time_counter : ℕ
  pub response_time_total : ℕ
  pub response_time_counter : ℕ
  pub response_buckets : List ℕ
  pub weight : ℕ
  pub max_fails : ℕ
  pub fail_timeout : ℕ
  pub backup : Bool
  pub down : Bool

pub record UpstreamZone : Type 0 where
  pub name : Bytes
  pub servers : HashMap UpstreamServerStats

-- `for (i, &bound) in BOUNDS.iter().enumerate() { if time <= bound { buckets[i] += 1 } }`. The
-- two arrays have one length.
unfoldable pub count_buckets : ℕ → List ℕ → List ℕ → List ℕ
count_buckets time [] buckets = buckets
count_buckets time (bound ∷ bounds) [] = []
count_buckets time (bound ∷ bounds) (n ∷ buckets) =
    (if leb time bound then add64 n 1 else n) ∷ count_buckets time bounds buckets

abbrev pub no_buckets : List ℕ
no_buckets = replicate response_time_bucket_count 0

-- `VtsResponseStats::default()`
abbrev pub default_responses : VtsResponseStats
default_responses = record {
  status_1xx = 0;
  status_2xx = 0;
  status_3xx = 0;
  status_4xx = 0;
  status_5xx = 0;
}

-- `UpstreamServerStats::new`
unfoldable pub new_server : Bytes → UpstreamServerStats
new_server server = record {
  server = server;
  request_counter = 0;
  in_bytes = 0;
  out_bytes = 0;
  responses = default_responses;
  request_time_total = 0;
  request_time_counter = 0;
  response_time_total = 0;
  response_time_counter = 0;
  response_buckets = no_buckets;
  weight = 1;
  max_fails = 1;
  fail_timeout = 10;
  backup = false;
  down = false;
}

abbrev count_class : StatusClass → VtsResponseStats → VtsResponseStats
count_class StatusClass.status_1xx r = record r { status_1xx = add64 r.status_1xx 1 }
count_class StatusClass.status_2xx r = record r { status_2xx = add64 r.status_2xx 1 }
count_class StatusClass.status_3xx r = record r { status_3xx = add64 r.status_3xx 1 }
count_class StatusClass.status_4xx r = record r { status_4xx = add64 r.status_4xx 1 }
count_class StatusClass.status_5xx r = record r { status_5xx = add64 r.status_5xx 1 }
count_class StatusClass.other r = r

unfoldable pub update_response_status : UpstreamServerStats → ℕ → UpstreamServerStats
update_response_status s status_code = record s {
  responses = count_class (status_class status_code) s.responses;
}

unfoldable pub update_timing : UpstreamServerStats → ℕ → ℕ → UpstreamServerStats
update_timing s request_time upstream_response_time =
    let t : UpstreamServerStats =
      if ltb 0 request_time
      then record s {
        request_time_total = add64 s.request_time_total request_time;
        request_time_counter = add64 s.request_time_counter 1;
      }
      else s in
    record t {
      response_time_total = add64 t.response_time_total upstream_response_time;
      response_time_counter = add64 t.response_time_counter 1;
      response_buckets =
          count_buckets upstream_response_time response_time_bucket_bounds_ms t.response_buckets;
    }

module _ (F : F64) where
  unfoldable pub avg_request_time : UpstreamServerStats → F.Carrier
  avg_request_time s =
      if ltb 0 s.request_time_counter
      then F.div (F.of_u64 s.request_time_total) (F.of_u64 s.request_time_counter)
      else F.of_u64 0

  unfoldable pub avg_response_time : UpstreamServerStats → F.Carrier
  avg_response_time s =
      if ltb 0 s.response_time_counter
      then F.div (F.of_u64 s.response_time_total) (F.of_u64 s.response_time_counter)
      else F.of_u64 0

-- `UpstreamZone::new`
unfoldable pub new_zone : Bytes → UpstreamZone
new_zone name = record { name = name; servers = [] }

-- `get_or_create_server`, as the zone that it leaves; the reference that it returns is the entry.
unfoldable pub get_or_create_server : UpstreamZone → Bytes → UpstreamZone
get_or_create_server z server_addr = record z {
  servers = HashMap.or_insert z.servers server_addr (new_server server_addr);
}

-- `iter().sum::<u64>()`
unfoldable pub sum64 : List ℕ → ℕ
sum64 [] = 0
sum64 (n ∷ ns) = add64 n (sum64 ns)

unfoldable pub total_requests : UpstreamZone → ℕ
unfolding sum64
total_requests z =
    sum64 (map (λ (s : UpstreamServerStats). s.request_counter) (HashMap.values z.servers))

unfoldable pub total_bytes : UpstreamZone → ℕ × ℕ
unfolding sum64
total_bytes z = (
  sum64 (map (λ (s : UpstreamServerStats). s.in_bytes) (HashMap.values z.servers)),
  sum64 (map (λ (s : UpstreamServerStats). s.out_bytes) (HashMap.values z.servers)),
)
