-- ===== src/Tests/Counters.antt =====
-- Counters, keys, the clock and the statistics of a process.
use mathlib.Core.List.Perm
use ngx_vts.Prelude.{
  ◌+◌, ◌*◌, ◌≤◌, codes, some, List, [], ◌∷◌, ◌≡◌, ◌↔◌, refl, arith, if◌then◌else◌, leb, ltb, ◌&&◌,
  ◌-◌, add64,
}
use ngx_vts.UpstreamStats
use ngx_vts.UpstreamStats.{StatusClass, status_class, count_buckets}
use ngx_vts.Shm.Server
use ngx_vts.Shm.Server.{ServerCounters}
use ngx_vts.Shm.Server.History.{Request, replay}
use ngx_vts.Shm.Server.Order.{server_replay-perm}
use ngx_vts.Shm.Server.Bounds.{request_time_bounds}
use ngx_vts.Shm.Server.Shown.{shown, into_stats-replay}
use ngx_vts.Instances.{quotients}
use ngx_vts.Shm.Upstream
use ngx_vts.Shm.Upstream.History
use ngx_vts.Shm.Upstream.History.{UpstreamRequest}
use ngx_vts.Shm.Upstream.Order.{upstream_replay-perm}
use ngx_vts.Shm.Upstream.Bounds.{response_buckets-IsCumulative, IsCumulative}
use ngx_vts.Shm.Keys.{upstream_key_bytes, split_upstream_key, split_upstream_key_iff, NulFree}
use ngx_vts.Clock.{calculate_time_diff_ms, calculate_time_diff_ms_lem}
use ngx_vts.Manager
use ngx_vts.Manager.{record_in_zone}
use ngx_vts.Manager.Totals.{totals-record_in_zone}
use ngx_vts.Manager.Counters

-- `server_counters_accumulate_correctly`
abbrev three : List Request
three =
    record { status = 404; bytes_in = 50; bytes_out = 80; request_time = 10 }
    ∷ record { status = 200; bytes_in = 200; bytes_out = 2000; request_time = 70 }
    ∷ record { status = 200; bytes_in = 100; bytes_out = 1000; request_time = 50 }
    ∷ []

accumulate : replay three ≡ record {
  requests = 3;
  bytes_in = 350;
  bytes_out = 3080;
  status_1xx = 0;
  status_2xx = 2;
  status_3xx = 0;
  status_4xx = 1;
  status_5xx = 0;
  request_time_total = 130;
  request_time_max = 70;
  request_time_min = 10;
}
unfolding replay Server.new Server.update status_class
accumulate = refl

server_replay-perm_example :
    replay three
    ≡ replay (
        record { status = 200; bytes_in = 200; bytes_out = 2000; request_time = 70 }
        ∷ record { status = 404; bytes_in = 50; bytes_out = 80; request_time = 10 }
        ∷ record { status = 200; bytes_in = 100; bytes_out = 1000; request_time = 50 }
        ∷ [])
server_replay-perm_example = server_replay-perm three _ (Perm.swap _ _ _)

request_time_bounds_example :
    let c = replay three in
    (c.request_time_min * c.requests ≤ c.request_time_total)
    × (c.request_time_total ≤ c.request_time_max * c.requests)
request_time_bounds_example = request_time_bounds three (omega arith) (omega arith)

into_stats-replay_example : Server.into_stats quotients (replay three) ≡ shown quotients three
into_stats-replay_example =
    into_stats-replay quotients three (omega arith, (omega arith, (omega arith, tt)))

shown-three : shown quotients three ≡ record {
  requests = 3;
  bytes_in = 350;
  bytes_out = 3080;
  responses = record {
    status_1xx = 0;
    status_2xx = 2;
    status_3xx = 0;
    status_4xx = 1;
    status_5xx = 0;
  };
  request_times = record {
    total = (130, 1000);
    min = (10, 1000);
    max = (70, 1000);
    avg = (130, 3000);
  };
}
shown-three = refl

abbrev fast : UpstreamRequest
fast = record {
  request_time = 7;
  response_time = 5;
  bytes_sent = 10;
  bytes_received = 20;
  status = 200;
}

abbrev slow : UpstreamRequest
slow = record {
  request_time = 0;
  response_time = 3000;
  bytes_sent = 1;
  bytes_received = 2;
  status = 502;
}

buckets :
    (Upstream.History.replay (slow ∷ fast ∷ [])).response_buckets
    ≡ 1 ∷ 1 ∷ 1 ∷ 1 ∷ 1 ∷ 1 ∷ 1 ∷ 1 ∷ 1 ∷ 2 ∷ 2 ∷ []
unfolding Upstream.History.replay Upstream.new Upstream.update count_buckets status_class
buckets = refl

upstream_replay-perm_example :
    Upstream.History.replay (slow ∷ fast ∷ []) ≡ Upstream.History.replay (fast ∷ slow ∷ [])
upstream_replay-perm_example =
    upstream_replay-perm (slow ∷ fast ∷ []) (fast ∷ slow ∷ []) (Perm.swap _ _ _)

response_buckets-IsCumulative_example :
    let c = Upstream.History.replay (slow ∷ fast ∷ []) in
    IsCumulative c.response_buckets c.response_time_counter
response_buckets-IsCumulative_example =
    response_buckets-IsCumulative (slow ∷ fast ∷ []) (omega arith)

into_stats-update_example :
    Upstream.into_stats (Upstream.update Upstream.new 7 5 10 20 200) (codes "a:80")
    ≡ Manager.record_request (Upstream.into_stats Upstream.new (codes "a:80")) 7 5 10 20 200
into_stats-update_example = Counters.into_stats-update Upstream.new (codes "a:80") 7 5 10 20 200

split_upstream_key_iff_example :
    (split_upstream_key (b'a' ∷ 0 ∷ b'b' ∷ []) ≡ some (codes "a", codes "b"))
    ↔ ((b'a' ∷ 0 ∷ b'b' ∷ [] ≡ upstream_key_bytes (codes "a") (codes "b")) × NulFree (codes "a"))
split_upstream_key_iff_example =
    split_upstream_key_iff (b'a' ∷ 0 ∷ b'b' ∷ []) (codes "a") (codes "b")

-- A clock that steps back by a second and forward by 300 milliseconds.
skew_of_seconds : calculate_time_diff_ms 101 100 100 400 ≡ 300
unfolding calculate_time_diff_ms
skew_of_seconds = refl

calculate_time_diff_ms_lem_example :
    calculate_time_diff_ms 100 900 101 100
    ≡ (if ltb 101 100 && leb 900 100 then 100 - 900 else (101 * 1000 + 100) - (100 * 1000 + 900))
calculate_time_diff_ms_lem_example =
    calculate_time_diff_ms_lem 100 900 101 100 (omega arith) (omega arith)

totals-record_in_zone_example :
    let z = UpstreamStats.new_zone (codes "b") in
    let z' = record_in_zone z (codes "a:80") 7 5 10 20 200 in
    (UpstreamStats.total_requests z' ≡ add64 (UpstreamStats.total_requests z) 1)
    × ((UpstreamStats.total_bytes z').0 ≡ add64 (UpstreamStats.total_bytes z).0 20)
    × ((UpstreamStats.total_bytes z').1 ≡ add64 (UpstreamStats.total_bytes z).1 10)
totals-record_in_zone_example =
    totals-record_in_zone (UpstreamStats.new_zone (codes "b")) (codes "a:80") 7 5 10 20 200
