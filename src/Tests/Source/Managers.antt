-- ===== src/Tests/Source/Managers.antt =====
-- The tests of the process-local manager (src/vts_node.rs).
use ngx_vts.Prelude.{
  ◌+◌, ◌*◌, ◌%◌, Bytes, codes, decimal, eqb, Bool, true, [], ◌∷◌, ◌++◌, ◌==◌, ◌&&◌, ◌≡◌, refl,
  all_of, length, if◌then◌else◌,
}
use ngx_vts.HashMap
use ngx_vts.UpstreamStats
use ngx_vts.UpstreamStats.{avg_request_time, avg_response_time}
use ngx_vts.Shm.Server
use ngx_vts.Manager
use ngx_vts.Manager.{
  VtsStatsManager, update_upstream_stats, get_upstream_zone, get_all_upstream_zones,
}
use ngx_vts.Prometheus.Lines
use ngx_vts.Prometheus.Upstream
use ngx_vts.Prometheus.Upstream.{format_upstream_stats}
use ngx_vts.Tests.Source.{
  fold, range_from, same_float, unwrap_or_fail, starts_with, contains, count_matches,
}
use ngx_vts.Tests.Source.Formats.{rounded}

abbrev test_vts_stats_manager_initialization : Bool
test_vts_stats_manager_initialization =
    length Manager.new.stats == 0 && length Manager.new.upstream_zones == 0

abbrev update_server_stats_records_through_server_counters : Bool
update_server_stats_records_through_server_counters =
    let name : Bytes = codes "example.test" in
    let m1 = Manager.update_server_stats Manager.new name 200 100 1000 50 in
    let m2 = Manager.update_server_stats m1 name 404 50 200 200 in
    let m3 = Manager.update_server_stats m2 name 200 75 500 120 in
    unwrap_or_fail (HashMap.get (Manager.get_all_server_stats rounded m3) name) (λ s.
      s.requests == 3
      && s.bytes_in == 225
      && s.bytes_out == 1700
      && s.responses.status_2xx == 2
      && s.responses.status_4xx == 1
      && same_float s.request_times.min (50, 1000)
      && same_float s.request_times.max (200, 1000))

abbrev web : Bytes
web = codes "web_backend"

abbrev api : Bytes
api = codes "api_backend"

abbrev pipeline : VtsStatsManager
pipeline =
    let m1 = update_upstream_stats Manager.new web (codes "192.168.1.10:80") 120 60 1500 800 200 in
    let m2 = update_upstream_stats m1 web (codes "192.168.1.11:80") 180 90 2000 1000 200 in
    let m3 = update_upstream_stats m2 web (codes "192.168.1.10:80") 250 120 1200 600 404 in
    let m4 = update_upstream_stats m3 api (codes "192.168.2.10:8080") 80 40 800 400 200 in
    update_upstream_stats m4 api (codes "192.168.2.11:8080") 300 200 3000 1500 500

abbrev test_complete_upstream_pipeline : Bool
test_complete_upstream_pipeline =
    let out : Bytes = format_upstream_stats rounded Lines.new (get_all_upstream_zones pipeline) in
    let requests : Bytes → Bytes → Bool = λ upstream rest.
      contains out (codes "nginx_vts_upstream_requests_total{upstream=\"" ++ (upstream ++ rest)) in
    let responses : Bytes → Bytes → Bool = λ upstream rest.
      contains out (codes "nginx_vts_upstream_responses_total{upstream=\"" ++ (upstream ++ rest)) in
    unwrap_or_fail (get_upstream_zone pipeline web)
      (λ z. length z.servers == 2 && UpstreamStats.total_requests z == 3)
    && unwrap_or_fail (get_upstream_zone pipeline api)
        (λ z. length z.servers == 2 && UpstreamStats.total_requests z == 2)
    && requests web (codes "\",server=\"192.168.1.10:80\"} 2")
    && requests web (codes "\",server=\"192.168.1.11:80\"} 1")
    && requests api (codes "\",server=\"192.168.2.10:8080\"} 1")
    && requests api (codes "\",server=\"192.168.2.11:8080\"} 1")
    && responses web (codes "\",server=\"192.168.1.10:80\",status=\"2xx\"} 1")
    && responses web (codes "\",server=\"192.168.1.10:80\",status=\"4xx\"} 1")
    && responses api (codes "\",server=\"192.168.2.11:8080\",status=\"5xx\"} 1")

-- The requests of a server, and the servers of an upstream.
abbrev fifty_requests : Bytes → Bytes → VtsStatsManager → VtsStatsManager
fifty_requests upstream server manager =
    fold
      (λ m id.
        update_upstream_stats m upstream server (100 + id % 200) (50 + id % 100) 1500 800
          (if id % 10 == 0 then 500 else 200))
      manager (range_from 0 50)

abbrev large_dataset : VtsStatsManager
large_dataset =
    fold
      (λ m upstream_id.
        fold
          (λ m server_id.
            fifty_requests (codes "backend_" ++ decimal upstream_id)
              (codes "10.0."
                ++ (decimal upstream_id ++ (codes "." ++ (decimal server_id ++ codes ":8080"))))
              m)
          m (range_from 0 3))
      Manager.new (range_from 0 5)

abbrev test_memory_efficiency_large_dataset : Bool
test_memory_efficiency_large_dataset =
    let all_upstreams = get_all_upstream_zones large_dataset in
    let out : Bytes = format_upstream_stats rounded Lines.new all_upstreams in
    length all_upstreams == 5
    && all_of (λ zone. length zone.servers == 3 && UpstreamStats.total_requests zone == 3 * 50)
        (HashMap.values all_upstreams)
    && count_matches out (codes "nginx_vts_upstream_requests_total{") == 5 * 3

-- The ten threads, in the order in which they are spawned: each holds the lock for its whole call.
abbrev test_thread_safety_simulation : Bool
test_thread_safety_simulation =
    let final_manager =
      fold
        (λ m i.
          update_upstream_stats m (codes "concurrent_test")
            (codes "server" ++ (decimal (i % 3) ++ codes ":80")) (100 + i * 10) (50 + i * 5) 1000
            500 200)
        Manager.new (range_from 0 10) in
    unwrap_or_fail (get_upstream_zone final_manager (codes "concurrent_test"))
      (λ z. UpstreamStats.total_requests z == 10 && length z.servers == 3)

abbrev test_upstream_zone_management : Bool
test_upstream_zone_management =
    let manager =
      update_upstream_stats Manager.new (codes "backend") (codes "10.0.0.1:80") 100 50 1024 512
        200 in
    unwrap_or_fail (get_upstream_zone manager (codes "backend")) (λ z.
      eqb z.name (codes "backend")
      && length z.servers == 1
      && unwrap_or_fail (HashMap.get z.servers (codes "10.0.0.1:80")) (λ s.
        s.request_counter == 1
        && s.in_bytes == 512
        && s.out_bytes == 1024
        && s.responses.status_2xx == 1))

abbrev test_multiple_upstream_servers : Bool
test_multiple_upstream_servers =
    let name : Bytes = codes "backend" in
    let m1 = update_upstream_stats Manager.new name (codes "10.0.0.1:80") 100 50 1000 500 200 in
    let m2 = update_upstream_stats m1 name (codes "10.0.0.2:80") 150 75 1500 750 200 in
    let m3 = update_upstream_stats m2 name (codes "10.0.0.1:80") 120 60 1200 600 404 in
    unwrap_or_fail (get_upstream_zone m3 name) (λ z.
      length z.servers == 2
      && unwrap_or_fail (HashMap.get z.servers (codes "10.0.0.1:80")) (λ s.
        s.request_counter == 2 && s.responses.status_2xx == 1 && s.responses.status_4xx == 1)
      && unwrap_or_fail (HashMap.get z.servers (codes "10.0.0.2:80"))
          (λ s. s.request_counter == 1 && s.responses.status_2xx == 1)
      && UpstreamStats.total_requests z == 3)

managers_pass :
    all_of
      (λ b. b)
      (test_vts_stats_manager_initialization ∷ update_server_stats_records_through_server_counters
        ∷ test_thread_safety_simulation ∷ test_upstream_zone_management
        ∷ test_multiple_upstream_servers ∷ [])
    ≡ true
unfolding decimal eqb Manager.new Manager.record_request Manager.record_in_zone
    update_upstream_stats get_upstream_zone get_all_upstream_zones UpstreamStats.status_class
    UpstreamStats.count_buckets UpstreamStats.new_server UpstreamStats.new_zone
    UpstreamStats.total_requests HashMap.get HashMap.or_insert HashMap.modify
    Manager.update_server_stats Manager.get_all_server_stats Server.new Server.update
    Server.into_stats HashMap.map_values
managers_pass = refl

pipeline_passes : test_complete_upstream_pipeline ≡ true
unfolding contains starts_with decimal eqb Manager.new Manager.record_request Manager.record_in_zone
    update_upstream_stats get_upstream_zone get_all_upstream_zones UpstreamStats.status_class
    UpstreamStats.count_buckets UpstreamStats.new_server UpstreamStats.new_zone
    UpstreamStats.total_requests HashMap.get HashMap.or_insert HashMap.modify Lines.new Lines.header
    Lines.sample Lines.each Upstream.trim_end_matches Upstream.trim_bound Upstream.format_le_bound
    Upstream.upstream_sample Upstream.each_server Upstream.requests_lines Upstream.bytes_lines
    Upstream.server_up_lines Upstream.responses_lines Upstream.format_upstream_status_metrics
    Upstream.seconds_lines Upstream.bucket_lines Upstream.histogram_lines
    Upstream.format_upstream_response_histogram format_upstream_stats avg_request_time
    avg_response_time
pipeline_passes = refl

large_dataset_passes : test_memory_efficiency_large_dataset ≡ true
unfolding count_matches starts_with decimal eqb Manager.new Manager.record_request
    Manager.record_in_zone update_upstream_stats get_upstream_zone get_all_upstream_zones
    UpstreamStats.status_class UpstreamStats.count_buckets UpstreamStats.new_server
    UpstreamStats.new_zone UpstreamStats.total_requests HashMap.get HashMap.or_insert HashMap.modify
    Lines.new Lines.header Lines.sample Lines.each Upstream.trim_end_matches Upstream.trim_bound
    Upstream.format_le_bound Upstream.upstream_sample Upstream.each_server Upstream.requests_lines
    Upstream.bytes_lines Upstream.server_up_lines Upstream.responses_lines
    Upstream.format_upstream_status_metrics Upstream.seconds_lines Upstream.bucket_lines
    Upstream.histogram_lines Upstream.format_upstream_response_histogram format_upstream_stats
    avg_request_time avg_response_time
large_dataset_passes = refl
