-- ===== src/Tests/Source/Flows.antt =====
-- The tests of recording and of the initialization, seen on the status page (src/lib.rs).
use ngx_vts.Prelude.{
  ℕ, ◌+◌, ◌/◌, ◌%◌, Bytes, codes, is_utf8, Bool, true, not, some, List, [], ◌∷◌, ◌++◌, map, ◌==◌,
  ◌&&◌, ◌≡◌, refl, all_of, if◌then◌else◌,
}
use ngx_vts.Module.{Globals, vts_track_upstream_request}
use ngx_vts.Module.Setup.{initialize_manager, initialize_upstream_zones_from_config}
use ngx_vts.Shm.Record.{shared, record_upstream}
use ngx_vts.Module.Stores.{roomy}
use ngx_vts.Module.{calculate_request_time}
use ngx_vts.Clock.{calculate_time_diff_ms}
use ngx_vts.Instances.{list_map}
use ngx_vts.Tests.Worker.{local}
use ngx_vts.Tests.Source.{range_from}
use ngx_vts.Tests.Source.Pages.{content_of, contains_all, upstream_call, after}

abbrev backend : Bytes
backend = codes "backend"

abbrev addr : Bytes
addr = codes "127.0.0.1:8080"

-- A metric of the one server, up to its value.
abbrev metric : Bytes → Bytes → Bytes
metric name more =
    codes "nginx_vts_upstream_"
    ++ (name ++ (codes "{upstream=\"backend\",server=\"127.0.0.1:8080\"" ++ more))

abbrev bulk : List (Globals list_map → Globals list_map)
bulk =
    map
      (λ i.
        let status_code : ℕ = if i % 50 == 0 then 500 else if i % 20 == 0 then 404 else 200 in
        let request_time : ℕ = 40 + i % 30 in
        upstream_call backend addr request_time (request_time / 2) 1500 750 status_code)
      (range_from 0 500)

abbrev test_bulk_upstream_requests_render_correctly : Bool
test_bulk_upstream_requests_render_correctly = contains_all (content_of (after bulk)) (
    metric (codes "requests_total") (codes "} 500")
    ∷ metric (codes "bytes_total") (codes ",direction=\"in\"} 375000")
    ∷ metric (codes "bytes_total") (codes ",direction=\"out\"} 750000")
    ∷ metric (codes "server_up") (codes "} 1")
    ∷ [])

abbrev test_no_upstream_metrics_until_first_request : Bool
test_no_upstream_metrics_until_first_request =
    let content : Bytes = content_of local in
    not (contains_all content (codes "nginx_vts_upstream_requests_total{" ∷ []))
    && contains_all content (
        codes "# nginx-vts-rust"
        ∷ codes "# VTS Status: Active"
        ∷ codes "# HELP nginx_vts_info"
        ∷ [])

abbrev test_upstream_counters_accumulate_across_requests : Bool
test_upstream_counters_accumulate_across_requests =
    let one : Globals list_map = upstream_call backend addr 85 42 1024 512 200 local in
    let two : Globals list_map = upstream_call backend addr 92 48 1536 768 200 one in
    contains_all (content_of one) (
      metric (codes "requests_total") (codes "} 1")
      ∷ metric (codes "bytes_total") (codes ",direction=\"in\"} 512")
      ∷ [])
    && contains_all (content_of two) (
        metric (codes "requests_total") (codes "} 2")
        ∷ metric (codes "bytes_total") (codes ",direction=\"in\"} 1280")
        ∷ metric (codes "bytes_total") (codes ",direction=\"out\"} 2560")
        ∷ metric (codes "responses_total") (codes ",status=\"2xx\"} 2")
        ∷ [])

-- A call of `vts_track_upstream_request` from C, with the clock at the start of the request: a test
-- build takes 0 for its duration.
unfoldable track_call : ℕ → ℕ → ℕ → ℕ → ℕ → Globals list_map → Globals list_map
unfolding upstream_call vts_track_upstream_request calculate_request_time calculate_time_diff_ms
    is_utf8 record_upstream shared
track_call start_msec response_ms bytes_sent bytes_received status g =
    vts_track_upstream_request list_map g (some backend) (some addr) 1000 start_msec
      (record { sec = 1000; msec = start_msec }) response_ms bytes_sent bytes_received status roomy

abbrev test_vts_track_upstream_request_ffi_records_into_state : Bool
test_vts_track_upstream_request_ffi_records_into_state =
    contains_all (content_of (after (track_call 500 38 2048 1024 200 ∷ []))) (
      metric (codes "requests_total") (codes "} 1")
      ∷ metric (codes "bytes_total") (codes ",direction=\"in\"} 1024")
      ∷ metric (codes "bytes_total") (codes ",direction=\"out\"} 2048")
      ∷ [])

unfoldable initialized : Globals list_map → Globals list_map
unfolding upstream_call initialize_upstream_zones_from_config initialize_manager
initialized = initialize_upstream_zones_from_config list_map

abbrev test_initialize_upstream_zones_seeds_zero_metrics : Bool
test_initialize_upstream_zones_seeds_zero_metrics =
    contains_all (content_of local) (codes "nginx_vts_upstream_zones_total 0" ∷ [])
    && contains_all (content_of (initialized local)) (
        metric (codes "requests_total") (codes "} 0")
        ∷ metric (codes "bytes_total") (codes ",direction=\"in\"} 0")
        ∷ metric (codes "bytes_total") (codes ",direction=\"out\"} 0")
        ∷ metric (codes "server_up") (codes "} 1")
        ∷ map
            (λ class.
              metric (codes "responses_total") (codes ",status=\"" ++ (class ++ codes "\"} 0")))
            (codes "1xx" ∷ codes "2xx" ∷ codes "3xx" ∷ codes "4xx" ∷ codes "5xx" ∷ []))

abbrev test_status_response_includes_help_and_type_headers : Bool
test_status_response_includes_help_and_type_headers =
    contains_all (content_of (initialized local)) (
      codes "# HELP nginx_vts_upstream_requests_total Total upstream requests"
      ∷ codes "# TYPE nginx_vts_upstream_requests_total counter"
      ∷ codes "# HELP nginx_vts_upstream_bytes_total Total bytes transferred to/from upstream"
      ∷ codes "# HELP nginx_vts_upstream_response_seconds Upstream response time statistics"
      ∷ codes "# HELP nginx_vts_upstream_server_up Upstream server status (1=up, 0=down)"
      ∷ codes "# HELP nginx_vts_upstream_responses_total Upstream responses by status code"
      ∷ [])

abbrev test_complete_status_flow_init_request_then_recorded : Bool
test_complete_status_flow_init_request_then_recorded =
    let first : Globals list_map = initialized local in
    let third : Globals list_map = upstream_call backend addr 94 30 1370 615 200 first in
    contains_all (content_of first) (metric (codes "requests_total") (codes "} 0") ∷ [])
    && contains_all (content_of third) (
        metric (codes "requests_total") (codes "} 1")
        ∷ metric (codes "bytes_total") (codes ",direction=\"in\"} 615")
        ∷ metric (codes "bytes_total") (codes ",direction=\"out\"} 1370")
        ∷ metric (codes "response_seconds") (codes ",type=\"request_avg\"} 0.094000")
        ∷ metric (codes "response_seconds") (codes ",type=\"upstream_avg\"} 0.030000")
        ∷ [])

abbrev test_log_phase_ffi_accumulates_across_calls : Bool
test_log_phase_ffi_accumulates_across_calls =
    let g : Globals list_map = after (
      initialized
      ∷ track_call 500 42 1024 512 200
      ∷ track_call 600 55 2048 1024 200
      ∷ track_call 700 48 1536 768 404
      ∷ []) in
    contains_all (content_of g) (
      metric (codes "requests_total") (codes "} 3")
      ∷ metric (codes "bytes_total") (codes ",direction=\"in\"} 2304")
      ∷ metric (codes "bytes_total") (codes ",direction=\"out\"} 4608")
      ∷ metric (codes "responses_total") (codes ",status=\"2xx\"} 2")
      ∷ metric (codes "responses_total") (codes ",status=\"4xx\"} 1")
      ∷ [])

abbrev test_log_phase_ffi_categorises_diverse_status_codes : Bool
test_log_phase_ffi_categorises_diverse_status_codes =
    let mixed : List (Globals list_map → Globals list_map) =
      map (track_call 1 25 200 100) (301 ∷ 302 ∷ 400 ∷ 401 ∷ 403 ∷ 500 ∷ 502 ∷ 503 ∷ []) in
    let g : Globals list_map =
      after
        (initialized ∷ track_call 1 0 100 50 200 ∷ track_call 1 1800 1048576 2097152 200 ∷ mixed) in
    contains_all (content_of g) (
      metric (codes "requests_total") (codes "} 10")
      ∷ metric (codes "responses_total") (codes ",status=\"2xx\"} 2")
      ∷ metric (codes "responses_total") (codes ",status=\"3xx\"} 2")
      ∷ metric (codes "responses_total") (codes ",status=\"4xx\"} 3")
      ∷ metric (codes "responses_total") (codes ",status=\"5xx\"} 3")
      ∷ [])

bulk_passes : test_bulk_upstream_requests_render_correctly ≡ true
unfolding content_of contains_all upstream_call
bulk_passes = refl

flows_pass :
    all_of
      (λ b. b)
      (test_no_upstream_metrics_until_first_request
        ∷ test_upstream_counters_accumulate_across_requests
        ∷ test_vts_track_upstream_request_ffi_records_into_state
        ∷ test_initialize_upstream_zones_seeds_zero_metrics
        ∷ test_status_response_includes_help_and_type_headers
        ∷ test_complete_status_flow_init_request_then_recorded
        ∷ test_log_phase_ffi_accumulates_across_calls
        ∷ test_log_phase_ffi_categorises_diverse_status_codes ∷ [])
    ≡ true
unfolding content_of contains_all upstream_call track_call initialized
flows_pass = refl
