-- ===== src/Module.antt =====
-- src/lib.rs: the globals of a worker process and the functions that nginx's C side calls. A C
-- string is its bytes up to the NUL, and `none` is a null pointer.
pub mod Connections
pub mod Setup
pub mod Laws
pub mod Invariant
pub mod Statuses
pub mod Stores
use ngx_vts.Prelude.{
  ℕ, Bytes, codes, is_utf8, Option, none, some, Bool, true, false, not, ◌==◌, if◌then◌else◌,
}
use ngx_vts.HashMap.{HashMap}
use ngx_vts.Clock.{calculate_time_diff_ms}
use ngx_vts.ConnectionStats.{StatPointers}
use ngx_vts.CacheStats
use ngx_vts.CacheStats.{CacheStatsManager, CacheZoneStats, Unicode}
use ngx_vts.Manager
use ngx_vts.Manager.{VtsStatsManager}
use ngx_vts.Shm.Table.{RbTreeMap}
use ngx_vts.Shm.Record.{ShmState, Room, record_server, record_upstream, record_cache}

-- `poisoned` says whether a panic has poisoned the lock of `VTS_MANAGER`; every user but
-- `vts_is_upstream_stats_enabled` recovers the value.
pub record Globals (R : RbTreeMap) : Type 0 where
  pub shm : ShmState R
  pub vts_manager : VtsStatsManager
  pub poisoned : Bool
  pub cache_manager : CacheStatsManager
  pub stat_pointers : Option (Option StatPointers)

-- A reading of nginx's clock, `ngx_timeofday()`.
pub record Time : Type 0 where
  pub sec : ℕ
  pub msec : ℕ

unfoldable pub calculate_request_time : Time → ℕ → ℕ → ℕ
calculate_request_time tp start_sec start_msec =
    calculate_time_diff_ms start_sec start_msec tp.sec tp.msec

-- `CStr::to_str`
abbrev pub to_str : Bytes → Option Bytes
to_str s = if is_utf8 s then some s else none

-- `to_str().unwrap_or(d)`
abbrev pub to_str_or : Bytes → Bytes → Bytes
to_str_or d s = if is_utf8 s then s else d

unfoldable pub cache_status_str : ℕ → Option Bytes
cache_status_str status =
    if status == 1
    then some (codes "MISS")
    else if status == 2
    then some (codes "BYPASS")
    else if status == 3
    then some (codes "EXPIRED")
    else if status == 4
    then some (codes "STALE")
    else if status == 5
    then some (codes "UPDATING")
    else if status == 6
    then some (codes "REVALIDATED")
    else if status == 7
    then some (codes "HIT")
    else if status == 8
    then some (codes "SCARCE")
    else none

module _ (R : RbTreeMap) where
  unfoldable pub update_server_zone_stats : Globals R → Bytes → ℕ → ℕ → ℕ → ℕ → Globals R
  update_server_zone_stats g server_name status bytes_in bytes_out request_time = record g {
    vts_manager =
        Manager.update_server_stats g.vts_manager server_name status bytes_in bytes_out
          request_time;
  }

  unfoldable pub update_upstream_zone_stats :
      Globals R → Bytes → Bytes → ℕ → ℕ → ℕ → ℕ → ℕ → Globals R
  update_upstream_zone_stats g upstream_name upstream_addr request_time upstream_response_time
        bytes_sent bytes_received status_code =
      record g {
        vts_manager =
            Manager.update_upstream_stats g.vts_manager upstream_name upstream_addr request_time
              upstream_response_time bytes_sent bytes_received status_code;
      }

  unfoldable pub update_connection_stats : Globals R → ℕ → ℕ → ℕ → ℕ → ℕ → ℕ → Globals R
  update_connection_stats g active reading writing waiting accepted handled = record g {
    vts_manager =
        Manager.update_connection_stats g.vts_manager active reading writing waiting accepted
          handled;
  }

  unfoldable pub vts_track_upstream_request :
      Globals R → Option Bytes → Option Bytes → ℕ → ℕ → Time → ℕ → ℕ → ℕ → ℕ → Room → Globals R
  vts_track_upstream_request g none server_addr _ _ _ _ _ _ _ _ = g
  vts_track_upstream_request g (some upstream_name) none _ _ _ _ _ _ _ _ = g
  vts_track_upstream_request g (some upstream_name) (some server_addr) start_sec start_msec tp
        upstream_response_time bytes_sent bytes_received status_code room =
      let upstream_name_str : Bytes = to_str_or (codes "unknown") upstream_name in
      let server_addr_str : Bytes = to_str_or (codes "unknown:0") server_addr in
      let request_time : ℕ = calculate_request_time tp start_sec start_msec in
      let (shm, recorded) =
        record_upstream R g.shm upstream_name_str server_addr_str request_time
          upstream_response_time bytes_sent bytes_received status_code room in
      let g' : Globals R = record g { shm = shm } in
      if recorded
      then g'
      else update_upstream_zone_stats g' upstream_name_str server_addr_str request_time
          upstream_response_time bytes_sent bytes_received status_code

  unfoldable pub vts_update_server_stats_ffi :
      Globals R → Option Bytes → ℕ → ℕ → ℕ → ℕ → Room → Globals R
  vts_update_server_stats_ffi g none _ _ _ _ _ = g
  vts_update_server_stats_ffi g (some server_name) status bytes_in bytes_out request_time room =
      elim (to_str server_name) [
        | none ↦ g
        | some server_name_str ↦
            let (shm, recorded) =
              record_server R g.shm server_name_str status bytes_in bytes_out request_time room in
            let g' : Globals R = record g { shm = shm } in
            if recorded
            then g'
            else update_server_zone_stats g' server_name_str status bytes_in bytes_out request_time
      ]

  unfoldable pub vts_is_upstream_stats_enabled : Globals R → Bool
  vts_is_upstream_stats_enabled g = not g.poisoned

  unfoldable pub get_all_cache_zones : Globals R → HashMap CacheZoneStats
  unfolding CacheStats.get_all_cache_zones
  get_all_cache_zones g = CacheStats.get_all_cache_zones g.cache_manager

  unfoldable pub update_cache_size : Globals R → Bytes → ℕ → ℕ → Globals R
  update_cache_size g zone_name max_size used_size = record g {
    cache_manager = CacheStats.update_cache_size g.cache_manager zone_name max_size used_size;
  }

  module _ (U : Unicode) where
    unfoldable pub update_cache_stats : Globals R → Bytes → Bytes → Globals R
    update_cache_stats g zone_name cache_status = record g {
      cache_manager = CacheStats.update_cache_stats U g.cache_manager zone_name cache_status;
    }

    -- The two updates of the process-local manager, by name.
    abbrev update_local_cache : Globals R → Bytes → Bytes → ℕ → ℕ → Globals R
    update_local_cache g zone status max_size used_size =
        let updated : CacheStatsManager =
          CacheStats.update_cache_stats U g.cache_manager zone status in
        record g { cache_manager = CacheStats.update_cache_size updated zone max_size used_size }

    unfoldable pub vts_update_cache_stats_ffi :
        Globals R → Option Bytes → ℕ → ℕ → ℕ → Room → Globals R
    vts_update_cache_stats_ffi g none _ _ _ _ = g
    vts_update_cache_stats_ffi g (some zone_name) cache_status max_size used_size room =
        elim (cache_status_str cache_status) [
          | none ↦ g
          | some status_str ↦ elim (to_str zone_name) [
            | none ↦ g
            | some zone_str ↦
                let (shm, recorded) =
                  record_cache R g.shm zone_str cache_status max_size used_size room in
                let g' : Globals R = record g { shm = shm } in
                if recorded
                then g'
                else update_local_cache g' zone_str status_str max_size used_size
          ]
        ]
