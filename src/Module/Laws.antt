-- ===== src/Module/Laws.antt =====
-- Which store each entry point writes to, on every branch.
use ngx_vts.Prelude.{
  ℕ, ◌+◌, ◌*◌, ◌≤◌, Bytes, codes, is_utf8, none, some, true, false, ◌≡◌, ◌≢◌, arith, if◌then◌else◌,
}
use ngx_vts.Shm.Table.{RbTreeMap}
use ngx_vts.Shm.Record.{ShmState, Room, shared, record_server, record_upstream, record_cache}
use ngx_vts.Clock.{IsReading, calculate_time_diff_ms_lem}
use ngx_vts.Manager
use ngx_vts.CacheStats
use ngx_vts.CacheStats.{Unicode}
use ngx_vts.Module.{
  vts_update_cache_stats_ffi, cache_status_str, Globals, Time, to_str_or,
  vts_update_server_stats_ffi, update_server_zone_stats, vts_track_upstream_request,
  update_upstream_zone_stats, calculate_request_time,
}

module _ (R : RbTreeMap) where
  -- With a shared zone a recording reports success, and without one it changes nothing.
  pub recorded_server :
      (s : ShmState R) (name : Bytes) (status i o t : ℕ) (room : Room)
      → (shared R s ≡ none → record_server R s name status i o t room ≡ (s, false))
        × (shared R s ≢ none → (record_server R s name status i o t room).1 ≡ true)
  unfolding record_server
  recorded_server s name status i o t room = ground arith

  pub recorded_upstream :
      (s : ShmState R) (u a : Bytes) (t x b r status : ℕ) (room : Room)
      → (shared R s ≡ none → record_upstream R s u a t x b r status room ≡ (s, false))
        × (shared R s ≢ none → (record_upstream R s u a t x b r status room).1 ≡ true)
  unfolding record_upstream
  recorded_upstream s u a t x b r status room = ground arith

  pub recorded_cache :
      (s : ShmState R) (zone : Bytes) (status max used : ℕ) (room : Room)
      → (shared R s ≡ none → record_cache R s zone status max used room ≡ (s, false))
        × (shared R s ≢ none → (record_cache R s zone status max used room).1 ≡ true)
  unfolding record_cache
  recorded_cache s zone status max used room = ground arith

  -- A server request with a name that is UTF-8 goes to the shared tables alone where a zone is
  -- configured, and to the process-local manager alone where none is; any other name is dropped.
  pub vts_update_server_stats_ffi_lem :
      (g : Globals R) (name : Bytes) (status i o t : ℕ) (room : Room)
      → vts_update_server_stats_ffi R g (some name) status i o t room ≡ (
          if is_utf8 name
          then (elim (shared R g.shm) [
            | some _ ↦ record g { shm = (record_server R g.shm name status i o t room).0 }
            | none ↦ record g {
              vts_manager = Manager.update_server_stats g.vts_manager name status i o t;
            }
          ])
          else g)
  unfolding vts_update_server_stats_ffi update_server_zone_stats
  vts_update_server_stats_ffi_lem g name status i o t room =
      ground (arith, recorded_server g.shm name status i o t room)

  -- An upstream request with two names that are not null goes to the shared tables alone where a
  -- zone is configured, and to the process-local manager alone where none is. A name that is not
  -- UTF-8 is recorded as `unknown` or `unknown:0`.
  pub vts_track_upstream_request_lem :
      (g : Globals R) (u a : Bytes) (ss sm : ℕ) (tp : Time) (x b r status : ℕ) (room : Room)
      → let u' = to_str_or (codes "unknown") u in
        let a' = to_str_or (codes "unknown:0") a in
        let t = calculate_request_time tp ss sm in
        vts_track_upstream_request R g (some u) (some a) ss sm tp x b r status room
        ≡ (elim (shared R g.shm) [
          | some _ ↦ record g { shm = (record_upstream R g.shm u' a' t x b r status room).0 }
          | none ↦ record g {
            vts_manager = Manager.update_upstream_stats g.vts_manager u' a' t x b r status;
          }
        ])
  unfolding vts_track_upstream_request update_upstream_zone_stats
  vts_track_upstream_request_lem g u a ss sm tp x b r status room = ground (
    arith,
    recorded_upstream g.shm (to_str_or (codes "unknown") u) (to_str_or (codes "unknown:0") a)
        (calculate_request_time tp ss sm) x b r status room,
  )

module _ (R : RbTreeMap) (U : Unicode) where
  -- A cache access with a status of nginx and a zone name that is UTF-8 goes to the shared tables
  -- alone where a zone is configured, and to the process-local manager alone where none is: its
  -- counter of the status first, then its two sizes. An unknown status, or another name, is dropped
  -- with its sizes.
  pub vts_update_cache_stats_ffi_lem :
      (g : Globals R) (zone : Bytes) (status max used : ℕ) (room : Room)
      → vts_update_cache_stats_ffi R U g (some zone) status max used room
        ≡ (elim (cache_status_str status) [
          | none ↦ g
          | some text ↦
              if is_utf8 zone
              then (elim (shared R g.shm) [
                | some _ ↦ record g { shm = (record_cache R g.shm zone status max used room).0 }
                | none ↦ record g {
                  cache_manager =
                      CacheStats.update_cache_size
                        (CacheStats.update_cache_stats U g.cache_manager zone text)
                        zone
                        max
                        used;
                }
              ])
              else g
        ])
  unfolding vts_update_cache_stats_ffi
  vts_update_cache_stats_ffi_lem g zone status max used room =
      ground (arith, recorded_cache R g.shm zone status max used room)

-- The start of a request and the time computed for it add up to the reading of nginx's clock at its
-- end, all in milliseconds, for two clock readings of which the second is not earlier.
pub calculate_request_time_lem :
    (tp : Time) (ss sm : ℕ)
    → IsReading ss sm
    → IsReading tp.sec tp.msec
    → ss * 1000 + sm ≤ tp.sec * 1000 + tp.msec
    → ss * 1000 + sm + calculate_request_time tp ss sm ≡ tp.sec * 1000 + tp.msec
unfolding calculate_request_time
calculate_request_time_lem tp ss sm s c h =
    rw (calculate_time_diff_ms_lem ss sm tp.sec tp.msec s c) (ground arith)
