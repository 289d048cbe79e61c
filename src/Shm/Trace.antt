-- ===== src/Shm/Trace.antt =====
-- src/shm.rs: any sequence of recordings by the workers and of re-initializations on a reload, and
-- what the shared tables hold after it. A trace lists the calls, newest first.
pub mod Laws
pub mod Start
use ngx_vts.Prelude.{
  ℕ, Bytes, Option, none, some, List, [], ◌∷◌, ◌&&◌, Bool, true, false, eqb, within, length,
  if◌then◌else◌,
}
use ngx_vts.Shm.Keys.{upstream_key_bytes}
use ngx_vts.Shm.Table.{RbTreeMap}
use ngx_vts.Shm.Record.{ShmState, Room, record_server, record_upstream, record_cache}
use ngx_vts.Shm.Init.{Attempts, vts_init_shm_zone}
use ngx_vts.Shm.Server.History.{Request}
use ngx_vts.Shm.Upstream.History.{UpstreamRequest}
use ngx_vts.Shm.Cache.History.{Observation}

pub data Call : Type 0 where
  server : Bytes → Request → Room → Call
  upstream : Bytes → Bytes → UpstreamRequest → Room → Call
  cache : Bytes → Observation → Room → Call
  reload : Attempts → Call

module _ (R : RbTreeMap) where
  unfoldable pub run : List Call → ShmState R → ShmState R
  run [] s = s
  run (server name r room ∷ calls) s =
      (record_server R (run calls s) name r.status r.bytes_in r.bytes_out r.request_time room).0
  run (upstream name addr r room ∷ calls) s =
      (record_upstream R (run calls s) name addr r.request_time r.response_time r.bytes_sent
        r.bytes_received r.status room).0
  run (cache zone o room ∷ calls) s =
      (record_cache R (run calls s) zone o.status o.max_size o.used_size room).0
  run (reload attempts ∷ calls) s = (vts_init_shm_zone R false true attempts (run calls s)).0

-- A key whose first allocation fails is retried by its next request; once it has an entry, no
-- request is lost.
abbrev pub accept {ℓ} : {A : Type ℓ} → Room → A → List A → List A
accept room r [] = if room.key && room.node then r ∷ [] else []
accept room r (x ∷ rs) = r ∷ x ∷ rs

-- A name of 1 to 256 bytes.
abbrev pub fits : Bytes → Bool
fits name = within 1 256 (length name)

-- The requests of a trace that count for a server zone.
abbrev pub server_history : Bytes → List Call → List Request
server_history k [] = []
server_history k (server name r room ∷ calls) =
    if eqb k name && fits name
    then accept room r (server_history k calls)
    else server_history k calls
server_history k (upstream _ _ _ _ ∷ calls) = server_history k calls
server_history k (cache _ _ _ ∷ calls) = server_history k calls
server_history k (reload _ ∷ calls) = server_history k calls

-- The requests of a trace that count for a composite key.
abbrev pub upstream_history : Bytes → List Call → List UpstreamRequest
upstream_history k [] = []
upstream_history k (server _ _ _ ∷ calls) = upstream_history k calls
upstream_history k (upstream name addr r room ∷ calls) =
    if eqb k (upstream_key_bytes name addr) && (fits name && fits addr)
    then accept room r (upstream_history k calls)
    else upstream_history k calls
upstream_history k (cache _ _ _ ∷ calls) = upstream_history k calls
upstream_history k (reload _ ∷ calls) = upstream_history k calls

-- The observations of a trace that count for a cache zone.
abbrev pub cache_history : Bytes → List Call → List Observation
cache_history k [] = []
cache_history k (server _ _ _ ∷ calls) = cache_history k calls
cache_history k (upstream _ _ _ _ ∷ calls) = cache_history k calls
cache_history k (cache zone o room ∷ calls) =
    if eqb k zone && fits zone then accept room o (cache_history k calls) else cache_history k calls
cache_history k (reload _ ∷ calls) = cache_history k calls

-- A key with no accepted request has no entry.
abbrev pub stored {ℓ κ} : {A : Type ℓ} {V : Type κ} → (List A → V) → List A → Option V
stored summary [] = none
stored summary (r ∷ rs) = some (summary (r ∷ rs))
