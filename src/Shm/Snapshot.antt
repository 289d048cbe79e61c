-- ===== src/Shm/Snapshot.antt =====
-- src/shm.rs: the snapshots that the formatter reads.
pub mod Laws
use mathlib.Core.Option
use ngx_vts.Prelude.{Bytes, Option, none, some, List, [], ◌∷◌, ◌&&◌, is_utf8, if◌then◌else◌}
use ngx_vts.Float.{F64}
use ngx_vts.HashMap
use ngx_vts.HashMap.{HashMap}
use ngx_vts.Stats.{VtsServerStats}
use ngx_vts.UpstreamStats
use ngx_vts.UpstreamStats.{UpstreamZone, UpstreamServerStats}
use ngx_vts.CacheStats.{CacheZoneStats}
use ngx_vts.Shm.Server
use ngx_vts.Shm.Server.{ServerCounters}
use ngx_vts.Shm.Upstream
use ngx_vts.Shm.Upstream.{UpstreamCounters}
use ngx_vts.Shm.Cache
use ngx_vts.Shm.Cache.{CacheCounters}
use ngx_vts.Shm.Keys.{split_upstream_key}
use ngx_vts.Shm.Table.{RbTreeMap}
use ngx_vts.Shm.Record.{ShmState, shared}

module _ (F : F64) where
  -- The loop of `build_server_snapshot`, from the map built so far.
  unfoldable pub add_servers :
      HashMap (VtsServerStats F) → List (Bytes × ServerCounters) → HashMap (VtsServerStats F)
  add_servers out [] = out
  add_servers out ((key, counters) ∷ entries) =
      add_servers
        (if is_utf8 key then HashMap.insert out key (Server.into_stats F counters) else out) entries

  abbrev pub build_server_snapshot : List (Bytes × ServerCounters) → HashMap (VtsServerStats F)
  build_server_snapshot = add_servers []

-- A new or changed server of a group.
abbrev pub put_server : UpstreamCounters → Bytes → UpstreamZone → UpstreamZone
put_server counters server z = record z {
  servers = HashMap.insert z.servers server (Upstream.into_stats counters server);
}

-- One round of `build_upstream_snapshot`: a key with no separator, or whose parts are not UTF-8,
-- is passed over.
unfoldable pub add_upstream : HashMap UpstreamZone → Bytes → UpstreamCounters → HashMap UpstreamZone
add_upstream out key counters = elim (split_upstream_key key) [
  | none ↦ out
  | some (upstream, server) ↦
      if is_utf8 upstream
      then (if is_utf8 server
          then HashMap.modify (HashMap.or_insert out upstream (UpstreamStats.new_zone upstream))
              upstream (put_server counters server)
          else out)
      else out
]

unfoldable pub add_upstreams :
    HashMap UpstreamZone → List (Bytes × UpstreamCounters) → HashMap UpstreamZone
add_upstreams out [] = out
add_upstreams out ((key, counters) ∷ entries) =
    add_upstreams (add_upstream out key counters) entries

abbrev pub build_upstream_snapshot : List (Bytes × UpstreamCounters) → HashMap UpstreamZone
build_upstream_snapshot = add_upstreams []

-- The loop of `build_cache_snapshot`.
unfoldable pub add_caches :
    HashMap CacheZoneStats → List (Bytes × CacheCounters) → HashMap CacheZoneStats
add_caches out [] = out
add_caches out ((key, counters) ∷ entries) =
    add_caches (if is_utf8 key then HashMap.insert out key (Cache.into_stats counters key) else out)
      entries

abbrev pub build_cache_snapshot : List (Bytes × CacheCounters) → HashMap CacheZoneStats
build_cache_snapshot = add_caches []

module _ (R : RbTreeMap) where
  unfoldable pub snapshot_servers : (F : F64) → ShmState R → Option (HashMap (VtsServerStats F))
  snapshot_servers F s =
      Option.map (λ sh. build_server_snapshot F (R.entries sh.servers)) (shared R s)

  unfoldable pub snapshot_upstreams : ShmState R → Option (HashMap UpstreamZone)
  snapshot_upstreams s =
      Option.map (λ sh. build_upstream_snapshot (R.entries sh.upstreams)) (shared R s)

  unfoldable pub snapshot_caches : ShmState R → Option (HashMap CacheZoneStats)
  snapshot_caches s = Option.map (λ sh. build_cache_snapshot (R.entries sh.caches)) (shared R s)
