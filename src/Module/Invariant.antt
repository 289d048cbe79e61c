-- ===== src/Module/Invariant.antt =====
-- What holds of a worker's own stores (src/lib.rs, src/vts_node.rs, src/cache_stats.rs) after any
-- calls of its entry points.
use ngx_vts.Prelude.{ℕ, Bytes, Option, none, some, Bool, true, false, if◌then◌else◌, refl, is_utf8}
use ngx_vts.HashMap
use ngx_vts.HashMap.{HashMap, NodupKeys}
use ngx_vts.CacheStats
use ngx_vts.CacheStats.Invariant.{IsCache, update_cache_size-IsCache, update_cache_stats-IsCache}
use ngx_vts.CacheStats.{
  CacheStatsManager, CacheZoneStats, Unicode, new_manager, new_zone, update_zone_size,
  update_zone_status,
}
use ngx_vts.UpstreamStats
use ngx_vts.ConnectionStats.{Process, read}
use ngx_vts.Manager
use ngx_vts.Manager.Invariant.{
  IsValid, new-IsValid, update_server_stats-IsValid, update_upstream_stats-IsValid,
}
use ngx_vts.Shm.Table.{RbTreeMap}
use ngx_vts.Shm.Record.{ShmState, Room, shared}
use ngx_vts.Module.{
  Globals, Time, vts_update_server_stats_ffi, vts_track_upstream_request,
  vts_update_cache_stats_ffi, cache_status_str, update_connection_stats,
}
use ngx_vts.Module.Connections.{Cycle, count_open, vts_collect_nginx_connections}
use ngx_vts.Module.Setup.{ngx_http_vts_init_rust_module, initialize_manager_lem}
use ngx_vts.Module.Laws.{
  vts_update_server_stats_ffi_lem, vts_track_upstream_request_lem, vts_update_cache_stats_ffi_lem,
}

module _ (R : RbTreeMap) (U : Unicode) where
  -- The globals of a worker that has just started, with any shared memory.
  abbrev pub started : ShmState R → Globals R
  started s = record {
    shm = s;
    vts_manager = Manager.new;
    poisoned = false;
    cache_manager = new_manager;
    stat_pointers = none;
  }

  -- One step of a worker: a call of an entry point, or any change that another process makes to the
  -- shared memory.
  pub data Step : Globals R → Globals R → Type 0 where
    init : (g : Globals R) → Step g (ngx_http_vts_init_rust_module R g).0
    server :
        (g : Globals R) (name : Option Bytes) (status i o t : ℕ) (room : Room)
        → Step g (vts_update_server_stats_ffi R g name status i o t room)
    upstream :
        (g : Globals R) (u a : Option Bytes) (ss sm : ℕ) (tp : Time) (x b r status : ℕ)
        (room : Room)
        → Step g (vts_track_upstream_request R g u a ss sm tp x b r status room)
    cache :
        (g : Globals R) (zone : Option Bytes) (status max used : ℕ) (room : Room)
        → Step g (vts_update_cache_stats_ffi R U g zone status max used room)
    collect :
        (g : Globals R) (p : Process) (cycle : Option Cycle)
        → Step g (vts_collect_nginx_connections R p cycle g)
    elsewhere : (g : Globals R) (s : ShmState R) → Step g (record g { shm = s })

  pub data Reachable : Globals R → Type 0 where
    start : (s : ShmState R) → Reachable (started s)
    step : (g g' : Globals R) → Reachable g → Step g g' → Reachable g'

  -- The stores of the process are in order.
  pub record IsOrderly (g : Globals R) : Type 0 where
    pub manager : IsValid g.vts_manager
    pub caches : IsCache g.cache_manager

  -- Either branch of a test, and either store.
  if-IsOrderly :
      (b : Bool) (g g' : Globals R) → IsOrderly g → IsOrderly g' → IsOrderly (if b then g else g')
  if-IsOrderly true g g' h h' = h
  if-IsOrderly false g g' h h' = h'

  option-IsOrderly {ℓ} :
      {A : Type ℓ} (o : Option A) (f : A → Globals R) (g : Globals R)
      → ((a : A) → IsOrderly (f a))
      → IsOrderly g
      → IsOrderly (elim o [ some a ↦ f a | none ↦ g ])
  option-IsOrderly none f g hf h = h
  option-IsOrderly (some a) f g hf h = hf a

  connections-IsOrderly :
      (g : Globals R) (a r w i accepted handled : ℕ)
      → IsOrderly g
      → IsOrderly (update_connection_stats R g a r w i accepted handled)
  unfolding update_connection_stats Manager.update_connection_stats
  connections-IsOrderly g a r w i accepted handled h = record {
    manager = record {
      stats_distinct = h.manager.stats_distinct;
      zones_distinct = h.manager.zones_distinct;
      zones = h.manager.zones;
    };
    caches = h.caches;
  }

  module _ (g : Globals R) (h : IsOrderly g) where
    server-IsOrderly :
        (name : Option Bytes) (status i o t : ℕ) (room : Room)
        → IsOrderly (vts_update_server_stats_ffi R g name status i o t room)
    unfolding vts_update_server_stats_ffi
    server-IsOrderly none status i o t room = h
    server-IsOrderly (some name) status i o t room =
        rw (vts_update_server_stats_ffi_lem R g name status i o t room) (
          if-IsOrderly (is_utf8 name) _ g
            (option-IsOrderly (shared R g.shm) _ _
              (λ _. record { manager = h.manager; caches = h.caches })
              (record {
                manager = update_server_stats-IsValid g.vts_manager name status i o t h.manager;
                caches = h.caches;
              }))
            h)

    upstream-IsOrderly :
        (u a : Option Bytes) (ss sm : ℕ) (tp : Time) (x b r status : ℕ) (room : Room)
        → IsOrderly (vts_track_upstream_request R g u a ss sm tp x b r status room)
    unfolding vts_track_upstream_request
    upstream-IsOrderly none a ss sm tp x b r status room = h
    upstream-IsOrderly (some u) none ss sm tp x b r status room = h
    upstream-IsOrderly (some u) (some a) ss sm tp x b r status room =
        rw (vts_track_upstream_request_lem R g u a ss sm tp x b r status room) (
          option-IsOrderly (shared R g.shm) _ _
            (λ _. record { manager = h.manager; caches = h.caches })
            (record {
              manager = update_upstream_stats-IsValid g.vts_manager _ _ _ x b r status h.manager;
              caches = h.caches;
            }))

    cache-IsOrderly :
        (zone : Option Bytes) (status max used : ℕ) (room : Room)
        → IsOrderly (vts_update_cache_stats_ffi R U g zone status max used room)
    unfolding vts_update_cache_stats_ffi
    cache-IsOrderly none status max used room = h
    cache-IsOrderly (some zone) status max used room =
        rw (vts_update_cache_stats_ffi_lem R U g zone status max used room) (
          option-IsOrderly (cache_status_str status) _ g
            (λ text.
              if-IsOrderly (is_utf8 zone) _ g
                (option-IsOrderly (shared R g.shm) _ _
                  (λ _. record { manager = h.manager; caches = h.caches })
                  (record {
                    manager = h.manager;
                    caches =
                        update_cache_size-IsCache
                          (CacheStats.update_cache_stats U g.cache_manager zone text) zone
                          (update_cache_stats-IsCache g.cache_manager zone h.caches U text) max
                          used;
                  }))
                h)
            h)

    collect-IsOrderly :
        (p : Process) (cycle : Option Cycle) → IsOrderly (vts_collect_nginx_connections R p cycle g)
    unfolding vts_collect_nginx_connections
    collect-IsOrderly p cycle =
        let g' : Globals R = record g { stat_pointers = (read p g.stat_pointers).1 } in
        let h' : IsOrderly g' = record { manager = h.manager; caches = h.caches } in
        option-IsOrderly (read p g.stat_pointers).0 _ _
          (λ s. connections-IsOrderly g' _ _ _ _ _ _ h')
          (option-IsOrderly cycle _ g'
            (λ c.
              option-IsOrderly c.connections _ g'
                (λ fds. connections-IsOrderly g' (count_open 0 fds) 0 0 0 _ _ h') h')
            h')

    init-IsOrderly : IsOrderly (ngx_http_vts_init_rust_module R g).0
    unfolding ngx_http_vts_init_rust_module UpstreamStats.new_server HashMap.get
    init-IsOrderly = record {
      manager = rw (initialize_manager_lem g.vts_manager) (record {
        stats_distinct = tt;
        zones_distinct = (refl, tt);
        zones = (record { named = refl; distinct = (refl, tt); servers = (refl, tt) }, tt);
      });
      caches = h.caches;
    }

  -- After any calls of the entry points, in any order and with any changes to the shared memory by
  -- other processes in between: no server zone, upstream group, upstream server or cache zone stands
  -- twice in the worker's own stores, and each group, server and cache zone is stored under the name
  -- that it carries.
  pub Reachable-IsOrderly : (g : Globals R) → Reachable g → IsOrderly g
  unfolding new_manager
  Reachable-IsOrderly _ (start s) = record {
    manager = new-IsValid;
    caches = record { distinct = tt; named = tt };
  }
  Reachable-IsOrderly _ (step g _ r (init _)) = init-IsOrderly g (Reachable-IsOrderly g r)
  Reachable-IsOrderly _ (step g _ r (server _ name status i o t room)) =
      server-IsOrderly g (Reachable-IsOrderly g r) name status i o t room
  Reachable-IsOrderly _ (step g _ r (upstream _ u a ss sm tp x b r' status room)) =
      upstream-IsOrderly g (Reachable-IsOrderly g r) u a ss sm tp x b r' status room
  Reachable-IsOrderly _ (step g _ r (cache _ zone status max used room)) =
      cache-IsOrderly g (Reachable-IsOrderly g r) zone status max used room
  Reachable-IsOrderly _ (step g _ r (collect _ p cycle)) =
      collect-IsOrderly g (Reachable-IsOrderly g r) p cycle
  Reachable-IsOrderly _ (step g _ r (elsewhere _ s)) =
      let h = Reachable-IsOrderly g r in record { manager = h.manager; caches = h.caches }
