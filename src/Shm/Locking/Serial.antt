-- ===== src/Shm/Locking/Serial.antt =====
-- Whatever the interleaving, the recordings of all processes are one sequence of steps.
use ngx_vts.Prelude.{ℕ, Bytes, Option, some, List, ◌≡◌, refl, sym, ap, ◌∙◌}
use ngx_vts.Shm.Server.{ServerCounters}
use ngx_vts.Shm.Upstream.{UpstreamCounters}
use ngx_vts.Shm.Cache.{CacheCounters}
use ngx_vts.Shm.Server.History as Server
use ngx_vts.Shm.Upstream.History as Upstream
use ngx_vts.Shm.Cache.History as Cache
use ngx_vts.Shm.Table.{RbTreeMap, IsLawful}
use ngx_vts.Shm.Trace.{Call, stored, server_history, upstream_history, cache_history}
use ngx_vts.Shm.Locking.Lock.{RwLock, IsExclusive}
use ngx_vts.Shm.Locking.Processes.{Job, Pc, looked_up, System, pick, Reach, here, later, replay}
use ngx_vts.Shm.Locking.Jobs.{
  server_jobs, upstream_jobs, cache_jobs, server-replay, upstream-replay, cache-replay,
}
use ngx_vts.Shm.Locking.Invariant.{Inv, Inv-start, looked_up-Knows}
use ngx_vts.Shm.Locking.Moves.{Move-Inv}

module _ (R : RbTreeMap) (L : RwLock) (X : IsExclusive L) (V : Type 0) (table : R.Map V) where
  pub Reach-Inv : (s : System R L V) → Reach R L V table s → Inv R L V table s.memory s.pc
  Reach-Inv _ here = Inv-start R L V table X
  Reach-Inv _ (later s _ r (pick i m p mv)) =
      Move-Inv R L X V table s.memory s.pc i (s.pc i) m p (Reach-Inv s r) refl mv

  -- For every lock with the laws of an `RwLock`: at every access of any interleaving of any number of
  -- processes, a recording that has looked its key up and has not yet updated or inserted the entry
  -- knows the map as it is now: where the lookup gave counters, the entry still has these counters,
  -- and where it gave nothing, the key is still missing.
  pub Reach-lookup :
      (s : System R L V) (i : ℕ) (j : Job V) (entry : Option V)
      → Reach R L V table s
      → looked_up (s.pc i) ≡ some (j, entry)
      → R.get s.memory.table j.key ≡ entry
  Reach-lookup s i j entry r e =
      let inv = Reach-Inv s r in looked_up-Knows R V s.memory.table (s.pc i) j entry e (inv.knows i)

  -- For every lock with the laws of an `RwLock`: at every access of any interleaving, the map is what
  -- the recordings that reached their last access make of it, each as one step, in the order of these
  -- accesses.
  pub Reach-replay :
      (s : System R L V) → Reach R L V table s → s.memory.table ≡ replay R L V table s.memory.log
  Reach-replay s r = let inv = Reach-Inv s r in inv.serial

  -- For every lock with the laws of an `RwLock`: in any interleaving, a snapshot whose loop is over has
  -- visited exactly the entries, in their order, of the map that the recordings so far make, each as
  -- one step.
  pub Reach-visited :
      (s : System R L V) (i : ℕ) (seen : List (Bytes × V))
      → Reach R L V table s
      → s.pc i ≡ Pc.visited seen
      → R.entries (replay R L V table s.memory.log) ≡ seen
  Reach-visited s i seen r e =
      let inv = Reach-Inv s r in ap R.entries (sym inv.serial) ∙ (rw e at (inv.knows i))

module _ (R : RbTreeMap) (L : RwLock) (V : Type 0) where
  -- The entry that the recordings of a log lead to, in any interleaving that has made this log.
  log-entry :
      (s : System R L V) (jobs : List (Job V)) (k : Bytes) (v : Option V)
      → IsExclusive L
      → Reach R L V R.empty s
      → s.memory.log ≡ jobs
      → R.get (replay R L V R.empty jobs) k ≡ v
      → R.get s.memory.table k ≡ v
  log-entry s jobs k v X r e h =
      ap (λ m. R.get m k) (Reach-replay R L X V R.empty s r)
      ∙ ap (λ log. R.get (replay R L V R.empty log) k) e
      ∙ h

-- The three maps of the zone, each with its lock, in any interleaving of any number of processes.
pub record IsReached (R : RbTreeMap) (L : RwLock) (calls : List Call)
    (s : System R L ServerCounters) (u : System R L UpstreamCounters) (c : System R L CacheCounters)
    : Type 0 where
  pub servers : Reach R L ServerCounters R.empty s
  pub upstreams : Reach R L UpstreamCounters R.empty u
  pub caches : Reach R L CacheCounters R.empty c
  -- The recordings that reached their last access are those of the calls.
  pub server_log : s.memory.log ≡ server_jobs calls
  pub upstream_log : u.memory.log ≡ upstream_jobs calls
  pub cache_log : c.memory.log ≡ cache_jobs calls

-- For every lock with the laws of an `RwLock` and every lawful map of the slab pool: in any
-- interleavings of the accesses of any number of processes to the three maps, which were empty, the
-- entry of every key in each map is the summary of the calls that count for it among those recorded so
-- far, and is missing if there is none.
pub get-Reach :
    (R : RbTreeMap) (L : RwLock) (calls : List Call) (servers : System R L ServerCounters)
    (upstreams : System R L UpstreamCounters) (caches : System R L CacheCounters) (k : Bytes)
    → IsExclusive L
    → IsLawful R
    → IsReached R L calls servers upstreams caches
    → (R.get servers.memory.table k ≡ stored Server.summary (server_history k calls))
      × (R.get upstreams.memory.table k ≡ stored Upstream.summary (upstream_history k calls))
      × (R.get caches.memory.table k ≡ stored Cache.summary (cache_history k calls))
get-Reach R L calls servers upstreams caches k X W h = (
  log-entry R L ServerCounters servers _ k _ X h.servers h.server_log (server-replay R L W calls k),
  log-entry R L UpstreamCounters upstreams _ k _ X h.upstreams h.upstream_log
      (upstream-replay R L W calls k),
  log-entry R L CacheCounters caches _ k _ X h.caches h.cache_log (cache-replay R L W calls k),
)
