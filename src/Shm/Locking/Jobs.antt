-- ===== src/Shm/Locking/Jobs.antt =====
-- The recordings that the calls of a trace make in each map of the zone (src/shm.rs).
use mathlib.Core.Option
use ngx_vts.Prelude.{
  Bytes, Option, none, some, ◌||◌, List, [], ◌∷◌, ◌≡◌, refl, ap, arith, if◌then◌else◌,
}
use ngx_vts.Shm.Server
use ngx_vts.Shm.Server.{ServerCounters}
use ngx_vts.Shm.Upstream
use ngx_vts.Shm.Upstream.{UpstreamCounters}
use ngx_vts.Shm.Cache
use ngx_vts.Shm.Cache.{CacheCounters}
use ngx_vts.Shm.Server.History.{Request}
use ngx_vts.Shm.Upstream.History.{UpstreamRequest}
use ngx_vts.Shm.Cache.History.{Observation}
use ngx_vts.Shm.Server.History as ServerHistory
use ngx_vts.Shm.Upstream.History as UpstreamHistory
use ngx_vts.Shm.Cache.History as CacheHistory
use ngx_vts.Shm.Keys.{upstream_key_bytes}
use ngx_vts.Shm.Table.{RbTreeMap, IsLawful}
use ngx_vts.Shm.Record.{VtsShared, ShmState, Room, shared, empty_or_long, record_entry}
use ngx_vts.Shm.Record.Laws.{shared-record_server, shared-record_upstream, shared-record_cache}
use ngx_vts.Shm.Init.{empty_shared}
use ngx_vts.Shm.Trace.{
  Call, server, upstream, cache, reload, run, stored, server_history, upstream_history,
  cache_history,
}
use ngx_vts.Shm.Trace.Laws.{
  shared-run, shared-reload, server_counters-run, upstream_counters-run, cache_counters-run,
}
use ngx_vts.Shm.Trace.Start.{booted, shared-booted, run-cons}
use ngx_vts.Shm.Locking.Lock.{RwLock}
use ngx_vts.Shm.Locking.Processes.{Job, replay}

abbrev pub server_job : Bytes → Request → Room → Job ServerCounters
server_job name r room = record {
  key = name;
  new = Server.new;
  change = λ c. Server.update c r.status r.bytes_in r.bytes_out r.request_time;
  room = room;
}

abbrev pub upstream_job : Bytes → Bytes → UpstreamRequest → Room → Job UpstreamCounters
upstream_job name addr r room = record {
  key = upstream_key_bytes name addr;
  new = Upstream.new;
  change =
      λ c. Upstream.update c r.request_time r.response_time r.bytes_sent r.bytes_received r.status;
  room = room;
}

abbrev pub cache_job : Bytes → Observation → Room → Job CacheCounters
cache_job zone o room = record {
  key = zone;
  new = Cache.new;
  change = λ c. Cache.update c o.status o.max_size o.used_size;
  room = room;
}

-- What a call records in a map, if it passes the guard on its names.
abbrev server_job_of : Call → Option (Job ServerCounters)
server_job_of (server name r room) =
    if empty_or_long name then none else some (server_job name r room)
server_job_of _ = none

abbrev upstream_job_of : Call → Option (Job UpstreamCounters)
upstream_job_of (upstream name addr r room) =
    if empty_or_long name || empty_or_long addr then none else some (upstream_job name addr r room)
upstream_job_of _ = none

abbrev cache_job_of : Call → Option (Job CacheCounters)
cache_job_of (cache zone o room) = if empty_or_long zone then none else some (cache_job zone o room)
cache_job_of _ = none

abbrev cons_some {ℓ} : {A : Type ℓ} → Option A → List A → List A
cons_some none rest = rest
cons_some (some a) rest = a ∷ rest

abbrev pub server_jobs : List Call → List (Job ServerCounters)
server_jobs [] = []
server_jobs (c ∷ calls) = cons_some (server_job_of c) (server_jobs calls)

abbrev pub upstream_jobs : List Call → List (Job UpstreamCounters)
upstream_jobs [] = []
upstream_jobs (c ∷ calls) = cons_some (upstream_job_of c) (upstream_jobs calls)

abbrev pub cache_jobs : List Call → List (Job CacheCounters)
cache_jobs [] = []
cache_jobs (c ∷ calls) = cons_some (cache_job_of c) (cache_jobs calls)

module _ (R : RbTreeMap) (L : RwLock) where
  abbrev applied : {V : Type 0} → Option (Job V) → R.Map V → R.Map V
  applied none m = m
  applied (some j) m = record_entry R m j.key j.new j.change j.room

  replay-cons_some :
      {V : Type 0} (o : Option (Job V)) (m : R.Map V) (js : List (Job V))
      → replay R L V m (cons_some o js) ≡ applied o (replay R L V m js)
  unfolding replay
  replay-cons_some none m js = refl
  replay-cons_some (some j) m js = refl

  -- A map of the shared state, where each call does to it what the call records in it.
  module _ (V : Type 0) (part : VtsShared R → R.Map V) (job_of : Call → Option (Job V))
      (jobs : List Call → List (Job V)) (jobs_nil : jobs [] ≡ [])
      (jobs_cons : (c : Call) (calls : List Call)
        → jobs (c ∷ calls) ≡ cons_some (job_of c) (jobs calls))
      (call_part : (c : Call) (s : ShmState R) (sh : VtsShared R)
        → shared R s ≡ some sh
        → Option.map part (shared R (run R (c ∷ []) s)) ≡ some (applied (job_of c) (part sh)))
      (starts_empty : part (empty_shared R) ≡ R.empty) where
    part-run :
        (calls : List Call)
        → Option.map part (shared R (run R calls (booted R)))
          ≡ some (replay R L V R.empty (jobs calls))
    unfolding run replay
    part-run [] = rw (shared-booted R, jobs_nil, starts_empty) refl
    part-run (c ∷ calls) =
        let (sh, e) = shared-run R calls (booted R) _ (shared-booted R) in
        let before : some (part sh) ≡ some (replay R L V R.empty (jobs calls)) =
          rw e at (part-run calls) in
        rw
          (
            run-cons R c calls (booted R),
            call_part c (run R calls (booted R)) sh e,
            jobs_cons c calls,
            replay-cons_some (job_of c) R.empty (jobs calls),
          )
          (ap (Option.map (applied (job_of c))) before)

    get-replay :
        (calls : List Call) (k : Bytes) (v : Option V)
        → ((sh : VtsShared R) → shared R (run R calls (booted R)) ≡ some sh → R.get (part sh) k ≡ v)
        → R.get (replay R L V R.empty (jobs calls)) k ≡ v
    get-replay calls k v h =
        let (sh, e) = shared-run R calls (booted R) _ (shared-booted R) in
        let same : some (part sh) ≡ some (replay R L V R.empty (jobs calls)) =
          rw e at (part-run calls) in
        let entry : R.get (part sh) k ≡ v = h sh e in cc (same, entry)

  call-servers :
      (c : Call) (s : ShmState R) (sh : VtsShared R)
      → shared R s ≡ some sh
      → Option.map (λ (sh : VtsShared R). sh.servers) (shared R (run R (c ∷ []) s))
        ≡ some (applied (server_job_of c) sh.servers)
  unfolding run
  call-servers (server name r room) s sh e =
      rw (shared-record_server R s sh name _ _ _ _ room e) (ground arith)
  call-servers (upstream name addr r room) s sh e =
      rw (shared-record_upstream R s sh name addr _ _ _ _ _ room e) (ground arith)
  call-servers (cache zone o room) s sh e =
      rw (shared-record_cache R s sh zone _ _ _ room e) (ground arith)
  call-servers (reload a) s sh e = rw (shared-reload R a s sh e) refl

  call-upstreams :
      (c : Call) (s : ShmState R) (sh : VtsShared R)
      → shared R s ≡ some sh
      → Option.map (λ (sh : VtsShared R). sh.upstreams) (shared R (run R (c ∷ []) s))
        ≡ some (applied (upstream_job_of c) sh.upstreams)
  unfolding run
  call-upstreams (server name r room) s sh e =
      rw (shared-record_server R s sh name _ _ _ _ room e) (ground arith)
  call-upstreams (upstream name addr r room) s sh e =
      rw (shared-record_upstream R s sh name addr _ _ _ _ _ room e) (ground arith)
  call-upstreams (cache zone o room) s sh e =
      rw (shared-record_cache R s sh zone _ _ _ room e) (ground arith)
  call-upstreams (reload a) s sh e = rw (shared-reload R a s sh e) refl

  call-caches :
      (c : Call) (s : ShmState R) (sh : VtsShared R)
      → shared R s ≡ some sh
      → Option.map (λ (sh : VtsShared R). sh.caches) (shared R (run R (c ∷ []) s))
        ≡ some (applied (cache_job_of c) sh.caches)
  unfolding run
  call-caches (server name r room) s sh e =
      rw (shared-record_server R s sh name _ _ _ _ room e) (ground arith)
  call-caches (upstream name addr r room) s sh e =
      rw (shared-record_upstream R s sh name addr _ _ _ _ _ room e) (ground arith)
  call-caches (cache zone o room) s sh e =
      rw (shared-record_cache R s sh zone _ _ _ room e) (ground arith)
  call-caches (reload a) s sh e = rw (shared-reload R a s sh e) refl

module _ (R : RbTreeMap) (L : RwLock) (W : IsLawful R) (calls : List Call) (k : Bytes) where
  pub server-replay :
      R.get (replay R L ServerCounters R.empty (server_jobs calls)) k
      ≡ stored ServerHistory.summary (server_history k calls)
  server-replay =
      get-replay R L ServerCounters (λ sh. sh.servers) server_job_of server_jobs refl
        (λ c calls. refl) (call-servers R L) refl calls k _
        (λ sh e. rw e at (server_counters-run R W calls (booted R) k (shared-booted R)))

  pub upstream-replay :
      R.get (replay R L UpstreamCounters R.empty (upstream_jobs calls)) k
      ≡ stored UpstreamHistory.summary (upstream_history k calls)
  upstream-replay =
      get-replay R L UpstreamCounters (λ sh. sh.upstreams) upstream_job_of upstream_jobs refl
        (λ c calls. refl) (call-upstreams R L) refl calls k _
        (λ sh e. rw e at (upstream_counters-run R W calls (booted R) k (shared-booted R)))

  pub cache-replay :
      R.get (replay R L CacheCounters R.empty (cache_jobs calls)) k
      ≡ stored CacheHistory.summary (cache_history k calls)
  cache-replay =
      get-replay R L CacheCounters (λ sh. sh.caches) cache_job_of cache_jobs refl (λ c calls. refl)
        (call-caches R L) refl calls k _
        (λ sh e. rw e at (cache_counters-run R W calls (booted R) k (shared-booted R)))
