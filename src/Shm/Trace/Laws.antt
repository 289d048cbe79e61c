-- ===== src/Shm/Trace/Laws.antt =====
-- The shared tables refine the histories of their keys, over every interleaving of calls.
use ngx_vts.Prelude.{
  ◌≡◌, refl, ap, Bytes, some, List, [], ◌∷◌, not, ◌&&◌, ◌||◌, Bool, true, false, eqb, eqb_iff,
  if◌then◌else◌, arith,
}
use ngx_vts.Shm.Keys.{upstream_key_bytes}
use ngx_vts.Shm.Table.{RbTreeMap, IsLawful}
use ngx_vts.Shm.Record.{VtsShared, ShmState, Room, shared, empty_or_long}
use ngx_vts.Shm.Record.Laws.{
  grow, server_counters, upstream_counters, cache_counters, shared-record_server,
  shared-record_upstream, shared-record_cache, server_counters-record_server,
  upstream_counters-record_upstream, cache_counters-record_cache,
}
use ngx_vts.Shm.Init.{Attempts, vts_init_shm_zone, empty_shared}
use ngx_vts.Shm.Server
use ngx_vts.Shm.Server.History.{Request}
use ngx_vts.Shm.Upstream
use ngx_vts.Shm.Upstream.History.{UpstreamRequest}
use ngx_vts.Shm.Cache
use ngx_vts.Shm.Cache.History.{Observation}
use ngx_vts.Shm.Trace.{
  Call, server, upstream, cache, reload, run, accept, stored, server_history, upstream_history,
  cache_history, fits,
}

fits-not-empty_or_long : (name : Bytes) → not (empty_or_long name) ≡ fits name
fits-not-empty_or_long name = ground arith

fits_both :
    (name addr : Bytes) → not (empty_or_long name || empty_or_long addr) ≡ (fits name && fits addr)
fits_both name addr = ground arith

grow-server :
    (room : Room) (r : Request) (rs : List Request)
    → grow
        (stored Server.History.summary rs)
        Server.new
        (λ c. Server.update c r.status r.bytes_in r.bytes_out r.request_time)
        room
      ≡ stored Server.History.summary (accept room r rs)
unfolding Server.new
grow-server room r [] = ground (arith, Server.History.update-summary r [])
grow-server room r (x ∷ rs) = ap some (Server.History.update-summary r (x ∷ rs))

grow-upstream :
    (room : Room) (r : UpstreamRequest) (rs : List UpstreamRequest)
    → grow
        (stored Upstream.History.summary rs)
        Upstream.new
        (λ c.
          Upstream.update c r.request_time r.response_time r.bytes_sent r.bytes_received r.status)
        room
      ≡ stored Upstream.History.summary (accept room r rs)
unfolding Upstream.new
grow-upstream room r [] = ground (arith, Upstream.History.update-summary r [])
grow-upstream room r (x ∷ rs) = ap some (Upstream.History.update-summary r (x ∷ rs))

grow-cache :
    (room : Room) (o : Observation) (os : List Observation)
    → grow
        (stored Cache.History.summary os)
        Cache.new
        (λ c. Cache.update c o.status o.max_size o.used_size)
        room
      ≡ stored Cache.History.summary (accept room o os)
unfolding Cache.new
grow-cache room o [] = ground (arith, Cache.History.update-summary o [])
grow-cache room o (x ∷ os) = ap some (Cache.History.update-summary o (x ∷ os))

module _ (R : RbTreeMap) where
  -- A reload leaves the shared state alone.
  pub shared-reload :
      (a : Attempts) (s : ShmState R) (sh : VtsShared R)
      → shared R s ≡ some sh
      → shared R (vts_init_shm_zone R false true a s).0 ≡ some sh
  unfolding vts_init_shm_zone shared
  shared-reload a s sh h = ground arith

  -- No call of a trace takes the shared state away.
  pub shared-run :
      (calls : List Call) (s : ShmState R) (sh : VtsShared R)
      → shared R s ≡ some sh
      → (sh' : VtsShared R) × (shared R (run R calls s) ≡ some sh')
  unfolding run
  shared-run [] s sh h = (sh, h)
  shared-run (server name r room ∷ calls) s sh h =
      let (sh', e) = shared-run calls s sh h in
      (_, shared-record_server R (run R calls s) sh' name _ _ _ _ room e)
  shared-run (upstream name addr r room ∷ calls) s sh h =
      let (sh', e) = shared-run calls s sh h in
      (_, shared-record_upstream R (run R calls s) sh' name addr _ _ _ _ _ room e)
  shared-run (cache zone o room ∷ calls) s sh h =
      let (sh', e) = shared-run calls s sh h in
      (_, shared-record_cache R (run R calls s) sh' zone _ _ _ room e)
  shared-run (reload a ∷ calls) s sh h =
      let (sh', e) = shared-run calls s sh h in (sh', shared-reload a (run R calls s) sh' e)

-- A choice made before or after a function.
if-ap {ℓ κ} :
    {A : Type ℓ} {B : Type κ} (f : A → B) (b : Bool) (x x' y : A)
    → (b ≡ true → x' ≡ x)
    → (if b then f x' else f y) ≡ f (if b then x else y)
if-ap f true x x' y h = ap f (h refl)
if-ap f false x x' y h = refl

module _ (R : RbTreeMap) (L : IsLawful R) where
  -- For every lawful map of the slab pool: after any trace of calls from published empty tables,
  -- the entry of a server zone is the summary of the requests that count for its name, and is
  -- missing if there is none. Recordings under other names or in the other tables, and reloads,
  -- change nothing.
  pub server_counters-run :
      (calls : List Call) (s : ShmState R) (k : Bytes)
      → shared R s ≡ some (empty_shared R)
      → server_counters R (run R calls s) k ≡ stored Server.History.summary (server_history k calls)
  unfolding run
  server_counters-run [] s k h = rw h (L.get-empty k)
  server_counters-run (server name r room ∷ calls) s k h =
      let (sh, e) = shared-run R calls s _ h in
      rw
        (
          server_counters-record_server R L (run R calls s) sh name r.status r.bytes_in r.bytes_out
              r.request_time room k e,
          server_counters-run calls s name h,
          server_counters-run calls s k h,
          grow-server room r (server_history name calls),
          fits-not-empty_or_long,
        )
        (if-ap (stored Server.History.summary) (eqb k name && fits name)
          (accept room r (server_history k calls)) (accept room r (server_history name calls))
          (server_history k calls) (λ b. ground (arith, eqb_iff k name)))
  server_counters-run (upstream name addr r room ∷ calls) s k h =
      let (sh, e) = shared-run R calls s _ h in
      rw (shared-record_upstream R (run R calls s) sh name addr _ _ _ _ _ room e)
        (ground (arith, rw e at (server_counters-run calls s k h)))
  server_counters-run (cache zone o room ∷ calls) s k h =
      let (sh, e) = shared-run R calls s _ h in
      rw (shared-record_cache R (run R calls s) sh zone _ _ _ room e)
        (ground (arith, rw e at (server_counters-run calls s k h)))
  server_counters-run (reload a ∷ calls) s k h =
      let (sh, e) = shared-run R calls s _ h in
      rw (shared-reload R a (run R calls s) sh e) (rw e at (server_counters-run calls s k h))

  -- For every lawful map of the slab pool: after any trace of calls from published empty tables,
  -- the entry of a composite key is the summary of the upstream requests that count for it, and is
  -- missing if there is none. Recordings under other keys or in the other tables, and reloads,
  -- change nothing.
  pub upstream_counters-run :
      (calls : List Call) (s : ShmState R) (k : Bytes)
      → shared R s ≡ some (empty_shared R)
      → upstream_counters R (run R calls s) k
        ≡ stored Upstream.History.summary (upstream_history k calls)
  unfolding run
  upstream_counters-run [] s k h = rw h (L.get-empty k)
  upstream_counters-run (server name r room ∷ calls) s k h =
      let (sh, e) = shared-run R calls s _ h in
      rw (shared-record_server R (run R calls s) sh name _ _ _ _ room e)
        (ground (arith, rw e at (upstream_counters-run calls s k h)))
  upstream_counters-run (upstream name addr r room ∷ calls) s k h =
      let (sh, e) = shared-run R calls s _ h in
      let key : Bytes = upstream_key_bytes name addr in
      rw
        (
          upstream_counters-record_upstream R L (run R calls s) sh name addr r.request_time
              r.response_time r.bytes_sent r.bytes_received r.status room k e,
          upstream_counters-run calls s key h,
          upstream_counters-run calls s k h,
          grow-upstream room r (upstream_history key calls),
          fits_both,
        )
        (if-ap (stored Upstream.History.summary) (eqb k key && (fits name && fits addr))
          (accept room r (upstream_history k calls)) (accept room r (upstream_history key calls))
          (upstream_history k calls) (λ b. ground (arith, eqb_iff k key)))
  upstream_counters-run (cache zone o room ∷ calls) s k h =
      let (sh, e) = shared-run R calls s _ h in
      rw (shared-record_cache R (run R calls s) sh zone _ _ _ room e)
        (ground (arith, rw e at (upstream_counters-run calls s k h)))
  upstream_counters-run (reload a ∷ calls) s k h =
      let (sh, e) = shared-run R calls s _ h in
      rw (shared-reload R a (run R calls s) sh e) (rw e at (upstream_counters-run calls s k h))

  -- For every lawful map of the slab pool: after any trace of calls from published empty tables,
  -- the entry of a cache zone is the summary of the observations that count for its name, and is
  -- missing if there is none. Recordings under other names or in the other tables, and reloads,
  -- change nothing.
  pub cache_counters-run :
      (calls : List Call) (s : ShmState R) (k : Bytes)
      → shared R s ≡ some (empty_shared R)
      → cache_counters R (run R calls s) k ≡ stored Cache.History.summary (cache_history k calls)
  unfolding run
  cache_counters-run [] s k h = rw h (L.get-empty k)
  cache_counters-run (server name r room ∷ calls) s k h =
      let (sh, e) = shared-run R calls s _ h in
      rw (shared-record_server R (run R calls s) sh name _ _ _ _ room e)
        (ground (arith, rw e at (cache_counters-run calls s k h)))
  cache_counters-run (upstream name addr r room ∷ calls) s k h =
      let (sh, e) = shared-run R calls s _ h in
      rw (shared-record_upstream R (run R calls s) sh name addr _ _ _ _ _ room e)
        (ground (arith, rw e at (cache_counters-run calls s k h)))
  cache_counters-run (cache zone o room ∷ calls) s k h =
      let (sh, e) = shared-run R calls s _ h in
      rw
        (
          cache_counters-record_cache R L (run R calls s) sh zone o.status o.max_size o.used_size
              room k e,
          cache_counters-run calls s zone h,
          cache_counters-run calls s k h,
          grow-cache room o (cache_history zone calls),
          fits-not-empty_or_long,
        )
        (if-ap (stored Cache.History.summary) (eqb k zone && fits zone)
          (accept room o (cache_history k calls)) (accept room o (cache_history zone calls))
          (cache_history k calls) (λ b. ground (arith, eqb_iff k zone)))
  cache_counters-run (reload a ∷ calls) s k h =
      let (sh, e) = shared-run R calls s _ h in
      rw (shared-reload R a (run R calls s) sh e) (rw e at (cache_counters-run calls s k h))
