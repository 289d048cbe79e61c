-- ===== src/Shm/Record/Laws.antt =====
-- What one recording does to the entry of each key.
use ngx_vts.Prelude.{
  Bytes, Option, none, some, not, ◌&&◌, ◌||◌, eqb, eqb_iff, if◌then◌else◌, ◌≡◌, arith, Option-cases,
  inl, inr, ℕ,
}
use ngx_vts.Shm.Server
use ngx_vts.Shm.Server.{ServerCounters}
use ngx_vts.Shm.Upstream
use ngx_vts.Shm.Upstream.{UpstreamCounters}
use ngx_vts.Shm.Cache
use ngx_vts.Shm.Cache.{CacheCounters}
use ngx_vts.Shm.Keys.{upstream_key_bytes}
use ngx_vts.Shm.Table.{RbTreeMap, IsLawful}
use ngx_vts.Shm.Record.{
  VtsShared, ShmState, Room, shared, empty_or_long, record_entry, record_server, record_upstream,
  record_cache,
}

-- The entry of the recorded key: an old one is updated, and a missing one is created if the slab
-- pool has room for its key and its node.
abbrev pub grow : {V : Type 0} → Option V → V → (V → V) → Room → Option V
grow (some c) new update room = some (update c)
grow none new update room = if room.key && room.node then some (update new) else none

module _ (R : RbTreeMap) where
  -- The counters that the shared tables hold for a key.
  abbrev pub server_entry : Option (VtsShared R) → Bytes → Option ServerCounters
  server_entry none k = none
  server_entry (some sh) k = R.get sh.servers k

  abbrev pub server_counters : ShmState R → Bytes → Option ServerCounters
  server_counters s k = server_entry (shared R s) k

  abbrev pub upstream_entry : Option (VtsShared R) → Bytes → Option UpstreamCounters
  upstream_entry none k = none
  upstream_entry (some sh) k = R.get sh.upstreams k

  abbrev pub upstream_counters : ShmState R → Bytes → Option UpstreamCounters
  upstream_counters s k = upstream_entry (shared R s) k

  abbrev pub cache_entry : Option (VtsShared R) → Bytes → Option CacheCounters
  cache_entry none k = none
  cache_entry (some sh) k = R.get sh.caches k

  abbrev pub cache_counters : ShmState R → Bytes → Option CacheCounters
  cache_counters s k = cache_entry (shared R s) k

  -- What a recording leaves as the shared state.
  pub shared-record_server :
      (s : ShmState R) (sh : VtsShared R) (name : Bytes) (status i o t : ℕ) (room : Room)
      → shared R s ≡ some sh
      → shared R (record_server R s name status i o t room).0
        ≡ some (
            if empty_or_long name then sh else record sh {
              servers =
                  record_entry R sh.servers name Server.new
                    (λ c. Server.update c status i o t)
                    room;
            })
  unfolding record_server shared
  shared-record_server s sh name status i o t room h = ground arith

  pub shared-record_upstream :
      (s : ShmState R) (sh : VtsShared R) (upstream server : Bytes) (t u b r status : ℕ)
      (room : Room)
      → shared R s ≡ some sh
      → shared R (record_upstream R s upstream server t u b r status room).0
        ≡ some (
            if empty_or_long upstream || empty_or_long server then sh else record sh {
              upstreams =
                  record_entry R sh.upstreams
                    (upstream_key_bytes upstream server)
                    Upstream.new
                    (λ c. Upstream.update c t u b r status)
                    room;
            })
  unfolding record_upstream shared
  shared-record_upstream s sh upstream server t u b r status room h = ground arith

  pub shared-record_cache :
      (s : ShmState R) (sh : VtsShared R) (zone : Bytes) (status max used : ℕ) (room : Room)
      → shared R s ≡ some sh
      → shared R (record_cache R s zone status max used room).0
        ≡ some (
            if empty_or_long zone then sh else record sh {
              caches =
                  record_entry R sh.caches zone Cache.new
                    (λ c. Cache.update c status max used)
                    room;
            })
  unfolding record_cache shared
  shared-record_cache s sh zone status max used room h = ground arith

module _ (R : RbTreeMap) (L : IsLawful R) where
  pub get-record_entry :
      {V : Type 0} (m : R.Map V) (key : Bytes) (new : V) (update : V → V) (room : Room) (k : Bytes)
      → R.get (record_entry R m key new update room) k
        ≡ (if eqb k key then grow (R.get m key) new update room else R.get m k)
  unfolding record_entry
  get-record_entry m key new update room k = elim (Option-cases (R.get m key)) [
    | inl absent ↦
        rw (absent, record_entry)
          (ground (arith, L.get-insert m key (update new) k absent, eqb_iff k key))
    | inr (c, found) ↦
        rw (found, record_entry)
          (ground (arith, L.get-write m key (update c) k (λ e. ground arith)))
  ]

  -- A recording in a server zone changes the entry of its name alone: an old entry is updated, a
  -- missing one is created if there is room. An empty name and one of more than 256 bytes are
  -- dropped.
  pub server_counters-record_server :
      (s : ShmState R) (sh : VtsShared R) (name : Bytes) (status i o t : ℕ) (room : Room)
      (k : Bytes)
      → shared R s ≡ some sh
      → server_counters R (record_server R s name status i o t room).0 k ≡ (
          if eqb k name && not (empty_or_long name)
          then grow (server_counters R s name) Server.new (λ c. Server.update c status i o t) room
          else server_counters R s k)
  server_counters-record_server s sh name status i o t room k h =
      rw (shared-record_server R s sh name status i o t room h, h)
        (ground (
          arith,
          get-record_entry sh.servers name Server.new (λ c. Server.update c status i o t) room k,
        ))

  -- The same for an upstream server, under the composite key of the two names.
  pub upstream_counters-record_upstream :
      (s : ShmState R) (sh : VtsShared R) (upstream server : Bytes) (t u b r status : ℕ)
      (room : Room) (k : Bytes)
      → shared R s ≡ some sh
      → let key = upstream_key_bytes upstream server in
        upstream_counters R (record_upstream R s upstream server t u b r status room).0 k ≡ (
          if eqb k key && not (empty_or_long upstream || empty_or_long server)
          then grow
              (upstream_counters R s key)
              Upstream.new
              (λ c. Upstream.update c t u b r status)
              room
          else upstream_counters R s k)
  upstream_counters-record_upstream s sh upstream server t u b r status room k h =
      let key : Bytes = upstream_key_bytes upstream server in
      rw (shared-record_upstream R s sh upstream server t u b r status room h, h)
        (ground (
          arith,
          get-record_entry sh.upstreams key Upstream.new (λ c. Upstream.update c t u b r status)
              room k,
        ))

  -- The same for a cache zone.
  pub cache_counters-record_cache :
      (s : ShmState R) (sh : VtsShared R) (zone : Bytes) (status max used : ℕ) (room : Room)
      (k : Bytes)
      → shared R s ≡ some sh
      → cache_counters R (record_cache R s zone status max used room).0 k ≡ (
          if eqb k zone && not (empty_or_long zone)
          then grow (cache_counters R s zone) Cache.new (λ c. Cache.update c status max used) room
          else cache_counters R s k)
  cache_counters-record_cache s sh zone status max used room k h =
      rw (shared-record_cache R s sh zone status max used room h, h)
        (ground (
          arith,
          get-record_entry sh.caches zone Cache.new (λ c. Cache.update c status max used) room k,
        ))
