-- ===== src/Shm/Snapshot/Laws.antt =====
-- What the snapshots show of each key of the tables.
use mathlib.Core.Option
use ngx_vts.Prelude.{
  Bytes, Option, none, some, List, [], ◌∷◌, ◌&&◌, is_utf8, if◌then◌else◌, eqb, eqb_iff, ◌≡◌, refl,
  arith, Option-cases, inl, inr,
}
use ngx_vts.Float.{F64}
use ngx_vts.HashMap
use ngx_vts.HashMap.{HashMap, NodupKeys}
use ngx_vts.Stats.{VtsServerStats}
use ngx_vts.UpstreamStats.{UpstreamZone, UpstreamServerStats, new_zone}
use ngx_vts.CacheStats.{CacheZoneStats}
use ngx_vts.Shm.Server
use ngx_vts.Shm.Server.{ServerCounters}
use ngx_vts.Shm.Upstream
use ngx_vts.Shm.Upstream.{UpstreamCounters}
use ngx_vts.Shm.Cache
use ngx_vts.Shm.Cache.{CacheCounters}
use ngx_vts.Shm.Keys.{
  NulFree, upstream_key_bytes, split_upstream_key, split_upstream_key-upstream_key_bytes,
  split_upstream_key-eq_some,
}
use ngx_vts.Shm.Snapshot.{
  add_servers, add_upstream, add_upstreams, add_caches, put_server, build_server_snapshot,
  build_upstream_snapshot, build_cache_snapshot,
}

-- An entry of a list of entries that is found, or else an older one.
abbrev newer {ℓ} : {A : Type ℓ} → Option A → Option A → Option A
newer (some a) old = some a
newer none old = old

module _ (F : F64) where
  get-add_servers :
      (out : HashMap (VtsServerStats F)) (entries : List (Bytes × ServerCounters)) (k : Bytes)
      → NodupKeys entries
      → HashMap.get (add_servers F out entries) k ≡ (
          if is_utf8 k
          then newer (Option.map (Server.into_stats F) (HashMap.get entries k)) (HashMap.get out k)
          else HashMap.get out k)
  unfolding add_servers HashMap.get
  get-add_servers out [] k _ = ground arith
  get-add_servers out ((key, c) ∷ entries) k (fresh, u) = ground (
    arith,
    get-add_servers (if is_utf8 key then HashMap.insert out key (Server.into_stats F c) else out)
        entries k u,
    HashMap.get-insert out key (Server.into_stats F c) k,
    eqb_iff k key,
    fresh,
  )

  -- The snapshot of entries with distinct keys shows each key that is UTF-8, with its counters
  -- converted, and no other key.
  pub get-build_server_snapshot :
      (entries : List (Bytes × ServerCounters)) (k : Bytes)
      → NodupKeys entries
      → HashMap.get (build_server_snapshot F entries) k
        ≡ (if is_utf8 k then Option.map (Server.into_stats F) (HashMap.get entries k) else none)
  unfolding HashMap.get
  get-build_server_snapshot entries k u = ground (arith, get-add_servers [] entries k u)

get-add_caches :
    (out : HashMap CacheZoneStats) (entries : List (Bytes × CacheCounters)) (k : Bytes)
    → NodupKeys entries
    → HashMap.get (add_caches out entries) k ≡ (
        if is_utf8 k
        then newer
            (Option.map (λ c. Cache.into_stats c k) (HashMap.get entries k))
            (HashMap.get out k)
        else HashMap.get out k)
unfolding add_caches HashMap.get
get-add_caches out [] k _ = ground arith
get-add_caches out ((key, c) ∷ entries) k (fresh, u) = ground (
  arith,
  get-add_caches (if is_utf8 key then HashMap.insert out key (Cache.into_stats c key) else out)
      entries k u,
  HashMap.get-insert out key (Cache.into_stats c key) k,
  eqb_iff k key,
  fresh,
)

-- The cache snapshot of entries with distinct keys shows each key that is UTF-8, with its counters
-- converted under that name, and no other key.
pub get-build_cache_snapshot :
    (entries : List (Bytes × CacheCounters)) (k : Bytes)
    → NodupKeys entries
    → HashMap.get (build_cache_snapshot entries) k
      ≡ (if is_utf8 k then Option.map (λ c. Cache.into_stats c k) (HashMap.get entries k) else none)
unfolding HashMap.get
get-build_cache_snapshot entries k u = ground (arith, get-add_caches [] entries k u)

-- The statistics of a server in a group, if there are any.
abbrev pub server_in : Option UpstreamZone → Bytes → Option UpstreamServerStats
server_in none s = none
server_in (some z) s = HashMap.get z.servers s

server_in_new : (u s : Bytes) → HashMap.get (new_zone u).servers s ≡ none
unfolding new_zone HashMap.get
server_in_new u s = refl

-- A round of the loop puts one server in its group.
server_in-add_upstream_split :
    (out : HashMap UpstreamZone) (key : Bytes) (c : UpstreamCounters) (u' s' : Bytes) (u s : Bytes)
    → split_upstream_key key ≡ some (u', s')
    → server_in (HashMap.get (add_upstream out key c) u) s ≡ (
        if (eqb u u' && eqb s s') && (is_utf8 u && is_utf8 s)
        then some (Upstream.into_stats c s)
        else server_in (HashMap.get out u) s)
unfolding add_upstream
server_in-add_upstream_split out key c u' s' u s e =
    rw (e, add_upstream)
      (elim (Option-cases (HashMap.get out u')) [
        | inl absent ↦ ground (
          arith,
          absent,
          HashMap.get-modify-or_insert out u' (new_zone u') (put_server c s') u,
          HashMap.get-insert (new_zone u').servers s' (Upstream.into_stats c s') s,
          server_in_new u' s,
          eqb_iff u u',
          eqb_iff s s',
        )
        | inr (z, found) ↦ ground (
          arith,
          found,
          HashMap.get-modify-or_insert out u' (new_zone u') (put_server c s') u,
          HashMap.get-insert z.servers s' (Upstream.into_stats c s') s,
          eqb_iff u u',
          eqb_iff s s',
        )
      ])

server_in-add_upstream-none :
    (out : HashMap UpstreamZone) (key : Bytes) (c : UpstreamCounters) (u s : Bytes)
    → split_upstream_key key ≡ none
    → server_in (HashMap.get (add_upstream out key c) u) s ≡ server_in (HashMap.get out u) s
unfolding add_upstream
server_in-add_upstream-none out key c u s e = rw (e, add_upstream)

server_in-add_upstream :
    (out : HashMap UpstreamZone) (key : Bytes) (c : UpstreamCounters) (u s : Bytes)
    → NulFree u
    → server_in (HashMap.get (add_upstream out key c) u) s ≡ (
        if eqb (upstream_key_bytes u s) key && (is_utf8 u && is_utf8 s)
        then some (Upstream.into_stats c s)
        else server_in (HashMap.get out u) s)
server_in-add_upstream out key c u s h = elim (Option-cases (split_upstream_key key)) [
  | inl whole ↦ ground (
    arith,
    server_in-add_upstream-none out key c u s whole,
    split_upstream_key-upstream_key_bytes u s h,
    eqb_iff (upstream_key_bytes u s) key,
  )
  | inr ((u', s'), parts) ↦ ground (
    arith,
    server_in-add_upstream_split out key c u' s' u s parts,
    split_upstream_key-upstream_key_bytes u s h,
    split_upstream_key-eq_some key u' s' parts,
    eqb_iff (upstream_key_bytes u s) key,
    eqb_iff u u',
    eqb_iff s s',
  )
]

server_in-add_upstreams :
    (out : HashMap UpstreamZone) (entries : List (Bytes × UpstreamCounters)) (u s : Bytes)
    → NulFree u
    → NodupKeys entries
    → server_in (HashMap.get (add_upstreams out entries) u) s ≡ (
        if is_utf8 u && is_utf8 s
        then newer
            (Option.map
              (λ c. Upstream.into_stats c s)
              (HashMap.get entries (upstream_key_bytes u s)))
            (server_in (HashMap.get out u) s)
        else server_in (HashMap.get out u) s)
unfolding add_upstreams HashMap.get
server_in-add_upstreams out [] u s h _ = ground arith
server_in-add_upstreams out ((key, c) ∷ entries) u s h (fresh, d) = ground (
  arith,
  server_in-add_upstreams (add_upstream out key c) entries u s h d,
  server_in-add_upstream out key c u s h,
  eqb_iff (upstream_key_bytes u s) key,
  fresh,
)

-- The upstream snapshot of entries with distinct keys shows a server in the group of a name with
-- no NUL byte exactly if both names are UTF-8 and their composite key has an entry, and shows it
-- with the counters of that entry converted.
pub server_in-build_upstream_snapshot :
    (entries : List (Bytes × UpstreamCounters)) (u s : Bytes)
    → NulFree u
    → NodupKeys entries
    → server_in (HashMap.get (build_upstream_snapshot entries) u) s ≡ (
        if is_utf8 u && is_utf8 s
        then Option.map
            (λ c. Upstream.into_stats c s)
            (HashMap.get entries (upstream_key_bytes u s))
        else none)
unfolding HashMap.get
server_in-build_upstream_snapshot entries u s h d =
    ground (arith, server_in-add_upstreams [] entries u s h d)
