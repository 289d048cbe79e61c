-- ===== src/Shm/Init.antt =====
-- src/shm.rs: `vts_init_shm_zone`, the zone's initialization callback.
use mathlib.Core.Option
use ngx_vts.Prelude.{none, some, is_some, Bool, true, not, ◌&&◌, ◌||◌, ◌≡◌, if◌then◌else◌, arith}
use ngx_vts.Shm.Record.{VtsShared, ShmState}
use ngx_vts.Shm.Table.{RbTreeMap}

pub data ReturnCode : Type 0 where
  ngx_ok ngx_error : ReturnCode

-- Whether the slab pool has memory for each of the four allocations of a first start.
pub record Attempts : Type 0 where
  pub servers : Bool
  pub upstreams : Bool
  pub caches : Bool
  pub root : Bool

module _ (R : RbTreeMap) where
  -- Three empty maps.
  abbrev pub empty_shared : VtsShared R
  empty_shared = record { servers = R.empty; upstreams = R.empty; caches = R.empty }

  -- The first start: build the maps and the root, and publish it.
  unfoldable pub create : ShmState R → Attempts → ShmState R × ReturnCode
  create s a =
      if a.servers
      then (if a.upstreams
          then (if a.caches
              then (if a.root
                  then (
                    record s { object = some empty_shared; zone_data = true; published = true },
                    ngx_ok,
                  )
                  else (s, ngx_error))
              else (s, ngx_error))
          else (s, ngx_error))
      else (s, ngx_error)

  -- `zone_is_null` is the null test of the argument, and `has_pool` whether
  -- `SlabPool::from_shm_zone` finds a pool.
  unfoldable pub vts_init_shm_zone : Bool → Bool → Attempts → ShmState R → ShmState R × ReturnCode
  unfolding create
  vts_init_shm_zone zone_is_null has_pool attempts s =
      if zone_is_null
      then (s, ngx_error)
      else if has_pool
      then elim s.object [
        | some existing ↦ (record s { zone_data = true; published = true }, ngx_ok)
        | none ↦ create s attempts
      ]
      else (s, ngx_error)

  -- Whether an initialization can go on: there is a zone with a pool, and the pool holds the state
  -- of an earlier cycle or has memory for the four parts of a new one.
  abbrev pub can_start : Bool → Bool → Attempts → ShmState R → Bool
  can_start zone_is_null has_pool a s =
      not zone_is_null
      && has_pool
      && (is_some s.object || a.servers && a.upstreams && a.caches && a.root)

  -- An initialization that can go on publishes the state of an earlier cycle with its counters, or
  -- three empty maps if there is none, and returns `NGX_OK`. Any other changes nothing and returns
  -- `NGX_ERROR`.
  pub vts_init_shm_zone_lem :
      (null pool : Bool) (a : Attempts) (s : ShmState R)
      → vts_init_shm_zone null pool a s ≡ (
          if can_start null pool a s
          then (
            record s {
              object = some (Option.get_or s.object empty_shared);
              zone_data = true;
              published = true;
            },
            ngx_ok,
          )
          else (s, ngx_error))
  unfolding vts_init_shm_zone
  vts_init_shm_zone_lem null pool a s = ground arith
