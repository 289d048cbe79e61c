-- ===== src/Shm/Record.antt =====
-- src/shm.rs: the published pointer, the root of the shared state and the recording functions.
-- Each recording holds the write lock of its map from its lookup to its insertion, and is one step
-- here; Locking has its single accesses.
pub mod Laws
use ngx_vts.Prelude.{
  ℕ, Bytes, Option, none, some, Bool, true, false, ◌||◌, length, ltb, ◌==◌, if◌then◌else◌,
}
use ngx_vts.Shm.Server
use ngx_vts.Shm.Server.{ServerCounters}
use ngx_vts.Shm.Upstream
use ngx_vts.Shm.Upstream.{UpstreamCounters}
use ngx_vts.Shm.Cache
use ngx_vts.Shm.Cache.{CacheCounters}
use ngx_vts.Shm.Keys.{upstream_key_bytes}
use ngx_vts.Shm.Table.{RbTreeMap}

abbrev pub vts_max_key_bytes : ℕ
vts_max_key_bytes = 256

pub record VtsShared (R : RbTreeMap) : Type 0 where
  pub servers : R.Map ServerCounters
  pub upstreams : R.Map UpstreamCounters
  pub caches : R.Map CacheCounters

-- What the slab pool and the process hold. `object` is the `VtsShared` that the pool's `data`
-- field points at, `zone_data` whether the zone's own `data` field points at it, and `published`
-- whether `VTS_SHARED` does: no other address is ever stored in the three.
pub record ShmState (R : RbTreeMap) : Type 0 where
  pub object : Option (VtsShared R)
  pub zone_data : Bool
  pub published : Bool

-- Whether the slab pool has memory for a new key and for a new node, when a recording asks.
pub record Room : Type 0 where
  pub key : Bool
  pub node : Bool

abbrev pub empty_or_long : Bytes → Bool
empty_or_long name = length name == 0 || ltb vts_max_key_bytes (length name)

module _ (R : RbTreeMap) where
  unfoldable pub is_configured : ShmState R → Bool
  is_configured s = s.published

  unfoldable pub shared : ShmState R → Option (VtsShared R)
  shared s = if s.published then s.object else none

  -- The end of each recording: update the entry of the key, or insert a new one.
  unfoldable pub record_entry : {V : Type 0} → R.Map V → Bytes → V → (V → V) → Room → R.Map V
  record_entry m key new update room = elim (R.get m key) [
    | some entry ↦ R.write m key (update entry)
    | none ↦ if room.key then (if room.node then R.insert m key (update new) else m) else m
  ]

  unfoldable pub record_server : ShmState R → Bytes → ℕ → ℕ → ℕ → ℕ → Room → ShmState R × Bool
  record_server s name status bytes_in bytes_out request_time room = elim (shared s) [
    | none ↦ (s, false)
    | some sh ↦ if empty_or_long name then (s, true) else (
      record s {
        object = some (record sh {
          servers =
              record_entry sh.servers name Server.new
                (λ c. Server.update c status bytes_in bytes_out request_time) room;
        });
      },
      true,
    )
  ]

  unfoldable pub record_upstream :
      ShmState R → Bytes → Bytes → ℕ → ℕ → ℕ → ℕ → ℕ → Room → ShmState R × Bool
  record_upstream s upstream server request_time upstream_response_time bytes_sent bytes_received
        status room =
      elim (shared s) [
        | none ↦ (s, false)
        | some sh ↦ if empty_or_long upstream || empty_or_long server then (s, true) else (
          record s {
            object = some (record sh {
              upstreams =
                  record_entry sh.upstreams (upstream_key_bytes upstream server) Upstream.new
                    (λ c.
                      Upstream.update c request_time upstream_response_time bytes_sent
                        bytes_received status)
                    room;
            });
          },
          true,
        )
      ]

  unfoldable pub record_cache : ShmState R → Bytes → ℕ → ℕ → ℕ → Room → ShmState R × Bool
  record_cache s zone status max_size used_size room = elim (shared s) [
    | none ↦ (s, false)
    | some sh ↦ if empty_or_long zone then (s, true) else (
      record s {
        object = some (record sh {
          caches =
              record_entry sh.caches zone Cache.new (λ c. Cache.update c status max_size used_size)
                room;
        });
      },
      true,
    )
  ]
