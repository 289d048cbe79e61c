-- ===== src/Module/Statuses.antt =====
-- The two cache stores count alike: by the number of a status in shared memory, and by its name in
-- the process-local manager.
use ngx_vts.Prelude.{
  ℕ, Bytes, codes, eqb, some, ◌≡◌, refl, ap, ◌∙◌, arith, ◌<◌, map, All, ◌==◌, Bool-cases, inl, inr,
  ==_iff,
}
use ngx_vts.CacheStats.{Unicode, ascii_upper, count_status, update_zone_status, update_zone_size}
use ngx_vts.Shm.Cache
use ngx_vts.Shm.Cache.{CacheCounters}
use ngx_vts.Module.{cache_status_str}

-- A status that nginx reports for a cache, by number and name.
data Listed (n : ℕ) (s : Bytes) : Type 0 where
  miss : n ≡ 1 → s ≡ codes "MISS" → Listed n s
  bypass : n ≡ 2 → s ≡ codes "BYPASS" → Listed n s
  expired : n ≡ 3 → s ≡ codes "EXPIRED" → Listed n s
  stale : n ≡ 4 → s ≡ codes "STALE" → Listed n s
  updating : n ≡ 5 → s ≡ codes "UPDATING" → Listed n s
  revalidated : n ≡ 6 → s ≡ codes "REVALIDATED" → Listed n s
  hit : n ≡ 7 → s ≡ codes "HIT" → Listed n s
  scarce : n ≡ 8 → s ≡ codes "SCARCE" → Listed n s

listed : (n : ℕ) (s : Bytes) → cache_status_str n ≡ some s → Listed n s
unfolding cache_status_str
listed n s h = elim (Bool-cases (n == 1)) [
  | inl e1 ↦ miss ((==_iff n 1).0 e1) (ground arith)
  | inr n1 ↦ elim (Bool-cases (n == 2)) [
    | inl e2 ↦ bypass ((==_iff n 2).0 e2) (ground arith)
    | inr n2 ↦ elim (Bool-cases (n == 3)) [
      | inl e3 ↦ expired ((==_iff n 3).0 e3) (ground arith)
      | inr n3 ↦ elim (Bool-cases (n == 4)) [
        | inl e4 ↦ stale ((==_iff n 4).0 e4) (ground arith)
        | inr n4 ↦ elim (Bool-cases (n == 5)) [
          | inl e5 ↦ updating ((==_iff n 5).0 e5) (ground arith)
          | inr n5 ↦ elim (Bool-cases (n == 6)) [
            | inl e6 ↦ revalidated ((==_iff n 6).0 e6) (ground arith)
            | inr n6 ↦ elim (Bool-cases (n == 7)) [
              | inl e7 ↦ hit ((==_iff n 7).0 e7) (ground arith)
              | inr n7 ↦ elim (Bool-cases (n == 8)) [
                | inl e8 ↦ scarce ((==_iff n 8).0 e8) (ground arith)
                | inr n8 ↦ absurd (ground arith)
              ]
            ]
          ]
        ]
      ]
    ]
  ]
]

module _ (U : Unicode) where
  -- Names of statuses are in capitals already.
  upper : (s : Bytes) → All (λ c. c < 128) s → map ascii_upper s ≡ s → U.to_uppercase s ≡ s
  upper s small capital = U.to_uppercase_ascii s small ∙ capital

  count :
      (c : CacheCounters) (zone s : Bytes) (n : ℕ)
      → U.to_uppercase s ≡ s
      → count_status s (Cache.into_stats c zone).cache
        ≡ (Cache.into_stats (Cache.count_status n c) zone).cache
      → (max used : ℕ)
      → update_zone_size (update_zone_status U (Cache.into_stats c zone) s) max used
        ≡ Cache.into_stats (Cache.update c n max used) zone
  unfolding update_zone_size update_zone_status Cache.into_stats Cache.update
  count c zone s n e h max used = rw e (
      ap
        (λ k. record { name = zone; cache = k; size = record { max_size = max; used_size = used } })
        h)

  counted_miss :
      (c : CacheCounters) (zone : Bytes) (max used : ℕ)
      → update_zone_size (update_zone_status U (Cache.into_stats c zone) (codes "MISS")) max used
        ≡ Cache.into_stats (Cache.update c 1 max used) zone
  unfolding count_status eqb Cache.into_stats Cache.count_status
  counted_miss c zone = count c zone (codes "MISS") 1 (upper (codes "MISS") (omega arith) refl) refl

  counted_bypass :
      (c : CacheCounters) (zone : Bytes) (max used : ℕ)
      → update_zone_size (update_zone_status U (Cache.into_stats c zone) (codes "BYPASS")) max used
        ≡ Cache.into_stats (Cache.update c 2 max used) zone
  unfolding count_status eqb Cache.into_stats Cache.count_status
  counted_bypass c zone =
      count c zone (codes "BYPASS") 2 (upper (codes "BYPASS") (omega arith) refl) refl

  counted_expired :
      (c : CacheCounters) (zone : Bytes) (max used : ℕ)
      → update_zone_size (update_zone_status U (Cache.into_stats c zone) (codes "EXPIRED")) max used
        ≡ Cache.into_stats (Cache.update c 3 max used) zone
  unfolding count_status eqb Cache.into_stats Cache.count_status
  counted_expired c zone =
      count c zone (codes "EXPIRED") 3 (upper (codes "EXPIRED") (omega arith) refl) refl

  counted_stale :
      (c : CacheCounters) (zone : Bytes) (max used : ℕ)
      → update_zone_size (update_zone_status U (Cache.into_stats c zone) (codes "STALE")) max used
        ≡ Cache.into_stats (Cache.update c 4 max used) zone
  unfolding count_status eqb Cache.into_stats Cache.count_status
  counted_stale c zone =
      count c zone (codes "STALE") 4 (upper (codes "STALE") (omega arith) refl) refl

  counted_updating :
      (c : CacheCounters) (zone : Bytes) (max used : ℕ)
      → update_zone_size
          (update_zone_status U (Cache.into_stats c zone) (codes "UPDATING"))
          max
          used
        ≡ Cache.into_stats (Cache.update c 5 max used) zone
  unfolding count_status eqb Cache.into_stats Cache.count_status
  counted_updating c zone =
      count c zone (codes "UPDATING") 5 (upper (codes "UPDATING") (omega arith) refl) refl

  counted_revalidated :
      (c : CacheCounters) (zone : Bytes) (max used : ℕ)
      → update_zone_size
          (update_zone_status U (Cache.into_stats c zone) (codes "REVALIDATED"))
          max
          used
        ≡ Cache.into_stats (Cache.update c 6 max used) zone
  unfolding count_status eqb Cache.into_stats Cache.count_status
  counted_revalidated c zone =
      count c zone (codes "REVALIDATED") 6 (upper (codes "REVALIDATED") (omega arith) refl) refl

  counted_hit :
      (c : CacheCounters) (zone : Bytes) (max used : ℕ)
      → update_zone_size (update_zone_status U (Cache.into_stats c zone) (codes "HIT")) max used
        ≡ Cache.into_stats (Cache.update c 7 max used) zone
  unfolding count_status eqb Cache.into_stats Cache.count_status
  counted_hit c zone = count c zone (codes "HIT") 7 (upper (codes "HIT") (omega arith) refl) refl

  counted_scarce :
      (c : CacheCounters) (zone : Bytes) (max used : ℕ)
      → update_zone_size (update_zone_status U (Cache.into_stats c zone) (codes "SCARCE")) max used
        ≡ Cache.into_stats (Cache.update c 8 max used) zone
  unfolding count_status eqb Cache.into_stats Cache.count_status
  counted_scarce c zone =
      count c zone (codes "SCARCE") 8 (upper (codes "SCARCE") (omega arith) refl) refl

  -- An observation with one of the eight statuses, counted under its number in shared memory, and
  -- counted under its name in the process-local statistics with the sizes set after it, leave the
  -- same statistics of a zone.
  pub into_stats-update_zone :
      (c : CacheCounters) (zone s : Bytes) (n max used : ℕ)
      → cache_status_str n ≡ some s
      → update_zone_size (update_zone_status U (Cache.into_stats c zone) s) max used
        ≡ Cache.into_stats (Cache.update c n max used) zone
  into_stats-update_zone c zone s n max used h = by_name (listed n s h)
    where
      by_name :
          Listed n s
          → update_zone_size (update_zone_status U (Cache.into_stats c zone) s) max used
            ≡ Cache.into_stats (Cache.update c n max used) zone
      by_name (miss p q) = rw (p, q) (counted_miss c zone max used)
      by_name (bypass p q) = rw (p, q) (counted_bypass c zone max used)
      by_name (expired p q) = rw (p, q) (counted_expired c zone max used)
      by_name (stale p q) = rw (p, q) (counted_stale c zone max used)
      by_name (updating p q) = rw (p, q) (counted_updating c zone max used)
      by_name (revalidated p q) = rw (p, q) (counted_revalidated c zone max used)
      by_name (hit p q) = rw (p, q) (counted_hit c zone max used)
      by_name (scarce p q) = rw (p, q) (counted_scarce c zone max used)
