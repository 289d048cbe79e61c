-- ===== src/UpstreamStats/Classes.antt =====
-- src/upstream_stats.rs, src/shm.rs: the ranges of the `match` on a status code are its hundreds.
use ngx_vts.Prelude.{within, ℕ, Bool, true, false, ◌/◌, ◌==◌, ◌≡◌, arith}
use ngx_vts.UpstreamStats.{StatusClass, status_class}

-- Whether two classes are the same.
abbrev pub is_class : StatusClass → StatusClass → Bool
is_class StatusClass.status_1xx StatusClass.status_1xx = true
is_class StatusClass.status_2xx StatusClass.status_2xx = true
is_class StatusClass.status_3xx StatusClass.status_3xx = true
is_class StatusClass.status_4xx StatusClass.status_4xx = true
is_class StatusClass.status_5xx StatusClass.status_5xx = true
is_class _ _ = false

-- A code is in the class of its hundreds.
pub status_class-hundreds :
    (s : ℕ)
    → ((s / 100 == 1) ≡ is_class StatusClass.status_1xx (status_class s))
      × ((s / 100 == 2) ≡ is_class StatusClass.status_2xx (status_class s))
      × ((s / 100 == 3) ≡ is_class StatusClass.status_3xx (status_class s))
      × ((s / 100 == 4) ≡ is_class StatusClass.status_4xx (status_class s))
      × ((s / 100 == 5) ≡ is_class StatusClass.status_5xx (status_class s))
unfolding status_class
status_class-hundreds s = ground arith

-- A code is in the range of its hundreds.
pub within-hundreds :
    (s : ℕ)
    → (within 100 199 s ≡ (s / 100 == 1))
      × (within 200 299 s ≡ (s / 100 == 2))
      × (within 300 399 s ≡ (s / 100 == 3))
      × (within 400 499 s ≡ (s / 100 == 4))
      × (within 500 599 s ≡ (s / 100 == 5))
within-hundreds s = ground arith
