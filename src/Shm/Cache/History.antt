-- ===== src/Shm/Cache/History.antt =====
-- What the counters of a cache zone hold, by a description of the observations that does not run
-- the code. A history lists the observations, newest first.
use ngx_vts.Prelude.{ℕ, ◌%◌, ◌≡◌, refl, List, [], ◌∷◌, arith, count_of, ◌==◌, u64_mod}
use ngx_vts.Shm.Cache.{CacheCounters, new, update}

pub record Observation : Type 0 where
  pub status : ℕ
  pub max_size : ℕ
  pub used_size : ℕ

-- The counters after the observations of a history.
unfoldable pub replay : List Observation → CacheCounters
replay [] = new
replay (o ∷ os) = update (replay os) o.status o.max_size o.used_size

-- The observations of a status.
abbrev pub of_status : ℕ → List Observation → ℕ
of_status status = count_of (λ (o : Observation). o.status == status)

-- A size is that of the newest observation.
abbrev pub newest : (Observation → ℕ) → List Observation → ℕ
newest size [] = 0
newest size (o ∷ os) = size o

abbrev pub summary : List Observation → CacheCounters
summary os = record {
  miss = of_status 1 os % u64_mod;
  bypass = of_status 2 os % u64_mod;
  expired = of_status 3 os % u64_mod;
  stale = of_status 4 os % u64_mod;
  updating = of_status 5 os % u64_mod;
  revalidated = of_status 6 os % u64_mod;
  hit = of_status 7 os % u64_mod;
  scarce = of_status 8 os % u64_mod;
  max_size = newest (λ (o : Observation). o.max_size) os;
  used_size = newest (λ (o : Observation). o.used_size) os;
}

pub update-summary :
    (o : Observation) (os : List Observation)
    → update (summary os) o.status o.max_size o.used_size ≡ summary (o ∷ os)
unfolding update
update-summary o os = ground arith

-- The counters of a cache zone are the summary of its history: the number of observations of each
-- status modulo 2 ^ 64, and the sizes of the newest observation.
pub replay-summary : (os : List Observation) → replay os ≡ summary os
unfolding replay new
replay-summary [] = refl
replay-summary (o ∷ os) = rw (replay-summary os) (update-summary o os)
