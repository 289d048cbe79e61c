-- ===== src/Shm/Locking/Lock.antt =====
-- `ngx::sync::RwLock`, which is not part of the repository: an interface with the laws that
-- src/shm.rs relies on.
use ngx_vts.Prelude.{ℕ, Bool, true, false, not, ◌&&◌, ◌||◌, ◌==◌, ◌≡◌, ◌⊎◌}

pub record RwLock : Type 1 where
  pub State : Type 0
  -- `RwLock::new`
  pub unlocked : State
  -- Whether a process holds a guard.
  pub writes : State → ℕ → Bool
  pub reads : State → ℕ → Bool
  -- `write()` and `read()` return to a process, and a guard of a process is dropped.
  pub Write : ℕ → State → State → Type 0
  pub Read : ℕ → State → State → Type 0
  pub DropWrite : ℕ → State → State → Type 0
  pub DropRead : ℕ → State → State → Type 0

-- A write guard is alone, read guards are not with a write guard, and dropping a guard takes away
-- that guard only.
pub record IsExclusive (L : RwLock) : Type 0 where
  pub unlocked-writes : (j : ℕ) → L.writes L.unlocked j ≡ false
  pub unlocked-reads : (j : ℕ) → L.reads L.unlocked j ≡ false
  pub write_free :
      (i : ℕ) (s t : L.State) (j : ℕ)
      → L.Write i s t
      → (L.writes s j ≡ false) × (L.reads s j ≡ false)
  pub write-writes : (i : ℕ) (s t : L.State) (j : ℕ) → L.Write i s t → L.writes t j ≡ (j == i)
  pub write-reads : (i : ℕ) (s t : L.State) (j : ℕ) → L.Write i s t → L.reads t j ≡ false
  pub read_free : (i : ℕ) (s t : L.State) (j : ℕ) → L.Read i s t → L.writes s j ≡ false
  pub read-writes : (i : ℕ) (s t : L.State) (j : ℕ) → L.Read i s t → L.writes t j ≡ false
  pub read-reads :
      (i : ℕ) (s t : L.State) (j : ℕ) → L.Read i s t → L.reads t j ≡ (j == i || L.reads s j)
  pub drop_write-writes :
      (i : ℕ) (s t : L.State) (j : ℕ)
      → L.DropWrite i s t
      → L.writes t j ≡ (not (j == i) && L.writes s j)
  pub drop_write-reads :
      (i : ℕ) (s t : L.State) (j : ℕ) → L.DropWrite i s t → L.reads t j ≡ L.reads s j
  pub drop_read-writes :
      (i : ℕ) (s t : L.State) (j : ℕ) → L.DropRead i s t → L.writes t j ≡ L.writes s j
  pub drop_read-reads :
      (i : ℕ) (s t : L.State) (j : ℕ)
      → L.DropRead i s t
      → L.reads t j ≡ (not (j == i) && L.reads s j)

-- `write()` waits only while some guard is held, `read()` only while a write guard is, and a guard
-- that is held can be dropped.
pub record IsLive (L : RwLock) : Type 0 where
  pub can_write :
      (i : ℕ) (s : L.State)
      → ((t : L.State) × L.Write i s t) ⊎ ((j : ℕ) × ((L.writes s j || L.reads s j) ≡ true))
  pub can_read :
      (i : ℕ) (s : L.State) → ((t : L.State) × L.Read i s t) ⊎ ((j : ℕ) × (L.writes s j ≡ true))
  pub can_drop_write :
      (i : ℕ) (s : L.State) → L.writes s i ≡ true → (t : L.State) × L.DropWrite i s t
  pub can_drop_read : (i : ℕ) (s : L.State) → L.reads s i ≡ true → (t : L.State) × L.DropRead i s t
