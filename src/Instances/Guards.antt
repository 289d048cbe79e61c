-- ===== src/Instances/Guards.antt =====
-- A reader-writer lock that keeps a list of its guards.
use ngx_vts.Prelude.{
  ℕ, Bool, true, false, not, ◌&&◌, ◌||◌, ◌==◌, ==_iff, Option, none, some, List, [], ◌∷◌, ◌≡◌, ◌⊎◌,
  inl, inr, refl, arith, if◌then◌else◌,
}
use ngx_vts.Shm.Locking.Lock.{RwLock, IsExclusive, IsLive}

abbrev member : ℕ → List ℕ → Bool
member j [] = false
member j (i ∷ is) = j == i || member j is

abbrev without : ℕ → List ℕ → List ℕ
without i [] = []
without i (j ∷ js) = if j == i then without i js else j ∷ without i js

abbrev holds : Option ℕ → ℕ → Bool
holds none j = false
holds (some i) j = j == i

abbrev pub guards : RwLock
guards = record {
  State = Option ℕ × List ℕ;
  unlocked = (none, []);
  writes = λ s. holds s.0;
  reads = λ s j. member j s.1;
  Write = λ i s t. (s ≡ (none, [])) × (t ≡ (some i, []));
  Read = λ i s t. (s.0 ≡ none) × (t ≡ (none, i ∷ s.1));
  DropWrite = λ i s t. (s.0 ≡ some i) × (t ≡ (none, s.1));
  DropRead = λ i s t. t ≡ (s.0, without i s.1);
}

member-without : (i j : ℕ) (js : List ℕ) → member j (without i js) ≡ (not (j == i) && member j js)
member-without i j [] = ground arith
member-without i j (k ∷ js) = ground (arith, member-without i j js)

guards_writable :
    (i : ℕ) (s : guards.State)
    → ((t : guards.State) × guards.Write i s t)
      ⊎ ((j : ℕ) × ((guards.writes s j || guards.reads s j) ≡ true))
guards_writable i (none, []) = inl ((some i, []), (refl, refl))
guards_writable i (none, j ∷ js) = inr (j, ground arith)
guards_writable i (some j, js) = inr (j, ground arith)

guards_readable :
    (i : ℕ) (s : guards.State)
    → ((t : guards.State) × guards.Read i s t) ⊎ ((j : ℕ) × (guards.writes s j ≡ true))
guards_readable i (none, js) = inl ((none, i ∷ js), (refl, refl))
guards_readable i (some j, js) = inr (j, ground arith)

holds-some : (w : Option ℕ) (i : ℕ) → holds w i ≡ true → w ≡ some i
holds-some none i h = absurd (ground arith)
holds-some (some j) i h = ground (arith, ==_iff i j)

pub guards-IsExclusive : IsExclusive guards
guards-IsExclusive = record {
  unlocked-writes = λ j. refl;
  unlocked-reads = λ j. refl;
  write_free = λ i s t j h. rw h.0 (refl, refl);
  write-writes = λ i s t j h. rw h.1 refl;
  write-reads = λ i s t j h. rw h.1 refl;
  read_free = λ i s t j h. rw h.0 refl;
  read-writes = λ i s t j h. rw h.1 refl;
  read-reads = λ i s t j h. rw h.1 refl;
  drop_write-writes = λ i s t j h. rw (h.1, h.0) (ground arith);
  drop_write-reads = λ i s t j h. rw h.1 refl;
  drop_read-writes = λ i s t j h. rw h refl;
  drop_read-reads = λ i s t j h. rw h (member-without i j s.1);
}

pub guards-IsLive : IsLive guards
guards-IsLive = record {
  can_write = guards_writable;
  can_read = guards_readable;
  can_drop_write = λ i s h. ((none, s.1), (holds-some s.0 i h, refl));
  can_drop_read = λ i s h. ((s.0, without i s.1), refl);
}
