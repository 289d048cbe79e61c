-- ===== src/Tests/Source.antt =====
-- The unit tests that stand in the source files (`#[cfg(test)]`), each as the Boolean that it
-- asserts, on the stand-ins for the slab map, `f64` and Unicode.
pub mod Counters
pub mod Snapshots
pub mod Statistics
pub mod Formats
pub mod Upstreams
pub mod Managers
pub mod Pages
pub mod Flows
pub mod Caches
use ngx_vts.Prelude.{
  ℕ, zero, suc, ◌*◌, if◌then◌else◌, Bytes, Bool, Option, none, some, true, false, List, [], ◌∷◌,
  ◌==◌, ◌||◌, ◌&&◌,
}

-- `f` for each element, the first one first.
abbrev pub fold {ℓ κ} : {A : Type ℓ} {B : Type κ} → (B → A → B) → B → List A → B
fold f b [] = b
fold f b (a ∷ more) = fold f (f b a) more

-- `o.unwrap()`, which fails a test on `none`, and then the test.
abbrev pub unwrap_or_fail {ℓ} : {A : Type ℓ} → Option A → (A → Bool) → Bool
unwrap_or_fail none test = false
unwrap_or_fail (some a) test = test a

abbrev pub is_none {ℓ} : {A : Type ℓ} → Option A → Bool
is_none none = true
is_none (some _) = false

-- `start..start + n`
abbrev pub range_from : ℕ → ℕ → List ℕ
range_from start zero = []
range_from start (suc n) = start ∷ range_from (suc start) n

-- `==` on the floats, which are quotients.
abbrev pub same_float : ℕ × ℕ → ℕ × ℕ → Bool
same_float (a, b) (c, d) = a * d == c * b

-- `haystack.starts_with(needle)`
unfoldable pub starts_with : Bytes → Bytes → Bool
starts_with s [] = true
starts_with [] (n ∷ needle) = false
starts_with (b ∷ s) (n ∷ needle) = b == n && starts_with s needle

-- `haystack.contains(needle)`
unfoldable pub contains : Bytes → Bytes → Bool
unfolding starts_with
contains [] needle = starts_with [] needle
contains (b ∷ s) needle = starts_with (b ∷ s) needle || contains s needle

-- `haystack.matches(needle).count()`, for a needle that does not overlap itself.
unfoldable pub count_matches : Bytes → Bytes → ℕ
unfolding starts_with
count_matches [] needle = 0
count_matches (b ∷ s) needle =
    let rest : ℕ = count_matches s needle in if starts_with (b ∷ s) needle then suc rest else rest
