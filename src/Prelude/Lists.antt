-- ===== src/Prelude/Lists.antt =====
-- Lists measured by native numbers, and sums and counts over a list.
use Prim.Native.Nat.{ℕ, zero, suc, ◌+◌, ◌≤◌}
use mathlib.Core.Path.{◌≡◌, ap}
use mathlib.Core.Bool.{Bool, true, ◌&&◌}
use mathlib.Core.Option.{Option, none, some}
use mathlib.Core.List.{List, [], ◌∷◌, ◌++◌, Permᴰ}
use native.Mathlib.Omega.{arith}
use ngx_vts.Prelude.Tests.{if◌then◌else◌}

module _ {ℓ} {A : Type ℓ} where
  abbrev pub length : List A → ℕ
  length [] = 0
  length (x ∷ xs) = suc (length xs)

  abbrev pub replicate : ℕ → A → List A
  replicate zero a = []
  replicate (suc n) a = a ∷ replicate n a

  -- The sum of a measure over a list.
  abbrev pub sum_of : (A → ℕ) → List A → ℕ
  sum_of f [] = 0
  sum_of f (x ∷ xs) = f x + sum_of f xs

  -- How many elements pass a test.
  abbrev pub count_of : (A → Bool) → List A → ℕ
  count_of p [] = 0
  count_of p (x ∷ xs) = (if p x then 1 else 0) + count_of p xs

  abbrev pub all_of : (A → Bool) → List A → Bool
  all_of p [] = true
  all_of p (x ∷ xs) = p x && all_of p xs

  abbrev pub All {κ} : (A → Type κ) → List A → Type κ
  All P [] = Unit
  All P (x ∷ xs) = P x × All P xs

  abbrev pub get_elem? : List A → ℕ → Option A
  get_elem? [] n = none
  get_elem? (x ∷ xs) zero = some x
  get_elem? (x ∷ xs) (suc n) = get_elem? xs n

  pub length-append : (xs ys : List A) → length (xs ++ ys) ≡ length xs + length ys
  length-append [] ys = omega arith
  length-append (x ∷ xs) ys = omega (arith, length-append xs ys)

  pub count_of-le-length : (p : A → Bool) (xs : List A) → count_of p xs ≤ length xs
  count_of-le-length p [] = omega arith
  count_of-le-length p (x ∷ xs) = ground (arith, count_of-le-length p xs)

  pub All-append {κ} : (P : A → Type κ) (xs ys : List A) → All P xs → All P ys → All P (xs ++ ys)
  All-append P [] ys hx hy = hy
  All-append P (x ∷ xs) ys (h, hx) hy = (h, All-append P xs ys hx hy)

  pub All-mono {κ κ'} :
      (P : A → Type κ) (Q : A → Type κ') (xs : List A) → ((x : A) → P x → Q x) → All P xs → All Q xs
  All-mono P Q [] f h = _
  All-mono P Q (x ∷ xs) f (h, hs) = (f x h, All-mono P Q xs f hs)

module _ {ℓ} {A : Type ℓ} where
  -- Order does not matter for a sum, a count or a length.
  pub sum_of-perm : (f : A → ℕ) {xs ys : List A} → Permᴰ xs ys → sum_of f xs ≡ sum_of f ys
  sum_of-perm f Permᴰ.nil = omega arith
  sum_of-perm f (Permᴰ.cons e p) = omega (arith, ap f e, sum_of-perm f p)
  sum_of-perm f (Permᴰ.swap e d) = omega (arith, ap f e, ap f d)
  sum_of-perm f (Permᴰ.trans p q) = omega (arith, sum_of-perm f p, sum_of-perm f q)

  pub count_of-perm :
      (test : A → Bool) {xs ys : List A} → Permᴰ xs ys → count_of test xs ≡ count_of test ys
  count_of-perm test Permᴰ.nil = omega arith
  count_of-perm test (Permᴰ.cons e p) =
      omega (arith, ap {B = ℕ} (λ x. if test x then 1 else 0) e, count_of-perm test p)
  count_of-perm test (Permᴰ.swap e d) = rw (e, d) (omega arith)
  count_of-perm test (Permᴰ.trans p q) = omega (arith, count_of-perm test p, count_of-perm test q)

  pub length-perm : {xs ys : List A} → Permᴰ xs ys → length xs ≡ length ys
  length-perm Permᴰ.nil = omega arith
  length-perm (Permᴰ.cons e p) = omega (arith, length-perm p)
  length-perm (Permᴰ.swap a b) = omega arith
  length-perm (Permᴰ.trans p q) = omega (arith, length-perm p, length-perm q)

  pub count_of_mono :
      (p q : A → Bool) (xs : List A)
      → ((x : A) → p x ≡ true → q x ≡ true)
      → count_of p xs ≤ count_of q xs
  count_of_mono p q [] h = omega arith
  count_of_mono p q (x ∷ xs) h = ground (arith, h x, count_of_mono p q xs h)
