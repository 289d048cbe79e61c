-- ===== src/Prelude/Positions.antt =====
-- The element at a position of a list.
use Prim.Native.Nat.{ℕ, zero, suc, ◌<◌}
use mathlib.Core.Path.{◌≡◌, refl, sym, ap, ◌∙◌}
use mathlib.Core.Option.{none, some}
use mathlib.Core.List.{List, [], ◌∷◌, ◌++◌, append_assoc, append-nil}
use native.Mathlib.Omega.{arith}
use ngx_vts.Prelude.Lists.{length, get_elem?}

pub get_elem?-lt-length {ℓ} :
    {A : Type ℓ} (xs : List A) (n : ℕ) (x : A) → get_elem? xs n ≡ some x → n < length xs
get_elem?-lt-length [] n x h = absurd (ground arith)
get_elem?-lt-length (y ∷ xs) zero x h = omega arith
get_elem?-lt-length (y ∷ xs) (suc n) x h = omega (arith, get_elem?-lt-length xs n x h)

get_elem?-append {ℓ} :
    {A : Type ℓ} (seen rest : List A) (x : A)
    → get_elem? (seen ++ rest) (length seen) ≡ some x
    → (rest' : List A) × (rest ≡ x ∷ rest')
get_elem?-append [] [] x h = absurd (ground arith)
get_elem?-append [] (y ∷ rest) x h = (rest, ground arith)
get_elem?-append (y ∷ seen) rest x h = get_elem?-append seen rest x h

get_elem?-append-none {ℓ} :
    {A : Type ℓ} (seen rest : List A) → get_elem? (seen ++ rest) (length seen) ≡ none → rest ≡ []
get_elem?-append-none [] [] h = refl
get_elem?-append-none [] (y ∷ rest) h = absurd (ground arith)
get_elem?-append-none (y ∷ seen) rest h = get_elem?-append-none seen rest h

-- A loop that has seen the elements `seen` of a list, and sees one more or finds no more.
pub seen_next {ℓ} :
    {A : Type ℓ} (xs seen : List A) (x : A)
    → (rest : List A) × (xs ≡ seen ++ rest)
    → get_elem? xs (length seen) ≡ some x
    → (rest : List A) × (xs ≡ (seen ++ x ∷ []) ++ rest)
seen_next xs seen x (rest, e) h =
    let (rest', split) = get_elem?-append seen rest x (rw e at h) in
    (rest', e ∙ ap (λ r. seen ++ r) split ∙ sym (append_assoc seen (x ∷ []) rest'))

pub seen_all {ℓ} :
    {A : Type ℓ} (xs seen : List A)
    → (rest : List A) × (xs ≡ seen ++ rest)
    → get_elem? xs (length seen) ≡ none
    → xs ≡ seen
seen_all xs seen (rest, e) h =
    e ∙ ap (λ r. seen ++ r) (get_elem?-append-none seen rest (rw e at h)) ∙ append-nil seen
