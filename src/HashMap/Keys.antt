-- ===== src/HashMap/Keys.antt =====
-- Distinct keys, and a property of each entry, under the operations of a map.
use ngx_vts.Prelude.{Bytes, none, [], ◌∷◌, ◌≡◌, refl, arith, eqb, eqb_iff, Bool-cases, inl, inr}
use ngx_vts.HashMap.{
  HashMap, NodupKeys, get, insert, or_insert, modify, get-insert, get-or_insert, get-modify,
}

module _ {ℓ} {V : Type ℓ} where
  get-nil : (k : Bytes) → get {V = V} [] k ≡ none
  unfolding get
  get-nil k = refl

  pub insert-NodupKeys :
      (m : HashMap V) (k : Bytes) (v : V) → NodupKeys m → NodupKeys (insert m k v)
  unfolding insert
  insert-NodupKeys [] k v _ = (get-nil k, tt)
  insert-NodupKeys ((j, w) ∷ m) k v (fresh, u) =
      ground (arith, insert-NodupKeys m k v u, get-insert m k v j, eqb_iff k j, eqb_iff j k)

  pub or_insert-NodupKeys :
      (m : HashMap V) (k : Bytes) (v : V) → NodupKeys m → NodupKeys (or_insert m k v)
  unfolding or_insert
  or_insert-NodupKeys [] k v _ = (get-nil k, tt)
  or_insert-NodupKeys ((j, w) ∷ m) k v (fresh, u) =
      ground (arith, or_insert-NodupKeys m k v u, get-or_insert m k v j, eqb_iff k j, eqb_iff j k)

  pub modify-NodupKeys :
      (m : HashMap V) (k : Bytes) (f : V → V) → NodupKeys m → NodupKeys (modify m k f)
  unfolding modify
  modify-NodupKeys [] k f _ = tt
  modify-NodupKeys ((j, w) ∷ m) k f (fresh, u) =
      ground (arith, modify-NodupKeys m k f u, get-modify m k f j, eqb_iff k j, eqb_iff j k)

  -- Every entry has a property of its key and value.
  abbrev pub Each {κ} : (Bytes → V → Type κ) → HashMap V → Type κ
  Each P [] = Unit
  Each P ((k, v) ∷ m) = P k v × Each P m

  pub or_insert-Each {κ} :
      (P : Bytes → V → Type κ) (m : HashMap V) (k : Bytes) (v : V)
      → P k v
      → Each P m
      → Each P (or_insert m k v)
  unfolding or_insert
  or_insert-Each P [] k v p _ = (p, tt)
  or_insert-Each P ((j, w) ∷ m) k v p (h, hs) = elim (Bool-cases (eqb k j)) [
    | inl same ↦ rw same (h, hs)
    | inr other ↦ rw other (h, or_insert-Each P m k v p hs)
  ]

  pub modify-Each {κ} :
      (P : Bytes → V → Type κ) (m : HashMap V) (k : Bytes) (f : V → V)
      → ((v : V) → P k v → P k (f v))
      → Each P m
      → Each P (modify m k f)
  unfolding modify
  modify-Each P [] k f keep _ = tt
  modify-Each P ((j, w) ∷ m) k f keep (h, hs) = elim (Bool-cases (eqb k j)) [
    | inl same ↦ let e : k ≡ j = (eqb_iff k j).0 same in rw same (rw e at (keep w (rw e h)), hs)
    | inr other ↦ rw other (h, modify-Each P m k f keep hs)
  ]
