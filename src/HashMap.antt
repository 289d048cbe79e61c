-- ===== src/HashMap.antt =====
-- `std::collections::HashMap<String, V>` as an association list. Iteration goes in insertion
-- order, which is one of the orders that the real map may choose.
pub mod Keys
use ngx_vts.Prelude.{
  Bytes, ◌≡◌, refl, Option, none, some, List, [], ◌∷◌, map, arith, eqb, eqb_iff, eqb_refl,
  if◌then◌else◌,
}
use mathlib.Core.Option

abbrev pub HashMap {ℓ} : Type ℓ → Type ℓ
HashMap V = List (Bytes × V)

module _ {ℓ} {V : Type ℓ} where
  -- `m.get(k)`
  unfoldable pub get : HashMap V → Bytes → Option V
  get [] k = none
  get ((j, v) ∷ m) k = if eqb k j then some v else get m k

  -- `m.insert(k, v)`
  unfoldable pub insert : HashMap V → Bytes → V → HashMap V
  insert [] k v = (k, v) ∷ []
  insert ((j, w) ∷ m) k v = if eqb k j then (j, v) ∷ m else (j, w) ∷ insert m k v

  -- `m.entry(k).or_insert_with(|| v)`, as the map that it leaves.
  unfoldable pub or_insert : HashMap V → Bytes → V → HashMap V
  or_insert [] k v = (k, v) ∷ []
  or_insert ((j, w) ∷ m) k v = if eqb k j then (j, w) ∷ m else (j, w) ∷ or_insert m k v

  -- A change made through the reference that `m.get_mut(k)` or an entry returns.
  unfoldable pub modify : HashMap V → Bytes → (V → V) → HashMap V
  modify [] k f = []
  modify ((j, w) ∷ m) k f = if eqb k j then (j, f w) ∷ m else (j, w) ∷ modify m k f

  -- `m.values()`
  abbrev pub values : HashMap V → List V
  values = map (λ e. e.1)

  -- No key stands twice.
  abbrev pub NodupKeys : HashMap V → Type ℓ
  NodupKeys [] = Unit
  NodupKeys ((k, _) ∷ m) = (get m k ≡ none) × NodupKeys m

  pub get-insert :
      (m : HashMap V) (k : Bytes) (v : V) (j : Bytes)
      → get (insert m k v) j ≡ (if eqb j k then some v else get m j)
  unfolding get insert
  get-insert [] k v j = refl
  get-insert ((i, w) ∷ m) k v j =
      ground (arith, eqb_iff j k, eqb_iff k i, eqb_iff j i, get-insert m k v j)

  pub get-or_insert :
      (m : HashMap V) (k : Bytes) (v : V) (j : Bytes)
      → get (or_insert m k v) j ≡ (if eqb j k then some (Option.get_or (get m k) v) else get m j)
  unfolding get or_insert
  get-or_insert [] k v j = refl
  get-or_insert ((i, w) ∷ m) k v j =
      ground (arith, eqb_iff j k, eqb_iff k i, eqb_iff j i, get-or_insert m k v j)

  pub get-modify :
      (m : HashMap V) (k : Bytes) (f : V → V) (j : Bytes)
      → get (modify m k f) j ≡ (if eqb j k then Option.map f (get m k) else get m j)
  unfolding get modify
  get-modify [] k f j = ground arith
  get-modify ((i, w) ∷ m) k f j =
      ground (arith, eqb_iff j k, eqb_iff k i, eqb_iff j i, get-modify m k f j)

  -- `*m.entry(k).or_insert_with(|| v) = f(...)`: create the entry if it is missing, then change it.
  pub get-modify-or_insert :
      (m : HashMap V) (k : Bytes) (v : V) (f : V → V) (j : Bytes)
      → get (modify (or_insert m k v) k f) j
        ≡ (if eqb j k then some (f (Option.get_or (get m k) v)) else get m j)
  get-modify-or_insert m k v f j = ground (
    arith,
    get-modify (or_insert m k v) k f j,
    get-or_insert m k v k,
    get-or_insert m k v j,
    eqb_refl k,
  )

module _ {ℓ κ} {V : Type ℓ} {W : Type κ} where
  -- `m.iter().map(|(k, v)| (k.clone(), f(v))).collect()`
  unfoldable pub map_values : (V → W) → HashMap V → HashMap W
  map_values f = map (λ e. (e.0, f e.1))

  pub get-map_values :
      (f : V → W) (m : HashMap V) (k : Bytes) → get (map_values f m) k ≡ Option.map f (get m k)
  unfolding get map_values
  get-map_values f [] k = refl
  get-map_values f ((j, v) ∷ m) k = ground (arith, get-map_values f m k)
