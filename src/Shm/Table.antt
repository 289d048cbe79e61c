-- ===== src/Shm/Table.antt =====
-- The ordered maps of the slab pool, `ngx::collections::RbTreeMap` with keys `NgxString`: an
-- interface with the laws that src/shm.rs relies on, and a plain list that meets them.
use ngx_vts.Prelude.{◌≡◌, Bytes, eqb, Option, none, some, List, if◌then◌else◌, ◌≢◌}
use ngx_vts.HashMap
use ngx_vts.HashMap.{HashMap, NodupKeys}

pub record RbTreeMap : Type 1 where
  pub Map : Type 0 → Type 0
  -- `RbTreeMap::try_new_in`, where it succeeds
  pub empty : {V : Type 0} → Map V
  -- `map.get_mut(key)`, read
  pub get : {V : Type 0} → Map V → Bytes → Option V
  -- an assignment through `map.get_mut(key)`
  pub write : {V : Type 0} → Map V → Bytes → V → Map V
  -- `map.try_insert(key, value)`, where it succeeds
  pub insert : {V : Type 0} → Map V → Bytes → V → Map V
  -- `map.iter()`
  pub entries : {V : Type 0} → Map V → List (Bytes × V)

pub record IsLawful (R : RbTreeMap) : Type 1 where
  pub get-empty : {V : Type 0} (k : Bytes) → R.get (R.empty {V = V}) k ≡ none
  pub get-write :
      {V : Type 0} (m : R.Map V) (k : Bytes) (v : V) (j : Bytes)
      → R.get m k ≢ none
      → R.get (R.write m k v) j ≡ (if eqb j k then some v else R.get m j)
  pub get-insert :
      {V : Type 0} (m : R.Map V) (k : Bytes) (v : V) (j : Bytes)
      → R.get m k ≡ none
      → R.get (R.insert m k v) j ≡ (if eqb j k then some v else R.get m j)
  pub get-entries : {V : Type 0} (m : R.Map V) (k : Bytes) → HashMap.get (R.entries m) k ≡ R.get m k
  -- No key is visited twice.
  pub entries-NodupKeys : {V : Type 0} (m : R.Map V) → NodupKeys (R.entries m)
