-- ===== src/Instances.antt =====
-- Concrete stand-ins for what the module takes from outside, which meet the stated laws: a map of
-- the slab pool, the Unicode tables over ASCII, and numbers in place of `f64`.
pub mod Guards
use ngx_vts.Prelude.{
  ℕ, zero, suc, ◌+◌, ◌*◌, ◌/◌, ◌%◌, ◌^◌, Bytes, codes, decimal, none, some, [], ◌∷◌, ◌++◌, map, ◌≡◌,
  ◌≢◌, refl, arith, eqb, if◌then◌else◌,
}
use ngx_vts.Float.{F64}
use ngx_vts.HashMap
use ngx_vts.HashMap.{HashMap, NodupKeys}
use ngx_vts.HashMap.Keys.{insert-NodupKeys, modify-NodupKeys}
use ngx_vts.CacheStats.{Unicode, ascii_upper}
use ngx_vts.Shm.Table.{RbTreeMap, IsLawful}

abbrev pub list_map : RbTreeMap
list_map = record {
  Map = λ V. (m : HashMap V) × NodupKeys m;
  empty = ([], tt);
  get = λ m k. HashMap.get m.0 k;
  write = λ m k v. (HashMap.modify m.0 k (λ _. v), modify-NodupKeys m.0 k (λ _. v) m.1);
  insert = λ m k v. (HashMap.insert m.0 k v, insert-NodupKeys m.0 k v m.1);
  entries = λ m. m.0;
}

get-nil : {V : Type 0} (k : Bytes) → HashMap.get {V = V} [] k ≡ none
unfolding HashMap.get
get-nil k = refl

get-modify_present :
    {V : Type 0} (m : HashMap V) (k : Bytes) (v : V) (j : Bytes)
    → HashMap.get m k ≢ none
    → HashMap.get (HashMap.modify m k (λ _. v)) j ≡ (if eqb j k then some v else HashMap.get m j)
get-modify_present m k v j h = ground (arith, HashMap.get-modify m k (λ _. v) j)

pub list_map-IsLawful : IsLawful list_map
list_map-IsLawful = record {
  get-empty = λ k. get-nil k;
  get-write = λ m k v j h. get-modify_present m.0 k v j h;
  get-insert = λ m k v j h. HashMap.get-insert m.0 k v j;
  get-entries = λ m k. refl;
  entries-NodupKeys = λ m. m.1;
}

abbrev pub ascii : Unicode
ascii = record { to_uppercase = map ascii_upper; to_uppercase_ascii = λ s h. refl }

-- The last `p` digits of a number, and the digits before them.
abbrev pub digits : ℕ → ℕ → Bytes
digits zero n = []
digits (suc p) n = digits p (n / 10) ++ (b'0' + n % 10) ∷ []

-- Quotients of natural numbers, rounded down when they are printed.
abbrev pub quotients : F64
quotients = record {
  Carrier = ℕ × ℕ;
  of_u64 = λ n. (n, 1);
  div = λ x y. (x.0 * y.1, x.1 * y.0);
  mul = λ x y. (x.0 * y.0, x.1 * y.1);
  to_fixed =
      λ x p. let n : ℕ = x.0 * 10 ^ p / x.1 in decimal (n / 10 ^ p) ++ (codes "." ++ digits p n);
}
