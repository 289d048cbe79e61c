-- ===== src/Prelude/Text.antt =====
-- Text as bytes: the keys of the shared tables are bytes, and a Rust `str` is a sequence of bytes
-- that is valid UTF-8.
use Prim.Native.Nat.{ℕ, zero, suc, ◌+◌, ◌/◌, ◌%◌, ◌^◌, ◌*◌, ◌-◌, ◌<◌, ◌≤◌}
use Prim.Native.Char.{code}
use Prim.Native.String.{String}
use mathlib.Core.Path.{◌≡◌, refl, ap, ◌∙◌}
use mathlib.Core.Logic.{◌↔◌, inl, inr}
use mathlib.Core.Bool.{Bool, true, false, ◌&&◌}
use mathlib.Core.List.{List, [], ◌∷◌}
use native.Mathlib.Omega.{arith}
use ngx_vts.Prelude.Tests.{◌==◌, ltb, within, if◌then◌else◌, Bool-cases}
use ngx_vts.Prelude.Lists.{All, all_of, length}

abbrev pub Bytes : Type 0
Bytes = List ℕ

-- The bytes of an ASCII literal.
abbrev pub codes : String → Bytes
codes String.[] = []
codes (String.◌∷◌ c s) = code c ∷ codes s

-- Equality of byte strings.
unfoldable pub eqb : Bytes → Bytes → Bool
eqb [] [] = true
eqb (a ∷ s) (b ∷ t) = a == b && eqb s t
eqb _ _ = false

pub eqb_iff : (s t : Bytes) → (eqb s t ≡ true) ↔ (s ≡ t)
unfolding eqb
eqb_iff [] [] = (λ _. refl, λ _. refl)
eqb_iff (a ∷ s) (b ∷ t) = ground (arith, eqb_iff s t)
eqb_iff [] (b ∷ t) = ground arith
eqb_iff (a ∷ s) [] = ground arith

pub eqb_refl : (s : Bytes) → eqb s s ≡ true
eqb_refl s = (eqb_iff s s).1 refl

-- The states of a UTF-8 validator: between characters, or the next byte must lie in a range and
-- some continuation bytes follow it.
pub data Utf8 : Type 0 where
  start bad : Utf8
  need : ℕ → ℕ → ℕ → Utf8

abbrev utf8_lead : ℕ → Utf8
utf8_lead c =
    if ltb c 0x80
    then start
    else if within 0xc2 0xdf c
    then need 0x80 0xbf 0
    else if c == 0xe0
    then need 0xa0 0xbf 1
    else if c == 0xed
    then need 0x80 0x9f 1
    else if within 0xe1 0xef c
    then need 0x80 0xbf 1
    else if c == 0xf0
    then need 0x90 0xbf 2
    else if within 0xf1 0xf3 c
    then need 0x80 0xbf 2
    else if c == 0xf4
    then need 0x80 0x8f 2
    else bad

abbrev utf8_rest : ℕ → Utf8
utf8_rest zero = start
utf8_rest (suc k) = need 0x80 0xbf k

utf8_step : Utf8 → ℕ → Utf8
utf8_step start c = utf8_lead c
utf8_step bad c = bad
utf8_step (need lo hi k) c = if within lo hi c then utf8_rest k else bad

utf8_from : Utf8 → Bytes → Bool
utf8_from start [] = true
utf8_from bad [] = false
utf8_from (need lo hi k) [] = false
utf8_from s (c ∷ r) = utf8_from (utf8_step s c) r

-- `std::str::from_utf8(bytes).is_ok()`
unfoldable pub is_utf8 : Bytes → Bool
unfolding utf8_from utf8_step
is_utf8 s = utf8_from start s

pub is_utf8_of_ascii : (s : Bytes) → All (λ c. c < 128) s → is_utf8 s ≡ true
unfolding is_utf8
is_utf8_of_ascii [] _ = refl
is_utf8_of_ascii (c ∷ s) (h, hs) = ground (arith, is_utf8_of_ascii s hs)

is_utf8_two : is_utf8 (0xc3 ∷ 0xa9 ∷ b'a' ∷ []) ≡ true
unfolding is_utf8
is_utf8_two = refl

is_utf8_surrogate : is_utf8 (0xed ∷ 0xa0 ∷ 0x80 ∷ []) ≡ false
unfolding is_utf8
is_utf8_surrogate = refl

-- Decimal digits, least significant last; a `u64` has at most twenty.
decimal_from : ℕ → ℕ → Bytes → Bytes
decimal_from zero n out = out
decimal_from (suc fuel) n out =
    let rest = decimal_from fuel (n / 10) ((b'0' + n % 10) ∷ out) in
    if ltb n 10 then (b'0' + n) ∷ out else rest

-- `format!("{n}")`
unfoldable pub decimal : ℕ → Bytes
unfolding decimal_from
decimal n = decimal_from 20 n []

decimal_from-all :
    (p : ℕ → Bool) (h : (d : ℕ) → d < 10 → p (b'0' + d) ≡ true) (fuel n : ℕ) (out : Bytes)
    → all_of p out ≡ true
    → all_of p (decimal_from fuel n out) ≡ true
unfolding decimal_from
decimal_from-all p h zero n out ho = ho
decimal_from-all p h (suc fuel) n out ho =
    ground (arith, h n, h (n % 10), decimal_from-all p h fuel (n / 10) ((b'0' + n % 10) ∷ out))

-- A test that the ten digits pass is passed by the whole number.
pub decimal-all :
    (p : ℕ → Bool) (h : (d : ℕ) → d < 10 → p (b'0' + d) ≡ true) (n : ℕ)
    → all_of p (decimal n) ≡ true
unfolding decimal
decimal-all p h n = decimal_from-all p h 20 n [] refl

-- A number read from its digits, behind a number read so far.
abbrev pub read_decimal : ℕ → Bytes → ℕ
read_decimal n [] = n
read_decimal n (c ∷ s) = read_decimal (n * 10 + (c - b'0')) s

read_decimal-decimal_from :
    (fuel n : ℕ) (out : Bytes)
    → n < 10 ^ fuel
    → read_decimal 0 (decimal_from fuel n out) ≡ read_decimal n out
unfolding decimal_from
read_decimal-decimal_from zero n out h = ap (λ m. read_decimal m out) (omega arith)
read_decimal-decimal_from (suc fuel) n out h = elim (Bool-cases (ltb n 10)) [
  | inl digit ↦ rw digit (ap (λ m. read_decimal m out) (omega arith))
  | inr more ↦ rw more (
      read_decimal-decimal_from fuel (n / 10) ((b'0' + n % 10) ∷ out) (omega arith)
      ∙ ap (λ m. read_decimal m out) (omega arith))
]

-- Twenty digits are enough for a number below 10 ^ 20, as every `u64` is: its digits read back.
pub read_decimal-decimal : (n : ℕ) → n < 10 ^ 20 → read_decimal 0 (decimal n) ≡ n
unfolding decimal
read_decimal-decimal n h = read_decimal-decimal_from 20 n [] h

length-decimal_from : (fuel n : ℕ) (out : Bytes) → length out ≤ length (decimal_from fuel n out)
unfolding decimal_from
length-decimal_from zero n out = omega arith
length-decimal_from (suc fuel) n out =
    ground (arith, length-decimal_from fuel (n / 10) ((b'0' + n % 10) ∷ out))

pub length-decimal : (n : ℕ) → 0 < length (decimal n)
unfolding decimal decimal_from
length-decimal n = ground (arith, length-decimal_from 19 (n / 10) ((b'0' + n % 10) ∷ []))

decimal_max : decimal 18446744073709551615 ≡ codes "18446744073709551615"
unfolding decimal
decimal_max = refl
