-- ===== src/Prometheus/Reader.antt =====
-- A reader of the Prometheus text format, against which the texts of src/prometheus are checked. It
-- is written from the format and not from the code that prints: a page is read into its samples, a
-- comment or an empty line has none, and a page with a line of another shape is refused.
use mathlib.Core.Option
use ngx_vts.Prelude.{
  ℕ, zero, suc, Bytes, codes, Option, none, some, Bool, true, false, ◌&&◌, ◌||◌, ltb, within, ◌==◌,
  List, [], ◌∷◌, ◌++◌, if◌then◌else◌, length, all_of, decimal,
}
use ngx_vts.Prometheus.Lines.{Labels}
pub mod Laws
pub mod Pages

pub record Sample : Type 0 where
  pub metric : Bytes
  pub labels : Labels
  pub value : Bytes

-- A letter, a digit, an underscore or a colon.
abbrev pub is_name_char : ℕ → Bool
is_name_char c =
    within b'a' b'z' c || within b'A' b'Z' c || within b'0' b'9' c || c == b'_' || c == b':'

abbrev pub is_visible : ℕ → Bool
is_visible c = ltb 32 c

abbrev pub is_nonempty : Bytes → Bool
is_nonempty [] = false
is_nonempty (c ∷ s) = true

-- The longest prefix of characters that pass a test, and what follows it.
unfoldable pub span : (ℕ → Bool) → Bytes → Bytes × Bytes
span p [] = ([], [])
span p (c ∷ s) =
    let rest : Bytes × Bytes = span p s in if p c then (c ∷ rest.0, rest.1) else ([], c ∷ s)

abbrev pub and_then {ℓ κ} : {A : Type ℓ} {B : Type κ} → Option A → (A → Option B) → Option B
and_then none f = none
and_then (some a) f = f a

-- The text behind a prefix.
unfoldable pub expect : Bytes → Bytes → Option Bytes
expect [] s = some s
expect (c ∷ p) [] = none
expect (c ∷ p) (d ∷ s) = let rest : Option Bytes = expect p s in if c == d then rest else none

abbrev pub push : ℕ → Option (Bytes × Bytes) → Option (Bytes × Bytes)
push c none = none
push c (some (s, rest)) = some (c ∷ s, rest)

-- A label's value up to its closing quote, and what follows. The flag tells that a backslash stands
-- in front: `\n` is a newline, a quote and a backslash stand for themselves, and nothing else may follow.
unfoldable pub quoted : Bool → Bytes → Option (Bytes × Bytes)
quoted escaped [] = none
quoted true (c ∷ s) =
    let rest : Option (Bytes × Bytes) = quoted false s in
    if c == b'n' then push 10 rest else if c == 34 || c == 92 then push c rest else none
quoted false (c ∷ s) =
    let escape : Option (Bytes × Bytes) = quoted true s in
    let plain : Option (Bytes × Bytes) = push c (quoted false s) in
    if c == 34 then some ([], s) else if c == 92 then escape else plain

unfoldable pub label_of : Bytes × Bytes → Option ((Bytes × Bytes) × Bytes)
unfolding expect quoted
label_of (name, s) =
    and_then (expect (codes "=\"") s)
      (λ r. and_then (quoted false r) (λ v. some ((name, v.0), v.1)))

-- A label at the front of a text, and what follows.
unfoldable pub read_label : Bytes → Option ((Bytes × Bytes) × Bytes)
unfolding span label_of
read_label s = label_of (span is_name_char s)

-- The labels up to the closing brace, and what follows; the fuel bounds their number.
unfoldable pub read_labels : ℕ → Bytes → Option (Labels × Bytes)
unfolding read_label
read_labels zero s = none
read_labels (suc fuel) s = and_then (read_label s) (λ l. elim l.1 [
  | [] ↦ none
  | c ∷ r ↦
      let more = read_labels fuel r in
      if c == b','
      then and_then more (λ m. some (l.0 ∷ m.0, m.1))
      else if c == b'}'
      then some (l.0 ∷ [], r)
      else none
])

unfoldable pub read_value : Bytes → Labels → Bytes → Option (List Sample)
read_value metric labels value =
    if is_nonempty metric && is_nonempty value && all_of is_visible value
    then some (record { metric = metric; labels = labels; value = value } ∷ [])
    else none

-- A sample from the name of its metric and what follows.
unfoldable pub sample_of : Bytes × Bytes → Option (List Sample)
unfolding read_labels read_value expect
sample_of (metric, []) = none
sample_of (metric, c ∷ s) =
    let labelled : Option (List Sample) =
      and_then (read_labels (length s) s)
        (λ l. and_then (expect (codes " ") l.1) (λ value. read_value metric l.0 value)) in
    if c == b'{' then labelled else if c == 32 then read_value metric [] s else none

-- An empty line or a comment.
abbrev pub has_no_sample : Bytes → Bool
has_no_sample [] = true
has_no_sample (c ∷ s) = c == b'#'

-- The samples of a line, of which there is one or none.
unfoldable pub read_line : Bytes → Option (List Sample)
unfolding span sample_of
read_line line =
    let sample : Option (List Sample) = sample_of (span is_name_char line) in
    if has_no_sample line then some [] else sample

unfoldable pub push_line : ℕ → List Bytes → List Bytes
push_line c [] = (c ∷ []) ∷ []
push_line c (l ∷ ls) = (c ∷ l) ∷ ls

unfoldable pub lines : Bytes → List Bytes
unfolding push_line
lines [] = []
lines (c ∷ s) = let rest : List Bytes = lines s in if c == 10 then [] ∷ rest else push_line c rest

unfoldable pub read_lines : List Bytes → Option (List Sample)
unfolding read_line
read_lines [] = some []
read_lines (l ∷ ls) = and_then (read_line l) (λ a. and_then (read_lines ls) (λ b. some (a ++ b)))

unfoldable pub read_page : Bytes → Option (List Sample)
unfolding lines read_lines
read_page text = read_lines (lines text)

-- The samples of each element of a list, one after the other.
abbrev pub samples_of {ℓ} : {A : Type ℓ} → (A → List Sample) → List A → List Sample
samples_of f [] = []
samples_of f (x ∷ xs) = f x ++ samples_of f xs

-- A sample of a whole number.
abbrev pub counted : Bytes → Labels → ℕ → Sample
counted metric labels n = record { metric = metric; labels = labels; value = decimal n }
