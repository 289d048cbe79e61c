-- ===== src/Prometheus/Reader/Laws.antt =====
-- What the reader makes of the lines that the formatter writes (src/prometheus).
use mathlib.Core.List.{append_assoc}
use ngx_vts.Prelude.{
  ℕ, zero, suc, ◌≤◌, ◌<◌, ◌≡◌, refl, ap, ◌∙◌, Bytes, codes, some, Bool, true, false, not, ◌&&◌,
  ◌||◌, ◌==◌, [], ◌∷◌, ◌++◌, length, length-append, all_of, within, arith,
}
use ngx_vts.Prometheus.Lines.{Labels, label, more_labels, sample}
use ngx_vts.Prometheus.Reader.{
  is_name_char, is_visible, is_nonempty, has_no_sample, span, expect, quoted, read_label, label_of,
  read_labels, read_value, sample_of, read_line, push_line, lines,
}

pub all_of-append :
    (p : ℕ → Bool) (s t : Bytes) → all_of p s ≡ true → all_of p t ≡ true → all_of p (s ++ t) ≡ true
all_of-append p [] t hs ht = ht
all_of-append p (c ∷ s) t hs ht = ground (arith, all_of-append p s t)

pub all_of_mono :
    (p q : ℕ → Bool) (s : Bytes)
    → ((c : ℕ) → p c ≡ true → q c ≡ true)
    → all_of p s ≡ true
    → all_of q s ≡ true
all_of_mono p q [] h hs = refl
all_of_mono p q (c ∷ s) h hs = ground (arith, h c, all_of_mono p q s h)

-- A character that may stand in a quoted value as it is.
abbrev pub is_plain : ℕ → Bool
is_plain c = not (c == 10 || c == 34 || c == 92)

abbrev pub is_inline : ℕ → Bool
is_inline c = not (c == 10)

-- The name of a metric, and a value.
abbrev pub is_word : Bytes → Bool
is_word s = is_nonempty s && all_of is_name_char s

abbrev pub is_value : Bytes → Bool
is_value s = is_nonempty s && all_of is_visible s

-- Whether a label can be read back: a name, and a value that needs no escape.
abbrev pub is_clean : Labels → Bool
is_clean [] = true
is_clean ((k, v) ∷ ls) = all_of is_name_char k && all_of is_plain v && is_clean ls

span-append :
    (p : ℕ → Bool) (s : Bytes) (c : ℕ) (t : Bytes)
    → all_of p s ≡ true
    → p c ≡ false
    → span p (s ++ c ∷ t) ≡ (s, c ∷ t)
unfolding span
span-append p [] c t hs hc = ground arith
span-append p (d ∷ s) c t hs hc = ground (arith, span-append p s c t)

quoted-append : (s t : Bytes) → all_of is_plain s ≡ true → quoted false (s ++ 34 ∷ t) ≡ some (s, t)
unfolding quoted
quoted-append [] t hs = refl
quoted-append (c ∷ s) t hs = ground (arith, quoted-append s t)

pub lines-append :
    (l rest : Bytes) → all_of is_inline l ≡ true → lines (l ++ 10 ∷ rest) ≡ l ∷ lines rest
unfolding lines push_line
lines-append [] rest h = refl
lines-append (c ∷ l) rest h = ground (arith, lines-append l rest)

label-append : (k v rest : Bytes) → label (k, v) ++ rest ≡ k ++ (b'=' ∷ 34 ∷ (v ++ 34 ∷ rest))
unfolding label
label-append k v rest =
    append_assoc k (codes "=\"" ++ (v ++ codes "\"")) rest
    ∙ ap (λ t. k ++ (b'=' ∷ 34 ∷ t)) (append_assoc v (codes "\"") rest)

read_label-append :
    (k v rest : Bytes)
    → all_of is_name_char k ≡ true
    → all_of is_plain v ≡ true
    → read_label (label (k, v) ++ rest) ≡ some ((k, v), rest)
unfolding read_label label_of expect
read_label-append k v rest hk hv =
    rw
      (
        label-append k v rest,
        span-append is_name_char k b'=' (34 ∷ (v ++ 34 ∷ rest)) hk refl,
        quoted-append v rest hv,
      )
      refl

length-more_labels :
    (labels : Labels) (rest : Bytes) → length labels ≤ length (more_labels labels ++ rest)
unfolding more_labels
length-more_labels [] rest = omega arith
length-more_labels (l ∷ labels) rest = rw (append_assoc (label l) (more_labels labels) rest) (
    omega
      (arith, length-append (label l) (more_labels labels ++ rest), length-more_labels labels rest))

read_labels-append :
    (fuel : ℕ) (l : Bytes × Bytes) (labels : Labels) (rest : Bytes)
    → is_clean (l ∷ labels) ≡ true
    → length labels < fuel
    → read_labels fuel (label l ++ (more_labels labels ++ b'}' ∷ rest)) ≡ some (l ∷ labels, rest)
unfolding read_labels more_labels
read_labels-append zero l labels rest hl hf = ground arith
read_labels-append (suc fuel) (k, v) [] rest hl hf =
    rw (read_label-append k v (b'}' ∷ rest) (ground arith) (ground arith)) refl
read_labels-append (suc fuel) (k, v) (l ∷ labels) rest hl hf =
    rw
      (
        append_assoc (label l) (more_labels labels) (b'}' ∷ rest),
        read_label-append k v (b',' ∷ (label l ++ (more_labels labels ++ b'}' ∷ rest)))
            (ground arith) (ground arith),
        read_labels-append fuel l labels rest (ground arith) (omega arith),
      )
      refl

-- The line of a sample, without its newline.
pub sample_line : Bytes → Bytes × Bytes → Labels → Bytes → Bytes
unfolding label more_labels
sample_line metric l labels value =
    metric ++ b'{' ∷ (label l ++ (more_labels labels ++ b'}' ∷ 32 ∷ value))

pub sample-append :
    (metric : Bytes) (l : Bytes × Bytes) (labels : Labels) (value rest : Bytes)
    → sample metric l labels value ++ rest ≡ sample_line metric l labels value ++ 10 ∷ rest
unfolding sample sample_line
sample-append metric l labels value rest = simp (append_assoc)

length-label : (l : Bytes × Bytes) → 0 < length (label l)
unfolding label
length-label (k, v) = omega (arith, length-append k (codes "=\"" ++ (v ++ codes "\"")))

length-labels :
    (l : Bytes × Bytes) (labels : Labels) (rest : Bytes)
    → length labels < length (label l ++ (more_labels labels ++ rest))
length-labels l labels rest = omega (
  arith,
  length-append (label l) (more_labels labels ++ rest),
  length-label l,
  length-more_labels labels rest,
)

has_no_sample-append :
    (metric rest : Bytes) → is_word metric ≡ true → has_no_sample (metric ++ rest) ≡ false
has_no_sample-append [] rest h = ground arith
has_no_sample-append (c ∷ m) rest h = ground arith

pub read_line-sample_line :
    (metric : Bytes) (l : Bytes × Bytes) (labels : Labels) (value : Bytes)
    → is_word metric ≡ true
    → is_clean (l ∷ labels) ≡ true
    → is_value value ≡ true
    → read_line (sample_line metric l labels value)
      ≡ some (record { metric = metric; labels = l ∷ labels; value = value } ∷ [])
unfolding read_line sample_line sample_of expect read_value
read_line-sample_line metric l labels value hm hl hv =
    let rest = label l ++ (more_labels labels ++ b'}' ∷ 32 ∷ value) in
    rw
      (
        has_no_sample-append metric (b'{' ∷ rest) hm,
        span-append is_name_char metric b'{' rest (ground arith) refl,
        read_labels-append (length rest) l labels (32 ∷ value) hl
            (length-labels l labels (b'}' ∷ 32 ∷ value)),
      )
      (ground (arith, hm, hv))

label-inline : (l : Bytes × Bytes) → is_clean (l ∷ []) ≡ true → all_of is_inline (label l) ≡ true
unfolding label
label-inline (k, v) h =
    all_of-append is_inline k _
      (all_of_mono is_name_char is_inline k (λ c h. ground arith) (ground arith))
      (ground (
        arith,
        all_of-append is_inline v (codes "\"")
            (all_of_mono is_plain is_inline v (λ c h. ground arith) (ground arith)) refl,
      ))

more_labels-inline :
    (labels : Labels) → is_clean labels ≡ true → all_of is_inline (more_labels labels) ≡ true
unfolding more_labels
more_labels-inline [] h = refl
more_labels-inline (l ∷ labels) h =
    all_of-append is_inline (label l) (more_labels labels) (label-inline l (ground arith))
      (more_labels-inline labels (ground arith))

pub sample_line-inline :
    (metric : Bytes) (l : Bytes × Bytes) (labels : Labels) (value : Bytes)
    → is_word metric ≡ true
    → is_clean (l ∷ labels) ≡ true
    → is_value value ≡ true
    → all_of is_inline (sample_line metric l labels value) ≡ true
unfolding sample_line
sample_line-inline metric l labels value hm hl hv =
    all_of-append is_inline metric _
      (all_of_mono is_name_char is_inline metric (λ c h. ground arith) (ground arith))
      (all_of-append is_inline (label l) _ (label-inline l (ground arith)) (
        all_of-append is_inline (more_labels labels) _ (more_labels-inline labels (ground arith))
          (all_of_mono is_visible is_inline value (λ c h. ground arith) (ground arith))))

pub is_nonempty_of_length : (s : Bytes) → 0 < length s → is_nonempty s ≡ true
is_nonempty_of_length [] h = ground arith
is_nonempty_of_length (c ∷ s) h = refl

pub is_word-append :
    (a b : Bytes) → all_of is_name_char a ≡ true → is_word b ≡ true → is_word (a ++ b) ≡ true
is_word-append [] b ha hb = hb
is_word-append (c ∷ a) b ha hb = ground (arith, all_of-append is_name_char (c ∷ a) b)

-- What a float is printed with: digits, a point and a sign, or the letters of `NaN` and `inf`.
abbrev pub is_float_char : ℕ → Bool
is_float_char c =
    within b'0' b'9' c || within b'a' b'z' c || within b'A' b'Z' c || c == b'.' || c == b'-'

abbrev pub is_float : Bytes → Bool
is_float s = is_nonempty s && all_of is_float_char s

pub is_value_of_float : (s : Bytes) → is_float s ≡ true → is_value s ≡ true
is_value_of_float s h = ground (arith, all_of_mono is_float_char is_visible s (λ c h. ground arith))
