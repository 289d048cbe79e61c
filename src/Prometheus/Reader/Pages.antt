-- ===== src/Prometheus/Reader/Pages.antt =====
-- How the samples of a page (src/prometheus) are put together from those of its parts.
use mathlib.Core.List.{append_assoc, append-nil}
use ngx_vts.Prelude.{
  ℕ, ◌≡◌, refl, sym, ap, ◌∙◌, Bytes, codes, some, true, List, [], ◌∷◌, ◌++◌, arith, all_of, All,
  All-mono, decimal, length-decimal, decimal-all,
}
use ngx_vts.HashMap.{HashMap}
use ngx_vts.Prometheus.Lines.{Labels, newline, header, sample, each}
use ngx_vts.Prometheus.Reader.{Sample, samples_of, is_name_char, is_visible, read_line, read_page}
use ngx_vts.Prometheus.Reader.Laws.{
  is_word, is_value, is_clean, is_inline, is_plain, all_of-append, all_of_mono, sample_line,
  sample-append, read_line-sample_line, sample_line-inline, lines-append, is_nonempty_of_length,
}

-- A text whose samples, in front of those of any page that follows it, are the given ones.
pub record Reads (text : Bytes) (samples : List Sample) : Type 0 where
  pub reads :
      (rest : Bytes) (out : List Sample)
      → read_page rest ≡ some out
      → read_page (text ++ rest) ≡ some (samples ++ out)

pub Reads-nil : Reads [] []
Reads-nil = record { reads = λ rest out h. h }

pub Reads-append :
    {s t : Bytes} {a b : List Sample} → Reads s a → Reads t b → Reads (s ++ t) (a ++ b)
Reads-append {s} {t} {a} {b} hs ht = record {
  reads = λ rest out h.
      rw (append_assoc s t rest, append_assoc a b out)
        (hs.reads (t ++ rest) (b ++ out) (ht.reads rest out h));
}

pub Reads-page :
    {text : Bytes} {samples : List Sample} → Reads text samples → read_page text ≡ some samples
unfolding read_page
Reads-page {text} {samples} h =
    sym (ap read_page (append-nil text)) ∙ h.reads [] [] refl ∙ ap some (append-nil samples)

pub line-reads :
    (l : Bytes) (a : List Sample) (rest : Bytes) (out : List Sample)
    → all_of is_inline l ≡ true
    → read_line l ≡ some a
    → read_page rest ≡ some out
    → read_page (l ++ 10 ∷ rest) ≡ some (a ++ out)
unfolding read_page
line-reads l a rest out hl ha h = rw (lines-append l rest hl, ha, h) refl

pub Reads-newline : Reads newline []
unfolding read_line
Reads-newline = record { reads = λ rest out h. line-reads [] [] rest out refl refl h }

comment-append :
    (a metric b rest : Bytes)
    → ((b'#' ∷ a) ++ (metric ++ (codes " " ++ (b ++ newline)))) ++ rest
      ≡ (b'#' ∷ (a ++ (metric ++ (codes " " ++ b)))) ++ 10 ∷ rest
comment-append a metric b rest = simp append_assoc

-- A comment on a metric.
Reads-comment :
    (a metric b : Bytes)
    → all_of is_inline a ≡ true
    → all_of is_inline metric ≡ true
    → all_of is_inline b ≡ true
    → Reads ((b'#' ∷ a) ++ (metric ++ (codes " " ++ (b ++ newline)))) []
unfolding read_line
Reads-comment a metric b ha hm hb = record {
  reads = λ rest out h. rw (comment-append a metric b rest) (
      line-reads (b'#' ∷ (a ++ (metric ++ (codes " " ++ b)))) [] rest out
        (all_of-append is_inline a _ ha (all_of-append is_inline metric (codes " " ++ b) hm hb))
        refl h);
}

pub Reads-header :
    (metric help kind : Bytes)
    → is_word metric ≡ true
    → all_of is_inline help ≡ true
    → all_of is_inline kind ≡ true
    → Reads (header metric help kind) []
unfolding header
Reads-header metric help kind hm hh hk =
    let inline = all_of_mono is_name_char is_inline metric (λ c h. ground arith) (ground arith) in
    Reads-append (Reads-comment (codes " HELP ") metric help refl inline hh)
      (Reads-comment (codes " TYPE ") metric kind refl inline hk)

pub Reads-sample :
    (metric : Bytes) (l : Bytes × Bytes) (labels : Labels) (value : Bytes)
    → is_word metric ≡ true
    → is_clean (l ∷ labels) ≡ true
    → is_value value ≡ true
    → Reads
        (sample metric l labels value)
        (record { metric = metric; labels = l ∷ labels; value = value } ∷ [])
Reads-sample metric l labels value hm hl hv = record {
  reads = λ rest out h. rw (sample-append metric l labels value rest) (
      line-reads (sample_line metric l labels value) _ rest out
        (sample_line-inline metric l labels value hm hl hv)
        (read_line-sample_line metric l labels value hm hl hv) h);
}

pub Reads-each {ℓ} :
    {A : Type ℓ} (f : A → Bytes) (g : A → List Sample) (xs : List A)
    → All (λ x. Reads (f x) (g x)) xs
    → Reads (each f xs) (samples_of g xs)
unfolding each
Reads-each f g [] h = Reads-nil
Reads-each f g (x ∷ xs) (h, hs) = Reads-append h (Reads-each f g xs hs)

-- A number is a value.
pub is_value-decimal : (n : ℕ) → is_value (decimal n) ≡ true
is_value-decimal n = ground (
  arith,
  is_nonempty_of_length (decimal n) (length-decimal n),
  decimal-all is_visible (λ d h. ground arith) n,
)

-- The rows of a family, one or more lines for each element that satisfies a condition.
pub Reads-rows {ℓ κ} :
    {A : Type ℓ} (P : A → Type κ) (f : A → Bytes) (g : A → List Sample) (xs : List A)
    → ((x : A) → P x → Reads (f x) (g x))
    → All P xs
    → Reads (each f xs) (samples_of g xs)
Reads-rows P f g xs rows h = Reads-each f g xs (All-mono P (λ x. Reads (f x) (g x)) xs rows h)

-- The last family of a text, and one with a text behind it.
pub Reads-last :
    {header body : Bytes} {a : List Sample}
    → Reads header []
    → Reads body a
    → Reads (header ++ (body ++ newline)) a
Reads-last {header} {body} {a} hh hb =
    rw (sym (append-nil a)) (Reads-append hh (Reads-append hb Reads-newline))

pub Reads-family :
    {header body rest : Bytes} {a b : List Sample}
    → Reads header []
    → Reads body a
    → Reads rest b
    → Reads (header ++ (body ++ (newline ++ rest))) (a ++ b)
Reads-family hh hb hr = Reads-append hh (Reads-append hb (Reads-append Reads-newline hr))

-- Every key can stand in a label as it is.
abbrev pub PlainKeys {ℓ} : {A : Type ℓ} → HashMap A → Type 0
PlainKeys {A = A} m = All (λ (e : Bytes × A). all_of is_plain e.0 ≡ true) m
