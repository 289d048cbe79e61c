-- ===== src/Shm/Keys.antt =====
-- src/shm.rs: the composite key of an upstream server, and its inverse.
use ngx_vts.Prelude.{
  ◌≡◌, ◌≢◌, ◌↔◌, ◌∙◌, refl, Bytes, Option, none, some, [], ◌∷◌, ◌++◌, ap, arith, All, ◌==◌,
  if◌then◌else◌,
}
use mathlib.Core.Option

-- `"upstream\0server"`
unfoldable pub upstream_key_bytes : Bytes → Bytes → Bytes
upstream_key_bytes upstream server = upstream ++ 0 ∷ server

-- Everything before the first NUL byte and everything after it, if there is one.
unfoldable pub split_upstream_key : Bytes → Option (Bytes × Bytes)
split_upstream_key [] = none
split_upstream_key (b ∷ bytes) =
    let rest = Option.map (λ (p : Bytes × Bytes). (b ∷ p.0, p.1)) (split_upstream_key bytes) in
    if b == 0 then some ([], bytes) else rest

-- A C string has no NUL byte.
abbrev pub NulFree : Bytes → Type 0
NulFree = All (λ b. b ≢ 0)

-- Splitting a composite key gives back the upstream and the server, for an upstream name with no
-- NUL byte and any server.
pub split_upstream_key-upstream_key_bytes :
    (upstream server : Bytes)
    → NulFree upstream
    → split_upstream_key (upstream_key_bytes upstream server) ≡ some (upstream, server)
unfolding split_upstream_key upstream_key_bytes
split_upstream_key-upstream_key_bytes [] server _ = refl
split_upstream_key-upstream_key_bytes (b ∷ upstream) server (h, hs) =
    ground (arith, split_upstream_key-upstream_key_bytes upstream server hs)

-- Only the composite key of two names splits into them.
pub split_upstream_key-eq_some :
    (key upstream server : Bytes)
    → split_upstream_key key ≡ some (upstream, server)
    → (key ≡ upstream_key_bytes upstream server) × NulFree upstream
unfolding split_upstream_key upstream_key_bytes
split_upstream_key-eq_some [] u s h = ground arith
split_upstream_key-eq_some (b ∷ key) [] s h = ground arith
split_upstream_key-eq_some (b ∷ key) (c ∷ u) s h =
    ground (arith, split_upstream_key-eq_some key u s)

-- Two pairs of names with one composite key are the same pair.
pub upstream_key_bytes_inj :
    (u s u' s' : Bytes)
    → NulFree u
    → NulFree u'
    → upstream_key_bytes u s ≡ upstream_key_bytes u' s'
    → (u ≡ u') × (s ≡ s')
upstream_key_bytes_inj u s u' s' hu hu' e = ground (
  arith,
  split_upstream_key-upstream_key_bytes u s hu,
  split_upstream_key-upstream_key_bytes u' s' hu',
  ap split_upstream_key e,
)

-- Splitting is exactly the inverse of composing: a key splits into two parts if and only if it is
-- their composite and the first has no NUL byte.
pub split_upstream_key_iff :
    (key upstream server : Bytes)
    → (split_upstream_key key ≡ some (upstream, server))
      ↔ ((key ≡ upstream_key_bytes upstream server) × NulFree upstream)
split_upstream_key_iff key u s = (
  split_upstream_key-eq_some key u s,
  λ h. ap split_upstream_key h.0 ∙ split_upstream_key-upstream_key_bytes u s h.1,
)
