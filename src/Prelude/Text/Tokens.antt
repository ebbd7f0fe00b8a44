-- ===== src/Prelude/Text/Tokens.antt =====
-- Words that are split and joined.
use Prim.Native.Nat.{ℕ, suc, ◌≤◌}
use mathlib.Core.Path.{◌≡◌, refl, ap, ◌∙◌}
use mathlib.Core.Logic.{inl, inr}
use mathlib.Core.Bool.{Bool, false}
use mathlib.Core.List.{List, [], ◌∷◌, ◌++◌}
use native.Mathlib.Omega.{arith}
use emunel.Prelude.Tests.{Str, nat_beq, Bool-cases}
use emunel.Prelude.Lists.{All, length, length-append, keep, sum_of}
use emunel.Prelude.Text.{split, join, prepend}

-- The separator does not occur.
abbrev pub HasNo : ℕ → Str → Type 0
HasNo sep = All (λ c. nat_beq c sep ≡ false)

-- The characters of words, with one more for each word.
abbrev pub spread : List Str → ℕ
spread = sum_of (λ w. suc (length w))

prepend-HasNo :
    (sep c : ℕ) (ws : List Str)
    → nat_beq c sep ≡ false
    → All (HasNo sep) ws
    → All (HasNo sep) (prepend c ws)
prepend-HasNo sep c [] e h = ((e, tt), tt)
prepend-HasNo sep c (w ∷ ws) e h = ((e, h.0), h.1)

pub split-HasNo : (sep : ℕ) (s : Str) → All (HasNo sep) (split sep s)
unfolding split
split-HasNo sep [] = (tt, tt)
split-HasNo sep (c ∷ s) = elim (Bool-cases (nat_beq c sep)) [
  | inl e ↦ rw e (tt, split-HasNo sep s)
  | inr e ↦ rw e (prepend-HasNo sep c (split sep s) e (split-HasNo sep s))
]

spread-prepend :
    (c : ℕ) (w : Str) (ws : List Str) → spread (prepend c (w ∷ ws)) ≡ suc (spread (w ∷ ws))
spread-prepend c w ws = omega arith

split_cons : (sep : ℕ) (s : Str) → (w : Str) × (ws : List Str) × (split sep s ≡ w ∷ ws)
unfolding split
split_cons sep [] = ([], [], refl)
split_cons sep (c ∷ s) = elim (Bool-cases (nat_beq c sep)) [
  | inl e ↦ ([], split sep s, rw e refl)
  | inr e ↦ let (w, ws, p) = split_cons sep s in (c ∷ w, ws, rw (e, p) refl)
]

pub spread-split : (sep : ℕ) (s : Str) → spread (split sep s) ≡ suc (length s)
unfolding split
spread-split sep [] = omega arith
spread-split sep (c ∷ s) =
    let (w, ws, p) = split_cons sep s in
    let ih = spread-split sep s in
    elim (Bool-cases (nat_beq c sep)) [
      | inl e ↦ rw e (omega (arith, ih))
      | inr e ↦ rw (e, p) (omega (arith, ih, ap spread p))
    ]

pub length-join :
    (sep : ℕ) (w : Str) (ws : List Str) → suc (length (join sep (w ∷ ws))) ≡ spread (w ∷ ws)
unfolding join
length-join sep w [] = omega arith
length-join sep w (v ∷ ws) =
    omega (arith, length-append w (sep ∷ join sep (v ∷ ws)), length-join sep v ws)

split-word : (sep : ℕ) (w : Str) → HasNo sep w → split sep w ≡ w ∷ []
unfolding split
split-word sep [] h = refl
split-word sep (c ∷ w) (e, h) = rw (e, split-word sep w h) refl

split-append : (sep : ℕ) (w s : Str) → HasNo sep w → split sep (w ++ (sep ∷ s)) ≡ w ∷ split sep s
unfolding split
split-append sep [] s h = ground arith
split-append sep (c ∷ w) s (e, h) = rw (e, split-append sep w s h) refl

-- Words without the separator survive.
pub split-join :
    (sep : ℕ) (w : Str) (ws : List Str)
    → All (HasNo sep) (w ∷ ws)
    → split sep (join sep (w ∷ ws)) ≡ w ∷ ws
unfolding join
split-join sep w [] h = split-word sep w h.0
split-join sep w (v ∷ ws) h =
    split-append sep w (join sep (v ∷ ws)) h.0
    ∙ ap (λ (t : List Str). w ∷ t) (split-join sep v ws h.1)

spread-keep-le : (p : Str → Bool) (ws : List Str) → spread (keep p ws) ≤ spread ws
spread-keep-le p [] = omega arith
spread-keep-le p (w ∷ ws) = ground (arith, spread-keep-le p ws)
