-- ===== src/Prelude/Text/Trim.antt =====
-- Stripped text, and text that is split and joined.
use Prim.Native.Nat.{ℕ, ◌≤◌}
use mathlib.Core.Path.{◌≡◌, refl, sym, ap, ◌∙◌}
use mathlib.Core.Logic.{inl, inr}
use mathlib.Core.Bool.{false}
use mathlib.Core.List.{[], ◌∷◌, ◌++◌, reverse, reverse-append, reverse-cons}
use native.Mathlib.Omega.{arith}
use emunel.Prelude.Tests.{Str, if◌then◌else◌, Bool-cases}
use emunel.Prelude.Lists.{All, length}
use emunel.Prelude.Text.{is_space, lstrip, strip}

-- A character in front of a text that is stripped at its end.
abbrev before : ℕ → Str → Str
before c [] = if is_space c then [] else c ∷ []
before c (d ∷ r) = c ∷ d ∷ r

-- s.rstrip(), from the front
rstrip : Str → Str
rstrip [] = []
rstrip (c ∷ s) = before c (rstrip s)

abbrev behind : ℕ → Str → Str
behind c [] = if is_space c then [] else c ∷ []
behind c (d ∷ r) = (d ∷ r) ++ (c ∷ [])

lstrip-append : (c : ℕ) (s : Str) → lstrip (s ++ (c ∷ [])) ≡ behind c (lstrip s)
unfolding lstrip is_space
lstrip-append c [] = refl
lstrip-append c (d ∷ s) = elim (Bool-cases (is_space d)) [
  | inl space ↦ rw space (lstrip-append c s)
  | inr other ↦ rw other refl
]

before-append : (c d : ℕ) (s : Str) → before c (s ++ (d ∷ [])) ≡ c ∷ (s ++ (d ∷ []))
before-append c d [] = refl
before-append c d (x ∷ s) = refl

reverse-behind : (c : ℕ) (s : Str) → reverse (behind c s) ≡ before c (reverse s)
reverse-behind c [] = elim (Bool-cases (is_space c)) [ inl e ↦ rw e refl | inr e ↦ rw e refl ]
reverse-behind c (d ∷ s) =
    reverse-append (d ∷ s) (c ∷ [])
    ∙ ap (λ (r : Str). c ∷ r) (reverse-cons d s)
    ∙ sym (before-append c d (reverse s))
    ∙ ap (before c) (sym (reverse-cons d s))

rstrip_lem : (s : Str) → reverse (lstrip (reverse s)) ≡ rstrip s
unfolding rstrip lstrip
rstrip_lem [] = refl
rstrip_lem (c ∷ s) =
    ap (λ (r : Str). reverse (lstrip r)) (reverse-cons c s)
    ∙ ap reverse (lstrip-append c (reverse s))
    ∙ reverse-behind c (lstrip (reverse s))
    ∙ ap (before c) (rstrip_lem s)

strip_lem : (s : Str) → strip s ≡ rstrip (lstrip s)
unfolding strip
strip_lem s = rstrip_lem (lstrip s)

-- No space in front, and none at the end.
abbrev HasLead : Str → Type 0
HasLead [] = Unit
HasLead (c ∷ s) = is_space c ≡ false

lstrip-HasLead : (s : Str) → HasLead (lstrip s)
unfolding lstrip
lstrip-HasLead [] = tt
lstrip-HasLead (c ∷ s) = elim (Bool-cases (is_space c)) [
  | inl space ↦ rw space (lstrip-HasLead s)
  | inr other ↦ rw other other
]

lstrip_led : (s : Str) → HasLead s → lstrip s ≡ s
unfolding lstrip
lstrip_led [] h = refl
lstrip_led (c ∷ s) h = rw h refl

rstrip-HasLead : (s : Str) → HasLead s → HasLead (rstrip s)
unfolding rstrip
rstrip-HasLead [] h = tt
rstrip-HasLead (c ∷ s) h = go (rstrip s)
  where
    go : (r : Str) → HasLead (before c r)
    go [] = rw h h
    go (d ∷ r) = h

rstrip_idem : (s : Str) → rstrip (rstrip s) ≡ rstrip s
unfolding rstrip
rstrip_idem [] = refl
rstrip_idem (c ∷ s) = go (rstrip s) (rstrip_idem s)
  where
    go : (r : Str) → rstrip r ≡ r → rstrip (before c r) ≡ before c r
    go [] e = elim (Bool-cases (is_space c)) [ inl b ↦ rw b refl | inr b ↦ rw b (rw b refl) ]
    go (d ∷ r) e = ap (before c) e

pub strip_idem : (s : Str) → strip (strip s) ≡ strip s
strip_idem s =
    strip_lem (strip s)
    ∙ ap (λ (r : Str). rstrip (lstrip r)) (strip_lem s)
    ∙ ap rstrip (lstrip_led (rstrip (lstrip s)) (rstrip-HasLead (lstrip s) (lstrip-HasLead s)))
    ∙ rstrip_idem (lstrip s)
    ∙ sym (strip_lem s)

-- Stripping keeps a property of all characters, and makes nothing longer.
rstrip-All : (P : ℕ → Type 0) (s : Str) → All P s → All P (rstrip s)
unfolding rstrip
rstrip-All P [] h = tt
rstrip-All P (c ∷ s) h = go (rstrip s) (rstrip-All P s h.1)
  where
    go : (r : Str) → All P r → All P (before c r)
    go [] hr = elim (Bool-cases (is_space c)) [ inl b ↦ rw b tt | inr b ↦ rw b (h.0, tt) ]
    go (d ∷ r) hr = (h.0, hr)

lstrip-All : (P : ℕ → Type 0) (s : Str) → All P s → All P (lstrip s)
unfolding lstrip
lstrip-All P [] h = tt
lstrip-All P (c ∷ s) h = elim (Bool-cases (is_space c)) [
  | inl space ↦ rw space (lstrip-All P s h.1)
  | inr other ↦ rw other h
]

length-lstrip-le : (s : Str) → length (lstrip s) ≤ length s
unfolding lstrip
length-lstrip-le [] = omega arith
length-lstrip-le (c ∷ s) = ground (arith, length-lstrip-le s)

length-rstrip-le : (s : Str) → length (rstrip s) ≤ length s
unfolding rstrip
length-rstrip-le [] = omega arith
length-rstrip-le (c ∷ s) = ground (arith, length-rstrip-le s)

pub strip-All : (P : ℕ → Type 0) (s : Str) → All P s → All P (strip s)
strip-All P s h = rw (strip_lem s) (rstrip-All P (lstrip s) (lstrip-All P s h))

pub length-strip-le : (s : Str) → length (strip s) ≤ length s
length-strip-le s =
    omega (arith, ap length (strip_lem s), length-rstrip-le (lstrip s), length-lstrip-le s)
