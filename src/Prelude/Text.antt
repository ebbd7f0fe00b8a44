-- ===== src/Prelude/Text.antt =====
-- What the source uses of Python's `str`, over code points.
pub mod Trim
pub mod Tokens
use Prim.Native.Nat.{ℕ, ◌+◌}
use mathlib.Core.Path.{◌≡◌, refl}
use mathlib.Core.Bool.{Bool, ◌&&◌, ◌||◌}
use mathlib.Core.List.{List, [], ◌∷◌, ◌++◌, map, reverse}
use emunel.Prelude.Tests.{leb, nat_beq, if◌then◌else◌, Str}
use emunel.Prelude.Lists.{codes}

-- str.isspace at one character
unfoldable pub is_space : ℕ → Bool
is_space c =
    (leb 9 c && leb c 13)
    || (leb 28 c && leb c 32)
    || nat_beq c 0x85
    || nat_beq c 0xa0
    || nat_beq c 0x1680
    || (leb 0x2000 c && leb c 0x200a)
    || nat_beq c 0x2028
    || nat_beq c 0x2029
    || nat_beq c 0x202f
    || nat_beq c 0x205f
    || nat_beq c 0x3000

unfoldable pub lstrip : Str → Str
unfolding is_space
lstrip [] = []
lstrip (c ∷ s) = let rest = lstrip s in if is_space c then rest else c ∷ s

-- s.strip()
unfoldable pub strip : Str → Str
unfolding lstrip
strip s = reverse (lstrip (reverse (lstrip s)))

-- The ASCII part of s.lower(). It is used to compare with ASCII words that have no `k`, `s` or `i`,
-- the letters that other characters lower to.
unfoldable pub lower : Str → Str
lower = map (λ c. if leb b'A' c && leb c b'Z' then c + 32 else c)

abbrev pub prepend : ℕ → List Str → List Str
prepend c [] = (c ∷ []) ∷ []
prepend c (w ∷ ws) = (c ∷ w) ∷ ws

-- s.split(sep) at one character: never the empty list
unfoldable pub split : ℕ → Str → List Str
split sep [] = [] ∷ []
split sep (c ∷ s) = let rest = split sep s in if nat_beq c sep then [] ∷ rest else prepend c rest

-- sep.join(words)
unfoldable pub join : ℕ → List Str → Str
join sep [] = []
join sep (w ∷ []) = w
join sep (w ∷ v ∷ ws) = w ++ (sep ∷ join sep (v ∷ ws))

join-split : join b',' (split b',' (codes "h2,http/1.1")) ≡ codes "h2,http/1.1"
unfolding split join
join-split = refl

strip_both : strip (codes "  http/1.1 ") ≡ codes "http/1.1"
unfolding strip
strip_both = refl
