-- ===== src/Engines/Fec/Matching.antt =====
-- engines/engines/fec.py: lists of blocks of which some are lost.
use mathlib.Core.List.{append-nil}
use emunel.Prelude.{
  ℕ, zero, suc, ◌+◌, ◌-◌, ◌≤◌, ◌<◌, ◌≡◌, refl, ap, ◌∙◌, max, List, [], ◌∷◌, ◌++◌, map, Option, none,
  some, Str, length, get_elem?, take, set, length-append, All, arith,
}
use emunel.Engines.Fec.{zeros, ljust, largest, present, lost_from, padded_option}
use emunel.Engines.Fec.Blocks.{Sized, length-zeros}

-- The blocks that are there are those of the second list, at the same places.
abbrev pub Matches : List (Option Str) → List Str → Type 0
Matches [] [] = Unit
Matches [] (t ∷ blocks) = ⊥
Matches (r ∷ received) [] = ⊥
Matches (none ∷ received) (t ∷ blocks) = Matches received blocks
Matches (some b ∷ received) (t ∷ blocks) = (b ≡ t) × Matches received blocks

pub length-Matches :
    (received : List (Option Str)) (blocks : List Str)
    → Matches received blocks
    → length received ≡ length blocks
length-Matches [] [] m = refl
length-Matches [] (t ∷ blocks) m = absurd m
length-Matches (r ∷ received) [] m = absurd m
length-Matches (none ∷ received) (t ∷ blocks) m = omega (arith, length-Matches received blocks m)
length-Matches (some b ∷ received) (t ∷ blocks) m =
    omega (arith, length-Matches received blocks m.1)

pub take-Matches :
    (received : List (Option Str)) (blocks more : List Str)
    → Matches received (blocks ++ more)
    → Matches (take (length blocks) received) blocks
take-Matches received [] more m = tt
take-Matches [] (t ∷ blocks) more m = absurd m
take-Matches (none ∷ received) (t ∷ blocks) more m = take-Matches received blocks more m
take-Matches (some b ∷ received) (t ∷ blocks) more m = (m.0, take-Matches received blocks more m.1)

pub get_elem?-Matches :
    (received : List (Option Str)) (blocks : List Str) (k : ℕ) (b : Str)
    → Matches received blocks
    → get_elem? received k ≡ some (some b)
    → get_elem? blocks k ≡ some b
get_elem?-Matches [] blocks k b m e = absurd (ground arith)
get_elem?-Matches (r ∷ received) [] k b m e = absurd m
get_elem?-Matches (none ∷ received) (t ∷ blocks) zero b m e = absurd (ground arith)
get_elem?-Matches (some c ∷ received) (t ∷ blocks) zero b m e = ground (arith, m.0)
get_elem?-Matches (none ∷ received) (t ∷ blocks) (suc k) b m e =
    get_elem?-Matches received blocks k b m e
get_elem?-Matches (some c ∷ received) (t ∷ blocks) (suc k) b m e =
    get_elem?-Matches received blocks k b m.1 e

pub set-Matches :
    (received : List (Option Str)) (blocks : List Str) (k : ℕ) (b : Str)
    → Matches received blocks
    → get_elem? blocks k ≡ some b
    → Matches (set received k (some b)) blocks
set-Matches [] blocks k b m e = m
set-Matches (r ∷ received) [] k b m e = absurd m
set-Matches (none ∷ received) (t ∷ blocks) zero b m e = (ground (arith, e), m)
set-Matches (some c ∷ received) (t ∷ blocks) zero b m e = (ground (arith, e), m.1)
set-Matches (none ∷ received) (t ∷ blocks) (suc k) b m e = set-Matches received blocks k b m e
set-Matches (some c ∷ received) (t ∷ blocks) (suc k) b m e =
    (m.0, set-Matches received blocks k b m.1 e)

pub map-Matches :
    (n : ℕ) (received : List (Option Str)) (blocks : List Str)
    → Matches received blocks
    → Matches (map (padded_option n) received) (map (ljust n) blocks)
map-Matches n [] [] m = tt
map-Matches n [] (t ∷ blocks) m = absurd m
map-Matches n (r ∷ received) [] m = absurd m
map-Matches n (none ∷ received) (t ∷ blocks) m = map-Matches n received blocks m
map-Matches n (some b ∷ received) (t ∷ blocks) m =
    (ap (ljust n) m.0, map-Matches n received blocks m.1)

-- Where no block is lost, the lists are the same.
pub Matches-whole :
    (idx : ℕ) (received : List (Option Str)) (blocks : List Str)
    → Matches received blocks
    → lost_from idx received ≡ []
    → received ≡ map some blocks
unfolding lost_from
Matches-whole idx [] [] m e = refl
Matches-whole idx [] (t ∷ blocks) m e = absurd m
Matches-whole idx (r ∷ received) [] m e = absurd m
Matches-whole idx (none ∷ received) (t ∷ blocks) m e = absurd (ground arith)
Matches-whole idx (some b ∷ received) (t ∷ blocks) m e =
    ground (arith, m.0, Matches-whole (idx + 1) received blocks m.1 e)

-- The first lost place, and what is lost once it is filled.
pub lost_from-set :
    (idx lost : ℕ) (rest : List ℕ) (received : List (Option Str)) (b : Str)
    → lost_from idx received ≡ lost ∷ rest
    → (k : ℕ) × (lost ≡ idx + k)
      × (k < length received)
      × (lost_from idx (set received k (some b)) ≡ rest)
unfolding lost_from
lost_from-set idx lost rest [] b e = absurd (ground arith)
lost_from-set idx lost rest (none ∷ received) b e = (0, ground arith, omega arith, ground arith)
lost_from-set idx lost rest (some c ∷ received) b e =
    let (k, at, within, after) = lost_from-set (idx + 1) lost rest received b e in
    (suc k, omega arith, omega arith, after)

pub largest-present :
    (received : List (Option Str)) (blocks : List Str) (n : ℕ)
    → Matches received blocks
    → All (λ b. length b ≤ n) blocks
    → largest (present received) ≤ n
unfolding largest present
largest-present [] blocks n m h = omega arith
largest-present (r ∷ received) [] n m h = absurd m
largest-present (none ∷ received) (t ∷ blocks) n m h = largest-present received blocks n m h.1
largest-present (some b ∷ received) (t ∷ blocks) n m h =
    omega (arith, largest-present received blocks n m.1 h.1, ap length m.0, h.0)

pub present-le-largest :
    (received : List (Option Str)) (k : ℕ) (b : Str)
    → get_elem? received k ≡ some (some b)
    → length b ≤ largest (present received)
unfolding largest present
present-le-largest [] k b e = absurd (ground arith)
present-le-largest (none ∷ received) zero b e = absurd (ground arith)
present-le-largest (some c ∷ received) zero b e =
    let same : c ≡ b = ground arith in omega (arith, ap length same)
present-le-largest (none ∷ received) (suc k) b e = present-le-largest received k b e
present-le-largest (some c ∷ received) (suc k) b e =
    omega (arith, present-le-largest received k b e)

pub le-largest : (blocks : List Str) → All (λ b. length b ≤ largest blocks) blocks
unfolding largest
le-largest [] = tt
le-largest (b ∷ blocks) = (omega arith, weaker blocks (le-largest blocks))
  where
    weaker :
        (ts : List Str)
        → All (λ t. length t ≤ largest blocks) ts
        → All (λ t. length t ≤ max (length b) (largest blocks)) ts
    weaker [] h = tt
    weaker (t ∷ ts) h = (omega (arith, h.0), weaker ts h.1)

pub ljust_whole : (n : ℕ) (b : Str) → length b ≡ n → ljust n b ≡ b
ljust_whole n b h =
    let none_missing : n - length b ≡ 0 = omega arith in
    ap (λ (k : ℕ). b ++ zeros k) none_missing ∙ append-nil b

pub padded-Sized :
    (n : ℕ) (blocks : List Str) → All (λ b. length b ≤ n) blocks → Sized n (map (ljust n) blocks)
padded-Sized n [] h = tt
padded-Sized n (b ∷ blocks) h = (
  omega (arith, h.0, length-append b (zeros (n - length b)), length-zeros (n - length b)),
  padded-Sized n blocks h.1,
)
