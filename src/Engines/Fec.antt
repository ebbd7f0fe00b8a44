-- ===== src/Engines/Fec.antt =====
-- engines/engines/fec.py: the erasure codec. A block is a byte string, and `none` in a list of received
-- blocks is a block that was lost.
pub mod Blocks
pub mod Matching
pub mod Parity
pub mod Recovery
pub mod Single
use Prim.Native.Nat.{bit_xor}
use emunel.Prelude.{
  ℕ, zero, suc, ◌+◌, ◌-◌, ◌%◌, max, ◌≡◌, refl, Bool, true, false, not, ◌&&◌, ◌||◌, List, [], ◌∷◌,
  ◌++◌, map, Option, none, some, nat_beq, if◌then◌else◌, Str, length, get_elem?, take, drop, set,
}

-- b"\x00" * n
abbrev pub zeros : ℕ → Str
zeros zero = []
zeros (suc n) = 0 ∷ zeros n

-- block.ljust(size, b"\x00")
abbrev pub ljust : ℕ → Str → Str
ljust size b = b ++ zeros (size - length b)

-- max(len(b) for b in blocks), where there is one
unfoldable pub largest : List Str → ℕ
largest [] = 0
largest (b ∷ blocks) = max (length b) (largest blocks)

-- `acc[j] ^= block[j]` for each place of `acc`; the blocks are as long as it is.
unfoldable pub xor_block : Str → Str → Str
xor_block [] block = []
xor_block (x ∷ acc) [] = x ∷ acc
xor_block (x ∷ acc) (y ∷ block) = bit_xor x y ∷ xor_block acc block

-- The block at place `idx` counts for the parity block `i`.
abbrev pub in_group : ℕ → ℕ → ℕ → Bool
in_group parity_count i idx = nat_beq (idx % parity_count) i

-- The loop over the padded blocks, from place `idx` on
unfoldable pub parity_of : ℕ → ℕ → ℕ → Str → List Str → Str
parity_of parity_count i idx acc [] = acc
parity_of parity_count i idx acc (block ∷ padded) =
    parity_of parity_count i (idx + 1)
      (if in_group parity_count i idx then xor_block acc block else acc) padded

-- The parity blocks `i` and up, `n` of them
unfoldable pub parities : ℕ → ℕ → List Str → ℕ → ℕ → List Str
parities parity_count size padded i zero = []
parities parity_count size padded i (suc n) =
    parity_of parity_count i 0 (zeros size) padded ∷ parities parity_count size padded (i + 1) n

abbrev pub padded_blocks : List Str → List Str
padded_blocks blocks = map (ljust (largest blocks)) blocks

unfoldable pub encode_group : List Str → ℕ → List Str
encode_group [] parity_count = []
encode_group (b ∷ blocks) parity_count =
    if nat_beq parity_count 0
    then b ∷ blocks
    else (b ∷ blocks)
      ++ parities parity_count (largest (b ∷ blocks)) (padded_blocks (b ∷ blocks)) 0 parity_count

-- What `decode_group` returns, or that `max` raises since no block at all was received.
pub data Decoded : Type 0 where
  recovered : List (Option Str) → Decoded
  impossible : Decoded
  raises : Decoded

-- [r for r in received if r is not None]
unfoldable pub present : List (Option Str) → List Str
present [] = []
present (none ∷ received) = present received
present (some b ∷ received) = b ∷ present received

-- The places of the lost blocks, from place `idx` on
unfoldable pub lost_from : ℕ → List (Option Str) → List ℕ
lost_from idx [] = []
lost_from idx (none ∷ received) = idx ∷ lost_from (idx + 1) received
lost_from idx (some b ∷ received) = lost_from (idx + 1) received

abbrev pub padded_option : ℕ → Option Str → Option Str
padded_option size none = none
padded_option size (some r) = some (ljust size r)

-- The loop over the other blocks of the lost one's group: `none` where one of them is lost as well
unfoldable pub others : ℕ → ℕ → ℕ → ℕ → Str → List (Option Str) → Option Str
others parity_count parity_idx lost idx acc [] = some acc
others parity_count parity_idx lost idx acc (none ∷ out) =
    let rest = others parity_count parity_idx lost (idx + 1) acc out in
    if not (nat_beq idx lost) && in_group parity_count parity_idx idx then none else rest
others parity_count parity_idx lost idx acc (some other ∷ out) =
    others parity_count parity_idx lost (idx + 1)
      (if not (nat_beq idx lost) && in_group parity_count parity_idx idx
        then xor_block acc other
        else acc)
      out

-- received[data_len + parity_idx], `none` also past the end
abbrev pub parity_at : List (Option Str) → ℕ → Option Str
parity_at received place = elim (get_elem? received place) [ none ↦ none | some parity ↦ parity ]

-- One round of the loop over the lost places: `none` where the source returns None
unfoldable pub rebuild : List (Option Str) → ℕ → ℕ → ℕ → ℕ → List (Option Str) → Option Str
rebuild received parity_count data_len size lost out =
    elim (parity_at received (data_len + lost % parity_count)) [
      | none ↦ none
      | some parity ↦ others parity_count (lost % parity_count) lost 0 (ljust size parity) out
    ]

unfoldable pub rebuild_all : List (Option Str) → ℕ → ℕ → ℕ → List ℕ → List (Option Str) → Decoded
rebuild_all received parity_count data_len size [] out = recovered out
rebuild_all received parity_count data_len size (lost ∷ rest) out =
    elim (rebuild received parity_count data_len size lost out) [
      | none ↦ impossible
      | some acc ↦ rebuild_all received parity_count data_len size rest (set out lost (some acc))
    ]

abbrev pub all_present : List Str → Decoded
all_present [] = impossible
all_present (b ∷ blocks) = recovered (map some (b ∷ blocks))

-- From the lost places on
abbrev pub decode_lost : List (Option Str) → ℕ → ℕ → List ℕ → List Str → Decoded
decode_lost received parity_count data_len [] blocks = recovered (take data_len received)
decode_lost received parity_count data_len (lost ∷ rest) [] = raises
decode_lost received parity_count data_len (lost ∷ rest) (b ∷ blocks) =
    let size = largest (b ∷ blocks) in
    rebuild_all received parity_count data_len size (lost ∷ rest)
      (map (padded_option size) (take data_len received))

unfoldable pub decode_group : List (Option Str) → ℕ → Decoded
decode_group received parity_count =
    let data_len = length received - parity_count in
    if nat_beq data_len 0 || nat_beq parity_count 0
    then all_present (present received)
    else decode_lost received parity_count data_len (lost_from 0 (take data_len received))
        (present received)
