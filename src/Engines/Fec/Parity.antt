-- ===== src/Engines/Fec/Parity.antt =====
-- engines/engines/fec.py: the parity blocks, and the sum over the other blocks of a group.
use emunel.Prelude.{
  ℕ, zero, suc, ◌+◌, ◌<◌, ◌≡◌, refl, ap, sym, ◌∙◌, inl, inr, not, ◌&&◌, List, [], ◌∷◌, ◌++◌, Option,
  none, some, Str, nat_beq, length, get_elem?, arith, Bool-cases,
}
use emunel.Engines.Fec.{zeros, xor_block, in_group, parity_of, parities, others}
use emunel.Engines.Fec.Blocks.{
  Sized, length-xor_block, length-zeros, zeros-xor_block, xor_block-zeros, xor_block_assoc,
  group_sum, others_sum, length-group_sum, length-others_sum, parity_of-eq-group_sum,
}
use emunel.Engines.Fec.Matching.{Matches}

-- The parity block `i` of blocks of `n` bytes.
pub parity_of-eq-sum :
    (parity_count i n : ℕ) (blocks : List Str)
    → Sized n blocks
    → parity_of parity_count i 0 (zeros n) blocks ≡ group_sum parity_count i n 0 blocks
parity_of-eq-sum parity_count i n blocks h =
    parity_of-eq-group_sum parity_count i n 0 (zeros n) blocks (length-zeros n) h
    ∙ zeros-xor_block n (group_sum parity_count i n 0 blocks)
        (length-group_sum parity_count i n 0 blocks h)

pub others-eq-others_sum :
    (parity_count i n lost idx : ℕ) (acc : Str) (out : List (Option Str)) (blocks : List Str)
    (r : Str)
    → Matches out blocks
    → length acc ≡ n
    → Sized n blocks
    → others parity_count i lost idx acc out ≡ some r
    → r ≡ xor_block acc (others_sum parity_count i n lost idx blocks)
unfolding others others_sum
others-eq-others_sum pc i n lost idx acc [] [] r m own h e = ground (arith, xor_block-zeros acc n)
others-eq-others_sum pc i n lost idx acc [] (t ∷ blocks) r m own h e = absurd m
others-eq-others_sum pc i n lost idx acc (o ∷ out) [] r m own h e = absurd m
others-eq-others_sum pc i n lost idx acc (none ∷ out) (t ∷ blocks) r m own h e =
    elim (Bool-cases (not (nat_beq idx lost) && in_group pc i idx)) [
      | inl member ↦ absurd (ground (arith, member))
      | inr other ↦
          rw other
            (others-eq-others_sum pc i n lost (idx + 1) acc out blocks r m own h.1 (rw other at e))
    ]
others-eq-others_sum pc i n lost idx acc (some b ∷ out) (t ∷ blocks) r m own h e =
    elim (Bool-cases (not (nat_beq idx lost) && in_group pc i idx)) [
      | inl member ↦
          let rest = others_sum pc i n lost (idx + 1) blocks in
          let same : b ≡ t = m.0 in
          rw member (
            others-eq-others_sum pc i n lost (idx + 1) (xor_block acc b) out blocks r m.1
              (length-xor_block acc b ∙ own) h.1 (rw member at e)
            ∙ ap (λ (x : Str). xor_block (xor_block acc x) rest) same
            ∙ xor_block_assoc acc t rest (h.0 ∙ sym own)
                (length-others_sum pc i n lost (idx + 1) blocks h.1 ∙ sym own))
      | inr other ↦
          rw other (
            others-eq-others_sum pc i n lost (idx + 1) acc out blocks r m.1 own h.1 (rw other at e))
    ]

pub get_elem?-append :
    (blocks more : List Str) (k : ℕ)
    → get_elem? (blocks ++ more) (length blocks + k) ≡ get_elem? more k
get_elem?-append [] more k = ap (get_elem? more) (omega arith)
get_elem?-append (b ∷ blocks) more k = ground (arith, get_elem?-append blocks more k)

pub get_elem?-parities :
    (pc size : ℕ) (padded : List Str) (i n k : ℕ)
    → k < n
    → get_elem? (parities pc size padded i n) k ≡ some (parity_of pc (i + k) 0 (zeros size) padded)
unfolding parities
get_elem?-parities pc size padded i zero k h = absurd (omega arith)
get_elem?-parities pc size padded i (suc n) zero h =
    ap (λ (j : ℕ). some (parity_of pc j 0 (zeros size) padded)) (omega arith)
get_elem?-parities pc size padded i (suc n) (suc k) h =
    get_elem?-parities pc size padded (i + 1) n k (omega arith)
    ∙ ap (λ (j : ℕ). some (parity_of pc j 0 (zeros size) padded)) (omega arith)

pub length-parities :
    (pc size : ℕ) (padded : List Str) (i n : ℕ) → length (parities pc size padded i n) ≡ n
unfolding parities
length-parities pc size padded i zero = refl
length-parities pc size padded i (suc n) = omega (arith, length-parities pc size padded (i + 1) n)

pub parities-Sized :
    (pc size : ℕ) (padded : List Str) (i n : ℕ)
    → Sized size padded
    → Sized size (parities pc size padded i n)
unfolding parities
parities-Sized pc size padded i zero h = tt
parities-Sized pc size padded i (suc n) h = (
  ap length (parity_of-eq-sum pc i size padded h) ∙ length-group_sum pc i size 0 padded h,
  parities-Sized pc size padded (i + 1) n h,
)
