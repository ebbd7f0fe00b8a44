-- ===== src/Engines/Fec/Blocks.antt =====
-- engines/engines/fec.py: blocks of one length under the exclusive or of their bytes, and the sum of a group.
use emunel.Prelude.{
  ℕ, zero, suc, ◌+◌, ◌<◌, ◌≡◌, refl, sym, ◌∙◌, inl, inr, true, not, ◌&&◌, List, [], ◌∷◌, some,
  nat_beq, if◌then◌else◌, Str, length, get_elem?, All, arith, Bool-cases,
}
use emunel.Prelude.Xor.{zero-xor, xor_zero, xor_assoc, xor_cancel, xor_drop}
use emunel.Engines.Fec.{zeros, xor_block, in_group, parity_of}

pub length-xor_block : (a b : Str) → length (xor_block a b) ≡ length a
unfolding xor_block
length-xor_block [] b = refl
length-xor_block (x ∷ a) [] = refl
length-xor_block (x ∷ a) (y ∷ b) = omega (arith, length-xor_block a b)

pub length-zeros : (n : ℕ) → length (zeros n) ≡ n
length-zeros zero = refl
length-zeros (suc n) = omega (arith, length-zeros n)

pub zeros-xor_block : (n : ℕ) (b : Str) → length b ≡ n → xor_block (zeros n) b ≡ b
unfolding xor_block
zeros-xor_block zero [] h = refl
zeros-xor_block zero (y ∷ b) h = absurd (omega arith)
zeros-xor_block (suc n) [] h = absurd (omega arith)
zeros-xor_block (suc n) (y ∷ b) h = ground (arith, zero-xor y, zeros-xor_block n b)

pub xor_block-zeros : (a : Str) (n : ℕ) → xor_block a (zeros n) ≡ a
unfolding xor_block
xor_block-zeros [] n = refl
xor_block-zeros (x ∷ a) zero = refl
xor_block-zeros (x ∷ a) (suc n) = ground (arith, xor_zero x, xor_block-zeros a n)

pub xor_block_assoc :
    (a b c : Str)
    → length b ≡ length a
    → length c ≡ length a
    → xor_block (xor_block a b) c ≡ xor_block a (xor_block b c)
unfolding xor_block
xor_block_assoc [] b c p q = refl
xor_block_assoc (x ∷ a) [] c p q = absurd (omega arith)
xor_block_assoc (x ∷ a) (y ∷ b) [] p q = absurd (omega arith)
xor_block_assoc (x ∷ a) (y ∷ b) (z ∷ c) p q = ground (arith, xor_assoc x y z, xor_block_assoc a b c)

xor_block_cancel : (a b : Str) → xor_block (xor_block a b) b ≡ a
unfolding xor_block
xor_block_cancel [] b = refl
xor_block_cancel (x ∷ a) [] = refl
xor_block_cancel (x ∷ a) (y ∷ b) = ground (arith, xor_cancel x y, xor_block_cancel a b)

xor_block_drop :
    (a b c : Str)
    → length b ≡ length a
    → length c ≡ length a
    → xor_block (xor_block a b) (xor_block a c) ≡ xor_block b c
unfolding xor_block
xor_block_drop [] [] c p q = refl
xor_block_drop [] (y ∷ b) c p q = absurd (omega arith)
xor_block_drop (x ∷ a) [] c p q = absurd (omega arith)
xor_block_drop (x ∷ a) (y ∷ b) [] p q = absurd (omega arith)
xor_block_drop (x ∷ a) (y ∷ b) (z ∷ c) p q = ground (arith, xor_drop x y z, xor_block_drop a b c)

-- Blocks of `n` bytes.
abbrev pub Sized : ℕ → List Str → Type 0
Sized n = All (λ b. length b ≡ n)

module _ (parity_count i n : ℕ) where
  -- The exclusive or of the blocks of a group, from place `idx` on.
  unfoldable pub group_sum : ℕ → List Str → Str
  group_sum idx [] = zeros n
  group_sum idx (b ∷ blocks) =
      let rest = group_sum (idx + 1) blocks in
      if in_group parity_count i idx then xor_block b rest else rest

  -- The same without the block at place `lost`.
  unfoldable pub others_sum : ℕ → ℕ → List Str → Str
  others_sum lost idx [] = zeros n
  others_sum lost idx (b ∷ blocks) =
      let rest = others_sum lost (idx + 1) blocks in
      if not (nat_beq idx lost) && in_group parity_count i idx then xor_block b rest else rest

  pub length-group_sum :
      (idx : ℕ) (blocks : List Str) → Sized n blocks → length (group_sum idx blocks) ≡ n
  unfolding group_sum
  length-group_sum idx [] h = length-zeros n
  length-group_sum idx (b ∷ blocks) h = ground (
    arith,
    h.0,
    length-group_sum (idx + 1) blocks h.1,
    length-xor_block b (group_sum (idx + 1) blocks),
  )

  pub length-others_sum :
      (lost idx : ℕ) (blocks : List Str) → Sized n blocks → length (others_sum lost idx blocks) ≡ n
  unfolding others_sum
  length-others_sum lost idx [] h = length-zeros n
  length-others_sum lost idx (b ∷ blocks) h = ground (
    arith,
    h.0,
    length-others_sum lost (idx + 1) blocks h.1,
    length-xor_block b (others_sum lost (idx + 1) blocks),
  )

  pub parity_of-eq-group_sum :
      (idx : ℕ) (acc : Str) (blocks : List Str)
      → length acc ≡ n
      → Sized n blocks
      → parity_of parity_count i idx acc blocks ≡ xor_block acc (group_sum idx blocks)
  unfolding parity_of group_sum
  parity_of-eq-group_sum idx acc [] own h = sym (xor_block-zeros acc n)
  parity_of-eq-group_sum idx acc (b ∷ blocks) own h =
      elim (Bool-cases (in_group parity_count i idx)) [
        | inl member ↦ rw member (
            parity_of-eq-group_sum (idx + 1) (xor_block acc b) blocks (length-xor_block acc b ∙ own)
              h.1
            ∙ xor_block_assoc acc b (group_sum (idx + 1) blocks) (h.0 ∙ sym own)
                (length-group_sum (idx + 1) blocks h.1 ∙ sym own))
        | inr other ↦ rw other (parity_of-eq-group_sum (idx + 1) acc blocks own h.1)
      ]

  others_sum-eq-group_sum :
      (lost idx : ℕ) (blocks : List Str)
      → lost < idx
      → others_sum lost idx blocks ≡ group_sum idx blocks
  unfolding others_sum group_sum
  others_sum-eq-group_sum lost idx [] h = refl
  others_sum-eq-group_sum lost idx (b ∷ blocks) h =
      ground (arith, others_sum-eq-group_sum lost (idx + 1) blocks)

  -- The sum of a group and the sum of its other blocks give the lost block.
  pub group_sum-others_sum :
      (lost idx k : ℕ) (blocks : List Str) (t : Str)
      → lost ≡ idx + k
      → in_group parity_count i lost ≡ true
      → Sized n blocks
      → get_elem? blocks k ≡ some t
      → xor_block (group_sum idx blocks) (others_sum lost idx blocks) ≡ t
  unfolding group_sum others_sum
  group_sum-others_sum lost idx k [] t at own h found = absurd (ground arith)
  group_sum-others_sum lost idx zero (b ∷ blocks) t at own h found =
      let later = others_sum-eq-group_sum lost (idx + 1) blocks (omega arith) in
      let same : idx ≡ lost = omega arith in
      ground (arith, same, own, found, later, xor_block_cancel b (group_sum (idx + 1) blocks))
  group_sum-others_sum lost idx (suc k) (b ∷ blocks) t at own h found =
      let rest =
        group_sum-others_sum lost (idx + 1) k blocks t (omega arith) own h.1
          (ground (arith, found)) in
      ground (
        arith,
        rest,
        xor_block_drop b (group_sum (idx + 1) blocks) (others_sum lost (idx + 1) blocks)
            (length-group_sum (idx + 1) blocks h.1 ∙ sym h.0)
            (length-others_sum lost (idx + 1) blocks h.1 ∙ sym h.0),
      )
