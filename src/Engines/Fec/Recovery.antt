-- ===== src/Engines/Fec/Recovery.antt =====
-- engines/engines/fec.py: what `decode_group` gives for a group that `encode_group` made.
use native.Mathlib.Nat.{mod-lt}
use emunel.Prelude.{
  ℕ, zero, suc, ◌+◌, ◌-◌, ◌%◌, ◌≤◌, ◌<◌, ◌≡◌, refl, ap, sym, subst, ◌∙◌, ◌⊎◌, inl, inr, false, List,
  [], ◌∷◌, ◌++◌, map, Option, none, some, Str, nat_beq, nat_same_iff, length, get_elem?, take, set,
  length-append, All, All-append, arith, Option-cases,
}
use emunel.Engines.Fec.{
  zeros, ljust, largest, padded_blocks, parity_of, parities, encode_group, recovered, present,
  lost_from, padded_option, parity_at, rebuild, rebuild_all, decode_lost, decode_group, xor_block,
}
use emunel.Engines.Fec.Blocks.{Sized, group_sum, others_sum, length-group_sum, group_sum-others_sum}
use emunel.Engines.Fec.Matching.{
  Matches, length-Matches, take-Matches, get_elem?-Matches, set-Matches, map-Matches, Matches-whole,
  lost_from-set, largest-present, present-le-largest, le-largest, ljust_whole, padded-Sized,
}
use emunel.Engines.Fec.Parity.{
  parity_of-eq-sum, others-eq-others_sum, get_elem?-append, get_elem?-parities, length-parities,
  parities-Sized,
}

parity_at-some :
    (received : List (Option Str)) (place : ℕ) (p : Str)
    → parity_at received place ≡ some p
    → get_elem? received place ≡ some (some p)
parity_at-some received place p e = ground (arith, e)

get_elem?-within :
    (blocks : List Str) (k : ℕ) → k < length blocks → (b : Str) × (get_elem? blocks k ≡ some b)
get_elem?-within [] k h = absurd (omega arith)
get_elem?-within (b ∷ blocks) zero h = (b, refl)
get_elem?-within (b ∷ blocks) (suc k) h = get_elem?-within blocks k (omega arith)

Sized-le : (n : ℕ) (blocks : List Str) → Sized n blocks → All (λ b. length b ≤ n) blocks
Sized-le n [] h = tt
Sized-le n (b ∷ blocks) h = (omega (arith, h.0), Sized-le n blocks h.1)

pub lost_from-padded :
    (idx n : ℕ) (received : List (Option Str))
    → lost_from idx (map (padded_option n) received) ≡ lost_from idx received
unfolding lost_from
lost_from-padded idx n [] = refl
lost_from-padded idx n (none ∷ received) =
    ap (λ (t : List ℕ). idx ∷ t) (lost_from-padded (idx + 1) n received)
lost_from-padded idx n (some b ∷ received) = lost_from-padded (idx + 1) n received

some_inj : (a b : Str) → some a ≡ some b → a ≡ b
some_inj a b e = ground arith

length-map : (n : ℕ) (blocks : List Str) → length (map (ljust n) blocks) ≡ length blocks
length-map n [] = refl
length-map n (b ∷ blocks) = omega (arith, length-map n blocks)

-- A group that was encoded with at least one parity block, and what was received of it.
module _ (blocks : List Str) (pc : ℕ) (received : List (Option Str)) (some_parity : 0 < pc)
    (m : Matches received
      (blocks ++ parities pc (largest blocks) (padded_blocks blocks) 0 pc)) where
  abbrev size : ℕ
  size = largest blocks

  abbrev truth : List Str
  truth = padded_blocks blocks

  truth-Sized : Sized size truth
  truth-Sized = padded-Sized (largest blocks) blocks (le-largest blocks)

  length-truth : length truth ≡ length blocks
  length-truth = length-map (largest blocks) blocks

  -- A parity block that was received is the sum of its group.
  parity_at-eq-sum :
      (lost : ℕ) (p : Str)
      → parity_at received (length blocks + lost % pc) ≡ some p
      → p ≡ group_sum pc (lost % pc) size 0 truth
  parity_at-eq-sum lost p e =
      let i = lost % pc in
      let sent = parities pc size truth 0 pc in
      let at = parity_at-some received (length blocks + i) p e in
      let here = get_elem?-Matches received (blocks ++ sent) (length blocks + i) p m at in
      let made = get_elem?-parities pc size truth 0 pc i (mod-lt lost some_parity) in
      some_inj p (parity_of pc i 0 (zeros size) truth) (
        sym here
        ∙ get_elem?-append blocks sent i
        ∙ made
        ∙ ap (λ (j : ℕ). some (parity_of pc j 0 (zeros size) truth)) (omega arith))
      ∙ parity_of-eq-sum pc i size truth truth-Sized

  rebuild-eq-truth :
      (lost : ℕ) (out : List (Option Str)) (r t : Str)
      → Matches out truth
      → get_elem? truth lost ≡ some t
      → rebuild received pc (length blocks) size lost out ≡ some r
      → r ≡ t
  unfolding rebuild
  rebuild-eq-truth lost out r t matches found e =
      elim (Option-cases (parity_at received (length blocks + lost % pc))) [
        | inl missing ↦ absurd (ground (arith, missing))
        | inr (p, there) ↦
            let i = lost % pc in
            let is_sum = parity_at-eq-sum lost p there in
            let long : length p ≡ size =
              ap length is_sum ∙ length-group_sum pc i size 0 truth truth-Sized in
            let whole = ljust_whole size p long in
            let acc = ljust size p in
            let same =
              others-eq-others_sum pc i size lost 0 acc out truth r matches (ap length whole ∙ long)
                truth-Sized (rw (there, rebuild) at e) in
            same
            ∙ ap (λ (x : Str). xor_block x (others_sum pc i size lost 0 truth)) (whole ∙ is_sum)
            ∙ group_sum-others_sum pc i size lost 0 lost truth t (omega arith)
                ((nat_same_iff i i).1 refl) truth-Sized found
      ]

  rebuild_all-eq-truth :
      (lost : List ℕ) (out result : List (Option Str))
      → Matches out truth
      → lost_from 0 out ≡ lost
      → rebuild_all received pc (length blocks) size lost out ≡ recovered result
      → result ≡ map some truth
  unfolding rebuild_all
  rebuild_all-eq-truth [] out result matches places e =
      let same : out ≡ result = ground (arith, e) in
      sym same ∙ Matches-whole 0 out truth matches places
  rebuild_all-eq-truth (l ∷ rest) out result matches places e =
      elim (Option-cases (rebuild received pc (length blocks) size l out)) [
        | inl missing ↦ absurd (ground (arith, missing))
        | inr (r, made) ↦
            let (k, at, within, after) = lost_from-set 0 l rest out r places in
            let here : k ≡ l = omega arith in
            let inside : l < length truth = omega (arith, length-Matches out truth matches) in
            let (t, found) = get_elem?-within truth l inside in
            let right = rebuild-eq-truth l out r t matches found made in
            rebuild_all-eq-truth rest (set out l (some r)) result
              (set-Matches out truth l r matches (found ∙ ap some (sym right)))
              (ap (λ (j : ℕ). lost_from 0 (set out j (some r))) (sym here) ∙ after)
              (rw (made, rebuild_all) at e)
      ]

  largest-received :
      (lost : ℕ) (p : Str)
      → parity_at received (length blocks + lost % pc) ≡ some p
      → largest (present received) ≡ size
  largest-received lost p there =
      let sent = parities pc size truth 0 pc in
      let i = lost % pc in
      let long =
        ap length (parity_at-eq-sum lost p there)
        ∙ length-group_sum pc i size 0 truth truth-Sized in
      let low =
        present-le-largest received (length blocks + i) p (parity_at-some received _ p there) in
      let high : largest (present received) ≤ size =
        largest-present received (blocks ++ sent) size m (
          All-append (λ b. length b ≤ size) blocks sent (le-largest blocks)
            (Sized-le size sent (parities-Sized pc size truth 0 pc truth-Sized))) in
      omega (arith, long, low, high)

  -- Where a data block is lost and the decoder does not give up, every data block is there, padded.
  pub decode_lost-padded :
      (l : ℕ) (rest : List ℕ) (x : Str) (xs : List Str) (result : List (Option Str))
      → lost_from 0 (take (length blocks) received) ≡ l ∷ rest
      → present received ≡ x ∷ xs
      → decode_lost received pc (length blocks) (l ∷ rest) (x ∷ xs) ≡ recovered result
      → result ≡ map some truth
  unfolding rebuild_all rebuild
  decode_lost-padded l rest x xs result places here e =
      elim (Option-cases (parity_at received (length blocks + l % pc))) [
        | inl missing ↦ absurd (ground (arith, missing))
        | inr (p, found) ↦
            let taken = take (length blocks) received in
            let n = largest (x ∷ xs) in
            let width : n ≡ size = ap largest (sym here) ∙ largest-received l p found in
            let e' =
              subst
                (λ (w : ℕ).
                  rebuild_all received pc (length blocks) w (l ∷ rest) (map (padded_option w) taken)
                  ≡ recovered result)
                width e in
            rebuild_all-eq-truth (l ∷ rest) (map (padded_option size) taken) result
              (map-Matches size taken blocks
                (take-Matches received blocks (parities pc size truth 0 pc) m))
              (lost_from-padded 0 size taken ∙ places) e'
      ]

  decode_lost-right :
      (lost : List ℕ) (there : List Str) (result : List (Option Str))
      → lost_from 0 (take (length blocks) received) ≡ lost
      → present received ≡ there
      → decode_lost received pc (length blocks) lost there ≡ recovered result
      → (result ≡ map some blocks) ⊎ (result ≡ map some truth)
  decode_lost-right [] there result places here e =
      let same : take (length blocks) received ≡ result = ground (arith, e) in
      let taken = take-Matches received blocks (parities pc size truth 0 pc) m in
      inl (sym same ∙ Matches-whole 0 _ blocks taken places)
  decode_lost-right (l ∷ rest) [] result places here e = absurd (ground (arith, e))
  decode_lost-right (l ∷ rest) (x ∷ xs) result places here e =
      inr (decode_lost-padded l rest x xs result places here e)

-- Of an encoded group the data blocks come first, and the decoder looks for those that are lost.
pub decode_encoded :
    (b : Str) (blocks : List Str) (pc : ℕ) (received : List (Option Str))
    → 0 < pc
    → Matches received (encode_group (b ∷ blocks) pc)
    → let bs = b ∷ blocks in
      Matches received (bs ++ parities pc (largest bs) (padded_blocks bs) 0 pc)
      × (decode_group received pc
          ≡ decode_lost received pc
              (length bs)
              (lost_from 0 (take (length bs) received))
              (present received))
unfolding decode_group encode_group
decode_encoded b blocks pc received some_parity m =
    let bs = b ∷ blocks in
    let sent = parities pc (largest bs) (padded_blocks bs) 0 pc in
    let positive : nat_beq pc 0 ≡ false = ground arith in
    let some_block : nat_beq (length bs) 0 ≡ false = ground arith in
    let matches : Matches received (bs ++ sent) = rw (positive, encode_group) at m in
    let all : length received ≡ length bs + pc =
      length-Matches received (bs ++ sent) matches
      ∙ length-append bs sent
      ∙ ap (λ (t : ℕ). length bs + t) (length-parities pc (largest bs) (padded_blocks bs) 0 pc) in
    let data_len : length received - pc ≡ length bs = omega arith in
    (matches, rw (data_len, some_block, positive))

-- Whatever is lost of a group that was encoded from some blocks with some parity blocks, a result is right: it
-- holds every data block as it was, or every one padded to the length of the longest.
pub decode_group-encode_group :
    (blocks : List Str) (parity_count : ℕ) (received result : List (Option Str))
    → 0 < length blocks
    → 0 < parity_count
    → Matches received (encode_group blocks parity_count)
    → decode_group received parity_count ≡ recovered result
    → (result ≡ map some blocks) ⊎ (result ≡ map some (padded_blocks blocks))
decode_group-encode_group [] pc received result full some_parity m e = absurd (omega arith)
decode_group-encode_group (b ∷ blocks) pc received result full some_parity m e =
    let (matches, opened) = decode_encoded b blocks pc received some_parity m in
    decode_lost-right (b ∷ blocks) pc received some_parity matches _ _ result refl refl
      (sym opened ∙ e)
