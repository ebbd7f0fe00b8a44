-- ===== src/Engines/Fec/Single.antt =====
-- engines/engines/fec.py: a group of which one data block is lost.
use emunel.Prelude.{
  ℕ, zero, suc, ◌+◌, ◌%◌, ◌<◌, ◌≡◌, refl, ap, ◌∙◌, true, List, [], ◌∷◌, map, Option, none, some,
  Str, nat_beq, length, get_elem?, take, set, arith,
}
use emunel.Engines.Fec.{
  ljust, largest, padded_blocks, encode_group, recovered, present, lost_from, padded_option, others,
  rebuild, rebuild_all, decode_lost, decode_group,
}
use emunel.Engines.Fec.Matching.{Matches}
use emunel.Engines.Fec.Recovery.{decode_lost-padded, decode_encoded, lost_from-padded}

others_whole :
    (pc i lost idx : ℕ) (acc : Str) (out : List (Option Str))
    → lost_from idx out ≡ []
    → (r : Str) × (others pc i lost idx acc out ≡ some r)
unfolding others lost_from
others_whole pc i lost idx acc [] e = (acc, refl)
others_whole pc i lost idx acc (none ∷ out) e = absurd (ground arith)
others_whole pc i lost idx acc (some b ∷ out) e = others_whole pc i lost (idx + 1) _ out e

-- Where nothing else of the data is lost, the loop over the other blocks does not give up.
others_one_lost :
    (pc i lost idx : ℕ) (acc : Str) (out : List (Option Str))
    → lost_from idx out ≡ lost ∷ []
    → (r : Str) × (others pc i lost idx acc out ≡ some r)
unfolding others lost_from
others_one_lost pc i lost idx acc [] e = absurd (ground arith)
others_one_lost pc i lost idx acc (none ∷ out) e =
    let here : idx ≡ lost = ground arith in
    let own : nat_beq idx lost ≡ true = ground arith in
    rw own (others_whole pc i lost (idx + 1) acc out (ground (arith, e)))
others_one_lost pc i lost idx acc (some b ∷ out) e = others_one_lost pc i lost (idx + 1) _ out e

present-some :
    (received : List (Option Str)) (k : ℕ) (p : Str)
    → get_elem? received k ≡ some (some p)
    → (x : Str) × (xs : List Str) × (present received ≡ x ∷ xs)
unfolding present
present-some [] k p e = absurd (ground arith)
present-some (none ∷ received) zero p e = absurd (ground arith)
present-some (none ∷ received) (suc k) p e = present-some received k p e
present-some (some b ∷ received) k p e = (b, present received, refl)

rebuild_one_lost :
    (received : List (Option Str)) (pc data_len size lost : ℕ) (p : Str) (out : List (Option Str))
    → get_elem? received (data_len + lost % pc) ≡ some (some p)
    → lost_from 0 out ≡ lost ∷ []
    → (result : List (Option Str)) × (rebuild_all received pc data_len size (lost ∷ []) out
        ≡ recovered result)
unfolding rebuild_all rebuild
rebuild_one_lost received pc data_len size lost p out there e =
    let (r, made) = others_one_lost pc (lost % pc) lost 0 (ljust size p) out e in
    (set out lost (some r), ground (arith, there, made))

-- Of an encoded group one data block is lost, and the parity block of its group is there: then the decoder
-- gives all data blocks, each padded to the length of the longest.
pub decode_group_one_lost :
    (b : Str) (blocks : List Str) (parity_count : ℕ) (received : List (Option Str)) (lost : ℕ)
    (p : Str)
    → 0 < parity_count
    → Matches received (encode_group (b ∷ blocks) parity_count)
    → lost_from 0 (take (length (b ∷ blocks)) received) ≡ lost ∷ []
    → get_elem? received (length (b ∷ blocks) + lost % parity_count) ≡ some (some p)
    → decode_group received parity_count ≡ recovered (map some (padded_blocks (b ∷ blocks)))
decode_group_one_lost b blocks pc received lost p some_parity m places there =
    let bs = b ∷ blocks in
    let (matches, opened) = decode_encoded b blocks pc received some_parity m in
    let (x, xs, some_block) = present-some received (length bs + lost % pc) p there in
    let size = largest (x ∷ xs) in
    let taken = take (length bs) received in
    let (result, made) =
      rebuild_one_lost received pc (length bs) size lost p (map (padded_option size) taken) there
        (lost_from-padded 0 size taken ∙ places) in
    let right =
      decode_lost-padded bs pc received some_parity matches lost [] x xs result places some_block
        made in
    opened
    ∙ ap (λ (t : List ℕ). decode_lost received pc (length bs) t (present received)) places
    ∙ ap (decode_lost received pc (length bs) (lost ∷ [])) some_block
    ∙ made
    ∙ ap recovered right
