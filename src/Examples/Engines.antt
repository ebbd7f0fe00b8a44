-- ===== src/Examples/Engines.antt =====
-- engines: blocks of two bytes, frames and breakers.
use emunel.Prelude.{
  codes, drop, ℕ, ◌≤◌, ◌≡◌, ◌⊎◌, refl, true, Option, none, some, List, [], ◌∷◌, map, Str, length,
  arith, All,
}
use emunel.Engines.Fec.{
  recovered, encode_group, decode_group, largest, xor_block, parity_of, parities, present,
  lost_from, others, rebuild, rebuild_all, padded_blocks,
}
use emunel.Engines.Fec.Matching.{Matches}
use emunel.Engines.Fec.Recovery.{decode_group-encode_group}
use emunel.Engines.Fec.Single.{decode_group_one_lost}
use emunel.Engines.Coalescing.{Batch, Metrics, joined, process}
use emunel.Engines.Coalescing.Merged.{IsMerged, joined-process}
use emunel.Engines.Pipeline.{CircuitBreaker, new_breaker, Manager}
use emunel.Engines.Pipeline.Breaking.{marking}

-- Two blocks, the second one shorter, with two parity blocks.
abbrev blocks : List Str
blocks = (1 ∷ 2 ∷ []) ∷ (7 ∷ []) ∷ []

-- The second block is lost.
abbrev received : List (Option Str)
received = some (1 ∷ 2 ∷ []) ∷ none ∷ some (1 ∷ 2 ∷ []) ∷ some (7 ∷ 0 ∷ []) ∷ []

received-Matches : Matches received (encode_group blocks 2)
unfolding encode_group largest xor_block parity_of parities
received-Matches = (refl, (refl, (refl, tt)))

is_decoded : decode_group received 2 ≡ recovered (some (1 ∷ 2 ∷ []) ∷ some (7 ∷ 0 ∷ []) ∷ [])
unfolding decode_group largest xor_block present lost_from others rebuild rebuild_all
is_decoded = refl

decode_group-encode_group_example :
    (some (1 ∷ 2 ∷ []) ∷ some (7 ∷ 0 ∷ []) ∷ [] ≡ map some blocks)
    ⊎ (some (1 ∷ 2 ∷ []) ∷ some (7 ∷ 0 ∷ []) ∷ [] ≡ map some (padded_blocks blocks))
decode_group-encode_group_example =
    decode_group-encode_group blocks 2 received (some (1 ∷ 2 ∷ []) ∷ some (7 ∷ 0 ∷ []) ∷ [])
      (omega arith) (omega arith) received-Matches is_decoded

decode_group_one_lost_example :
    decode_group received 2 ≡ recovered (map some (padded_blocks blocks))
decode_group_one_lost_example =
    decode_group_one_lost (1 ∷ 2 ∷ []) ((7 ∷ []) ∷ []) 2 received 1 (7 ∷ 0 ∷ []) (omega arith)
      received-Matches (unfold lost_from in refl) refl

abbrev metrics : Metrics
metrics = record {
  frames_in = 0;
  frames_out = 0;
  bytes_in = 0;
  bytes_out = 0;
  merges = 0;
  header_bytes_saved = 0;
}

abbrev batch : Batch
batch = record { down = true; frames = (1 ∷ 2 ∷ []) ∷ [] ∷ (3 ∷ []) ∷ (4 ∷ 5 ∷ 6 ∷ 7 ∷ []) ∷ [] }

joined-process_example :
    (let out = (process 3 batch metrics).0.frames in
      (joined out ≡ joined batch.frames)
      × (length out ≤ length batch.frames)
      × All (IsMerged 3 batch.frames) out)
joined-process_example = joined-process 3 batch metrics

abbrev breaker : CircuitBreaker
breaker = new_breaker 3 60

abbrev times : List ℕ
times = 100 ∷ 101 ∷ 102 ∷ 103 ∷ 159 ∷ []

abbrev manager : Manager
manager = record { engines = (codes "m", marking) ∷ []; breakers = (codes "m", breaker) ∷ [] }

-- The engine's own test: the second block comes back with a zero at its end.
selftest :
    decode_group (some (1 ∷ 2 ∷ []) ∷ none ∷ drop 2 (map some (encode_group blocks 1))) 1
    ≡ recovered (some (1 ∷ 2 ∷ []) ∷ some (7 ∷ 0 ∷ []) ∷ [])
unfolding decode_group encode_group largest xor_block parity_of parities present lost_from others
    rebuild rebuild_all
selftest = refl
