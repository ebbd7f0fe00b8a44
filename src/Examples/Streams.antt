-- ===== src/Examples/Streams.antt =====
-- core/emunel_core/relay/shadowsocks.py, with a cipher that only tags.
use emunel.Prelude.{
  ℕ, ◌≡◌, refl, true, none, some, [], ◌∷◌, ◌++◌, arith, drop, ◌==◌, nat_eq, nat_same_iff, ==-refl,
  if◌then◌else◌, Option, length-append,
}
use emunel.Relay.Wire.{port_bytes}
use emunel.Relay.Shadowsocks.{
  Bytes, Aead, Sound, Binding, sealed, feed, try_decrypt_chunks, new_encoder,
}
use emunel.Relay.Shadowsocks.Stream.{encrypt_all, Decodes, try_decrypt_chunks-encrypt_all}
use emunel.Relay.Shadowsocks.Faults.{feed-first_part}

-- The tag is the nonce and fifteen zeros, in front of the text.
abbrev tag : ℕ → Bytes
tag n = n ∷ 0 ∷ 0 ∷ 0 ∷ 0 ∷ 0 ∷ 0 ∷ 0 ∷ 0 ∷ 0 ∷ 0 ∷ 0 ∷ 0 ∷ 0 ∷ 0 ∷ 0 ∷ []

abbrev untag : ℕ → Bytes → Option Bytes
untag n [] = none
untag n (m ∷ c) = if m == n then some (drop 15 c) else none

abbrev tagging : Aead
tagging = record { seal = λ salt n p. tag n ++ p; unseal = λ salt n c. untag n c }

tagging-Sound : Sound tagging
tagging-Sound = record {
  opens = λ salt n p. ground (arith, ==-refl n);
  tagged = λ salt n p. omega (arith, length-append (tag n) p);
}

tagging-Binding : Binding tagging
tagging-Binding = record { refuses = λ salt n m p differ. ground (arith, nat_same_iff n m) }

abbrev salt : Bytes
salt = tag 1 ++ tag 2

try_decrypt_chunks-encrypt_all_example :
    Decodes tagging
      (encrypt_all tagging ((7 ∷ 8 ∷ []) ∷ [] ∷ (9 ∷ []) ∷ []) (new_encoder salt))
      ((7 ∷ 8 ∷ []) ∷ [] ∷ (9 ∷ []) ∷ [])
try_decrypt_chunks-encrypt_all_example =
    try_decrypt_chunks-encrypt_all tagging tagging-Sound salt ((7 ∷ 8 ∷ []) ∷ [] ∷ (9 ∷ []) ∷ [])
      refl (omega arith)

-- The chunk of 7, 8 under nonce 4, cut in the tag of the payload.
abbrev front : Bytes
front = tag 4 ++ (0 ∷ 2 ∷ 5 ∷ [])

abbrev back : Bytes
back = drop 1 (tag 5) ++ (7 ∷ 8 ∷ [])

feed-first_part_example :
    ((try_decrypt_chunks tagging (record { key = some salt; nonce = 4; buf = front })).payloads
      ≡ [])
    × ((try_decrypt_chunks tagging (
          feed back
            (try_decrypt_chunks tagging
              (record { key = some salt; nonce = 4; buf = front })).decoder)).raised
        ≡ true)
    × ((try_decrypt_chunks tagging
          (record { key = some salt; nonce = 4; buf = front ++ back })).payloads
        ≡ (7 ∷ 8 ∷ []) ∷ [])
unfolding sealed port_bytes
feed-first_part_example =
    feed-first_part tagging tagging-Sound tagging-Binding salt (7 ∷ 8 ∷ []) front back 4
      (omega arith) refl (omega arith) (omega arith)
