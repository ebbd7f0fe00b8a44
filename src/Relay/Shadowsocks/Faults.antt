-- ===== src/Relay/Shadowsocks/Faults.antt =====
-- core/emunel_core/relay/shadowsocks.py: a chunk that arrives in two parts, and a payload that is too long.
use emunel.Prelude.{
  ℕ, zero, suc, ◌+◌, ◌-◌, ◌≤◌, ◌<◌, ◌≡◌, refl, ap, true, false, Option, none, some, [], ◌∷◌, ◌++◌,
  length, length-append, take, arith,
}
use native.Mathlib.Decide.{dec_lt}
use mathlib.Core.List.{append-nil}
use emunel.Relay.Wire.{port_bytes}
use emunel.Relay.Wire.Reading.{from_big-port}
use emunel.Relay.Shadowsocks.{
  Bytes, Aead, Sound, Binding, Decoder, stop, feed, sealed, chunks, try_decrypt_chunks, round, body,
  with_key, ensure_key, encrypt_chunk, new_encoder, new_decoder, max_chunk, salt_len,
}
use emunel.Relay.Shadowsocks.Stream.{
  chunks-round, take-sealed, length-sealed, round-sealed, encrypt_all, encrypt_all_new, reads_salt,
}

take-within : (n : ℕ) (xs ys : Bytes) → n ≤ length xs → take n (xs ++ ys) ≡ take n xs
take-within zero xs ys h = refl
take-within (suc n) [] ys h = absurd (omega arith)
take-within (suc n) (x ∷ xs) ys h = ap (λ (t : Bytes). x ∷ t) (take-within n xs ys (omega arith))

chunks_empty :
    (a : Aead) (fuel : ℕ) (salt : Bytes) (d : Decoder)
    → d.buf ≡ []
    → chunks a fuel salt d ≡ stop false d
unfolding chunks round
chunks_empty a zero salt d h = refl
chunks_empty a (suc fuel) salt d h = ground (arith, h)

module _ (a : Aead) (sound : Sound a) (binding : Binding a) (salt payload front back : Bytes)
    (n : ℕ) (short : length payload ≤ max_chunk) (parts : sealed a salt n payload ≡ front ++ back)
    (begun : 18 ≤ length front) (cut : 0 < length back) where
  abbrev holding : ℕ → Bytes → Decoder
  holding nonce buf = record { key = some salt; nonce = nonce; buf = buf }

  take-front : take 18 front ≡ a.seal salt n (port_bytes (length payload))
  take-front = ground (
    arith,
    parts,
    take-sealed a sound salt n payload [],
    take-within 18 (front ++ back) [],
    length-append front back,
    take-within 18 front back begun,
  )

  -- The first part: the length is read and its nonce is used up, but nothing is consumed.
  first_part : try_decrypt_chunks a (holding n front) ≡ stop false (holding (n + 1) front)
  unfolding try_decrypt_chunks ensure_key with_key round body
  first_part = rw (chunks-round a (length front) salt (holding n front) (omega arith)) (
      ground (
        arith,
        take-front,
        sound.opens salt n (port_bytes (length payload)),
        from_big-port (length payload) (omega arith),
        length-sealed a sound salt n payload,
        length-append front back,
        parts,
      ))

  second_part :
      try_decrypt_chunks a (holding (n + 1) (front ++ back))
      ≡ stop true (holding (n + 1) (front ++ back))
  unfolding try_decrypt_chunks ensure_key with_key round
  second_part =
      rw
        (chunks-round a (length (front ++ back)) salt (holding (n + 1) (front ++ back))
          (omega (arith, length-append front back)))
        (ground (
          arith,
          take-front,
          take-within 18 front back begun,
          length-append front back,
          binding.refuses salt n (n + 1) (port_bytes (length payload)) (λ e. absurd (omega arith)),
        ))

  whole_chunk : (try_decrypt_chunks a (holding n (front ++ back))).payloads ≡ payload ∷ []
  unfolding try_decrypt_chunks ensure_key with_key
  whole_chunk =
      rw
        (chunks-round a (length (front ++ back)) salt (holding n (front ++ back))
          (omega (arith, length-append front back)))
        (ground (
          arith,
          parts,
          append-nil (front ++ back),
          round-sealed a sound salt n payload (chunks a (length (front ++ back) - 1) salt)
              (some salt) [] short,
          chunks_empty a (length (front ++ back) - 1) salt (holding (n + 1 + 1) []) refl,
        ))

  -- A chunk that arrives in two parts is lost, if the first part holds the sealed length and is not
  -- all: `try_decrypt_chunks` yields nothing for the first part, and raises when the second comes.
  -- In one part the same chunk is read.
  pub feed-first_part :
      ((try_decrypt_chunks a (holding n front)).payloads ≡ [])
      × ((try_decrypt_chunks a (feed back (try_decrypt_chunks a (holding n front)).decoder)).raised
          ≡ true)
      × ((try_decrypt_chunks a (holding n (front ++ back))).payloads ≡ payload ∷ [])
  feed-first_part = rw first_part (refl, rw second_part refl, whole_chunk)

-- What was sent cannot be read, or nothing could be sent.
abbrev pub Unreadable : Aead → Option Bytes → Type 0
Unreadable a none = Unit
Unreadable a (some bytes) = (try_decrypt_chunks a (feed bytes new_decoder)).raised ≡ true

module _ (a : Aead) (sound : Sound a) (salt payload : Bytes) where
  too_long_raises :
      (n : ℕ) (key : Option Bytes)
      → max_chunk < length payload
      → length payload < 65536
      → (chunks a
          (length (sealed a salt n payload ++ []))
          salt
          (record { key = key; nonce = n; buf = sealed a salt n payload ++ [] })).raised
        ≡ true
  unfolding round body
  too_long_raises n key long small =
      let size = length-append (sealed a salt n payload) [] in
      let whole = length-sealed a sound salt n payload in
      rw
        (chunks-round a (length (sealed a salt n payload ++ [])) salt
          (record { key = key; nonce = n; buf = sealed a salt n payload ++ [] }) (omega arith))
        (ground (
          arith,
          take-sealed a sound salt n payload [],
          sound.opens salt n (port_bytes (length payload)),
          from_big-port (length payload) small,
        ))

  -- A payload of more than 0x3FFF bytes never arrives: `encrypt_chunk` raises, or a decoder that is
  -- fed the chunk does. The salt has its 32 bytes.
  encrypt_all-too_long :
      length salt ≡ salt_len
      → max_chunk < length payload
      → Unreadable a (encrypt_all a (payload ∷ []) (new_encoder salt))
  unfolding encrypt_all encrypt_chunk
  encrypt_all-too_long h long = elim (dec_lt (length payload) 65536) [
    | yes small ↦ rw (encrypt_all_new a sound salt payload [] small tt) (
        rw (reads_salt a sound salt (sealed a salt 0 payload ++ []) h)
          (too_long_raises 0 (some salt) long small))
    | no big ↦ ground arith
  ]
