-- ===== src/Relay/Shadowsocks/Stream.antt =====
-- core/emunel_core/relay/shadowsocks.py: the chunks of a stream, sealed and read.
use emunel.Prelude.{
  ℕ, zero, suc, ◌+◌, ◌-◌, ◌≤◌, ◌<◌, ◌≡◌, refl, ap, subst, true, false, Option, none, some, List, [],
  ◌∷◌, ◌++◌, length, length-append, take, drop, arith, take-append, drop-append, All,
}
use mathlib.Core.List.{append_assoc}
use emunel.Relay.Wire.{from_big, port_bytes}
use emunel.Relay.Wire.Reading.{from_big-port}
use emunel.Relay.Shadowsocks.{
  Bytes, Aead, Sound, Encoder, new_encoder, new_decoder, feed, try_decrypt_chunks, salt_len,
  ensure_key, with_key, encrypt_chunk, Decoder, Yielded, yields, sealed, chunks, round, body,
  max_chunk,
}

pub take_front : (xs ys : Bytes) (n : ℕ) → length xs ≡ n → take n (xs ++ ys) ≡ xs
take_front xs ys n h = subst (λ k. take k (xs ++ ys) ≡ xs) h (take-append xs ys)

pub drop_front : (xs ys : Bytes) (n : ℕ) → length xs ≡ n → drop n (xs ++ ys) ≡ ys
drop_front xs ys n h = subst (λ k. drop k (xs ++ ys) ≡ ys) h (drop-append xs ys)

pub chunks-round :
    (a : Aead) (fuel : ℕ) (salt : Bytes) (d : Decoder)
    → 0 < fuel
    → chunks a fuel salt d ≡ round a (chunks a (fuel - 1) salt) salt d
unfolding chunks
chunks-round a zero salt d h = absurd (omega arith)
chunks-round a (suc fuel) salt d h = ap (λ (k : ℕ). round a (chunks a k salt) salt d) (omega arith)

module _ (a : Aead) (sound : Sound a) (salt : Bytes) (n : ℕ) (p : Bytes) where
  abbrev sealed_length : Bytes
  sealed_length = a.seal salt n (port_bytes (length p))

  abbrev sealed_payload : Bytes
  sealed_payload = a.seal salt (n + 1) p

  length-sealed_length : length sealed_length ≡ 18
  unfolding port_bytes
  length-sealed_length = sound.tagged salt n (port_bytes (length p))

  pub length-sealed : length (sealed a salt n p) ≡ 18 + length p + 16
  unfolding sealed
  length-sealed = omega (
    arith,
    length-append sealed_length sealed_payload,
    length-sealed_length,
    sound.tagged salt (n + 1) p,
  )

  rebracket : (rest : Bytes) → sealed a salt n p ++ rest ≡ sealed_length ++ (sealed_payload ++ rest)
  unfolding sealed
  rebracket rest = append_assoc sealed_length sealed_payload rest

  -- The first 18 bytes of a chunk are its sealed length.
  pub take-sealed :
      (rest : Bytes) → take 18 (sealed a salt n p ++ rest) ≡ a.seal salt n (port_bytes (length p))
  take-sealed rest =
      rw (rebracket rest)
        (take_front sealed_length (sealed_payload ++ rest) 18 length-sealed_length)

  opens_length :
      (rest : Bytes)
      → a.unseal salt n (take 18 (sealed a salt n p ++ rest)) ≡ some (port_bytes (length p))
  opens_length rest = rw (take-sealed rest) (sound.opens salt n (port_bytes (length p)))

  drop-sealed : (rest : Bytes) → drop 18 (sealed a salt n p ++ rest) ≡ sealed_payload ++ rest
  drop-sealed rest =
      rw (rebracket rest)
        (drop_front sealed_length (sealed_payload ++ rest) 18 length-sealed_length)

  length_read : length p ≤ max_chunk → from_big 0 (port_bytes (length p)) ≡ length p
  length_read small = from_big-port (length p) (omega arith)

  -- A round on a whole chunk yields its payload and goes on behind it.
  pub round-sealed :
      (next : Decoder → Yielded) (key : Option Bytes) (rest : Bytes)
      → length p ≤ max_chunk
      → round a next salt (record { key = key; nonce = n; buf = sealed a salt n p ++ rest })
        ≡ yields p (next (record { key = key; nonce = n + 1 + 1; buf = rest }))
  unfolding round body
  round-sealed next key rest small = ground (
    arith,
    length-append (sealed a salt n p) rest,
    length-sealed,
    opens_length rest,
    length_read small,
    drop-sealed rest,
    take_front sealed_payload rest (length p + 16) (sound.tagged salt (n + 1) p),
    drop_front sealed_payload rest (length p + 16) (sound.tagged salt (n + 1) p),
    sound.opens salt (n + 1) p,
  )

-- What an encoder sends for its payloads: `none` where one of them makes `encrypt_chunk` raise.
unfoldable pub encrypt_all : Aead → List Bytes → Encoder → Option Bytes
encrypt_all a [] e = some []
encrypt_all a (p ∷ ps) e =
    let (e', out) = encrypt_chunk a p e in
    let rest = encrypt_all a ps e' in
    elim out [
      | none ↦ none
      | some chunk ↦ elim rest [ none ↦ none | some more ↦ some (chunk ++ more) ]
    ]

abbrev pub sealed_all : Aead → Bytes → ℕ → List Bytes → Bytes
sealed_all a salt n [] = []
sealed_all a salt n (p ∷ ps) = sealed a salt n p ++ sealed_all a salt (n + 1 + 1) ps

abbrev pub IsShort : Bytes → Type 0
IsShort p = length p ≤ max_chunk

-- A new decoder that is fed what was sent yields `ps` and raises nothing.
abbrev pub Decodes : Aead → Option Bytes → List Bytes → Type 0
Decodes a sent ps =
    (bytes : Bytes) × (sent ≡ some bytes)
    × ((try_decrypt_chunks a (feed bytes new_decoder)).payloads ≡ ps)
    × ((try_decrypt_chunks a (feed bytes new_decoder)).raised ≡ false)

module _ (a : Aead) (sound : Sound a) (salt : Bytes) where
  encrypt_all_sent :
      (ps : List Bytes) (e : Encoder)
      → e.salt ≡ salt
      → e.salt_sent ≡ true
      → All IsShort ps
      → encrypt_all a ps e ≡ some (sealed_all a salt e.nonce ps)
  unfolding encrypt_all encrypt_chunk
  encrypt_all_sent [] e s t h = refl
  encrypt_all_sent (p ∷ ps) e s t h = ground (
    arith,
    encrypt_all_sent ps (record { salt = e.salt; salt_sent = true; nonce = e.nonce + 1 + 1 }) s refl
        h.1,
  )

  -- The decoder's loop on whole chunks. Each takes at least 34 bytes, so the fuel never ends first.
  chunks-sealed_all :
      (ps : List Bytes) (fuel n : ℕ) (key : Option Bytes)
      → All IsShort ps
      → length (sealed_all a salt n ps) ≤ fuel
      → ((chunks a fuel salt
            (record { key = key; nonce = n; buf = sealed_all a salt n ps })).payloads
          ≡ ps)
        × ((chunks a fuel salt
              (record { key = key; nonce = n; buf = sealed_all a salt n ps })).raised
            ≡ false)
  chunks-sealed_all [] zero n key h enough = unfold chunks in (refl, refl)
  chunks-sealed_all [] (suc fuel) n key h enough = unfold chunks round in (refl, refl)
  chunks-sealed_all (p ∷ ps) fuel n key h enough =
      let rest = sealed_all a salt (n + 1 + 1) ps in
      let size = length-append (sealed a salt n p) rest in
      let whole = length-sealed a sound salt n p in
      let (same, fine) = chunks-sealed_all ps (fuel - 1) (n + 1 + 1) key h.1 (omega arith) in
      rw
        (
          chunks-round a fuel salt
              (record { key = key; nonce = n; buf = sealed a salt n p ++ rest }) (omega arith),
          round-sealed a sound salt n p (chunks a (fuel - 1) salt) key rest h.0,
        )
        (ap (λ (t : List Bytes). p ∷ t) same, fine)

  -- The bytes of a new encoder for one payload or more.
  pub encrypt_all_new :
      (p : Bytes) (ps : List Bytes)
      → length p < 65536
      → All IsShort ps
      → encrypt_all a (p ∷ ps) (new_encoder salt) ≡ some (salt ++ sealed_all a salt 0 (p ∷ ps))
  unfolding encrypt_all encrypt_chunk
  encrypt_all_new p ps small h = ground (
    arith,
    encrypt_all_sent ps (record { salt = salt; salt_sent = true; nonce = 0 + 1 + 1 }) refl refl h,
    append_assoc salt (sealed a salt 0 p) (sealed_all a salt (0 + 1 + 1) ps),
  )

  -- A new decoder that is fed a salt and what follows it.
  pub reads_salt :
      (rest : Bytes)
      → length salt ≡ salt_len
      → try_decrypt_chunks a (feed (salt ++ rest) new_decoder)
        ≡ chunks a (length rest) salt (record { key = some salt; nonce = 0; buf = rest })
  unfolding try_decrypt_chunks ensure_key with_key
  reads_salt rest h = ground (
    arith,
    length-append salt rest,
    take_front salt rest salt_len h,
    drop_front salt rest salt_len h,
  )

  -- Payloads of at most 0x3FFF bytes each survive the stream: a new encoder sends them all, and a new
  -- decoder that is fed all the bytes yields the payloads, in order, and raises nothing. The salt has
  -- its 32 bytes.
  pub try_decrypt_chunks-encrypt_all :
      (ps : List Bytes)
      → length salt ≡ salt_len
      → All IsShort ps
      → Decodes a (encrypt_all a ps (new_encoder salt)) ps
  unfolding encrypt_all try_decrypt_chunks ensure_key with_key
  try_decrypt_chunks-encrypt_all [] h short = ([], refl, refl, refl)
  try_decrypt_chunks-encrypt_all (p ∷ ps) h short =
      let stream = sealed_all a salt 0 (p ∷ ps) in
      let (same, fine) =
        chunks-sealed_all (p ∷ ps) (length stream) 0 (some salt) short (omega arith) in
      (
        salt ++ stream,
        encrypt_all_new p ps (omega (arith, short.0)) short.1,
        rw (reads_salt stream h) same,
        rw (reads_salt stream h) fine,
      )
