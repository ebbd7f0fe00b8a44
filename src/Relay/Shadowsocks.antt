-- ===== src/Relay/Shadowsocks.antt =====
-- core/emunel_core/relay/shadowsocks.py: `AEADStream`, the chunks of a Shadowsocks stream.
-- The cipher is the package `cryptography` behind `seal` and `unseal`; a subkey is named by its salt,
-- since both ends derive it from the same master key, and a nonce by its counter.
pub mod Stream
pub mod Faults
pub mod Address
use emunel.Prelude.{
  ℕ, zero, suc, ◌+◌, ◌-◌, ◌*◌, ◌/◌, ◌%◌, ◌≤◌, ◌<◌, ◌≡◌, ◌≢◌, Bool, true, false, not, Option, none,
  some, List, [], ◌∷◌, ◌++◌, length, take, drop, ltb, if◌then◌else◌,
}
use emunel.Relay.Wire.{from_big, port_bytes}

abbrev pub Bytes : Type 0
Bytes = List ℕ

-- `unseal` is `none` where `decrypt` raises.
pub record Aead : Type 0 where
  pub seal : Bytes → ℕ → Bytes → Bytes
  pub unseal : Bytes → ℕ → Bytes → Option Bytes

-- What the package documents of an AEAD with a tag of 16 bytes.
pub record Sound (a : Aead) : Type 0 where
  pub opens : (salt : Bytes) (n : ℕ) (p : Bytes) → a.unseal salt n (a.seal salt n p) ≡ some p
  pub tagged : (salt : Bytes) (n : ℕ) (p : Bytes) → length (a.seal salt n p) ≡ length p + 16

-- A ciphertext does not open under another nonce.
pub record Binding (a : Aead) : Type 0 where
  pub refuses :
      (salt : Bytes) (n m : ℕ) (p : Bytes) → n ≢ m → a.unseal salt m (a.seal salt n p) ≡ none

abbrev pub salt_len : ℕ
salt_len = 32

-- The limit on a chunk's length, 0x3FFF.
abbrev pub max_chunk : ℕ
max_chunk = 0x3fff

pub record Encoder : Type 0 where
  pub salt : Bytes
  pub nonce : ℕ
  pub salt_sent : Bool

abbrev pub new_encoder : Bytes → Encoder
new_encoder salt = record { salt = salt; nonce = 0; salt_sent = false }

-- `key` is the salt of `dec_aead`, once it was read.
pub record Decoder : Type 0 where
  pub key : Option Bytes
  pub nonce : ℕ
  pub buf : Bytes

abbrev pub new_decoder : Decoder
new_decoder = record { key = none; nonce = 0; buf = [] }

-- `feed`
abbrev pub feed : Bytes → Decoder → Decoder
feed bs d = record d { buf = d.buf ++ bs }

-- What a run of the generator gives: the stream after it, the payloads, and whether it raised.
pub record Yielded : Type 0 where
  pub decoder : Decoder
  pub payloads : List Bytes
  pub raised : Bool

abbrev pub stop : Bool → Decoder → Yielded
stop raised d = record { decoder = d; payloads = []; raised = raised }

abbrev pub yields : Bytes → Yielded → Yielded
yields p y = record y { payloads = p ∷ y.payloads }

module _ (a : Aead) where
  -- The two sealed parts of a chunk. `struct.pack(">H", n)` is the two bytes of n below 65536.
  unfoldable pub sealed : Bytes → ℕ → Bytes → Bytes
  sealed salt n payload = a.seal salt n (port_bytes (length payload)) ++ a.seal salt (n + 1) payload

  -- `encrypt_chunk`: `none` where `struct.pack` raises. The salt then counts as sent all the same.
  unfoldable pub encrypt_chunk : Bytes → Encoder → Encoder × Option Bytes
  encrypt_chunk payload e =
      let sent : Encoder = record e { salt_sent = true } in
      let head : Bytes = if e.salt_sent then [] else e.salt in
      if ltb 65535 (length payload)
      then (sent, none)
      else (record sent { nonce = e.nonce + 2 }, some (head ++ sealed e.salt e.nonce payload))

  -- `_ensure_dec_key`: whether there is a key.
  unfoldable pub ensure_key : Option Bytes → Decoder → Decoder
  ensure_key (some salt) d = d
  ensure_key none d =
      if ltb (length d.buf) salt_len
      then d
      else record d { key = some (take salt_len d.buf); buf = drop salt_len d.buf }

  -- The second half of a round: the payload of `len` bytes, under the nonce after the length's.
  unfoldable pub body : (Decoder → Yielded) → Bytes → ℕ → Decoder → Yielded
  body next salt len d =
      if ltb max_chunk len
      then stop true d
      else if ltb (length d.buf) (18 + len + 16)
      then stop false d
      else elim (a.unseal salt d.nonce (take (len + 16) (drop 18 d.buf))) [
        | none ↦ stop true (record d { buf = drop (len + 16) (drop 18 d.buf) })
        | some payload ↦
            yields payload
              (next (record d { nonce = d.nonce + 1; buf = drop (len + 16) (drop 18 d.buf) }))
      ]

  unfoldable pub round : (Decoder → Yielded) → Bytes → Decoder → Yielded
  round next salt d =
      if ltb (length d.buf) 18 then stop false d else elim (a.unseal salt d.nonce (take 18 d.buf)) [
        | none ↦ stop true d
        | some length_bytes ↦
            body next salt (from_big 0 length_bytes) (record d { nonce = d.nonce + 1 })
      ]

  -- The loop: each round takes at least 34 bytes, so the size of the buffer is enough fuel.
  unfoldable pub chunks : ℕ → Bytes → Decoder → Yielded
  unfolding round body
  chunks zero salt d = stop false d
  chunks (suc fuel) salt d = round (chunks fuel salt) salt d

  unfoldable pub with_key : Option Bytes → Decoder → Yielded
  with_key none d = stop false d
  with_key (some salt) d = chunks (length d.buf) salt d

  unfoldable pub try_decrypt_chunks : Decoder → Yielded
  unfolding ensure_key with_key
  try_decrypt_chunks d = let d' = ensure_key d.key d in with_key d'.key d'
