-- ===== src/Relay/Shadowsocks/Address/Bounds.antt =====
-- core/emunel_core/relay/shadowsocks.py: how many bytes `parse_socks5_addr` consumes.
use emunel.Prelude.{
  ℕ, zero, suc, ◌-◌, ◌≤◌, ◌<◌, ◌≡◌, refl, List, [], ◌∷◌, length, arith, ltb, length-take, drop, inl,
  inr, Bool-cases,
}
use emunel.Relay.Wire.{Result, ok, err, value_error, byte_at, slice, Texts}
use emunel.Relay.Wire.Reading.{coloned_total}
use emunel.Relay.Shadowsocks.Address.{
  Socks5Addr, with_port, domain_addr, addr_of_type, parse_socks5_addr,
}

byte_at-ok : (xs : List ℕ) (i : ℕ) → i < length xs → (b : ℕ) × (byte_at xs i ≡ ok b)
unfolding byte_at
byte_at-ok [] i h = absurd (omega arith)
byte_at-ok (x ∷ xs) zero h = (x, refl)
byte_at-ok (x ∷ xs) (suc i) h = byte_at-ok xs i (omega arith)

-- An address is read within the bytes, and the only exception is `ValueError`.
abbrev pub StaysWithin : List ℕ → Result Socks5Addr → Type 0
StaysWithin buf (ok a) = a.consumed ≤ length buf
StaysWithin buf (err e) = e ≡ value_error

length-drop : (n : ℕ) (xs : List ℕ) → length (drop n xs) ≡ length xs - n
length-drop zero xs = omega arith
length-drop (suc n) [] = omega arith
length-drop (suc n) (x ∷ xs) = omega (arith, length-drop n xs)

length-v6 : (buf : List ℕ) → 19 ≤ length buf → length (slice 1 17 buf) ≡ 16
unfolding slice
length-v6 buf h = omega (arith, length-take 16 (drop 1 buf), length-drop 1 buf)

domain-StaysWithin :
    (t : Texts) (buf : List ℕ) (dlen : ℕ) → StaysWithin buf (domain_addr t buf dlen)
unfolding domain_addr with_port
domain-StaysWithin t buf dlen = ground arith

type-StaysWithin :
    (t : Texts) (atyp : ℕ) (buf : List ℕ)
    → 2 ≤ length buf
    → StaysWithin buf (addr_of_type t atyp buf)
unfolding addr_of_type with_port
type-StaysWithin t atyp buf h =
    let (dlen, read) = byte_at-ok buf 1 h in
    let domain = domain-StaysWithin t buf dlen in
    elim (Bool-cases (ltb (length buf) 19)) [
      | inl short ↦ ground (arith, read, domain)
      | inr long ↦
          let (a, text) = coloned_total 8 (slice 1 17 buf) (length-v6 buf (ground arith)) in
          ground (arith, read, domain, text)
    ]

-- `parse_socks5_addr` returns an address with at most all bytes consumed, or raises `ValueError`: on no
-- input does it index behind the end of the bytes.
parse_socks5_addr-StaysWithin :
    (t : Texts) (buf : List ℕ) → StaysWithin buf (parse_socks5_addr t buf)
unfolding parse_socks5_addr
parse_socks5_addr-StaysWithin t buf = elim (Bool-cases (ltb (length buf) 2)) [
  | inl short ↦ ground (arith, short)
  | inr enough ↦
      let two : 2 ≤ length buf = ground (arith, enough) in
      let (atyp, read) = byte_at-ok buf 0 (omega arith) in
      ground (arith, enough, read, type-StaysWithin t atyp buf two)
]
