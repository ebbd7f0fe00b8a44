-- ===== src/Relay/Vless/Parsing.antt =====
-- core/emunel_core/relay/vless.py: what the parser reads of a header without addons.
use emunel.Prelude.{
  ℕ, ◌+◌, ◌≤◌, ◌<◌, ◌≡◌, refl, ap, ◌∙◌, List, [], ◌∷◌, ◌++◌, Str, arith, length, drop, inl, inr,
}
use native.Mathlib.Nat.{add_assoc}
use emunel.Relay.Wire.{
  Result-cases, Result, ok, byte_at, slice, from_big, port_bytes, dotted, coloned, Texts, ◌>>=◌,
}
use emunel.Relay.Wire.Reading.{
  byte_at-behind, slice-behind, slice_at-behind, drop-behind, from_big-port, slice_first,
  drop_first,
}
use emunel.Relay.Vless.{Request, parse_address, parse_request, parse_vless_header}

-- The address behind a prefix of length `n`.
parse_address-behind :
    (t : Texts) (addr_type : ℕ) (xs ys : List ℕ) (n k : ℕ)
    → length xs ≡ n
    → parse_address t addr_type (n + k) (xs ++ ys)
      ≡ (parse_address t addr_type k ys >>= λ p. ok (p.0, n + p.1))
unfolding parse_address
parse_address-behind t addr_type xs ys n k h = elim (Result-cases (byte_at ys k)) [
  | inl (d, e) ↦ ground (
    arith,
    e,
    byte_at-behind xs ys n k h,
    slice_at-behind xs ys n k 4 h,
    slice_at-behind xs ys n k 16 h,
    slice_at-behind xs ys n (k + 1) d h,
    add_assoc n k 1,
  )
  | inr (x, e) ↦ ground (
    arith,
    e,
    byte_at-behind xs ys n k h,
    slice_at-behind xs ys n k 4 h,
    slice_at-behind xs ys n k 16 h,
  )
]

-- A header without addons: the version byte and the credential, then the request.
abbrev pub request : ℕ → ℕ → List ℕ → List ℕ
request command port tail = 0 ∷ command ∷ port_bytes port ++ tail

abbrev pub header : List ℕ → ℕ → ℕ → List ℕ → List ℕ
header credential command port tail = (0 ∷ credential) ++ request command port tail

module _ (t : Texts) (credential : List ℕ) (command port addr_type : ℕ) (tail : List ℕ)
    (c : length credential ≡ 16) where
  abbrev pub ys : List ℕ
  ys = request command port (addr_type ∷ tail)

  abbrev pub chunk : List ℕ
  chunk = header credential command port (addr_type ∷ tail)

  prefix : length (0 ∷ credential) ≡ 17
  prefix = omega arith

  no_addons : byte_at chunk 17 ≡ ok 0
  unfolding byte_at
  no_addons = byte_at-behind (0 ∷ credential) ys 17 0 prefix

  reads_command : byte_at chunk 18 ≡ ok command
  unfolding byte_at
  reads_command = byte_at-behind (0 ∷ credential) ys 17 1 prefix

  reads_type : byte_at chunk 21 ≡ ok addr_type
  unfolding byte_at port_bytes
  reads_type = byte_at-behind (0 ∷ credential) ys 17 4 prefix

  reads_port : port < 65536 → from_big 0 (slice 19 21 chunk) ≡ port
  unfolding slice port_bytes
  reads_port small =
      ap (from_big 0) (slice-behind (0 ∷ credential) ys 17 2 4 prefix) ∙ from_big-port port small

  -- What is read behind the fields of fixed length.
  abbrev pub reads : Str × ℕ → Result Request
  reads p = ok (record { command = command; address = p.0; port = port; rest = drop p.1 ys })

  pub parse_header :
      24 ≤ length chunk
      → port < 65536
      → parse_vless_header t chunk ≡ (parse_address t addr_type 5 ys >>= reads)
  unfolding parse_vless_header parse_request
  parse_header long small = elim (Result-cases (parse_address t addr_type 5 ys)) [
    | inl ((a, end), e) ↦ ground (
      arith,
      e,
      no_addons,
      reads_command,
      reads_type,
      reads_port small,
      parse_address-behind t addr_type (0 ∷ credential) ys 17 5 prefix,
      drop-behind (0 ∷ credential) ys 17 end prefix,
    )
    | inr (x, e) ↦ ground (
      arith,
      e,
      no_addons,
      reads_command,
      reads_type,
      parse_address-behind t addr_type (0 ∷ credential) ys 17 5 prefix,
    )
  ]

-- The address at the front of `tail`, for each of its three forms.
module _ (t : Texts) (command port : ℕ) (payload : List ℕ) where
  pub reads_v4 :
      (packed : List ℕ)
      → length packed ≡ 4
      → (parse_address t 1 5 (request command port (1 ∷ packed ++ payload)) ≡ ok (dotted packed, 9))
        × (drop 9 (request command port (1 ∷ packed ++ payload)) ≡ payload)
  unfolding parse_address port_bytes
  reads_v4 packed h = (
    ap (λ (s : List ℕ). ok (dotted s, 9))
        (slice_first (request command port (1 ∷ [])) packed payload 5 4 refl h),
    drop_first (request command port (1 ∷ [])) packed payload 5 4 refl h,
  )

  pub reads_domain :
      (host : List ℕ)
      → (parse_address t 2 5 (request command port (2 ∷ length host ∷ host ++ payload))
          ≡ ok (t.decode host, 6 + length host))
        × (drop (6 + length host) (request command port (2 ∷ length host ∷ host ++ payload))
            ≡ payload)
  unfolding parse_address port_bytes byte_at
  reads_domain host = (
    ap (λ (s : List ℕ). ok (t.decode s, 6 + length host))
        (slice_first (request command port (2 ∷ length host ∷ [])) host payload 6 (length host) refl
          refl),
    drop_first (request command port (2 ∷ length host ∷ [])) host payload 6 (length host) refl refl,
  )

  pub reads_v6 :
      (packed : List ℕ)
      → length packed ≡ 16
      → (parse_address t 3 5 (request command port (3 ∷ packed ++ payload))
          ≡ (coloned 8 packed >>= λ a. ok (a, 21)))
        × (drop 21 (request command port (3 ∷ packed ++ payload)) ≡ payload)
  unfolding parse_address port_bytes
  reads_v6 packed h = (
    ap (λ (s : List ℕ). coloned 8 s >>= λ a. ok (a, 21))
        (slice_first (request command port (3 ∷ [])) packed payload 5 16 refl h),
    drop_first (request command port (3 ∷ [])) packed payload 5 16 refl h,
  )
