-- ===== src/Worker/Ports/Laws.antt =====
-- worker/emunel_worker/driver.py, `PortAllocator`: what `allocate` gives, and how many ports are left.
use emunel.Prelude.{
  ℕ, zero, suc, ◌+◌, ◌-◌, ◌≤◌, ◌<◌, ◌≡◌, refl, subst, inl, inr, Bool, true, false, not, ◌&&◌, List,
  [], ◌∷◌, Option, none, some, leb, nat_beq, nat_eq, nat_same_iff, elem, keep, length, All, arith,
  Bool-cases, Option-cases,
}
use emunel.Worker.Ports.{
  PortAllocator, range_from, all_ports, candidates, usable, first_usable, allocate, discard,
  release,
}

-- A port lies in the range of an allocator.
pub record IsWithin (a : PortAllocator) (port : ℕ) : Type 0 where
  pub low : a.start ≤ port
  pub high : port ≤ a.end

-- What an allocation gives: a port of the range that was unused and can be bound, or nothing where no port
-- of the range is such.
abbrev pub Allocates : (ℕ → Bool) → PortAllocator → PortAllocator × Option ℕ → Type 0
Allocates port_is_free a (b, some port) =
    IsWithin a port
    × (usable port_is_free a.used port ≡ true)
    × (b ≡ record a { used = port ∷ a.used })
Allocates port_is_free a (b, none) =
    (b ≡ a) × All (λ port. usable port_is_free a.used port ≡ false) (all_ports a)

range_from-All :
    (P : ℕ → Type 0) (first n : ℕ)
    → ((port : ℕ) → first ≤ port → port < first + n → P port)
    → All P (range_from first n)
unfolding range_from
range_from-All P first zero h = tt
range_from-All P first (suc n) h = (
  h first (omega arith) (omega arith),
  range_from-All P (first + 1) n (λ port low high. h port (omega arith) (omega arith)),
)

all_ports-IsWithin : (a : PortAllocator) → All (IsWithin a) (all_ports a)
all_ports-IsWithin a =
    range_from-All (IsWithin a) a.start _
      (λ port low high. record { low = low; high = omega arith })

candidates-IsWithin :
    (a : PortAllocator) (preferred : Option ℕ) → All (IsWithin a) (candidates a preferred)
candidates-IsWithin a none = all_ports-IsWithin a
candidates-IsWithin a (some preferred) =
    elim (Bool-cases (not (nat_beq preferred 0) && leb a.start preferred && leb preferred a.end)) [
      | inl asked ↦
          rw asked (record { low = ground arith; high = ground arith }, all_ports-IsWithin a)
      | inr other ↦ rw other (all_ports-IsWithin a)
    ]

module _ (port_is_free : ℕ → Bool) where
  first_usable-some :
      (P : ℕ → Type 0) (used ports : List ℕ) (port : ℕ)
      → All P ports
      → first_usable port_is_free used ports ≡ some port
      → P port × (usable port_is_free used port ≡ true)
  unfolding first_usable
  first_usable-some P used [] port h e = absurd (ground arith)
  first_usable-some P used (p ∷ ports) port h e = elim (Bool-cases (usable port_is_free used p)) [
    | inl fits ↦
        let here : p ≡ port = ground (arith, fits) in
        subst (λ (q : ℕ). P q × (usable port_is_free used q ≡ true)) here (h.0, fits)
    | inr other ↦ first_usable-some P used ports port h.1 (ground (arith, other))
  ]

  first_usable-none :
      (used ports : List ℕ)
      → first_usable port_is_free used ports ≡ none
      → All (λ port. usable port_is_free used port ≡ false) ports
  unfolding first_usable
  first_usable-none used [] e = tt
  first_usable-none used (p ∷ ports) e = elim (Bool-cases (usable port_is_free used p)) [
    | inl fits ↦ absurd (ground (arith, fits))
    | inr other ↦ (other, first_usable-none used ports (ground (arith, other)))
  ]

  range-unusable :
      (a : PortAllocator) (preferred : Option ℕ)
      → All (λ port. usable port_is_free a.used port ≡ false) (candidates a preferred)
      → All (λ port. usable port_is_free a.used port ≡ false) (all_ports a)
  range-unusable a none h = h
  range-unusable a (some preferred) h =
      elim (Bool-cases
        (not (nat_beq preferred 0) && leb a.start preferred && leb preferred a.end)) [
          | inl asked ↦ (rw asked at h).1
          | inr other ↦ rw other at h
        ]

  -- An allocation gives a port of the range that no one holds and that can be bound, and marks just this
  -- port as used. It fails only where every port of the range is held or cannot be bound, and then it
  -- changes nothing.
  pub allocate-Allocates :
      (preferred : Option ℕ) (a : PortAllocator)
      → Allocates port_is_free a (allocate port_is_free preferred a)
  unfolding allocate
  allocate-Allocates preferred a =
      elim (Option-cases (first_usable port_is_free a.used (candidates a preferred))) [
        | inl full ↦ rw full (refl, range-unusable a preferred (first_usable-none a.used _ full))
        | inr (port, found) ↦
            let (within, fits) =
              first_usable-some (IsWithin a) a.used _ port (candidates-IsWithin a preferred)
                found in
            rw found (within, fits, refl)
      ]

-- How many of these ports are not used.
abbrev unused : List ℕ → List ℕ → ℕ
unused used ports = length (keep (λ port. not (elem port used)) ports)

-- How many ports of the range are not used.
abbrev pub spare : PortAllocator → ℕ
spare a = unused a.used (all_ports a)

unused_le : (used ports : List ℕ) (port : ℕ) → unused (port ∷ used) ports ≤ unused used ports
unused_le used [] port = omega arith
unused_le used (p ∷ ports) port = ground (arith, unused_le used ports port)

unused_lt :
    (used ports : List ℕ) (port : ℕ)
    → elem port ports ≡ true
    → elem port used ≡ false
    → unused (port ∷ used) ports < unused used ports
unused_lt used [] port h new = absurd (ground arith)
unused_lt used (p ∷ ports) port h new = elim (Bool-cases (nat_beq p port)) [
  | inl same ↦
      let key : p ≡ port = ground (arith, same) in
      ground (arith, same, key, unused_le used ports port)
  | inr other ↦ ground (arith, other, unused_lt used ports port)
]

elem-range_from :
    (first n port : ℕ) → first ≤ port → port < first + n → elem port (range_from first n) ≡ true
unfolding range_from
elem-range_from first zero port low high = absurd (omega arith)
elem-range_from first (suc n) port low high = ground (arith, elem-range_from (first + 1) n port)

pub fresh_of_usable :
    (port_is_free : ℕ → Bool) (used : List ℕ) (port : ℕ)
    → usable port_is_free used port ≡ true
    → elem port used ≡ false
fresh_of_usable port_is_free used port h = ground arith

-- A port that is given is one spare port less.
pub allocate-spare :
    (port_is_free : ℕ → Bool) (preferred : Option ℕ) (a b : PortAllocator) (port : ℕ)
    → allocate port_is_free preferred a ≡ (b, some port)
    → spare b < spare a
allocate-spare port_is_free preferred a b port e =
    let (within, fits, made) =
      subst (Allocates port_is_free a) e (allocate-Allocates port_is_free preferred a) in
    let new = fresh_of_usable port_is_free a.used port fits in
    let listed : elem port (all_ports a) ≡ true =
      elem-range_from a.start (a.end + 1 - a.start) port within.low (omega (arith, within.high)) in
    rw made (unused_lt a.used (all_ports a) port listed new)

unused_mono :
    (used more ports : List ℕ)
    → ((port : ℕ) → elem port used ≡ true → elem port more ≡ true)
    → unused more ports ≤ unused used ports
unused_mono used more [] h = omega arith
unused_mono used more (p ∷ ports) h = ground (arith, h p, unused_mono used more ports h)

elem-discard_ne :
    (used : List ℕ) (port other : ℕ)
    → elem port used ≡ false
    → elem other used ≡ true
    → elem other (discard port used) ≡ true
elem-discard_ne [] port other new h = h
elem-discard_ne (p ∷ used) port other new h = elim (Bool-cases (nat_beq p other)) [
  | inl same ↦ ground (arith, same, new)
  | inr apart ↦ ground (arith, apart, new, elem-discard_ne used port other)
]

elem-release :
    (a : PortAllocator) (port other : ℕ)
    → elem port a.used ≡ false
    → elem other a.used ≡ true
    → elem other (release port (record a { used = port ∷ a.used })).used ≡ true
unfolding release
elem-release a port other new h = elim (Bool-cases (nat_beq port 0)) [
  | inl zero_port ↦ rw zero_port (ground (arith, h))
  | inr held ↦
      rw held (ground (arith, nat_same_iff port port, elem-discard_ne a.used port other new h))
]

all_ports-release : (a : PortAllocator) (port : ℕ) → all_ports (release port a) ≡ all_ports a
unfolding release
all_ports-release a port = ground arith

-- A port that is taken and given back leaves no fewer ports used than there were.
pub release-spare :
    (port_is_free : ℕ → Bool) (preferred : Option ℕ) (a b : PortAllocator) (port : ℕ)
    → allocate port_is_free preferred a ≡ (b, some port)
    → spare (release port b) ≤ spare a
release-spare port_is_free preferred a b port e =
    let (within, fits, made) =
      subst (Allocates port_is_free a) e (allocate-Allocates port_is_free preferred a) in
    let new = fresh_of_usable port_is_free a.used port fits in
    rw (made, all_ports-release)
      (unused_mono a.used _ (all_ports a) (λ other h. elem-release a port other new h))
