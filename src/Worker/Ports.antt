-- ===== src/Worker/Ports.antt =====
-- worker/emunel_worker/driver.py, `PortAllocator`: which ports of the node's range are taken. What `port_is_free`
-- finds by binding a port is a parameter. `used` is a set in the source, and a list here.
pub mod Laws
use emunel.Prelude.{
  ℕ, zero, suc, ◌+◌, ◌-◌, Bool, true, false, ◌&&◌, not, List, [], ◌∷◌, ◌++◌, Option, none, some,
  ltb, leb, nat_beq, nat_eq, elem, if◌then◌else◌, keep,
}

pub record PortAllocator : Type 0 where
  pub start : ℕ
  pub end : ℕ
  pub used : List ℕ

-- `n` numbers from `first` on
unfoldable pub range_from : ℕ → ℕ → List ℕ
range_from first zero = []
range_from first (suc n) = first ∷ range_from (first + 1) n

-- range(start, end + 1)
abbrev pub all_ports : PortAllocator → List ℕ
all_ports a = range_from a.start (a.end + 1 - a.start)

abbrev pub candidates : PortAllocator → Option ℕ → List ℕ
candidates a none = all_ports a
candidates a (some preferred) =
    if not (nat_beq preferred 0) && leb a.start preferred && leb preferred a.end
    then preferred ∷ all_ports a
    else all_ports a

abbrev pub usable : (ℕ → Bool) → List ℕ → ℕ → Bool
usable port_is_free used port = if elem port used then false else port_is_free port

unfoldable pub first_usable : (ℕ → Bool) → List ℕ → List ℕ → Option ℕ
first_usable port_is_free used [] = none
first_usable port_is_free used (port ∷ ports) =
    let rest = first_usable port_is_free used ports in
    if usable port_is_free used port then some port else rest

-- The allocator after `port` is added, if there is one.
abbrev pub take_port : PortAllocator → Option ℕ → PortAllocator × Option ℕ
take_port a none = (a, none)
take_port a (some port) = (record a { used = port ∷ a.used }, some port)

-- No port stands for the `DriverError`.
unfoldable pub allocate : (ℕ → Bool) → Option ℕ → PortAllocator → PortAllocator × Option ℕ
allocate port_is_free preferred a =
    take_port a (first_usable port_is_free a.used (candidates a preferred))

-- `used.discard(port)`
abbrev pub discard : ℕ → List ℕ → List ℕ
discard port used = keep (λ other. not (nat_beq other port)) used

unfoldable pub release : ℕ → PortAllocator → PortAllocator
release port a = if nat_beq port 0 then a else record a { used = discard port a.used }
