-- ===== src/Worker/Driver/Table.antt =====
-- worker/emunel_worker/driver.py: tables of handles, by the ports that they are on.
use emunel.Prelude.{
  ℕ, ◌≡◌, subst, inl, inr, true, false, List, [], ◌∷◌, some, nat_beq, nat_eq, elem, All, arith,
  Bool-cases, Str, str_eq, ◌==◌,
}
use emunel.Prelude.Dict.{Dict, get, put, remove, All-put, All-remove, All-get}
use emunel.Worker.Ports.{PortAllocator, release, discard}
use emunel.Worker.Driver.{InstanceHandle}

beq_sym : (m n : ℕ) → nat_beq m n ≡ false → nat_beq n m ≡ false
beq_sym m n h = ground arith

beq_fresh :
    (used : List ℕ) (m n : ℕ) → elem n used ≡ false → elem m used ≡ true → nat_beq m n ≡ false
beq_fresh used m n new old = elim (Bool-cases (nat_beq m n)) [
  | inl same ↦
      let key : m ≡ n = ground (arith, same) in
      absurd (cc (subst (λ (i : ℕ). elem i used ≡ true) key old, new))
  | inr other ↦ other
]

elem-discard :
    (used : List ℕ) (port other : ℕ)
    → nat_beq other port ≡ false
    → elem other used ≡ true
    → elem other (discard port used) ≡ true
elem-discard [] port other off h = h
elem-discard (p ∷ used) port other off h = elim (Bool-cases (nat_beq p other)) [
  | inl same ↦ ground (arith, same, off)
  | inr new ↦ ground (arith, new, elem-discard used port other off)
]

module _ {ℓ} {R : Type ℓ} where
  -- No handle of a table is on this port.
  abbrev pub OffPort : ℕ → Dict Str (InstanceHandle R) → Type 0
  OffPort port = All (λ e. nat_beq e.1.port port ≡ false)

  -- Each handle of a table is on a port of its own.
  abbrev pub PortsOnce : Dict Str (InstanceHandle R) → Type 0
  PortsOnce [] = Unit
  PortsOnce ((id, h) ∷ d) = OffPort h.port d × PortsOnce d

  -- Each handle of a table is on a port that is marked as used.
  abbrev pub Marked : List ℕ → Dict Str (InstanceHandle R) → Type 0
  Marked used = All (λ e. elem e.1.port used ≡ true)

  pub Marked-OffPort :
      (used : List ℕ) (port : ℕ) (d : Dict Str (InstanceHandle R))
      → elem port used ≡ false
      → Marked used d
      → OffPort port d
  Marked-OffPort used port [] new h = tt
  Marked-OffPort used port ((id, x) ∷ d) new h =
      (beq_fresh used x.port port new h.0, Marked-OffPort used port d new h.1)

  pub Marked-cons :
      (used : List ℕ) (port : ℕ) (d : Dict Str (InstanceHandle R))
      → Marked used d
      → Marked (port ∷ used) d
  Marked-cons used port [] h = tt
  Marked-cons used port ((id, x) ∷ d) h = (ground (arith, h.0), Marked-cons used port d h.1)

  pub put-PortsOnce :
      (d : Dict Str (InstanceHandle R)) (id : Str) (h : InstanceHandle R)
      → OffPort h.port d
      → PortsOnce d
      → PortsOnce (put d id h)
  unfolding put
  put-PortsOnce [] id h off once = (tt, tt)
  put-PortsOnce ((j, x) ∷ d) id h off once = elim (Bool-cases (j == id)) [
    | inl same ↦ rw same (off.1, once.1)
    | inr other ↦
        rw other
          (All-put _ d id h (beq_sym x.port h.port off.0) once.0, put-PortsOnce d id h off.1 once.1)
  ]

  pub remove-PortsOnce :
      (d : Dict Str (InstanceHandle R)) (id : Str) → PortsOnce d → PortsOnce (remove d id)
  unfolding remove
  remove-PortsOnce [] id once = tt
  remove-PortsOnce ((j, x) ∷ d) id once = elim (Bool-cases (j == id)) [
    | inl same ↦ rw same (remove-PortsOnce d id once.1)
    | inr other ↦ rw other (All-remove _ d id once.0, remove-PortsOnce d id once.1)
  ]

  pub remove-OffPort :
      (d : Dict Str (InstanceHandle R)) (id : Str) (h : InstanceHandle R)
      → get d id ≡ some h
      → PortsOnce d
      → OffPort h.port (remove d id)
  unfolding get remove
  remove-OffPort [] id h found once = absurd (ground arith)
  remove-OffPort ((j, x) ∷ d) id h found once = elim (Bool-cases (j == id)) [
    | inl same ↦
        let here : x ≡ h = ground (arith, same) in
        rw same (
          subst (λ (y : InstanceHandle R). OffPort y.port (remove d id)) here
            (All-remove _ d id once.0))
    | inr other ↦
        let later : get d id ≡ some h = ground (arith, other) in
        let apart = All-get (λ e. nat_beq e.1.port x.port ≡ false) d id h later once.0 in
        rw other (beq_sym h.port x.port apart, remove-OffPort d id h later once.1)
  ]

  Marked-discard :
      (used : List ℕ) (port : ℕ) (d : Dict Str (InstanceHandle R))
      → OffPort port d
      → Marked used d
      → Marked (discard port used) d
  Marked-discard used port [] off h = tt
  Marked-discard used port ((id, x) ∷ d) off h =
      (elem-discard used port x.port off.0 h.0, Marked-discard used port d off.1 h.1)

  pub Marked-release :
      (a : PortAllocator) (port : ℕ) (d : Dict Str (InstanceHandle R))
      → OffPort port d
      → Marked a.used d
      → Marked (release port a).used d
  unfolding release
  Marked-release a port d off h = elim (Bool-cases (nat_beq port 0)) [
    | inl zero_port ↦ rw zero_port h
    | inr other ↦ rw other (Marked-discard a.used port d off h)
  ]
