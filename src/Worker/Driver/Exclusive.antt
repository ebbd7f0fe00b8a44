-- ===== src/Worker/Driver/Exclusive.antt =====
-- worker/emunel_worker/driver.py: which instance holds which port.
use emunel.Prelude.{
  ℕ, ◌≡◌, refl, Bool, true, ◌∷◌, Option, none, some, nat_eq, nat_same_iff, elem, arith, Str, str_eq,
}
use emunel.Prelude.Dict.{get, All-put, All-remove}
use emunel.Worker.Ports.{PortAllocator}
use emunel.Worker.Ports.Laws.{Allocates, allocate-Allocates, fresh_of_usable}
use emunel.Worker.Driver.Table.{
  PortsOnce, Marked, OffPort, Marked-OffPort, Marked-cons, put-PortsOnce, remove-PortsOnce,
  remove-OffPort, Marked-release,
}
use emunel.Worker.Driver.{
  InstanceHandle, Driver, LaunchSpec, Started, started, refused, crashed, Runtime, launch, Remover,
  docker_rm, own_stop, recorded, launched_on, halted, cleaned, freed, removed, forget, stop,
  remove_known,
}

-- No two instances share a port, and no port of an instance is free to be given again.
pub record IsExclusive {ℓ κ} {R : Type ℓ} {W : Type κ} (d : Driver R W) : Type 0 where
  pub apart : PortsOnce d.handles
  pub marked : Marked d.ports.used d.handles

module _ {ℓ κ} {R : Type ℓ} {W : Type κ} where
  recorded-IsExclusive :
      (spec : LaunchSpec) (port : ℕ) (d : Driver R W) (r : Started R × W)
      → OffPort port d.handles
      → elem port d.ports.used ≡ true
      → IsExclusive d
      → IsExclusive (recorded spec port d r).0
  recorded-IsExclusive spec port d (started reference, w) off own x = record {
    apart = put-PortsOnce d.handles spec.instance_id _ off x.apart;
    marked = All-put _ d.handles spec.instance_id _ own x.marked;
  }
  recorded-IsExclusive spec port d (refused, w) off own x = record {
    apart = x.apart;
    marked = Marked-release d.ports port d.handles off x.marked;
  }
  recorded-IsExclusive spec port d (crashed, w) off own x = record {
    apart = x.apart;
    marked = x.marked;
  }

  launched_on-IsExclusive :
      (runtime : Runtime R W) (port_is_free : ℕ → Bool) (spec : LaunchSpec) (d : Driver R W)
      (p : PortAllocator × Option ℕ)
      → Allocates port_is_free d.ports p
      → IsExclusive d
      → IsExclusive (launched_on runtime spec d p).0
  launched_on-IsExclusive runtime port_is_free spec d (a, none) made x = x
  launched_on-IsExclusive runtime port_is_free spec d (a, some port) made x =
      let new = fresh_of_usable port_is_free d.ports.used port made.1 in
      rw made.2 (
        recorded-IsExclusive spec port
          (record d { ports = record d.ports { used = port ∷ d.ports.used } })
          (runtime.run_core spec.instance_id port d.world)
          (Marked-OffPort d.ports.used port d.handles new x.marked)
          (ground (arith, nat_same_iff port port))
          (record { apart = x.apart; marked = Marked-cons d.ports.used port d.handles x.marked }))

  pub launch-IsExclusive :
      (runtime : Runtime R W) (port_is_free : ℕ → Bool) (spec : LaunchSpec) (d : Driver R W)
      → IsExclusive d
      → IsExclusive (launch runtime port_is_free spec d).0
  unfolding launch
  launch-IsExclusive runtime port_is_free spec d x =
      launched_on-IsExclusive runtime port_is_free spec d _
        (allocate-Allocates port_is_free spec.port d.ports) x

  pub forget-IsExclusive : (id : Str) (d : Driver R W) → IsExclusive d → IsExclusive (forget id d)
  forget-IsExclusive id d x = record {
    apart = remove-PortsOnce d.handles id x.apart;
    marked = All-remove _ d.handles id x.marked;
  }

  halted-IsExclusive :
      (runtime : Runtime R W) (d : Driver R W) (o : Option (InstanceHandle R))
      → IsExclusive d
      → IsExclusive (halted runtime d o).0
  halted-IsExclusive runtime d none x = x
  halted-IsExclusive runtime d (some h) x = record { apart = x.apart; marked = x.marked }

  pub stop-IsExclusive :
      (runtime : Runtime R W) (id : Str) (d : Driver R W)
      → IsExclusive d
      → IsExclusive (stop runtime id d).0
  unfolding stop
  stop-IsExclusive runtime id d x = halted-IsExclusive runtime d (get d.handles id) x

  cleaned-IsExclusive :
      (runtime : Runtime R W) (remover : Remover R W) (id : Str) (h : InstanceHandle R)
      (d : Driver R W)
      → IsExclusive d
      → IsExclusive (cleaned runtime remover id h d).0
  cleaned-IsExclusive runtime (docker_rm rm) id h d x = record {
    apart = x.apart;
    marked = x.marked;
  }
  cleaned-IsExclusive runtime own_stop id h d x = stop-IsExclusive runtime id d x

  handles-cleaned :
      (runtime : Runtime R W) (remover : Remover R W) (id : Str) (h : InstanceHandle R)
      (d : Driver R W)
      → (cleaned runtime remover id h d).0.handles ≡ d.handles
  unfolding stop
  handles-cleaned runtime (docker_rm rm) id h d = refl
  handles-cleaned runtime own_stop id h d = ground arith

  freed-IsExclusive :
      (port : ℕ) (r : Driver R W × Bool)
      → OffPort port r.0.handles
      → IsExclusive r.0
      → IsExclusive (freed port r).0
  freed-IsExclusive port (d, ok) off x = record {
    apart = x.apart;
    marked = Marked-release d.ports port d.handles off x.marked;
  }

  removed-IsExclusive :
      (runtime : Runtime R W) (id : Str) (d : Driver R W) (o : Option (InstanceHandle R))
      → get d.handles id ≡ o
      → IsExclusive d
      → IsExclusive (removed runtime id d o).0
  removed-IsExclusive runtime id d none e x = x
  removed-IsExclusive runtime id d (some h) e x =
      let done = cleaned runtime runtime.remover id h (forget id d) in
      freed-IsExclusive h.port done
        (rw (handles-cleaned runtime runtime.remover id h (forget id d))
          (remove-OffPort d.handles id h e x.apart))
        (cleaned-IsExclusive runtime runtime.remover id h (forget id d) (forget-IsExclusive id d x))

  pub remove_known-IsExclusive :
      (runtime : Runtime R W) (id : Str) (d : Driver R W)
      → IsExclusive d
      → IsExclusive (remove_known runtime id d).0
  unfolding remove_known
  remove_known-IsExclusive runtime id d x =
      removed-IsExclusive runtime id d (get d.handles id) refl x
