-- ===== src/Worker/Node/Leaks.antt =====
-- worker/emunel_worker/main.py and driver.py: which ports the deployments of an instance take.
use emunel.Prelude.{
  ℕ, ◌+◌, ◌≤◌, ◌<◌, ◌≡◌, refl, ap, inl, inr, Bool, true, false, List, [], ◌∷◌, Option, none, some,
  Bool-cases, Str, str_eq, is_some, All, arith, ◌&&◌,
}
use emunel.Prelude.Dict.{Dict, get}
use emunel.Worker.Ports.{PortAllocator, allocate, release}
use emunel.Worker.Ports.Laws.{spare, allocate-spare, release-spare}
use emunel.Worker.Driver.{
  InstanceHandle, recorded, Driver, LaunchSpec, Started, started, refused, crashed, Launched, done,
  driver_error, exception, Runtime, launch, launched_on, halted, stop,
}
use emunel.Worker.Node.{
  Saved, Node, Request, launch_instance, restart_instance, stop_instance, remove_instance, startup,
  happen, happen_all, registered, dropped, stopped, relaunched, spec_of,
}

module _ {κ} {W : Type κ} where
  abbrev deploys : Request W → Bool
  deploys (launch_instance port_is_free id token) = true
  deploys (restart_instance port_is_free id token) = true
  deploys _ = false

  -- A request other than a removal; and the Worker does not start anew.
  abbrev pub keeps_instances : Request W → Bool
  keeps_instances (remove_instance id) = false
  keeps_instances (startup port_is_free w) = false
  keeps_instances _ = true

abbrev count : Bool → ℕ
count true = 1
count false = 0

module _ {ℓ κ} {R : Type ℓ} {W : Type κ} (runtime : Runtime R W) where
  -- How many of the requests are deployments that are answered without an error.
  unfoldable pub deployed : List (Request W) → Node R W → ℕ
  deployed [] n = 0
  deployed (request ∷ requests) n =
      count (deploys request && (happen runtime request n).1)
      + deployed requests (happen runtime request n).0

  abbrev launches : Launched R → ℕ
  launches (done h) = 1
  launches driver_error = 0
  launches exception = 0

  recorded-spare :
      (spec : LaunchSpec) (port limit : ℕ) (d : Driver R W) (r : Started R × W)
      → spare d.ports < limit
      → spare (release port d.ports) ≤ limit
      → let r' = recorded spec port d r in spare r'.0.ports + launches r'.1 ≤ limit
  recorded-spare spec port limit d (started reference, w) less back = omega arith
  recorded-spare spec port limit d (refused, w) less back = omega arith
  recorded-spare spec port limit d (crashed, w) less back = omega arith

  launched_on-spare :
      (port_is_free : ℕ → Bool) (spec : LaunchSpec) (d : Driver R W) (p : PortAllocator × Option ℕ)
      → allocate port_is_free spec.port d.ports ≡ p
      → let r = launched_on runtime spec d p in spare r.0.ports + launches r.1 ≤ spare d.ports
  launched_on-spare port_is_free spec d (a, none) e = omega arith
  launched_on-spare port_is_free spec d (a, some port) e =
      recorded-spare spec port (spare d.ports) (record d { ports = a })
        (runtime.run_core spec.instance_id port d.world)
        (allocate-spare port_is_free spec.port d.ports a port e)
        (release-spare port_is_free spec.port d.ports a port e)

  launch-spare :
      (port_is_free : ℕ → Bool) (spec : LaunchSpec) (d : Driver R W)
      → let r = launch runtime port_is_free spec d in spare r.0.ports + launches r.1 ≤ spare d.ports
  unfolding launch
  launch-spare port_is_free spec d = launched_on-spare port_is_free spec d _ refl

  halted-ports :
      (d : Driver R W) (o : Option (InstanceHandle R)) → (halted runtime d o).0.ports ≡ d.ports
  halted-ports d none = refl
  halted-ports d (some h) = refl

  stop-ports : (id : Str) (d : Driver R W) → (stop runtime id d).0.ports ≡ d.ports
  unfolding stop
  stop-ports id d = halted-ports d (get d.handles id)

  dropped-ports : (id : Str) (d : Driver R W) → (dropped runtime id d).ports ≡ d.ports
  dropped-ports id d = elim (Bool-cases (is_some (get d.handles id))) [
    | inl known ↦ rw known (stop-ports id d)
    | inr new ↦ rw new
  ]

  stopped-ports : (id : Str) (d : Driver R W) → (stopped runtime id d).0.ports ≡ d.ports
  stopped-ports id d = elim (Bool-cases (is_some (get d.handles id))) [
    | inl known ↦ rw known (stop-ports id d)
    | inr new ↦ rw new
  ]

  registered-spare :
      (id token : Str) (registry : Dict Str Saved) (limit : ℕ) (r : Driver R W × Launched R)
      → spare r.0.ports + launches r.1 ≤ limit
      → let r' = registered id token registry r in spare r'.0.driver.ports + count r'.1 ≤ limit
  registered-spare id token registry limit (d, done h) le = le
  registered-spare id token registry limit (d, driver_error) le = le
  registered-spare id token registry limit (d, exception) le = le

  relaunched-spare :
      (port_is_free : ℕ → Bool) (id token : Str) (registry : Dict Str Saved) (r : Driver R W × Bool)
      → let r' = relaunched runtime port_is_free id token registry r in
        spare r'.0.driver.ports + count r'.1 ≤ spare r.0.ports
  relaunched-spare port_is_free id token registry (d, true) =
      registered-spare id token registry (spare d.ports) _
        (launch-spare port_is_free (spec_of id token) d)
  relaunched-spare port_is_free id token registry (d, false) = omega arith

  happen-spare :
      (request : Request W) (n : Node R W)
      → keeps_instances request ≡ true
      → let r = happen runtime request n in
        count (deploys request && r.1) + spare r.0.driver.ports ≤ spare n.driver.ports
  unfolding happen
  happen-spare (launch_instance port_is_free id token) n h =
      let d = dropped runtime id n.driver in
      let less =
        registered-spare id token n.registry (spare d.ports)
          (launch runtime port_is_free (spec_of id token) d)
          (launch-spare port_is_free (spec_of id token) d) in
      omega (arith, less, ap spare (dropped-ports id n.driver))
  happen-spare (restart_instance port_is_free id token) n h =
      let less = relaunched-spare port_is_free id token n.registry (stopped runtime id n.driver) in
      omega (arith, less, ap spare (stopped-ports id n.driver))
  happen-spare (stop_instance id) n h = omega (arith, ap spare (stop-ports id n.driver))
  happen-spare (remove_instance id) n h = absurd (cc)
  happen-spare (startup port_is_free w) n h = absurd (cc)

  -- Until an instance is removed or the Worker starts anew, there can be no more deployments that work than
  -- there were unused ports, however few instances they are for: each deployment takes a port for good.
  pub deployed-le-spare :
      (requests : List (Request W)) (n : Node R W)
      → All (λ request. keeps_instances request ≡ true) requests
      → deployed requests n + spare (happen_all runtime requests n).driver.ports
        ≤ spare n.driver.ports
  unfolding deployed happen_all
  deployed-le-spare [] n h = omega arith
  deployed-le-spare (request ∷ requests) n h = omega (
    arith,
    happen-spare request n h.0,
    deployed-le-spare requests (happen runtime request n).0 h.1,
  )
