-- ===== src/Worker/Docker.antt =====
-- worker/emunel_worker/driver.py, `DockerDriver`: the Cores are containers. Docker is a parameter, with what
-- its documentation says of a name: it stays in use after `docker stop`, and `docker run` refuses one in use.
use emunel.Prelude.{
  ℕ, ◌≡◌, refl, ◌∙◌, Bool, true, false, ◌++◌, Option, none, some, Str, str_eq, codes, take, ap,
}
use emunel.Prelude.Dict.{Dict, get, get-remove_self}
use emunel.Worker.Ports.{PortAllocator, allocate}
use emunel.Worker.Driver.{
  Driver, InstanceHandle, LaunchSpec, Runtime, Started, started, refused, docker_rm, launch,
  launched_on, stop, Launched, driver_error, done, exception, forget,
}
use emunel.Worker.Node.{
  Saved, Node, launch_instance, restart_instance, happen, spec_of, registered, relaunched,
}

-- The commands that the driver runs, each with whether it exits with 0.
pub record Docker {ℓ} (C : Type ℓ) : Type ℓ where
  pub in_use : Str → C → Bool
  pub run : Str → ℕ → C → C × Bool
  pub stop_container : Str → C → C × Bool
  pub rm : Str → C → C × Bool

pub record IsDocker {ℓ} {C : Type ℓ} (docker : Docker C) : Type ℓ where
  pub run_taken :
      (name : Str) (port : ℕ) (c : C)
      → docker.in_use name c ≡ true
      → docker.run name port c ≡ (c, false)
  pub in_use-stop :
      (name other : Str) (c : C)
      → docker.in_use other (docker.stop_container name c).0 ≡ docker.in_use other c

-- f"emunel-inst-{instance_id[:12]}"
unfoldable pub container_name : Str → Str
container_name id = codes "emunel-inst-" ++ take 12 id

abbrev pub container_started {ℓ} : {C : Type ℓ} → Str → C × Bool → Started Str × C
container_started name (c, true) = (started name, c)
container_started name (c, false) = (refused, c)

abbrev pub docker_runtime {ℓ} : {C : Type ℓ} → Docker C → Runtime Str C
docker_runtime docker = record {
  run_core =
      λ id port c. container_started (container_name id) (docker.run (container_name id) port c);
  halt_core = docker.stop_container;
  remover = docker_rm docker.rm;
}

module _ {ℓ} {C : Type ℓ} (docker : Docker C) (documented : IsDocker docker) where
  launched_on_taken :
      (spec : LaunchSpec) (d : Driver Str C) (p : PortAllocator × Option ℕ)
      → docker.in_use (container_name spec.instance_id) d.world ≡ true
      → let r = launched_on (docker_runtime docker) spec d p in
        (r.1 ≡ driver_error) × (r.0.handles ≡ d.handles)
  launched_on_taken spec d (a, none) taken = (refl, refl)
  launched_on_taken spec d (a, some port) taken =
      rw (documented.run_taken (container_name spec.instance_id) port d.world taken) (refl, refl)

  launch_taken :
      (port_is_free : ℕ → Bool) (spec : LaunchSpec) (d : Driver Str C)
      → docker.in_use (container_name spec.instance_id) d.world ≡ true
      → let r = launch (docker_runtime docker) port_is_free spec d in
        (r.1 ≡ driver_error) × (r.0.handles ≡ d.handles)
  unfolding launch
  launch_taken port_is_free spec d taken =
      launched_on_taken spec d (allocate port_is_free spec.port d.ports) taken

  registered_refused :
      (id token : Str) (registry : Dict Str Saved) (r : Driver Str C × Launched Str)
      → r.1 ≡ driver_error
      → let s = registered id token registry r in (s.1 ≡ false) × (s.0.driver.handles ≡ r.0.handles)
  registered_refused id token registry (d, done h) e = absurd (cc)
  registered_refused id token registry (d, driver_error) e = (refl, refl)
  registered_refused id token registry (d, exception) e = absurd (cc)

  relaunched_refused :
      (port_is_free : ℕ → Bool) (id token : Str) (registry : Dict Str Saved)
      (r : Driver Str C × Bool)
      → docker.in_use (container_name id) r.0.world ≡ true
      → (relaunched (docker_runtime docker) port_is_free id token registry r).1 ≡ false
  relaunched_refused port_is_free id token registry (d, true) taken =
      (registered_refused id token registry
        (launch (docker_runtime docker) port_is_free (spec_of id token) d)
        (launch_taken port_is_free (spec_of id token) d taken).0).0
  relaunched_refused port_is_free id token registry (d, false) taken = refl

  -- With Docker a deployed instance cannot be deployed again: a launch and a restart of an instance that the
  -- Worker knows and whose container's name is in use are both answered with an error, as the stopped
  -- container keeps the name; and after the launch the Worker does not know the instance any more.
  pub happen_known_refused :
      (port_is_free : ℕ → Bool) (id token : Str) (n : Node Str C) (h : InstanceHandle Str)
      → get n.driver.handles id ≡ some h
      → docker.in_use (container_name id) n.driver.world ≡ true
      → let r = happen (docker_runtime docker) (launch_instance port_is_free id token) n in
        let s = happen (docker_runtime docker) (restart_instance port_is_free id token) n in
        (r.1 ≡ false) × (get r.0.driver.handles id ≡ none) × (s.1 ≡ false)
  unfolding happen stop
  happen_known_refused port_is_free id token n h found taken =
      let w = docker.stop_container h.reference n.driver.world in
      let still : docker.in_use (container_name id) w.0 ≡ true =
        documented.in_use-stop h.reference (container_name id) n.driver.world ∙ taken in
      let d : Driver Str C = record n.driver { world = w.0 } in
      let r = launch (docker_runtime docker) port_is_free (spec_of id token) (forget id d) in
      let again = launch_taken port_is_free (spec_of id token) (forget id d) still in
      let after = registered_refused id token n.registry r again.0 in
      let gone = ap (λ (t : Dict Str (InstanceHandle Str)). get t id) (after.1 ∙ again.1) in
      rw found (
        after.0,
        gone ∙ get-remove_self n.driver.handles id,
        relaunched_refused port_is_free id token n.registry (d, w.1) still,
      )
