-- ===== src/Worker/Node.antt =====
-- worker/emunel_worker/main.py and registry.py: the handlers that change instances, and the registry that a
-- restart of the Worker reads. Statements of the registry succeed; of a saved record the token and the port
-- are kept here.
pub mod Exclusive
pub mod Leaks
pub mod Tokens
pub mod Credentials
use emunel.Prelude.{
  ℕ, Bool, true, false, List, [], ◌∷◌, Option, none, some, if◌then◌else◌, Str, str_eq, is_some,
}
use emunel.Prelude.Dict.{Dict, get, put, remove}
use emunel.Worker.Ports.{PortAllocator}
use emunel.Worker.Driver.{
  InstanceHandle, Driver, LaunchSpec, Launched, done, driver_error, exception, Runtime, launch,
  forget, stop, remove_known,
}

pub record Saved : Type 0 where
  pub api_token : Str
  pub port : ℕ

pub record Node {ℓ κ} (R : Type ℓ) (W : Type κ) : Type (ℓ ⊔ κ) where
  pub driver : Driver R W
  pub registry : Dict Str Saved

-- What the Console asks, with what the probes of ports find; and a restart of the Worker with what is then
-- in the world.
pub data Request {κ} (W : Type κ) : Type κ where
  launch_instance : (ℕ → Bool) → Str → Str → Request W
  restart_instance : (ℕ → Bool) → Str → Str → Request W
  stop_instance : Str → Request W
  remove_instance : Str → Request W
  startup : (ℕ → Bool) → W → Request W

abbrev pub spec_of : Str → Str → LaunchSpec
spec_of id token = record { instance_id = id; api_token = token; port = none }

abbrev pub saved_spec : Str → Saved → LaunchSpec
saved_spec id saved = record {
  instance_id = id;
  api_token = saved.api_token;
  port = some saved.port;
}

module _ {ℓ κ} {R : Type ℓ} {W : Type κ} where
  -- `registry.save_instance` after a launch that worked: the token is that of the launch, and the port that of the
  -- handle.
  abbrev pub registered : Str → Str → Dict Str Saved → Driver R W × Launched R → Node R W × Bool
  registered id token registry (d, done h) = (
    record { driver = d; registry = put registry id (record { api_token = token; port = h.port }) },
    true,
  )
  registered id token registry (d, driver_error) =
      (record { driver = d; registry = registry }, false)
  registered id token registry (d, exception) = (record { driver = d; registry = registry }, false)

  -- A known instance is stopped, whatever `stop` says, and its handle is dropped.
  abbrev pub dropped : Runtime R W → Str → Driver R W → Driver R W
  dropped runtime id d = if is_some (get d.handles id) then forget id (stop runtime id d).0 else d

  -- A known instance is stopped; false where that raises.
  abbrev pub stopped : Runtime R W → Str → Driver R W → Driver R W × Bool
  stopped runtime id d = if is_some (get d.handles id) then stop runtime id d else (d, true)

  abbrev pub relaunched :
      Runtime R W → (ℕ → Bool) → Str → Str → Dict Str Saved → Driver R W × Bool → Node R W × Bool
  relaunched runtime port_is_free id token registry (d, true) =
      registered id token registry (launch runtime port_is_free (spec_of id token) d)
  relaunched runtime port_is_free id token registry (d, false) =
      (record { driver = d; registry = registry }, false)

  abbrev pub unregistered : Str → Dict Str Saved → Driver R W × Bool → Node R W × Bool
  unregistered id registry (d, true) = (record { driver = d; registry = remove registry id }, true)
  unregistered id registry (d, false) = (record { driver = d; registry = registry }, false)

  abbrev pub with_driver : Dict Str Saved → Driver R W × Bool → Node R W × Bool
  with_driver registry (d, ok) = (record { driver = d; registry = registry }, ok)

  -- `_relaunch_known_instances`, taken as a whole: requests that come while it runs are left out.
  unfoldable pub relaunch_known :
      Runtime R W → (ℕ → Bool) → Dict Str Saved → Driver R W → Driver R W
  relaunch_known runtime port_is_free [] d = d
  relaunch_known runtime port_is_free ((id, saved) ∷ rest) d =
      relaunch_known runtime port_is_free rest (
        if is_some (get d.handles id)
        then d
        else (launch runtime port_is_free (saved_spec id saved) d).0)

  -- The driver of a Worker that has just started.
  abbrev pub new_driver : PortAllocator → W → Driver R W
  new_driver a w = record { ports = record a { used = [] }; handles = []; world = w }

  -- A request, and whether it is answered without an error.
  unfoldable pub happen : Runtime R W → Request W → Node R W → Node R W × Bool
  happen runtime (launch_instance port_is_free id token) n =
      registered id token n.registry
        (launch runtime port_is_free (spec_of id token) (dropped runtime id n.driver))
  happen runtime (restart_instance port_is_free id token) n =
      relaunched runtime port_is_free id token n.registry (stopped runtime id n.driver)
  happen runtime (stop_instance id) n = with_driver n.registry (stop runtime id n.driver)
  happen runtime (remove_instance id) n =
      unregistered id n.registry (remove_known runtime id n.driver)
  happen runtime (startup port_is_free w) n =
      with_driver n.registry
        (relaunch_known runtime port_is_free n.registry (new_driver n.driver.ports w), true)

  unfoldable pub happen_all : Runtime R W → List (Request W) → Node R W → Node R W
  happen_all runtime [] n = n
  happen_all runtime (request ∷ requests) n =
      happen_all runtime requests (happen runtime request n).0
