-- ===== src/Worker/Driver.antt =====
-- worker/emunel_worker/driver.py, `BaseDriver`, `ProcessDriver` and `DockerDriver`, and the handlers of
-- worker/emunel_worker/main.py that change instances. A driver keeps the ports, the handles and the `world`
-- that it runs Cores in: the processes of the node, or the containers of Docker.
pub mod Table
pub mod Exclusive
use emunel.Prelude.{ℕ, Bool, true, false, Option, none, some, Str, str_eq}
use emunel.Prelude.Dict.{Dict, get, put, remove}
use emunel.Worker.Ports.{PortAllocator, allocate, release}

-- `reference` is the process, or the name of the container.
pub record InstanceHandle {ℓ} (R : Type ℓ) : Type ℓ where
  pub reference : R
  pub port : ℕ
  pub api_token : Str

pub record Driver {ℓ κ} (R : Type ℓ) (W : Type κ) : Type (ℓ ⊔ κ) where
  pub ports : PortAllocator
  pub handles : Dict Str (InstanceHandle R)
  pub world : W

-- What the source passes to `launch`: the limits of the instance are passed on untouched, and are left out.
pub record LaunchSpec : Type 0 where
  pub instance_id : Str
  pub api_token : Str
  pub port : Option ℕ

-- How the start of a Core ends: it runs, a `DriverError`, or another exception.
pub data Started {ℓ} (R : Type ℓ) : Type ℓ where
  started : R → Started R
  refused : Started R
  crashed : Started R

-- How a launch ends.
pub data Launched {ℓ} (R : Type ℓ) : Type ℓ where
  done : InstanceHandle R → Launched R
  driver_error : Launched R
  exception : Launched R

-- What `remove` of a driver does to the Core: Docker's `rm -f`, or the driver's own `stop`.
pub data Remover {ℓ κ} (R : Type ℓ) (W : Type κ) : Type (ℓ ⊔ κ) where
  docker_rm : (R → W → W × Bool) → Remover R W
  own_stop : Remover R W

-- What a driver does outside its own tables: it starts a Core for an instance on a port, and it ends one.
pub record Runtime {ℓ κ} (R : Type ℓ) (W : Type κ) : Type (ℓ ⊔ κ) where
  pub run_core : Str → ℕ → W → Started R × W
  pub halt_core : R → W → W × Bool
  pub remover : Remover R W

module _ {ℓ κ} {R : Type ℓ} {W : Type κ} where
  -- `self.handles[spec.instance_id] = handle`
  abbrev pub with_handle : Str → InstanceHandle R → W → Driver R W → Driver R W
  with_handle id h w d = record d { handles = put d.handles id h; world = w }

  -- The end of `launch`; the port of a Core that a `DriverError` refused is given back.
  abbrev pub recorded : LaunchSpec → ℕ → Driver R W → Started R × W → Driver R W × Launched R
  recorded spec port d (started reference, w) =
      let h : InstanceHandle R = record {
        reference = reference;
        port = port;
        api_token = spec.api_token;
      } in
      (with_handle spec.instance_id h w d, done h)
  recorded spec port d (refused, w) =
      (record d { ports = release port d.ports; world = w }, driver_error)
  recorded spec port d (crashed, w) = (record d { world = w }, exception)

  abbrev pub launched_on :
      Runtime R W → LaunchSpec → Driver R W → PortAllocator × Option ℕ → Driver R W × Launched R
  launched_on runtime spec d (a, none) = (d, driver_error)
  launched_on runtime spec d (a, some port) =
      recorded spec port (record d { ports = a }) (runtime.run_core spec.instance_id port d.world)

  -- `launch` of both drivers
  unfoldable pub launch :
      Runtime R W → (ℕ → Bool) → LaunchSpec → Driver R W → Driver R W × Launched R
  launch runtime port_is_free spec d =
      launched_on runtime spec d (allocate port_is_free spec.port d.ports)

  -- `self.handles.pop(instance_id, None)`
  abbrev pub forget : Str → Driver R W → Driver R W
  forget id d = record d { handles = remove d.handles id }

  abbrev pub halted : Runtime R W → Driver R W → Option (InstanceHandle R) → Driver R W × Bool
  halted runtime d none = (d, false)
  halted runtime d (some h) =
      let (w, ok) = runtime.halt_core h.reference d.world in (record d { world = w }, ok)

  -- `stop` of both drivers: false stands for a `DriverError`.
  unfoldable pub stop : Runtime R W → Str → Driver R W → Driver R W × Bool
  stop runtime id d = halted runtime d (get d.handles id)

  -- The body of `remove` of each driver, where the handle is already out of the table.
  abbrev pub cleaned :
      Runtime R W → Remover R W → Str → InstanceHandle R → Driver R W → Driver R W × Bool
  cleaned runtime (docker_rm rm) id h d =
      let (w, ok) = rm h.reference d.world in (record d { world = w }, ok)
  cleaned runtime own_stop id h d = ((stop runtime id d).0, true)

  -- The `finally` clause
  abbrev pub freed : ℕ → Driver R W × Bool → Driver R W × Bool
  freed port (d, ok) = (record d { ports = release port d.ports }, ok)

  abbrev pub removed :
      Runtime R W → Str → Driver R W → Option (InstanceHandle R) → Driver R W × Bool
  removed runtime id d none = (d, true)
  removed runtime id d (some h) = freed h.port (cleaned runtime runtime.remover id h (forget id d))

  unfoldable pub remove_known : Runtime R W → Str → Driver R W → Driver R W × Bool
  remove_known runtime id d = removed runtime id d (get d.handles id)
