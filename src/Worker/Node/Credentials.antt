-- ===== src/Worker/Node/Credentials.antt =====
-- worker/emunel_worker/main.py and registry.py: the tokens of the Cores over the requests of the Console and
-- the restarts of the Worker.
use emunel.Prelude.{
  ℕ, ◌≡◌, refl, ap, sym, ◌∙◌, Bool, true, false, List, [], ◌∷◌, Option, none, some, Str, str_eq,
  is_some, if◌then◌else◌, All, arith,
}
use emunel.Prelude.Dict.{Dict, get, remove, remove_absent}
use emunel.Prelude.Dict.Keys.{HasKeysOnce, put-HasKeysOnce, remove-HasKeysOnce, All-found}
use emunel.Worker.Driver.{
  InstanceHandle, Driver, Launched, done, driver_error, exception, freed, Runtime, Remover,
  docker_rm, own_stop, launch, forget, remove_known, removed, cleaned,
}
use emunel.Worker.Node.{
  Saved, Node, Request, launch_instance, restart_instance, stop_instance, remove_instance, startup,
  happen, happen_all, registered, dropped, stopped, relaunched, unregistered, spec_of, saved_spec,
  relaunch_known, new_driver,
}
use emunel.Worker.Node.Tokens.{
  saved_token, Agree, remove-Agree, remove-Agree_both, launch-Tabled, stop-handles, launched-Agree,
  registered-Agree, relaunched-Agree, dropped-Agree, stopped-Agree,
}

-- The registry has each instance once, and the token of each instance that has a handle.
record IsKept {ℓ κ} {R : Type ℓ} {W : Type κ} (n : Node R W) : Type (ℓ ⊔ κ) where
  once : HasKeysOnce n.registry
  agree : Agree n.registry n.driver.handles

-- A Worker with no instance and nothing saved.
abbrev pub new_node {ℓ κ} : {R : Type ℓ} {W : Type κ} → Driver R W → Node R W
new_node d = record { driver = record d { handles = [] }; registry = [] }

module _ {ℓ κ} {R : Type ℓ} {W : Type κ} (runtime : Runtime R W) where
  handles-cleaned :
      (remover : Remover R W) (id : Str) (h : InstanceHandle R) (d : Driver R W)
      → (cleaned runtime remover id h d).0.handles ≡ d.handles
  handles-cleaned (docker_rm rm) id h d = refl
  handles-cleaned own_stop id h d = stop-handles runtime id d

  handles-freed : (port : ℕ) (r : Driver R W × Bool) → (freed port r).0.handles ≡ r.0.handles
  handles-freed port (d, ok) = refl

  handles-removed :
      (id : Str) (d : Driver R W) (o : Option (InstanceHandle R))
      → get d.handles id ≡ o
      → (removed runtime id d o).0.handles ≡ remove d.handles id
  handles-removed id d none e = sym (remove_absent d.handles id e)
  handles-removed id d (some h) e =
      handles-freed h.port (cleaned runtime runtime.remover id h (forget id d))
      ∙ handles-cleaned runtime.remover id h (forget id d)

  handles-remove_known :
      (id : Str) (d : Driver R W) → (remove_known runtime id d).0.handles ≡ remove d.handles id
  unfolding remove_known
  handles-remove_known id d = handles-removed id d (get d.handles id) refl

  unregistered-IsKept :
      (id : Str) (registry : Dict Str Saved) (handles : Dict Str (InstanceHandle R))
      (r : Driver R W × Bool)
      → r.0.handles ≡ remove handles id
      → HasKeysOnce registry
      → Agree registry handles
      → IsKept (unregistered id registry r).0
  unregistered-IsKept id registry handles (d, true) e once a = record {
    once = remove-HasKeysOnce registry id once;
    agree = rw e (remove-Agree_both registry handles id a);
  }
  unregistered-IsKept id registry handles (d, false) e once a = record {
    once = once;
    agree = rw e (remove-Agree registry handles id a);
  }

  registered-HasKeysOnce :
      (id token : Str) (registry : Dict Str Saved) (r : Driver R W × Launched R)
      → HasKeysOnce registry
      → HasKeysOnce (registered id token registry r).0.registry
  registered-HasKeysOnce id token registry (d, done h) once =
      put-HasKeysOnce registry id (record { api_token = token; port = h.port }) once
  registered-HasKeysOnce id token registry (d, driver_error) once = once
  registered-HasKeysOnce id token registry (d, exception) once = once

  relaunched-HasKeysOnce :
      (port_is_free : ℕ → Bool) (id token : Str) (registry : Dict Str Saved) (r : Driver R W × Bool)
      → HasKeysOnce registry
      → HasKeysOnce (relaunched runtime port_is_free id token registry r).0.registry
  relaunched-HasKeysOnce port_is_free id token registry (d, true) once =
      registered-HasKeysOnce id token registry (launch runtime port_is_free (spec_of id token) d)
        once
  relaunched-HasKeysOnce port_is_free id token registry (d, false) once = once

  either-Agree :
      (b : Bool) (registry : Dict Str Saved) (d d' : Driver R W)
      → Agree registry d.handles
      → Agree registry d'.handles
      → Agree registry (if b then d else d').handles
  either-Agree true registry d d' x y = x
  either-Agree false registry d d' x y = y

  relaunch_known-Agree :
      (port_is_free : ℕ → Bool) (registry rest : Dict Str Saved) (d : Driver R W)
      → All (λ e. get registry e.0 ≡ some e.1) rest
      → Agree registry d.handles
      → Agree registry (relaunch_known runtime port_is_free rest d).handles
  unfolding relaunch_known
  relaunch_known-Agree port_is_free registry [] d saved a = a
  relaunch_known-Agree port_is_free registry ((id, s) ∷ rest) d saved a =
      let r = launch runtime port_is_free (saved_spec id s) d in
      relaunch_known-Agree port_is_free registry rest
        (if is_some (get d.handles id) then d else r.0) saved.1
        (either-Agree (is_some (get d.handles id)) registry d r.0 a (
          launched-Agree runtime registry (saved_spec id s) d.handles r
            (launch-Tabled runtime port_is_free (saved_spec id s) d) (ap saved_token saved.0) a))

  Agree-nil : (registry : Dict Str Saved) → Agree {R = R} registry []
  unfolding get
  Agree-nil registry id h found = absurd (ground arith)

  happen-IsKept :
      (request : Request W) (n : Node R W) → IsKept n → IsKept (happen runtime request n).0
  unfolding happen
  happen-IsKept (launch_instance port_is_free id token) n k =
      let d = dropped runtime id n.driver in
      let r = launch runtime port_is_free (spec_of id token) d in
      record {
        once = registered-HasKeysOnce id token n.registry r k.once;
        agree =
            registered-Agree runtime n.registry id token d.handles r
              (launch-Tabled runtime port_is_free (spec_of id token) d)
              (dropped-Agree runtime n.registry id n.driver k.agree);
      }
  happen-IsKept (restart_instance port_is_free id token) n k =
      let r = stopped runtime id n.driver in
      record {
        once = relaunched-HasKeysOnce port_is_free id token n.registry r k.once;
        agree =
            relaunched-Agree runtime n.registry port_is_free id token r
              (stopped-Agree runtime n.registry id n.driver k.agree);
      }
  happen-IsKept (stop_instance id) n k = record {
    once = k.once;
    agree = rw (stop-handles runtime id n.driver) k.agree;
  }
  happen-IsKept (remove_instance id) n k =
      unregistered-IsKept id n.registry n.driver.handles (remove_known runtime id n.driver)
        (handles-remove_known id n.driver) k.once k.agree
  happen-IsKept (startup port_is_free w) n k = record {
    once = k.once;
    agree =
        relaunch_known-Agree port_is_free n.registry n.registry (new_driver n.driver.ports w)
          (All-found (λ e. get n.registry e.0 ≡ some e.1) n.registry k.once (λ id s found. found))
          (Agree-nil n.registry);
  }

  happen_all-IsKept :
      (requests : List (Request W)) (n : Node R W)
      → IsKept n
      → IsKept (happen_all runtime requests n)
  unfolding happen_all
  happen_all-IsKept [] n k = k
  happen_all-IsKept (request ∷ requests) n k =
      happen_all-IsKept requests (happen runtime request n).0 (happen-IsKept request n k)

  -- From a Worker with no instance and nothing saved, whatever the Console asks and however often the Worker
  -- starts anew: the token of an instance that has a handle is the one that is saved for it.
  pub happen_all-saved_token :
      (requests : List (Request W)) (d : Driver R W) (id : Str) (h : InstanceHandle R)
      → get (happen_all runtime requests (new_node d)).driver.handles id ≡ some h
      → saved_token (get (happen_all runtime requests (new_node d)).registry id) ≡ some h.api_token
  happen_all-saved_token requests d id h found =
      (happen_all-IsKept requests (new_node d) (record { once = tt; agree = Agree-nil [] })).agree
        id h found
