-- ===== src/Worker/Node/Exclusive.antt =====
-- worker/emunel_worker/main.py: which instance holds which port, over the requests of the Console.
use emunel.Prelude.{
  ℕ, inl, inr, Bool, true, false, List, [], ◌∷◌, Bool-cases, Str, str_eq, is_some, if◌then◌else◌,
}
use emunel.Prelude.Dict.{Dict, get}
use emunel.Worker.Driver.{Driver, Launched, done, driver_error, exception, Runtime}
use emunel.Worker.Driver.Exclusive.{
  IsExclusive, launch-IsExclusive, forget-IsExclusive, stop-IsExclusive, remove_known-IsExclusive,
}
use emunel.Worker.Node.{
  Saved, Node, Request, launch_instance, restart_instance, stop_instance, remove_instance, startup,
  relaunch_known, happen, happen_all, registered, dropped, stopped, relaunched, unregistered,
  spec_of, saved_spec,
}

module _ {ℓ κ} {R : Type ℓ} {W : Type κ} (runtime : Runtime R W) where
  registered-IsExclusive :
      (id token : Str) (registry : Dict Str Saved) (r : Driver R W × Launched R)
      → IsExclusive r.0
      → IsExclusive (registered id token registry r).0.driver
  registered-IsExclusive id token registry (d, done h) x = x
  registered-IsExclusive id token registry (d, driver_error) x = x
  registered-IsExclusive id token registry (d, exception) x = x

  dropped-IsExclusive :
      (id : Str) (d : Driver R W) → IsExclusive d → IsExclusive (dropped runtime id d)
  dropped-IsExclusive id d x = elim (Bool-cases (is_some (get d.handles id))) [
    | inl known ↦ rw known (forget-IsExclusive id _ (stop-IsExclusive runtime id d x))
    | inr new ↦ rw new x
  ]

  stopped-IsExclusive :
      (id : Str) (d : Driver R W) → IsExclusive d → IsExclusive (stopped runtime id d).0
  stopped-IsExclusive id d x = elim (Bool-cases (is_some (get d.handles id))) [
    | inl known ↦ rw known (stop-IsExclusive runtime id d x)
    | inr new ↦ rw new x
  ]

  relaunched-IsExclusive :
      (port_is_free : ℕ → Bool) (id token : Str) (registry : Dict Str Saved) (r : Driver R W × Bool)
      → IsExclusive r.0
      → IsExclusive (relaunched runtime port_is_free id token registry r).0.driver
  relaunched-IsExclusive port_is_free id token registry (d, true) x =
      registered-IsExclusive id token registry _
        (launch-IsExclusive runtime port_is_free (spec_of id token) d x)
  relaunched-IsExclusive port_is_free id token registry (d, false) x = x

  unregistered-IsExclusive :
      (id : Str) (registry : Dict Str Saved) (r : Driver R W × Bool)
      → IsExclusive r.0
      → IsExclusive (unregistered id registry r).0.driver
  unregistered-IsExclusive id registry (d, true) x = x
  unregistered-IsExclusive id registry (d, false) x = x

  either-IsExclusive :
      (b : Bool) (d d' : Driver R W)
      → IsExclusive d
      → IsExclusive d'
      → IsExclusive (if b then d else d')
  either-IsExclusive true d d' x y = x
  either-IsExclusive false d d' x y = y

  relaunch_known-IsExclusive :
      (port_is_free : ℕ → Bool) (registry : Dict Str Saved) (d : Driver R W)
      → IsExclusive d
      → IsExclusive (relaunch_known runtime port_is_free registry d)
  unfolding relaunch_known
  relaunch_known-IsExclusive port_is_free [] d x = x
  relaunch_known-IsExclusive port_is_free ((id, saved) ∷ rest) d x =
      relaunch_known-IsExclusive port_is_free rest _ (
        either-IsExclusive (is_some (get d.handles id)) d _ x
          (launch-IsExclusive runtime port_is_free (saved_spec id saved) d x))

  happen-IsExclusive :
      (request : Request W) (n : Node R W)
      → IsExclusive n.driver
      → IsExclusive (happen runtime request n).0.driver
  unfolding happen
  happen-IsExclusive (launch_instance port_is_free id token) n x =
      registered-IsExclusive id token n.registry _ (
        launch-IsExclusive runtime port_is_free (spec_of id token) _
          (dropped-IsExclusive id n.driver x))
  happen-IsExclusive (restart_instance port_is_free id token) n x =
      relaunched-IsExclusive port_is_free id token n.registry _ (stopped-IsExclusive id n.driver x)
  happen-IsExclusive (stop_instance id) n x = stop-IsExclusive runtime id n.driver x
  happen-IsExclusive (remove_instance id) n x =
      unregistered-IsExclusive id n.registry _ (remove_known-IsExclusive runtime id n.driver x)
  happen-IsExclusive (startup port_is_free w) n x =
      relaunch_known-IsExclusive port_is_free n.registry _ (record { apart = tt; marked = tt })

  -- Where no two instances share a port and the port of each is marked as used, this stays so, whatever the
  -- Console asks and however often the Worker starts anew.
  pub happen_all-IsExclusive :
      (requests : List (Request W)) (n : Node R W)
      → IsExclusive n.driver
      → IsExclusive (happen_all runtime requests n).driver
  unfolding happen_all
  happen_all-IsExclusive [] n x = x
  happen_all-IsExclusive (request ∷ requests) n x =
      happen_all-IsExclusive requests (happen runtime request n).0 (happen-IsExclusive request n x)
