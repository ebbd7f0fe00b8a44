-- ===== src/Worker/Node/Tokens.antt =====
-- worker/emunel_worker/main.py and registry.py: the tokens of the Cores that run, and those that are saved.
use emunel.Prelude.{
  ℕ, ◌≡◌, refl, sym, inl, inr, Bool, true, false, Option, none, some, Bool-cases, Str, str_eq,
  str_beq_iff, ◌==◌, is_some, arith,
}
use emunel.Prelude.Dict.{Dict, get, put, remove, get-put, get-remove}
use emunel.Worker.Ports.{PortAllocator, allocate}
use emunel.Worker.Driver.{
  InstanceHandle, Driver, LaunchSpec, Started, started, refused, crashed, Launched, done,
  driver_error, exception, Runtime, launch, launched_on, recorded, halted, stop,
}
use emunel.Worker.Node.{Saved, registered, dropped, stopped, relaunched, spec_of}

abbrev pub saved_token : Option Saved → Option Str
saved_token none = none
saved_token (some saved) = some saved.api_token

module _ {ℓ} {R : Type ℓ} where
  -- Each handle that is found has the token that is saved for its instance.
  abbrev pub Agree : Dict Str Saved → Dict Str (InstanceHandle R) → Type ℓ
  Agree registry handles =
      (id : Str) (h : InstanceHandle R)
      → get handles id ≡ some h
      → saved_token (get registry id) ≡ some h.api_token

  put-Agree :
      (registry : Dict Str Saved) (handles : Dict Str (InstanceHandle R)) (id : Str)
      (h : InstanceHandle R) (saved : Saved)
      → saved.api_token ≡ h.api_token
      → Agree registry handles
      → Agree (put registry id saved) (put handles id h)
  put-Agree registry handles id h saved same a other x found = elim (Bool-cases (id == other)) [
    | inl here ↦ ground (arith, here, get-put registry id other saved, get-put handles id other h)
    | inr apart ↦
        ground
          (arith, apart, get-put registry id other saved, get-put handles id other h, a other x)
  ]

  put-Agree_saved :
      (registry : Dict Str Saved) (handles : Dict Str (InstanceHandle R)) (id : Str)
      (h : InstanceHandle R)
      → saved_token (get registry id) ≡ some h.api_token
      → Agree registry handles
      → Agree registry (put handles id h)
  put-Agree_saved registry handles id h same a other x found = elim (Bool-cases (id == other)) [
    | inl here ↦
        let key : id ≡ other = (str_beq_iff id other).0 here in
        ground (arith, here, key, same, get-put handles id other h)
    | inr apart ↦ ground (arith, apart, get-put handles id other h, a other x)
  ]

  pub remove-Agree :
      (registry : Dict Str Saved) (handles : Dict Str (InstanceHandle R)) (id : Str)
      → Agree registry handles
      → Agree registry (remove handles id)
  remove-Agree registry handles id a other x found =
      ground (arith, get-remove handles id other, a other x)

  pub remove-Agree_both :
      (registry : Dict Str Saved) (handles : Dict Str (InstanceHandle R)) (id : Str)
      → Agree registry handles
      → Agree (remove registry id) (remove handles id)
  remove-Agree_both registry handles id a other x found =
      ground (arith, get-remove registry id other, get-remove handles id other, a other x)

module _ {ℓ κ} {R : Type ℓ} {W : Type κ} (runtime : Runtime R W) where
  -- What a launch leaves in the table, and where it worked a handle with the token that it was given.
  abbrev pub Tabled : LaunchSpec → Dict Str (InstanceHandle R) → Driver R W × Launched R → Type ℓ
  Tabled spec handles (d, done h) =
      (d.handles ≡ put handles spec.instance_id h) × (h.api_token ≡ spec.api_token)
  Tabled spec handles (d, driver_error) = d.handles ≡ handles
  Tabled spec handles (d, exception) = d.handles ≡ handles

  recorded-Tabled :
      (spec : LaunchSpec) (port : ℕ) (d : Driver R W) (r : Started R × W)
      → Tabled spec d.handles (recorded spec port d r)
  recorded-Tabled spec port d (started reference, w) = (refl, refl)
  recorded-Tabled spec port d (refused, w) = refl
  recorded-Tabled spec port d (crashed, w) = refl

  launched_on-Tabled :
      (spec : LaunchSpec) (d : Driver R W) (p : PortAllocator × Option ℕ)
      → Tabled spec d.handles (launched_on runtime spec d p)
  launched_on-Tabled spec d (a, none) = refl
  launched_on-Tabled spec d (a, some port) =
      recorded-Tabled spec port (record d { ports = a })
        (runtime.run_core spec.instance_id port d.world)

  pub launch-Tabled :
      (port_is_free : ℕ → Bool) (spec : LaunchSpec) (d : Driver R W)
      → Tabled spec d.handles (launch runtime port_is_free spec d)
  unfolding launch
  launch-Tabled port_is_free spec d =
      launched_on-Tabled spec d (allocate port_is_free spec.port d.ports)

  halted-handles :
      (d : Driver R W) (o : Option (InstanceHandle R)) → (halted runtime d o).0.handles ≡ d.handles
  halted-handles d none = refl
  halted-handles d (some h) = refl

  pub stop-handles : (id : Str) (d : Driver R W) → (stop runtime id d).0.handles ≡ d.handles
  unfolding stop
  stop-handles id d = halted-handles d (get d.handles id)

  module _ (registry : Dict Str Saved) where
    pub launched-Agree :
        (spec : LaunchSpec) (handles : Dict Str (InstanceHandle R)) (r : Driver R W × Launched R)
        → Tabled spec handles r
        → saved_token (get registry spec.instance_id) ≡ some spec.api_token
        → Agree registry handles
        → Agree registry r.0.handles
    launched-Agree spec handles (d, done h) t known a =
        rw t.0 (put-Agree_saved registry handles spec.instance_id h (rw t.1 known) a)
    launched-Agree spec handles (d, driver_error) t known a = rw t a
    launched-Agree spec handles (d, exception) t known a = rw t a

    pub registered-Agree :
        (id token : Str) (handles : Dict Str (InstanceHandle R)) (r : Driver R W × Launched R)
        → Tabled (spec_of id token) handles r
        → Agree registry handles
        → let n = (registered id token registry r).0 in Agree n.registry n.driver.handles
    registered-Agree id token handles (d, done h) t a =
        rw t.0 (
          put-Agree registry handles id h (record { api_token = token; port = h.port }) (sym t.1) a)
    registered-Agree id token handles (d, driver_error) t a = rw t a
    registered-Agree id token handles (d, exception) t a = rw t a

    pub relaunched-Agree :
        (port_is_free : ℕ → Bool) (id token : Str) (r : Driver R W × Bool)
        → Agree registry r.0.handles
        → let n = (relaunched runtime port_is_free id token registry r).0 in
          Agree n.registry n.driver.handles
    relaunched-Agree port_is_free id token (d, true) a =
        registered-Agree id token d.handles _ (launch-Tabled port_is_free (spec_of id token) d) a
    relaunched-Agree port_is_free id token (d, false) a = a

    pub dropped-Agree :
        (id : Str) (d : Driver R W)
        → Agree registry d.handles
        → Agree registry (dropped runtime id d).handles
    dropped-Agree id d a = elim (Bool-cases (is_some (get d.handles id))) [
      | inl known ↦ rw (known, stop-handles id d) (remove-Agree registry d.handles id a)
      | inr new ↦ rw new a
    ]

    pub stopped-Agree :
        (id : Str) (d : Driver R W)
        → Agree registry d.handles
        → Agree registry (stopped runtime id d).0.handles
    stopped-Agree id d a = elim (Bool-cases (is_some (get d.handles id))) [
      | inl known ↦ rw (known, stop-handles id d) a
      | inr new ↦ rw new a
    ]
