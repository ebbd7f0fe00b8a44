-- ===== src/Worker/Launching/Flags.antt =====
-- worker/emunel_worker/driver.py, `_core_launch_module`: which engines are switched on in a Core.
use emunel.Prelude.{
  ◌≡◌, refl, ◌∙◌, ap, Bool, false, ◌||◌, [], ◌∷◌, Option, none, some, Str, str_eq, str_beq,
  str_beq_iff, codes, ◌==◌, is_some, All, if◌then◌else◌, arith,
}
use emunel.Prelude.Dict.{Dict, get, get-put}
use emunel.Worker.Launching.{
  word, or_blank, is_off, module_of, core_launch_module, is_on, toggled, core_engine_flags, Plan,
  plan_engine, plan_engines, plan_merged, plan_all_merged, launch_plan,
}

-- No engine has this flag.
abbrev pub Unused : Str → Dict Str Str → Type 0
Unused flag flags = All (λ e. (e.1 == flag) ≡ false) flags

-- Each flag is that of one engine.
abbrev pub FlagsOnce : Dict Str Str → Type 0
FlagsOnce [] = Unit
FlagsOnce ((name, flag) ∷ flags) =
    All (λ e. (flag == e.1) ≡ false) flags × Unused flag flags × FlagsOnce flags

module _ (env : Dict Str Str) (toggles : Dict Str Bool) where
  -- What the Core is told of a core-host engine: a flag that the environment switches off stays off, and
  -- otherwise the toggle or the environment may switch it on.
  abbrev pub decided : Str → Str → Option Str
  decided name flag =
      if is_off (word env flag)
      then some (codes "0")
      else if toggled (get toggles name) || is_on (word env flag)
      then some (codes "1")
      else if is_some (get toggles name)
      then some (codes "0")
      else none

  -- An engine that asks for the host
  abbrev pub asks : Str → Str → Bool
  asks name flag =
      if is_off (word env flag) then false else toggled (get toggles name) || is_on (word env flag)

  abbrev pub any_asks : Dict Str Str → Bool
  any_asks [] = false
  any_asks ((name, flag) ∷ flags) = asks name flag || any_asks flags

  get-plan_engine_same :
      (name flag : Str) (p : Plan)
      → get p.extra flag ≡ none
      → get (plan_engine env toggles name flag p).extra flag ≡ decided name flag
  unfolding plan_engine
  get-plan_engine_same name flag p new = ground (
    arith,
    str_beq_iff flag flag,
    get-put p.extra flag flag (codes "0"),
    get-put p.extra flag flag (codes "1"),
    new,
  )

  get-plan_engine_other :
      (name flag other : Str) (p : Plan)
      → (flag == other) ≡ false
      → get (plan_engine env toggles name flag p).extra other ≡ get p.extra other
  unfolding plan_engine
  get-plan_engine_other name flag other p h =
      ground
        (arith, get-put p.extra flag other (codes "0"), get-put p.extra flag other (codes "1"), h)

  want_host-plan_engine :
      (name flag : Str) (p : Plan)
      → (plan_engine env toggles name flag p).want_host ≡ (p.want_host || asks name flag)
  unfolding plan_engine
  want_host-plan_engine name flag p = ground arith

  get-plan_engines-Unused :
      (flags : Dict Str Str) (flag : Str) (p : Plan)
      → Unused flag flags
      → get (plan_engines env toggles flags p).extra flag ≡ get p.extra flag
  unfolding plan_engines
  get-plan_engines-Unused [] flag p h = refl
  get-plan_engines-Unused ((name, f) ∷ flags) flag p h =
      get-plan_engines-Unused flags flag (plan_engine env toggles name f p) h.1
      ∙ get-plan_engine_other name f flag p h.0

  want_host-plan_engines :
      (flags : Dict Str Str) (p : Plan)
      → (plan_engines env toggles flags p).want_host ≡ (p.want_host || any_asks flags)
  unfolding plan_engines
  want_host-plan_engines [] p = ground arith
  want_host-plan_engines ((name, f) ∷ flags) p =
      want_host-plan_engines flags (plan_engine env toggles name f p)
      ∙ rw (want_host-plan_engine name f p) (ground arith)

  plan_engine_unset :
      (name f : Str) (flags : Dict Str Str) (p : Plan)
      → All (λ e. (f == e.1) ≡ false) flags
      → All (λ e. get p.extra e.1 ≡ none) flags
      → All (λ e. get (plan_engine env toggles name f p).extra e.1 ≡ none) flags
  plan_engine_unset name f [] p apart new = tt
  plan_engine_unset name f ((other, flag) ∷ flags) p (ne, apart) (new, news) =
      (get-plan_engine_other name f flag p ne ∙ new, plan_engine_unset name f flags p apart news)

  plan_engines-decided :
      (flags : Dict Str Str) (p : Plan)
      → FlagsOnce flags
      → All (λ e. get p.extra e.1 ≡ none) flags
      → All (λ e. get (plan_engines env toggles flags p).extra e.1 ≡ decided e.0 e.1) flags
  unfolding plan_engines
  plan_engines-decided [] p once new = tt
  plan_engines-decided ((name, f) ∷ flags) p (apart, unused, once) (new, news) = (
    get-plan_engines-Unused flags f (plan_engine env toggles name f p) unused
        ∙ get-plan_engine_same name f p new,
    plan_engines-decided flags (plan_engine env toggles name f p) once
        (plan_engine_unset name f flags p apart news),
  )

  -- What the Core is told of a merged module, of which no other flag speaks: no switch of the environment is
  -- asked before the toggle.
  abbrev pub merged_decided : Str → Str → Option Str
  merged_decided name flag =
      if is_on (word env flag)
      then none
      else if toggled (get toggles name)
      then some (codes "1")
      else none

  abbrev pub merged_asks : Str → Str → Bool
  merged_asks name flag = is_on (word env flag) || toggled (get toggles name)

  get-plan_merged_same :
      (name flag : Str) (p : Plan)
      → get p.extra flag ≡ none
      → get (plan_merged env toggles name flag p).extra flag ≡ merged_decided name flag
  unfolding plan_merged
  get-plan_merged_same name flag p new =
      ground (arith, str_beq_iff flag flag, get-put p.extra flag flag (codes "1"), new)

  get-plan_merged_other :
      (name flag other : Str) (p : Plan)
      → (flag == other) ≡ false
      → get (plan_merged env toggles name flag p).extra other ≡ get p.extra other
  unfolding plan_merged
  get-plan_merged_other name flag other p h =
      ground (arith, get-put p.extra flag other (codes "1"), h)

  want_host-plan_merged :
      (name flag : Str) (p : Plan)
      → (plan_merged env toggles name flag p).want_host ≡ (p.want_host || merged_asks name flag)
  unfolding plan_merged
  want_host-plan_merged name flag p = ground arith

  plan_merged-decided :
      (name flag : Str) (flags : Dict Str Str) (p : Plan)
      → All (λ e. (flag == e.1) ≡ false) flags
      → All (λ e. get p.extra e.1 ≡ decided e.0 e.1) flags
      → All (λ e. get (plan_merged env toggles name flag p).extra e.1 ≡ decided e.0 e.1) flags
  plan_merged-decided name flag [] p apart told = tt
  plan_merged-decided name flag ((other, f) ∷ flags) p (ne, apart) (this, told) = (
    get-plan_merged_other name flag f p ne ∙ this,
    plan_merged-decided name flag flags p apart told,
  )

engine_flags-FlagsOnce : FlagsOnce core_engine_flags
unfolding str_beq
engine_flags-FlagsOnce = (
  (refl, (refl, (refl, tt))),
  (refl, (refl, (refl, tt))),
  ((refl, (refl, tt)), (refl, (refl, tt)), ((refl, tt), (refl, tt), (tt, tt, tt))),
)

transport_apart : All (λ e. (codes "TRANSPORT_MERGED" == e.1) ≡ false) core_engine_flags
unfolding str_beq
transport_apart = (refl, (refl, (refl, (refl, tt))))

transport-Unused : Unused (codes "TRANSPORT_MERGED") core_engine_flags
unfolding str_beq
transport-Unused = (refl, (refl, (refl, (refl, tt))))

-- Where the engines are not switched off altogether and no module is pinned, a Core is launched through the
-- engines' host exactly when an engine or the merged Transport module asks for it; the Core is then told of each
-- engine by one rule, in which a switch of the environment wins over the toggle, and of Transport by another, in
-- which it does not.
pub core_launch_module_lem :
    (env : Dict Str Str) (toggles : Dict Str Bool)
    → is_off (word env (codes "EMUNEL_ENGINES_ENABLED")) ≡ false
    → or_blank (get env (codes "EMUNEL_CORE_MODULE")) ≡ []
    → let p = launch_plan env toggles in
      (core_launch_module env toggles ≡ module_of p)
      × (p.want_host ≡ (
          any_asks env toggles core_engine_flags
          || merged_asks env toggles (codes "Transport") (codes "TRANSPORT_MERGED")))
      × All (λ e. get p.extra e.1 ≡ decided env toggles e.0 e.1) core_engine_flags
      × (get p.extra (codes "TRANSPORT_MERGED")
          ≡ merged_decided env toggles (codes "Transport") (codes "TRANSPORT_MERGED"))
unfolding core_launch_module plan_all_merged get
core_launch_module_lem env toggles on unpinned =
    let start : Plan = record { want_host = false; extra = [] } in
    let q = plan_engines env toggles core_engine_flags start in
    let transport = codes "Transport" in
    let flag = codes "TRANSPORT_MERGED" in
    let unset = get-plan_engines-Unused env toggles core_engine_flags flag start transport-Unused in
    (
      rw (on, unpinned) refl,
      want_host-plan_merged env toggles transport flag q
          ∙ ap (λ b. b || merged_asks env toggles transport flag)
              (want_host-plan_engines env toggles core_engine_flags start),
      plan_merged-decided env toggles transport flag core_engine_flags q transport_apart (
          plan_engines-decided env toggles core_engine_flags start engine_flags-FlagsOnce
            (refl, (refl, (refl, (refl, tt))))),
      get-plan_merged_same env toggles transport flag q unset,
    )
