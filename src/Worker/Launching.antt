-- ===== src/Worker/Launching.antt =====
-- worker/emunel_worker/driver.py, `_core_launch_module`: through which module a Core is launched. The environment
-- and the toggles that `_engine_toggles` reads are arguments.
pub mod Flags
use emunel.Prelude.{
  Bool, true, false, ◌||◌, List, [], ◌∷◌, Option, none, some, Str, str_eq, codes, elem, is_some,
  if◌then◌else◌,
}
use emunel.Prelude.Text.{strip, lower}
use emunel.Prelude.Dict.{Dict, get, put}

abbrev pub or_blank : Option Str → Str
or_blank none = []
or_blank (some s) = s

-- os.environ.get(flag, "").strip().lower()
abbrev pub word : Dict Str Str → Str → Str
word env flag = lower (strip (or_blank (get env flag)))

unfoldable pub is_off : Str → Bool
is_off s = elem s (codes "0" ∷ codes "false" ∷ codes "no" ∷ codes "off" ∷ [])

unfoldable pub is_on : Str → Bool
is_on s = elem s (codes "1" ∷ codes "true" ∷ codes "yes" ∷ codes "on" ∷ [])

-- toggles.get(name, False)
abbrev pub toggled : Option Bool → Bool
toggled none = false
toggled (some b) = b

abbrev pub core_engine_flags : Dict Str Str
core_engine_flags =
    (codes "PreConnect", codes "EMUNEL_ENGINE_PRECONNECT_ENABLED")
    ∷ (codes "Congestion", codes "EMUNEL_ENGINE_CONGESTION_ENABLED")
    ∷ (codes "Compress", codes "EMUNEL_ENGINE_COMPRESS_ENABLED")
    ∷ (codes "FEC", codes "EMUNEL_ENGINE_FEC_ENABLED")
    ∷ []

abbrev pub merged_core_flags : Dict Str Str
merged_core_flags = (codes "Transport", codes "TRANSPORT_MERGED") ∷ []

-- `want_host` and `extra`
pub record Plan : Type 0 where
  pub want_host : Bool
  pub extra : Dict Str Str

-- From `want_host` on
abbrev pub module_of : Plan → Str × Dict Str Str
module_of p =
    if p.want_host then (codes "engines.core_host", p.extra) else (codes "emunel_core", [])

-- An empty pin is none.
abbrev pub pinned_or : Str → Str × Dict Str Str → Str × Dict Str Str
pinned_or [] rest = rest
pinned_or (c ∷ pin) rest = (c ∷ pin, [])

module _ (env : Dict Str Str) (toggles : Dict Str Bool) where
  -- A round of the loop over the core-host engines
  unfoldable pub plan_engine : Str → Str → Plan → Plan
  plan_engine name flag p =
      if is_off (word env flag)
      then record p { extra = put p.extra flag (codes "0") }
      else if toggled (get toggles name) || is_on (word env flag)
      then record { want_host = true; extra = put p.extra flag (codes "1") }
      else if is_some (get toggles name)
      then record p { extra = put p.extra flag (codes "0") }
      else p

  unfoldable pub plan_engines : Dict Str Str → Plan → Plan
  plan_engines [] p = p
  plan_engines ((name, flag) ∷ flags) p = plan_engines flags (plan_engine name flag p)

  -- A round of the loop over the merged modules
  unfoldable pub plan_merged : Str → Str → Plan → Plan
  plan_merged name flag p =
      if is_on (word env flag)
      then record p { want_host = true }
      else if toggled (get toggles name)
      then record { want_host = true; extra = put p.extra flag (codes "1") }
      else p

  unfoldable pub plan_all_merged : Dict Str Str → Plan → Plan
  plan_all_merged [] p = p
  plan_all_merged ((name, flag) ∷ flags) p = plan_all_merged flags (plan_merged name flag p)

  abbrev pub launch_plan : Plan
  launch_plan =
      plan_all_merged merged_core_flags
        (plan_engines core_engine_flags (record { want_host = false; extra = [] }))

  -- A switch that is not set is on, as is an empty one.
  unfoldable pub core_launch_module : Str × Dict Str Str
  core_launch_module =
      let pin = or_blank (get env (codes "EMUNEL_CORE_MODULE")) in
      if is_off (word env (codes "EMUNEL_ENGINES_ENABLED"))
      then pinned_or pin (codes "emunel_core", [])
      else pinned_or pin (module_of launch_plan)
