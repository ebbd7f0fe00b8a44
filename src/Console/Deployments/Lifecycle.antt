-- ===== src/Console/Deployments/Lifecycle.antt =====
-- console/api/emunel_console/services/deployments.py: the statuses that a pipeline goes through.
use emunel.Prelude.{ℕ, ◌<◌, ◌≡◌, Bool, true, false, List, [], ◌∷◌, if◌then◌else◌, ◌⊎◌}
use emunel.Console.Deployments.{
  Status, queued, preparing, building, starting, health_check, running, failed, Deployment, healthy,
  Step, sets, calls, Script, on_worker, on_railway,
}

-- QUEUED → PREPARING → BUILDING → STARTING → HEALTH_CHECK → RUNNING, and FAILED from each but the last.
pub data Follows : Status → Status → Type 0 where
  prepares : Follows queued preparing
  builds : Follows preparing building
  starts : Follows building starting
  checks : Follows starting health_check
  runs : Follows health_check running
  fails_queued : Follows queued failed
  fails_preparing : Follows preparing failed
  fails_building : Follows building failed
  fails_starting : Follows starting failed
  fails_check : Follows health_check failed

-- Each status of a trail, latest first, follows the one before it, and the first is `queued`.
abbrev pub IsLifecycle : List Status → Type 0
IsLifecycle [] = ⊥
IsLifecycle (s ∷ []) = s ≡ queued
IsLifecycle (t ∷ s ∷ trail) = Follows s t × IsLifecycle (s ∷ trail)

-- The first calls and the last one succeeded, and the worker or the endpoint answered one of the first 30 probes
-- well.
abbrev pub WasHealthy : Script → Type 0
WasHealthy (on_worker s) =
    (s.picked ≡ true)
    × (s.launched ≡ true)
    × ((i : ℕ) × (i < 30) × (s.probes i ≡ healthy))
    × (s.provisioned ≡ true)
WasHealthy (on_railway s) =
    (s.configured ≡ true)
    × (s.service_configured ≡ true)
    × (s.triggered ≡ true)
    × ((i : ℕ) × (i < 30) × (s.probes i ≡ true))
    × (s.provisioned ≡ true)

-- The end of a deployment: it runs, or it has failed, and the instance with it.
abbrev pub HasEnded : Script → Deployment → Type 0
HasEnded s d =
    (d.finished ≡ true)
    × (d.instance_status ≡ d.status)
    × IsLifecycle d.trail
    × (((d.status ≡ running) × WasHealthy s) ⊎ (d.status ≡ failed))

-- The statuses that the steps give follow one another from this one, and each may fail.
abbrev IsPath : Status → List Step → Type 0
IsPath s [] = Follows s failed × (s ≡ health_check)
IsPath s (sets t ∷ steps) = Follows s t × IsPath t steps
IsPath s (calls ok ∷ steps) = Follows s failed × IsPath s steps

-- Where the steps end.
record HasRun (r : Deployment × Bool) : Type 0 where
  pub before : List Status
  pub latest : r.0.trail ≡ r.0.status ∷ before
  pub lifecycle : IsLifecycle (r.0.status ∷ before)
  pub can_fail : Follows r.0.status failed
  pub checked : (r.1 ≡ false) ⊎ (r.0.status ≡ health_check)

-- No call raises.
unfoldable all_succeed : List Step → Bool
all_succeed [] = true
all_succeed (sets t ∷ steps) = all_succeed steps
all_succeed (calls ok ∷ steps) = let rest = all_succeed steps in if ok then rest else false
