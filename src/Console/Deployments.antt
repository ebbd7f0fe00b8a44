-- ===== src/Console/Deployments.antt =====
-- console/api/emunel_console/services/deployments.py: the pipelines of a deployment. What the worker, the
-- provider and the probes answer is a script; statements of the database succeed, and the texts of errors
-- and the times are left out.
pub mod Lifecycle
use emunel.Prelude.{
  ℕ, zero, suc, ◌+◌, Bool, true, false, ◌&&◌, not, List, [], ◌∷◌, ◌++◌, if◌then◌else◌,
}

pub data Status : Type 0 where
  queued preparing building starting health_check running failed : Status

-- The rows of a deployment and of its instance: `trail` is every status that the deployment was given, latest
-- first.
pub record Deployment : Type 0 where
  pub status : Status
  pub finished : Bool
  pub instance_status : Status
  pub trail : List Status

abbrev pub new_deployment : Status → Deployment
new_deployment old = record {
  status = queued;
  finished = false;
  instance_status = old;
  trail = queued ∷ [];
}

unfoldable pub set_deployment : Status → Bool → Deployment → Deployment
set_deployment status finish d = record {
  status = status;
  finished = if finish then true else d.finished;
  instance_status = status;
  trail = status ∷ d.trail;
}

unfoldable pub set_instance : Status → Deployment → Deployment
set_instance status d = record d { instance_status = status }

abbrev pub health_check_attempts : ℕ
health_check_attempts = 30

abbrev pub railway_poll_attempts : ℕ
railway_poll_attempts = 90

-- What a probe of the worker finds.
pub data Probe : Type 0 where
  unreachable healthy not_yet exited : Probe

-- What a poll of Railway finds: the call raises, there is no deployment, or it has a status.
pub data Poll : Type 0 where
  raises no_deployment reports_running reports_end reports_other : Poll

-- The loop over the probes, `n` of them at most: it ends with `healthy`, or it raises.
unfoldable pub probe_worker : ℕ → (ℕ → Probe) → ℕ → Bool
probe_worker zero probes i = false
probe_worker (suc n) probes i =
    let rest = probe_worker n probes (i + 1) in
    elim (probes i) [ unreachable ↦ rest | healthy ↦ true | not_yet ↦ rest | exited ↦ false ]

-- The probes of the public endpoint.
unfoldable pub probe_edge : ℕ → (ℕ → Bool) → ℕ → Bool
probe_edge zero probes i = false
probe_edge (suc n) probes i =
    let rest = probe_edge n probes (i + 1) in if probes i then true else rest

-- The polls of Railway: it raises, or it goes on to the health check, also when all the polls are used up.
unfoldable pub poll_railway : ℕ → (ℕ → Poll) → ℕ → Bool
poll_railway zero polls i = true
poll_railway (suc n) polls i =
    let rest = poll_railway n polls (i + 1) in
    elim (polls i) [
      | raises ↦ false
      | no_deployment ↦ rest
      | reports_running ↦ true
      | reports_end ↦ false
      | reports_other ↦ rest
    ]

-- A step of a pipeline: it gives a status, or it is a call that raises unless it succeeds.
pub data Step : Type 0 where
  sets : Status → Step
  calls : Bool → Step

-- The deployment where the steps end, and whether none raised.
unfoldable pub run_steps : List Step → Deployment → Deployment × Bool
run_steps [] d = (d, true)
run_steps (sets status ∷ steps) d = run_steps steps (set_deployment status false d)
run_steps (calls ok ∷ steps) d = let rest = run_steps steps d in if ok then rest else (d, false)

pub record LocalScript : Type 0 where
  pub picked : Bool
  pub launched : Bool
  pub probes : ℕ → Probe
  pub provisioned : Bool

pub record RailwayScript : Type 0 where
  pub configured : Bool
  pub has_service : Bool
  pub service_created : Bool
  pub has_domain : Bool
  pub domain_created : Bool
  pub service_configured : Bool
  pub triggered : Bool
  pub polls : ℕ → Poll
  pub probes : ℕ → Bool
  pub provisioned : Bool

-- `_pipeline_local` up to its end
unfoldable pub local_steps : LocalScript → List Step
local_steps s =
    sets preparing
    ∷ calls s.picked
    ∷ sets building
    ∷ sets starting
    ∷ calls s.launched
    ∷ sets health_check
    ∷ calls (probe_worker health_check_attempts s.probes 0)
    ∷ calls s.provisioned
    ∷ []

-- `_pipeline_railway` up to its end
unfoldable pub railway_steps : RailwayScript → List Step
railway_steps s =
    calls s.configured
    ∷ sets preparing
    ∷ calls (if s.has_service then true else s.service_created)
    ∷ calls (if s.has_domain then true else s.domain_created)
    ∷ sets building
    ∷ calls s.service_configured
    ∷ sets starting
    ∷ calls s.triggered
    ∷ calls (poll_railway railway_poll_attempts s.polls 0)
    ∷ sets health_check
    ∷ calls (probe_edge health_check_attempts s.probes 0)
    ∷ calls s.provisioned
    ∷ []

-- Both pipelines end with these statements, and `_run_pipeline` with the others where a step raised.
abbrev settled : Deployment × Bool → Deployment
settled (d, true) = set_instance running (set_deployment running true d)
settled (d, false) = set_instance failed (set_deployment failed true d)

pub data Script : Type 0 where
  on_worker : LocalScript → Script
  on_railway : RailwayScript → Script

abbrev pub steps_of : Script → List Step
steps_of (on_worker s) = local_steps s
steps_of (on_railway s) = railway_steps s

-- `deploy_instance` and its `_run_pipeline`, for an instance with this status
unfoldable pub run_pipeline : Script → Status → Deployment
run_pipeline s old = settled (run_steps (steps_of s) (new_deployment old))
