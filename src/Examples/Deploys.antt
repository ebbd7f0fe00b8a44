-- ===== src/Examples/Deploys.antt =====
-- console/api/emunel_console/services/deployments.py: a deployment on a worker.
use emunel.Prelude.{◌≡◌, refl, true, [], ◌∷◌, ltb, if◌then◌else◌}
use emunel.Console.Deployments.{
  Script, on_worker, run_pipeline, preparing, building, starting, health_check, running, queued,
  healthy, not_yet, failed, run_steps, local_steps, set_deployment, set_instance, probe_worker,
}

-- The third probe is answered well.
abbrev script : Script
script = on_worker (record {
  picked = true;
  launched = true;
  probes = λ i. if ltb i 2 then not_yet else healthy;
  provisioned = true;
})

goes_through :
    (run_pipeline script failed).trail
    ≡ running ∷ health_check ∷ starting ∷ building ∷ preparing ∷ queued ∷ []
unfolding run_pipeline run_steps local_steps set_deployment set_instance probe_worker
goes_through = refl
