-- ===== src/Examples/Workers.antt =====
-- worker/emunel_worker: a node with two instances, its processes and a small Docker.
use emunel.Prelude.{
  All, ◌||◌, ℕ, ◌+◌, ◌≤◌, ◌≡◌, refl, Bool, true, false, Option, none, some, List, [], ◌∷◌, Str,
  str_eq, str_beq, codes, elem, if◌then◌else◌, nat_eq,
}
use emunel.Prelude.Dict.{Dict, get, put, remove}
use emunel.Worker.Ports.{allocate, first_usable, range_from, release}
use emunel.Worker.Ports.Laws.{spare}
use emunel.Worker.Driver.{InstanceHandle, Driver, Runtime, launch, stop, remove_known}
use emunel.Worker.Driver.Exclusive.{IsExclusive}
use emunel.Worker.Node.{
  Node, Request, launch_instance, restart_instance, stop_instance, remove_instance, startup, happen,
  happen_all, relaunch_known,
}
use emunel.Worker.Node.Exclusive.{happen_all-IsExclusive}
use emunel.Worker.Node.Leaks.{deployed, deployed-le-spare}
use emunel.Worker.Node.Tokens.{saved_token}
use emunel.Worker.Node.Credentials.{new_node, happen_all-saved_token}
use emunel.Worker.Process.{Processes, process_runtime, happen-remove_instance}
use emunel.Worker.Docker.{Docker, IsDocker, container_name, docker_runtime, happen_known_refused}
use emunel.Worker.Launching.{
  word, is_off, launch_plan, module_of, core_launch_module, core_engine_flags,
}
use emunel.Worker.Launching.Flags.{
  any_asks, merged_asks, decided, merged_decided, core_launch_module_lem,
}
use emunel.Prelude.Text.{strip, lstrip, lower}
use emunel.Examples.Fixtures.{alice, bob}

-- A process has the number of its port.
abbrev spawn : Str → ℕ → Processes → Option ℕ
spawn id port alive = some port

abbrev node_runtime : Runtime ℕ Processes
node_runtime = process_runtime spawn

abbrev free : ℕ → Bool
free port = true

abbrev empty_driver : Driver ℕ Processes
empty_driver = record {
  ports = record { start = 9000; end = 9003; used = [] };
  handles = [];
  world = [];
}

-- Two instances, one of them twice, a restart, a removal and a new start of the Worker.
abbrev requests : List (Request Processes)
requests =
    launch_instance free alice (codes "t")
    ∷ launch_instance free bob (codes "u")
    ∷ launch_instance free alice (codes "v")
    ∷ restart_instance free bob (codes "w")
    ∷ remove_instance alice
    ∷ startup free []
    ∷ []

happen_all-IsExclusive_example :
    IsExclusive (happen_all node_runtime requests (new_node empty_driver)).driver
happen_all-IsExclusive_example =
    happen_all-IsExclusive node_runtime requests (new_node empty_driver)
      (record { apart = tt; marked = tt })

-- One instance is deployed again and again.
abbrev redeploys : List (Request Processes)
redeploys =
    launch_instance free alice (codes "t")
    ∷ launch_instance free alice (codes "u")
    ∷ restart_instance free alice (codes "v")
    ∷ stop_instance alice
    ∷ []

deployed-le-spare_example :
    deployed node_runtime redeploys (new_node empty_driver)
      + spare (happen_all node_runtime redeploys (new_node empty_driver)).driver.ports
    ≤ spare empty_driver.ports
deployed-le-spare_example =
    deployed-le-spare node_runtime redeploys (new_node empty_driver)
      (refl, (refl, (refl, (refl, tt))))

-- The instance that is left, with its port after the new start.
abbrev left_instance : InstanceHandle ℕ
left_instance = record { reference = 9003; port = 9003; api_token = codes "w" }

is_found :
    get (happen_all node_runtime requests (new_node empty_driver)).driver.handles bob
    ≡ some left_instance
unfolding happen_all happen launch stop remove_known allocate first_usable range_from release
    relaunch_known get put remove str_beq
is_found = refl

happen_all-saved_token_example :
    saved_token (get (happen_all node_runtime requests (new_node empty_driver)).registry bob)
    ≡ some (codes "w")
happen_all-saved_token_example =
    happen_all-saved_token node_runtime requests empty_driver bob left_instance is_found

-- The instance runs in process 9001.
abbrev running : InstanceHandle ℕ
running = record { reference = 9001; port = 9001; api_token = codes "t" }

abbrev node : Node ℕ Processes
node = record {
  driver = record {
    ports = record { start = 9000; end = 9003; used = 9001 ∷ [] };
    handles = (alice, running) ∷ [];
    world = 9001 ∷ [];
  };
  registry = [];
}

happen-remove_instance_example :
    (let r = happen (process_runtime spawn) (remove_instance alice) node in
      let s = happen (process_runtime spawn) (stop_instance alice) node in
      (r.1 ≡ true)
      × (get r.0.driver.handles alice ≡ none)
      × (get r.0.registry alice ≡ none)
      × (elem 9001 r.0.driver.world ≡ true)
      × (elem 9001 s.0.driver.world ≡ false))
happen-remove_instance_example =
    happen-remove_instance spawn alice node running (unfold get str_beq in refl) refl

-- The names of the containers, running or stopped.
abbrev small_docker : Docker (List Str)
small_docker = record {
  in_use = λ name names. elem name names;
  run = λ name port names. if elem name names then (names, false) else (name ∷ names, true);
  stop_container = λ name names. (names, elem name names);
  rm = λ name names. (names, elem name names);
}

small_docker-IsDocker : IsDocker small_docker
small_docker-IsDocker = record {
  run_taken = λ name port c taken. rw taken refl;
  in_use-stop = λ name other c. refl;
}

abbrev contained : InstanceHandle Str
contained = record { reference = container_name alice; port = 9001; api_token = codes "t" }

abbrev docker_node : Node Str (List Str)
docker_node = record {
  driver = record {
    ports = record { start = 9000; end = 9003; used = 9001 ∷ [] };
    handles = (alice, contained) ∷ [];
    world = container_name alice ∷ [];
  };
  registry = [];
}

name_is_taken : elem (container_name alice) docker_node.driver.world ≡ true
unfolding container_name str_beq
name_is_taken = refl

happen_known_refused_example :
    (let r =
        happen (docker_runtime small_docker) (launch_instance free alice (codes "u")) docker_node in
      let s =
        happen
          (docker_runtime small_docker)
          (restart_instance free alice (codes "u"))
          docker_node in
      (r.1 ≡ false) × (get r.0.driver.handles alice ≡ none) × (s.1 ≡ false))
happen_known_refused_example =
    happen_known_refused small_docker small_docker-IsDocker free alice (codes "u") docker_node
      contained (unfold get str_beq in refl) name_is_taken

-- Transport is toggled on and switched off in the environment, and FEC likewise.
abbrev env : Dict Str Str
env = (codes "TRANSPORT_MERGED", codes "0") ∷ (codes "EMUNEL_ENGINE_FEC_ENABLED", codes "0") ∷ []

abbrev toggles : Dict Str Bool
toggles = (codes "Transport", true) ∷ (codes "FEC", true) ∷ []

engines_on : is_off (word env (codes "EMUNEL_ENGINES_ENABLED")) ≡ false
unfolding is_off get str_beq strip lstrip lower
engines_on = refl

core_launch_module_lem_example :
    (let p = launch_plan env toggles in
      (core_launch_module env toggles ≡ module_of p)
      × (p.want_host ≡ (
          any_asks env toggles core_engine_flags
          || merged_asks env toggles (codes "Transport") (codes "TRANSPORT_MERGED")))
      × All (λ e. get p.extra e.1 ≡ decided env toggles e.0 e.1) core_engine_flags
      × (get p.extra (codes "TRANSPORT_MERGED")
          ≡ merged_decided env toggles (codes "Transport") (codes "TRANSPORT_MERGED")))
core_launch_module_lem_example =
    core_launch_module_lem env toggles engines_on (unfold get str_beq in refl)
