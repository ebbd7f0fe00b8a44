-- ===== src/Worker/Process.antt =====
-- worker/emunel_worker/driver.py, `ProcessDriver`: the Cores are processes of the node. Which process the
-- system makes, if it makes one, is a parameter; a launch's environment, limits and files are left out.
use emunel.Prelude.{
  ℕ, ◌≡◌, refl, true, false, List, [], ◌∷◌, Option, none, some, Str, str_eq, nat_eq, elem, nat_beq,
  if◌then◌else◌, arith, Bool-cases, inl, inr,
}
use emunel.Prelude.Dict.{get, get-remove_self}
use emunel.Worker.Ports.{discard}
use emunel.Worker.Driver.{
  InstanceHandle, Runtime, Started, started, crashed, own_stop, remove_known, stop,
}
use emunel.Worker.Node.{Node, remove_instance, stop_instance, happen}

-- The processes that run.
abbrev pub Processes : Type 0
Processes = List ℕ

abbrev pub spawned : Processes → Option ℕ → Started ℕ × Processes
spawned alive none = (crashed, alive)
spawned alive (some pid) = (started pid, pid ∷ alive)

-- SIGTERM, and SIGKILL where the process is still there after the wait: it is gone after either.
unfoldable pub killed : ℕ → Processes → Processes
killed pid alive = if elem pid alive then discard pid alive else alive

abbrev pub process_runtime : (Str → ℕ → Processes → Option ℕ) → Runtime ℕ Processes
process_runtime spawn = record {
  run_core = λ id port alive. spawned alive (spawn id port alive);
  halt_core = λ pid alive. (killed pid alive, true);
  remover = own_stop;
}

elem-discard : (pid : ℕ) (alive : Processes) → elem pid (discard pid alive) ≡ false
elem-discard pid [] = refl
elem-discard pid (p ∷ alive) = elim (Bool-cases (nat_beq p pid)) [
  | inl same ↦ ground (arith, same, elem-discard pid alive)
  | inr other ↦ ground (arith, other, elem-discard pid alive)
]

elem-killed : (pid : ℕ) (alive : Processes) → elem pid (killed pid alive) ≡ false
unfolding killed
elem-killed pid alive = elim (Bool-cases (elem pid alive)) [
  | inl runs ↦ rw runs (elem-discard pid alive)
  | inr gone ↦ rw gone gone
]

-- A removal of an instance is answered with success and drops its handle and its saved launch, but its
-- process still runs, since `remove` takes the handle out of the table before its own `stop` looks for it. A
-- stop of the same instance does end the process.
pub happen-remove_instance :
    (spawn : Str → ℕ → Processes → Option ℕ) (id : Str) (n : Node ℕ Processes)
    (h : InstanceHandle ℕ)
    → get n.driver.handles id ≡ some h
    → elem h.reference n.driver.world ≡ true
    → let r = happen (process_runtime spawn) (remove_instance id) n in
      let s = happen (process_runtime spawn) (stop_instance id) n in
      (r.1 ≡ true)
      × (get r.0.driver.handles id ≡ none)
      × (get r.0.registry id ≡ none)
      × (elem h.reference r.0.driver.world ≡ true)
      × (elem h.reference s.0.driver.world ≡ false)
unfolding happen remove_known stop
happen-remove_instance spawn id n h found runs =
    let gone = get-remove_self n.driver.handles id in
    let unsaved = get-remove_self n.registry id in
    rw (found, gone) (refl, gone, unsaved, runs, elem-killed h.reference n.driver.world)
