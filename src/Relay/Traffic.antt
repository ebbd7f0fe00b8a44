-- ===== src/Relay/Traffic.antt =====
-- The traffic of all connections of one Core but those of VMess: the gates of core/emunel_core/relay/base.py over one
-- `RelayContext`, in any interleaving. Each event runs to its next suspension, as on the event loop.
pub mod Induction
pub mod Caps
pub mod Quota
use emunel.Prelude.{ℕ, ◌≤◌, Option, none, some, List, [], ◌∷◌, ◌++◌, Str, get_elem?, set}
use emunel.Prelude.Float.{Floats}
use emunel.State.Stats.{add_request}
use emunel.Relay.Gate.{RelayContext, QuotaGate, Moment, new_gate, add, flush}

module _ (F : Floats) where
  pub record Traffic : Type 0 where
    pub ctx : RelayContext
    pub gates : List (QuotaGate F)

  -- The number in `chunk` and `flushed` is the gate's place.
  pub data Event : Type 0 where
    opened : Moment F → Str → Option Str → Event
    chunk : ℕ → Moment F → ℕ → Event
    flushed : ℕ → Moment F → Event
    requested : Event

  at_gate :
      ℕ
      → (RelayContext → QuotaGate F → RelayContext × QuotaGate F)
      → Option (QuotaGate F)
      → Traffic
      → Traffic
  at_gate i f none t = t
  at_gate i f (some g) t = record { ctx = (f t.ctx g).0; gates = set t.gates i (f t.ctx g).1 }

  abbrev added : Moment F → ℕ → RelayContext → QuotaGate F → RelayContext × QuotaGate F
  added m n ctx g = ((add F m n ctx g).0, (add F m n ctx g).1)

  unfoldable pub step : Traffic → Event → Traffic
  unfolding at_gate
  step t (opened m u c) = record t { gates = t.gates ++ (new_gate F m u c ∷ []) }
  step t (chunk i m n) = at_gate i (added m n) (get_elem? t.gates i) t
  step t (flushed i m) = at_gate i (flush F m) (get_elem? t.gates i) t
  step t requested = record t { ctx = record t.ctx { stats = add_request t.ctx.stats } }

  unfoldable pub run : Traffic → List Event → Traffic
  run t [] = t
  run t (e ∷ es) = run (step t e) es

  -- No chunk is larger than `frame`.
  abbrev pub FitsFrame : ℕ → Event → Type 0
  FitsFrame frame (chunk i m n) = n ≤ frame
  FitsFrame frame _ = Unit
