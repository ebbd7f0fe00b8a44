-- ===== src/Engines/Pipeline.antt =====
-- engines/base.py, `CircuitBreaker`, and engines/manager.py, the data path `run_pipeline`; whether its limiter of
-- all operations allows a batch is an argument. Times are in the unit of the monotonic clock. An engine is what
-- its `process` does to a batch, which it may have changed before it raises.
pub mod Kept
pub mod Breaking
use emunel.Prelude.{
  ℕ, zero, suc, ◌+◌, ◌-◌, ◌*◌, min, max, Bool, true, false, not, ◌&&◌, ◌||◌, List, [], ◌∷◌, Option,
  none, some, ltb, leb, if◌then◌else◌, Str, str_eq,
}
use emunel.Prelude.Dict.{Dict, get, put}
use emunel.Engines.Coalescing.{Batch}

pub record CircuitBreaker : Type 0 where
  pub max_errors : ℕ
  pub cooldown : ℕ
  pub errors : ℕ
  pub bypassed_until : ℕ
  pub total_trips : ℕ
  pub total_disables : ℕ

abbrev pub new_breaker : ℕ → ℕ → CircuitBreaker
new_breaker max_errors cooldown = record {
  max_errors = max 1 max_errors;
  cooldown = cooldown;
  errors = 0;
  bypassed_until = 0;
  total_trips = 0;
  total_disables = 0;
}

abbrev pub tripped : CircuitBreaker → CircuitBreaker
tripped b = record b { errors = b.errors + 1; total_trips = b.total_trips + 1 }

unfoldable pub on_error : ℕ → CircuitBreaker → CircuitBreaker
on_error now b =
    if leb b.max_errors (b.errors + 1)
    then record b {
      errors = 0;
      bypassed_until = now + b.cooldown;
      total_trips = b.total_trips + 1;
      total_disables = b.total_disables + 1;
    }
    else tripped b

unfoldable pub on_success : CircuitBreaker → CircuitBreaker
on_success b = record b { errors = 0 }

-- `open()`
unfoldable pub is_open : ℕ → CircuitBreaker → Bool
is_open now b = ltb now b.bypassed_until

-- How `process` ends, with the batch as it then is.
pub data Processed : Type 0 where
  returns : Batch → Processed
  raises : Batch → Processed

-- An engine that is active, or one that is not.
pub record Engine : Type 0 where
  pub active : Bool
  pub process : Batch → Processed

pub record Manager : Type 0 where
  pub engines : Dict Str Engine
  pub breakers : Dict Str CircuitBreaker

-- The breaker of an engine that has one.
abbrev pub with_breaker :
    Str → (CircuitBreaker → CircuitBreaker) → Dict Str CircuitBreaker → Dict Str CircuitBreaker
with_breaker name change breakers = elim (get breakers name) [
  | none ↦ breakers
  | some b ↦ put breakers name (change b)
]

abbrev pub bypassed : ℕ → Option CircuitBreaker → Bool
bypassed now none = false
bypassed now (some b) = is_open now b

abbrev pub after_call : ℕ → Str → Processed → Manager → Batch × Manager
after_call now name (returns ctx) s =
    (ctx, record s { breakers = with_breaker name on_success s.breakers })
after_call now name (raises ctx) s =
    (ctx, record s { breakers = with_breaker name (on_error now) s.breakers })

abbrev pub called : ℕ → Str → Option Engine → Batch → Manager → Batch × Manager
called now name none ctx s = (ctx, s)
called now name (some engine) ctx s =
    if not engine.active || bypassed now (get s.breakers name)
    then (ctx, s)
    else after_call now name (engine.process ctx) s

-- One stage of the pipeline
unfoldable pub run_stage : ℕ → Str → Batch × Manager → Batch × Manager
run_stage now name (ctx, s) = called now name (get s.engines name) ctx s

unfoldable pub run_stages : ℕ → List Str → Batch × Manager → Batch × Manager
run_stages now [] state = state
run_stages now (name ∷ stages) state = run_stages now stages (run_stage now name state)

-- `run_pipeline`, where the limiter of all operations allows the batch or not
unfoldable pub run_pipeline : Bool → ℕ → List Str → Batch → Manager → Batch × Manager
run_pipeline allowed now [] ctx s = (ctx, s)
run_pipeline allowed now (name ∷ stages) ctx s =
    let ran = run_stages now (name ∷ stages) (ctx, s) in if allowed then ran else (ctx, s)
