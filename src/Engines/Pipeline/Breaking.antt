-- ===== src/Engines/Pipeline/Breaking.antt =====
-- engines/base.py, `CircuitBreaker`: the calls of an engine that fails.
use emunel.Prelude.{Str, str_eq, length, ℕ, ◌+◌, true, List, [], ◌∷◌, if◌then◌else◌}
use emunel.Prelude.Dict.{Dict, put}
use emunel.Engines.Coalescing.{Batch}
use emunel.Engines.Pipeline.{
  CircuitBreaker, on_error, is_open, Engine, raises, Manager, run_pipeline,
}

-- The breaker alone, at these times: how often it lets an engine be called that raises at each call.
unfoldable failing_calls : List ℕ → CircuitBreaker → ℕ
failing_calls [] b = 0
failing_calls (now ∷ times) b =
    let skipped = failing_calls times b in
    let called = 1 + failing_calls times (on_error now b) in
    if is_open now b then skipped else called

-- An engine that adds a frame to each batch and then raises, so that its calls can be counted.
abbrev pub marking : Engine
marking = record {
  active = true;
  process = λ ctx. raises (record ctx { frames = [] ∷ ctx.frames });
}

abbrev empty_batch : Batch
empty_batch = record { down = true; frames = [] }

-- How often the engine of this name is called, where an empty batch goes through a pipeline of it alone at each
-- of these times.
unfoldable pub marks : List ℕ → Str → Manager → ℕ
marks [] name s = 0
marks (now ∷ times) name s =
    let r = run_pipeline true now (name ∷ []) empty_batch s in
    length r.0.frames + marks times name r.1

-- The manager after a call that raised.
abbrev blamed : ℕ → Str → CircuitBreaker → Manager → Manager
blamed now name b s = record s { breakers = put s.breakers name (on_error now b) }
