-- ===== src/Engines/Pipeline/Kept.antt =====
-- engines/manager.py, `run_pipeline`: what the pipeline does to the byte stream.
use emunel.Prelude.{
  ℕ, ◌≡◌, refl, sym, subst, ◌∙◌, inl, inr, Bool, true, false, not, ◌||◌, List, [], ◌∷◌, Option,
  none, some, All, Bool-cases, Str, str_eq,
}
use emunel.Prelude.Dict.{get, All-get}
use emunel.Engines.Coalescing.{Batch, joined, Metrics, process}
use emunel.Engines.Coalescing.Merged.{joined-process}
use emunel.Engines.Pipeline.{
  Processed, returns, raises, Engine, Manager, bypassed, after_call, called, run_stage, run_stages,
  run_pipeline,
}

abbrev pub batch_of : Processed → Batch
batch_of (returns ctx) = ctx
batch_of (raises ctx) = ctx

-- What the package asks of an engine: it keeps the bytes of a batch, in order, also if it raises.
abbrev pub KeepsStream : Engine → Type 0
KeepsStream engine =
    (ctx : Batch) → joined (batch_of (engine.process ctx)).frames ≡ joined ctx.frames

-- Coalescing as an engine.
abbrev pub coalescing : ℕ → Metrics → Engine
coalescing max_size m = record {
  active = true;
  process = λ ctx. returns (process max_size ctx m).0;
}

pub coalescing-KeepsStream : (max_size : ℕ) (m : Metrics) → KeepsStream (coalescing max_size m)
coalescing-KeepsStream max_size m ctx = (joined-process max_size ctx m).0

after_call-stream :
    (now : ℕ) (name : Str) (r : Processed) (s : Manager) → (after_call now name r s).0 ≡ batch_of r
after_call-stream now name (returns ctx) s = refl
after_call-stream now name (raises ctx) s = refl

after_call-engines :
    (now : ℕ) (name : Str) (r : Processed) (s : Manager)
    → (after_call now name r s).1.engines ≡ s.engines
after_call-engines now name (returns ctx) s = refl
after_call-engines now name (raises ctx) s = refl

-- A stage keeps the stream and the engines.
abbrev Kept : Batch → Manager → Batch × Manager → Type 0
Kept ctx s (ctx', s') = (joined ctx'.frames ≡ joined ctx.frames) × (s'.engines ≡ s.engines)

called-Kept :
    (now : ℕ) (name : Str) (o : Option Engine) (ctx : Batch) (s : Manager)
    → get s.engines name ≡ o
    → All (λ e. KeepsStream e.1) s.engines
    → let r = called now name o ctx s in
      (joined r.0.frames ≡ joined ctx.frames) × (r.1.engines ≡ s.engines)
called-Kept now name none ctx s found laws = (refl, refl)
called-Kept now name (some engine) ctx s found laws =
    elim (Bool-cases (not engine.active || bypassed now (get s.breakers name))) [
      | inl skipped ↦ rw skipped (refl, refl)
      | inr runs ↦
          let law = All-get (λ e. KeepsStream e.1) s.engines name engine found laws in
          let r = engine.process ctx in
          rw (runs, after_call-stream now name r s, after_call-engines now name r s) (law ctx, refl)
    ]

run_stages-Kept :
    (now : ℕ) (stages : List Str) (ctx : Batch) (s : Manager)
    → All (λ e. KeepsStream e.1) s.engines
    → joined (run_stages now stages (ctx, s)).0.frames ≡ joined ctx.frames
unfolding run_stages run_stage
run_stages-Kept now [] ctx s laws = refl
run_stages-Kept now (name ∷ stages) ctx s laws =
    let (ctx', s') = called now name (get s.engines name) ctx s in
    let (stream, engines) = called-Kept now name (get s.engines name) ctx s refl laws in
    run_stages-Kept now stages ctx' s' (subst (All (λ e. KeepsStream e.1)) (sym engines) laws)
    ∙ stream

-- The pipeline keeps the byte stream, whichever engines are active, bypassed or raise, and whether the limiter
-- allows it or not, as long as each engine keeps it.
pub joined-run_pipeline :
    (allowed : Bool) (now : ℕ) (stages : List Str) (ctx : Batch) (s : Manager)
    → All (λ e. KeepsStream e.1) s.engines
    → joined (run_pipeline allowed now stages ctx s).0.frames ≡ joined ctx.frames
unfolding run_pipeline
joined-run_pipeline allowed now [] ctx s laws = refl
joined-run_pipeline true now (name ∷ stages) ctx s laws =
    run_stages-Kept now (name ∷ stages) ctx s laws
joined-run_pipeline false now (name ∷ stages) ctx s laws = refl
