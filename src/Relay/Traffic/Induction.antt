-- ===== src/Relay/Traffic/Induction.antt =====
-- core/emunel_core/relay/base.py: induction over the calls of all gates.
use emunel.Prelude.{
  ℕ, ◌≤◌, List, [], ◌∷◌, All, All-append, All-set, All-get_elem?, get_elem?, inl, inr, Option-cases,
}
use emunel.Prelude.Float.{Floats}
use emunel.State.Stats.{add_request}
use emunel.Relay.Gate.{RelayContext, QuotaGate, Moment, add, flush}
use emunel.Relay.Gate.Laws.{IsSized, new_gate-IsSized, add-IsSized, flush-IsSized}
use emunel.Relay.Traffic.{
  Traffic, Event, opened, chunk, flushed, requested, FitsFrame, step, run, at_gate,
}

-- Every gate is within its bounds, and the shared context has the property `P`.
pub record Keeps (F : Floats) (P : RelayContext → Type 0) (t : Traffic F) : Type 0 where
  pub sized : All (IsSized F) t.gates
  pub holds : P t.ctx

abbrev pub requested_on : RelayContext → RelayContext
requested_on ctx = record ctx { stats = add_request ctx.stats }

module _ (F : Floats) (P : RelayContext → Type 0) (frame : ℕ)
    (keeps_add : (m : Moment F) (n : ℕ) (ctx : RelayContext) (g : QuotaGate F)
      → n ≤ frame
      → IsSized F g
      → P ctx
      → P (add F m n ctx g).0)
    (keeps_flush : (m : Moment F) (ctx : RelayContext) (g : QuotaGate F)
      → IsSized F g
      → P ctx
      → P (flush F m ctx g).0)
    (keeps_request : (ctx : RelayContext) → P ctx → P (requested_on ctx)) where
  at_gate-Keeps :
      (i : ℕ) (f : RelayContext → QuotaGate F → RelayContext × QuotaGate F) (t : Traffic F)
      → ((g : QuotaGate F) → IsSized F g → IsSized F (f t.ctx g).1 × P (f t.ctx g).0)
      → Keeps F P t
      → Keeps F P (at_gate F i f (get_elem? t.gates i) t)
  unfolding at_gate
  at_gate-Keeps i f t keeps v = elim (Option-cases (get_elem? t.gates i)) [
    | inl gone ↦ rw (gone, at_gate) v
    | inr (g, found) ↦
        let (s, p) = keeps g (All-get_elem? (IsSized F) t.gates i found v.sized) in
        rw (found, at_gate)
          (record { sized = All-set (IsSized F) t.gates i _ s v.sized; holds = p })
  ]

  step-Keeps :
      (t : Traffic F) (e : Event F) → FitsFrame F frame e → Keeps F P t → Keeps F P (step F t e)
  unfolding step at_gate
  step-Keeps t (opened m u c) fits v = record {
    sized = All-append (IsSized F) t.gates _ v.sized (new_gate-IsSized F m u c, tt);
    holds = v.holds;
  }
  step-Keeps t (chunk i m n) fits v =
      at_gate-Keeps i _ t
        (λ g s. (add-IsSized F m n t.ctx g s, keeps_add m n t.ctx g fits s v.holds)) v
  step-Keeps t (flushed i m) fits v =
      at_gate-Keeps i _ t (λ g s. (flush-IsSized F m t.ctx g s, keeps_flush m t.ctx g s v.holds)) v
  step-Keeps t requested fits v = record { sized = v.sized; holds = keeps_request t.ctx v.holds }

  pub run-Keeps :
      (t : Traffic F) (es : List (Event F))
      → All (FitsFrame F frame) es
      → Keeps F P t
      → Keeps F P (run F t es)
  unfolding run
  run-Keeps t [] fits v = v
  run-Keeps t (e ∷ es) fits v = run-Keeps (step F t e) es fits.1 (step-Keeps t e fits.0 v)
