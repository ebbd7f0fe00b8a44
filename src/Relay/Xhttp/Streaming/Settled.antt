-- ===== src/Relay/Xhttp/Streaming/Settled.antt =====
-- core/emunel_core/relay/xhttp.py, `stream_up_upload`: which bytes are accounted when an upload ends.
use emunel.Prelude.{
  ℕ, ◌+◌, ◌≤◌, ◌<◌, ◌≡◌, ◌∙◌, ◌⊎◌, inl, inr, true, false, not, List, [], ◌∷◌, length, ltb, ◌==◌,
  nat_eq, if◌then◌else◌, arith, Bool-cases,
}
use emunel.Prelude.Float.{Floats}
use emunel.State.Stats.{add_request}
use emunel.Relay.Gate.{
  RelayContext, QuotaGate, Moment, add, flush, answer, cap_reached, quota_max_batch,
}
use emunel.Relay.Gate.Laws.{IsSized, add-IsSized, add-conserves, account-total, is_denied}
use emunel.Relay.Xhttp.Streaming.{
  Chunk, Stream, gate_chunk, stream_chunks, stream_body, Ending, Exit, after_write,
  max_stream_chunk, Went, well, not_authorized, badly,
}

module _ (F : Floats) where
  -- The bytes of the later chunks, if the loop goes on.
  abbrev pub later : Went → ℕ → ℕ
  later well n = n
  later not_authorized n = 0
  later badly n = 0

  -- The bytes that `gate.add` lets through or counts, over the run of the loop.
  unfoldable pub let_through : List (Chunk F) → Stream F → ℕ
  let_through [] s = 0
  let_through (c ∷ chunks) s =
      let n =
        if is_denied (add F c.moment (length c.body) s.ctx s.gate).2 then 0 else length c.body in
      let skipped = let_through chunks s in
      let rest = let_through chunks (gate_chunk F c s).0 in
      if length c.body == 0
      then skipped
      else if ltb max_stream_chunk (length c.body)
      then 0
      else if not (gate_chunk F c s).1
      then n
      else n + later c.went rest

  -- What is accounted or waits in the gate.
  abbrev pub accounted : Stream F → ℕ
  accounted s = s.ctx.stats.total_bytes + s.gate.pending

  accounted-gate_chunk :
      (c : Chunk F) (s : Stream F)
      → accounted (gate_chunk F c s).0
        ≡ accounted s
          + (if is_denied (add F c.moment (length c.body) s.ctx s.gate).2 then 0 else length c.body)
  unfolding gate_chunk add_request
  accounted-gate_chunk c s = ground (arith, add-conserves F c.moment (length c.body) s.ctx s.gate)

  gate_chunk-IsSized :
      (c : Chunk F) (s : Stream F) → IsSized F s.gate → IsSized F (gate_chunk F c s).0.gate
  unfolding gate_chunk
  gate_chunk-IsSized c s v =
      let r = add F c.moment (length c.body) s.ctx s.gate in
      let sized = add-IsSized F c.moment (length c.body) s.ctx s.gate v in
      elim (Bool-cases (answer F r.1 r.2)) [ inl ok ↦ rw ok sized | inr denied ↦ rw denied sized ]

  accounted-after_write :
      (went : Went) (rest : Stream F × Exit) (s : Stream F) (base n r : ℕ)
      → accounted s ≡ base + n
      → accounted rest.0 ≡ accounted s + r
      → accounted (after_write F went rest s).0 ≡ base + (n + later went r)
  accounted-after_write well rest s base n r this all = omega (arith, this, all)
  accounted-after_write not_authorized rest s base n r this all = omega (arith, this)
  accounted-after_write badly rest s base n r this all = omega (arith, this)

  after_write-IsSized :
      (went : Went) (rest : Stream F × Exit) (s : Stream F)
      → IsSized F s.gate
      → IsSized F rest.0.gate
      → IsSized F (after_write F went rest s).0.gate
  after_write-IsSized well rest s this all = all
  after_write-IsSized not_authorized rest s this all = this
  after_write-IsSized badly rest s this all = this

  accounted-stream_chunks :
      (chunks : List (Chunk F)) (ending : Ending) (s : Stream F)
      → accounted (stream_chunks F chunks ending s).0 ≡ accounted s + let_through chunks s
  unfolding stream_chunks let_through
  accounted-stream_chunks [] ending s = omega arith
  accounted-stream_chunks (c ∷ chunks) ending s =
      let this = accounted-gate_chunk c s in
      elim (Bool-cases (length c.body == 0)) [
        | inl empty ↦ rw empty (accounted-stream_chunks chunks ending s)
        | inr some_bytes ↦ elim (Bool-cases (ltb max_stream_chunk (length c.body))) [
          | inl large ↦ rw (some_bytes, large) (omega arith)
          | inr fits ↦ elim (Bool-cases (not (gate_chunk F c s).1)) [
            | inl stops ↦ rw (some_bytes, fits, stops) this
            | inr goes_on ↦
                rw (some_bytes, fits, goes_on)
                  (accounted-after_write c.went (stream_chunks F chunks ending (gate_chunk F c s).0)
                    (gate_chunk F c s).0 (accounted s) _ _ this
                    (accounted-stream_chunks chunks ending (gate_chunk F c s).0))
          ]
        ]
      ]

  flush-total :
      (m : Moment F) (ctx : RelayContext) (g : QuotaGate F)
      → g.ok ≡ true
      → cap_reached ctx.stats ≡ false
      → (flush F m ctx g).0.stats.total_bytes ≡ ctx.stats.total_bytes + g.pending
  unfolding flush
  flush-total m ctx g ok below =
      ground (arith, ok, below, account-total m.clock m.hour g.conn_id g.uuid g.pending ctx)

  flush-total_ge :
      (m : Moment F) (ctx : RelayContext) (g : QuotaGate F)
      → ctx.stats.total_bytes ≤ (flush F m ctx g).0.stats.total_bytes
  unfolding flush
  flush-total_ge m ctx g =
      ground (arith, account-total m.clock m.hour g.conn_id g.uuid g.pending ctx)

  stream_chunks-IsSized :
      (chunks : List (Chunk F)) (ending : Ending) (s : Stream F)
      → IsSized F s.gate
      → IsSized F (stream_chunks F chunks ending s).0.gate
  unfolding stream_chunks
  stream_chunks-IsSized [] ending s v = v
  stream_chunks-IsSized (c ∷ chunks) ending s v =
      let this = gate_chunk-IsSized c s v in
      elim (Bool-cases (length c.body == 0)) [
        | inl empty ↦ rw empty (stream_chunks-IsSized chunks ending s v)
        | inr some_bytes ↦ elim (Bool-cases (ltb max_stream_chunk (length c.body))) [
          | inl large ↦ rw (some_bytes, large) v
          | inr fits ↦ elim (Bool-cases (not (gate_chunk F c s).1)) [
            | inl stops ↦ rw (some_bytes, fits, stops) this
            | inr goes_on ↦
                rw (some_bytes, fits, goes_on)
                  (after_write-IsSized c.went _ (gate_chunk F c s).0 this
                    (stream_chunks-IsSized chunks ending (gate_chunk F c s).0 this))
          ]
        ]
      ]

  -- The gate's batch is within its bounds and not full. Where the upload ends with an open gate below the cap
  -- of the instance, however it ends, the total has grown by just the bytes that waited in the gate and those
  -- that it let through; otherwise what is missing is less than the largest batch.
  pub stream_body-total :
      (chunks : List (Chunk F)) (ending : Ending) (last : Moment F) (s : Stream F)
      → IsSized F s.gate
      → let before = stream_chunks F chunks ending s in
        let total = (stream_body F chunks ending last s).0.ctx.stats.total_bytes in
        (total ≡ accounted s + let_through chunks s)
        ⊎ (((before.0.gate.ok ≡ false) ⊎ (cap_reached before.0.ctx.stats ≡ true))
            × (accounted s + let_through chunks s < total + quota_max_batch))
  unfolding stream_body
  stream_body-total chunks ending last s v =
      let before = stream_chunks F chunks ending s in
      let all = accounted-stream_chunks chunks ending s in
      let sized = stream_chunks-IsSized chunks ending s v in
      let grows = flush-total_ge last before.0.ctx before.0.gate in
      let total = (stream_body F chunks ending last s).0.ctx.stats.total_bytes in
      let short : accounted s + let_through chunks s < total + quota_max_batch =
        omega (arith, all, sized.open_batch, sized.most, grows) in
      elim (Bool-cases before.0.gate.ok) [
        | inr closed ↦ inr (inl closed, short)
        | inl open_gate ↦ elim (Bool-cases (cap_reached before.0.ctx.stats)) [
          | inl capped ↦ inr (inr capped, short)
          | inr below ↦ inl (flush-total last before.0.ctx before.0.gate open_gate below ∙ all)
        ]
      ]
