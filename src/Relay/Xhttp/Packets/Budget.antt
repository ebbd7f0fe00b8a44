-- ===== src/Relay/Xhttp/Packets/Budget.antt =====
-- core/emunel_core/relay/xhttp.py: what `seq_buf_bytes` counts.
use emunel.Prelude.{
  ℕ, ◌+◌, ◌≤◌, ◌<◌, ◌≡◌, refl, true, false, List, [], ◌∷◌, ◌++◌, length, arith, nat_eq,
}
use emunel.Prelude.Dict.{get, put, remove}
use emunel.Relay.Xhttp.Packets.{
  Bytes, Uplink, Upstream, taken, torn_down, drain, buffer, deliver, deliver_next, deliver_all,
  max_seq_buf_bytes,
}

-- The session with one packet waiting.
abbrev waiting : Bytes → Uplink → Uplink
waiting b s = record s {
  seq_buf = (s.next_seq + 1, b) ∷ [];
  seq_buf_bytes = s.seq_buf_bytes + length b;
}

-- The session after two packets that came in the other order.
abbrev swapped : Bytes → Bytes → Uplink → Uplink
swapped a b s = record s {
  written = (s.written ++ (a ∷ [])) ++ (b ∷ []);
  seq_buf_bytes = s.seq_buf_bytes + length b;
  next_seq = s.next_seq + 1 + 1;
}

module _ (u : Upstream) (b : Bytes) (s : Uplink) (is_open : s.is_open ≡ true)
    (empty : s.seq_buf ≡ []) where
  waits :
      s.seq_buf_bytes + length b ≤ max_seq_buf_bytes
      → deliver u (s.next_seq + 1) b s ≡ taken (waiting b s)
  unfolding deliver deliver_next buffer put
  waits fits = ground arith

  follows :
      (a : Bytes) → u.closing ≡ false → deliver u s.next_seq a (waiting b s) ≡ taken (swapped a b s)
  unfolding deliver deliver_next drain get remove
  follows a alive = ground arith

  refused :
      max_seq_buf_bytes < s.seq_buf_bytes + length b → deliver u (s.next_seq + 1) b s ≡ torn_down
  unfolding deliver deliver_next buffer
  refused over = ground arith

-- The packets of pairs that come in the other order, from sequence number `n`.
abbrev pub swaps : ℕ → List (Bytes × Bytes) → List (ℕ × Bytes)
swaps n [] = []
swaps n ((a, b) ∷ ps) = (n + 1, b) ∷ (n, a) ∷ swaps (n + 1 + 1) ps

abbrev pub late_bytes : List (Bytes × Bytes) → ℕ
late_bytes [] = 0
late_bytes ((a, b) ∷ ps) = length b + late_bytes ps

-- A session that has written all it took, and still counts `n` bytes as buffered.
pub record IsDrained (n : ℕ) (s : Uplink) : Type 0 where
  pub is_open : s.is_open ≡ true
  pub nothing_waits : s.seq_buf ≡ []
  pub counted : s.seq_buf_bytes ≡ n

-- In an open session, pairs of packets of which the later overtakes the earlier leave nothing waiting,
-- but the bytes that ever waited stay counted: once they add up to the limit, the next packet that overtakes
-- another tears the session down although the buffer is empty.
pub swaps_exhaust :
    (u : Upstream) (n : ℕ) (s : Uplink) (ps : List (Bytes × Bytes)) (b : Bytes)
    → u.closing ≡ false
    → IsDrained n s
    → n + late_bytes ps ≤ max_seq_buf_bytes
    → max_seq_buf_bytes < n + late_bytes ps + length b
    → (t : Uplink) × (deliver_all u (swaps s.next_seq ps) s ≡ taken t)
      × IsDrained (n + late_bytes ps) t
      × (deliver u (t.next_seq + 1) b t ≡ torn_down)
unfolding deliver_all
swaps_exhaust u n s [] b alive v fits over = (
  s,
  refl,
  record {
    is_open = v.is_open;
    nothing_waits = v.nothing_waits;
    counted = omega (arith, v.counted);
  },
  refused u b s v.is_open v.nothing_waits (omega (arith, v.counted)),
)
swaps_exhaust u n s ((a, c) ∷ ps) b alive v fits over =
    let (t, done, d, cut) =
      swaps_exhaust u (n + length c) (swapped a c s) ps b alive
        (record {
          is_open = v.is_open;
          nothing_waits = v.nothing_waits;
          counted = omega (arith, v.counted);
        })
        (omega arith) (omega arith) in
    (
      t,
      rw (waits u c s v.is_open v.nothing_waits (omega (arith, v.counted)), deliver_all)
          (rw (follows u c s v.is_open v.nothing_waits a alive, deliver_all) done),
      record {
        is_open = d.is_open;
        nothing_waits = d.nothing_waits;
        counted = omega (arith, d.counted);
      },
      cut,
    )
