-- ===== src/Relay/Xhttp/Packets/Order.antt =====
-- core/emunel_core/relay/xhttp.py: the order in which packets of a session are written.
use emunel.Prelude.{
  ℕ, zero, suc, ◌+◌, ◌<◌, ◌≡◌, refl, subst, Bool, true, false, some, List, [], ◌∷◌, ◌++◌, length,
  arith, nat_eq, ◌==◌, inl, inr, Option-cases, Bool-cases, nat_same_iff, All, ltb,
}
use emunel.Prelude.Dict.{get, remove, All-put, All-remove, All-get}
use emunel.Relay.Xhttp.Packets.{
  Bytes, Uplink, Upstream, Delivery, Delivery-cases, taken, torn_down, drain, buffer, deliver,
  deliver_next, deliver_first, deliver_all,
}

-- The client's packets: `body k` is the packet of number `k`, and `payload` what stands behind the
-- header in packet 0.
module _ (body : ℕ → Bytes) (payload : Bytes) where
  -- What the first `n` packets carry for the upstream.
  abbrev pub carried : ℕ → List Bytes
  carried zero = []
  carried (suc zero) = payload ∷ []
  carried (suc (suc n)) = carried (suc n) ++ (body (suc n) ∷ [])

  -- The entry is the client's packet of its number.
  abbrev pub IsPacket : ℕ × Bytes → Type 0
  IsPacket p = p.1 ≡ body p.0

  -- What is written is what the packets below `next_seq` carry, there is a writer once the first
  -- packet was written, and what waits are packets.
  pub record InOrder (s : Uplink) : Type 0 where
    pub in_order : s.written ≡ carried s.next_seq
    pub started : s.is_open ≡ ltb 0 s.next_seq
    pub waits : All IsPacket s.seq_buf

  abbrev KeepsOrder : Delivery → Type 0
  KeepsOrder torn_down = Unit
  KeepsOrder (taken t) = InOrder t

  pub carried-suc : (n : ℕ) → 0 < n → carried (n + 1) ≡ carried n ++ (body n ∷ [])
  carried-suc zero h = absurd (omega arith)
  carried-suc (suc n) h = let e : suc n + 1 ≡ suc (suc n) = omega arith in rw e

  buffer-InOrder : (seq : ℕ) (s : Uplink) → InOrder s → KeepsOrder (buffer seq (body seq) s)
  unfolding buffer
  buffer-InOrder seq s v =
      ground (arith, v.in_order, v.started, All-put IsPacket s.seq_buf seq (body seq) refl v.waits)

  -- The loop, from a point where all below `nxt` is written.
  drain-InOrder :
      (fuel : ℕ) (closing : Bool) (nxt : ℕ) (s : Uplink)
      → s.is_open ≡ true
      → s.written ≡ carried nxt
      → 0 < nxt
      → All IsPacket s.seq_buf
      → KeepsOrder (drain fuel closing nxt s)
  unfolding drain
  drain-InOrder zero closing nxt s o w p h = record {
    in_order = w;
    started = ground arith;
    waits = h;
  }
  drain-InOrder (suc fuel) true nxt s o w p h = elim (Option-cases (get s.seq_buf nxt)) [
    | inl e ↦ rw (e, drain) (record { in_order = w; started = ground arith; waits = h })
    | inr (b, e) ↦ rw (e, drain) tt
  ]
  drain-InOrder (suc fuel) false nxt s o w p h = elim (Option-cases (get s.seq_buf nxt)) [
    | inl e ↦ rw (e, drain) (record { in_order = w; started = ground arith; waits = h })
    | inr (b, e) ↦
        let is_body = All-get IsPacket s.seq_buf nxt b e h in
        rw (e, drain)
          (drain-InOrder fuel false (nxt + 1)
            (record s { seq_buf = remove s.seq_buf nxt; written = s.written ++ (b ∷ []) }) o
            (ground (arith, carried-suc nxt p)) (omega arith) (All-remove IsPacket s.seq_buf nxt h))
  ]

  next-InOrder :
      (u : Upstream) (seq : ℕ) (s : Uplink)
      → s.is_open ≡ true
      → InOrder s
      → KeepsOrder (deliver_next u seq (body seq) s)
  unfolding deliver_next
  next-InOrder u seq s o v = elim (Bool-cases (seq == s.next_seq)) [
    | inl same ↦
        let key : seq ≡ s.next_seq = (nat_same_iff seq s.next_seq).0 same in
        let begun : 0 < s.next_seq = ground (arith, o, v.started) in
        let next =
          drain-InOrder (length s.seq_buf) u.closing (s.next_seq + 1)
            (record s { written = s.written ++ (body seq ∷ []) }) o
            (ground (arith, v.in_order, key, carried-suc s.next_seq begun)) (omega arith) v.waits in
        rw (same, deliver_next) (ground (arith, next))
    | inr other ↦ rw (other, deliver_next) (buffer-InOrder seq s v)
  ]

  first-InOrder :
      (u : Upstream) (seq : ℕ) (s : Uplink)
      → u.connect (body 0) ≡ some payload
      → s.is_open ≡ false
      → InOrder s
      → KeepsOrder (deliver_first u seq (body seq) s)
  unfolding deliver_first
  first-InOrder u zero s c o v =
      let unsent : s.next_seq ≡ 0 = ground (arith, o, v.started) in
      let nothing : s.written ≡ [] = ground (arith, v.in_order, unsent) in
      rw c (
        drain-InOrder (length s.seq_buf) u.closing 1
          (record s { is_open = true; written = s.written ++ (payload ∷ []) }) refl
          (ground (arith, nothing)) (omega arith) v.waits)
  first-InOrder u (suc k) s c o v = ground (arith, buffer-InOrder (suc k) s v)

  -- One call on the client's packet `seq`. What `connect` makes of packet 0 is the payload.
  deliver-InOrder :
      (u : Upstream) (seq : ℕ) (s : Uplink)
      → u.connect (body 0) ≡ some payload
      → InOrder s
      → KeepsOrder (deliver u seq (body seq) s)
  unfolding deliver
  deliver-InOrder u seq s c v = elim (Bool-cases s.is_open) [
    | inl o ↦ ground (arith, next-InOrder u seq s o v)
    | inr o ↦ ground (arith, first-InOrder u seq s c o v)
  ]

  abbrev pub packets : List ℕ → List (ℕ × Bytes)
  packets [] = []
  packets (k ∷ ks) = (k, body k) ∷ packets ks

  -- Whatever the order in which a client's packets arrive, repeated ones included: as long as the
  -- session lives, what was written to the upstream is the payload of packet 0 and then the packets
  -- 1, 2, … below `next_seq`, each once and in order, and what waits are packets of the client.
  pub deliver_all-InOrder :
      (u : Upstream) (ks : List ℕ) (s t : Uplink)
      → u.connect (body 0) ≡ some payload
      → InOrder s
      → deliver_all u (packets ks) s ≡ taken t
      → InOrder t
  unfolding deliver_all
  deliver_all-InOrder u [] s t c v e = let same : s ≡ t = cc in subst InOrder same v
  deliver_all-InOrder u (k ∷ ks) s t c v e = elim (Delivery-cases (deliver u k (body k) s)) [
    | inl (s', d) ↦
        deliver_all-InOrder u ks s' t c (subst KeepsOrder d (deliver-InOrder u k s c v))
          (ground (arith, d))
    | inr d ↦ absurd (ground (arith, d))
  ]
