-- ===== src/Relay/Xhttp/Packets/Progress.antt =====
-- core/emunel_core/relay/xhttp.py: when a packet of a session is written.
use emunel.Prelude.{
  elem, sym, Bool-cases, nat_same_iff, ap, ◌∙◌, ◌-◌, ℕ, zero, suc, ◌+◌, ◌≤◌, ◌<◌, ◌≡◌, refl, subst,
  Bool, true, false, Option, none, some, List, [], ◌∷◌, ◌++◌, length, arith, nat_eq, ◌==◌, inl, inr,
  Option-cases, ◌⊎◌, if◌then◌else◌, is_some,
}
use emunel.Prelude.Dict.{get, remove, get-put, get-remove, length-remove-lt}
use emunel.Relay.Xhttp.Packets.{
  Bytes, Uplink, Upstream, Delivery, Delivery-cases, taken, torn_down, drain, buffer, deliver,
  deliver_next, deliver_first, deliver_all, new_uplink,
}
use emunel.Relay.Xhttp.Packets.Order.{carried, carried-suc, packets, deliver_all-InOrder}
use mathlib.Core.List.{append-nil, append_assoc}
use native.Mathlib.Decide.{dec_lt}

-- Packet `k` was written or waits.
abbrev pub Has : ℕ → Uplink → Type 0
Has k s = (k < s.next_seq) ⊎ (is_some (get s.seq_buf k) ≡ true)

-- The packet that is due does not wait, and without a writer nothing was written.
pub record IsEager (s : Uplink) : Type 0 where
  pub due : is_some (get s.seq_buf s.next_seq) ≡ false
  pub unsent : (if s.is_open then true else s.next_seq == 0) ≡ true

abbrev Gives : (Uplink → Type 0) → Delivery → Type 0
Gives P torn_down = Unit
Gives P (taken t) = P t

-- The loop ends where the next packet is not there: the size of the buffer is enough fuel.
drain-IsEager :
    (fuel : ℕ) (closing : Bool) (nxt : ℕ) (s : Uplink)
    → length s.seq_buf ≤ fuel
    → s.is_open ≡ true
    → Gives IsEager (drain fuel closing nxt s)
unfolding drain
drain-IsEager zero closing nxt s enough o = elim (Option-cases (get s.seq_buf nxt)) [
  | inl e ↦ record { due = ground (arith, e); unsent = ground (arith, o) }
  | inr (b, e) ↦ absurd (omega (arith, length-remove-lt s.seq_buf nxt b e))
]
drain-IsEager (suc fuel) true nxt s enough o = elim (Option-cases (get s.seq_buf nxt)) [
  | inl e ↦ rw (e, drain) (record { due = ground (arith, e); unsent = ground (arith, o) })
  | inr (b, e) ↦ rw (e, drain) tt
]
drain-IsEager (suc fuel) false nxt s enough o = elim (Option-cases (get s.seq_buf nxt)) [
  | inl e ↦ rw (e, drain) (record { due = ground (arith, e); unsent = ground (arith, o) })
  | inr (b, e) ↦
      rw (e, drain)
        (drain-IsEager fuel false (nxt + 1)
          (record s { seq_buf = remove s.seq_buf nxt; written = s.written ++ (b ∷ []) })
          (omega (arith, length-remove-lt s.seq_buf nxt b e)) o)
]

-- The loop from `nxt` loses no packet: below `nxt` all are written.
drain-Has :
    (fuel : ℕ) (closing : Bool) (nxt k : ℕ) (s : Uplink)
    → (k < nxt) ⊎ (is_some (get s.seq_buf k) ≡ true)
    → Gives (Has k) (drain fuel closing nxt s)
unfolding drain
drain-Has zero closing nxt k s h = h
drain-Has (suc fuel) true nxt k s h = elim (Option-cases (get s.seq_buf nxt)) [
  | inl e ↦ rw (e, drain) h
  | inr (b, e) ↦ rw (e, drain) tt
]
drain-Has (suc fuel) false nxt k s h = elim (Option-cases (get s.seq_buf nxt)) [
  | inl e ↦ rw (e, drain) h
  | inr (b, e) ↦
      rw (e, drain)
        (drain-Has fuel false (nxt + 1) k
          (record s { seq_buf = remove s.seq_buf nxt; written = s.written ++ (b ∷ []) })
          (ground (arith, get-remove s.seq_buf nxt k)))
]

module _ (u : Upstream) (seq : ℕ) (body : Bytes) (s : Uplink) (v : IsEager s) where
  abbrev begun : Option Bytes → Uplink
  begun none = s
  begun (some payload) = record s { is_open = true; written = s.written ++ (payload ∷ []) }

  deliver-IsEager : Gives IsEager (deliver u seq body s)
  unfolding deliver deliver_next deliver_first buffer
  deliver-IsEager = ground (
    arith,
    v.due,
    v.unsent,
    drain-IsEager (length s.seq_buf) u.closing (s.next_seq + 1)
        (record s { written = s.written ++ (body ∷ []) }),
    drain-IsEager (length s.seq_buf) u.closing 1 (begun (u.connect body)),
    get-put s.seq_buf seq s.next_seq body,
  )

  deliver-Has : (k : ℕ) → (k ≡ seq) ⊎ Has k s → Gives (Has k) (deliver u seq body s)
  unfolding deliver deliver_next deliver_first buffer
  deliver-Has k h = ground (
    arith,
    v.unsent,
    drain-Has (length s.seq_buf) u.closing (s.next_seq + 1) k
        (record s { written = s.written ++ (body ∷ []) }),
    drain-Has (length s.seq_buf) u.closing 1 k (begun (u.connect body)),
    get-put s.seq_buf seq k body,
  )

Gives-taken : (P : Uplink → Type 0) (d : Delivery) (t : Uplink) → d ≡ taken t → Gives P d → P t
Gives-taken P torn_down t e h = absurd (ground arith)
Gives-taken P (taken s) t e h = let same : s ≡ t = cc in subst P same h

-- The number `k` is among the packets.
abbrev pub Arrives : ℕ → List (ℕ × Bytes) → Type 0
Arrives k [] = ⊥
Arrives k ((seq, body) ∷ ps) = (k ≡ seq) ⊎ Arrives k ps

deliver_all-Has :
    (u : Upstream) (ps : List (ℕ × Bytes)) (s t : Uplink) (k : ℕ)
    → deliver_all u ps s ≡ taken t
    → IsEager s
    → Arrives k ps ⊎ Has k s
    → IsEager t × Has k t
unfolding deliver_all
deliver_all-Has u [] s t k e v (inl none_) = absurd none_
deliver_all-Has u [] s t k e v (inr h) =
    let same : s ≡ t = cc in (subst IsEager same v, subst (Has k) same h)
deliver_all-Has u ((seq, body) ∷ ps) s t k e v h = elim (Delivery-cases (deliver u seq body s)) [
  | inl (s', d) ↦
      deliver_all-Has u ps s' t k (ground (arith, d))
        (Gives-taken IsEager _ s' d (deliver-IsEager u seq body s v))
        (later h (λ now. Gives-taken (Has k) _ s' d (deliver-Has u seq body s v k now)))
  | inr d ↦ absurd (ground (arith, d))
]
  where
    later :
        {P : Type 0}
        → Arrives k ((seq, body) ∷ ps) ⊎ Has k s
        → (((k ≡ seq) ⊎ Has k s) → P)
        → Arrives k ps ⊎ P
    later (inl (inl now)) f = inr (f (inl now))
    later (inl (inr rest)) f = inl rest
    later (inr h) f = inr (f (inr h))

elem-Arrives :
    (body : ℕ → Bytes) (payload : Bytes) (k : ℕ) (ks : List ℕ)
    → elem k ks ≡ true
    → Arrives k (packets body payload ks)
elem-Arrives body payload k [] h = absurd (ground arith)
elem-Arrives body payload k (j ∷ ks) h = elim (Bool-cases (k == j)) [
  | inl same ↦ inl ((nat_same_iff k j).0 same)
  | inr other ↦ inr (elem-Arrives body payload k ks (ground (arith, other)))
]

next_seq-reached :
    (u : Upstream) (ps : List (ℕ × Bytes)) (t : Uplink) (n : ℕ)
    → deliver_all u ps new_uplink ≡ taken t
    → ((k : ℕ) → k < n → Arrives k ps)
    → n ≤ t.next_seq
next_seq-reached u ps t n e arrived = elim (dec_lt t.next_seq n) [
  | yes short ↦
      let (v, has) =
        deliver_all-Has u ps new_uplink t t.next_seq e
          (unfold get in record { due = refl; unsent = refl }) (inl (arrived t.next_seq short)) in
      absurd (ground (arith, v.due))
  | no reached ↦ omega arith
]

-- What the first packets carry stands first in what more of them carry.
carried-first :
    (body : ℕ → Bytes) (payload : Bytes) (n k : ℕ)
    → (rest : List Bytes) × (carried body payload (n + k) ≡ carried body payload n ++ rest)
carried-first body payload zero k =
    let all : 0 + k ≡ k = omega arith in (carried body payload k, ap (carried body payload) all)
carried-first body payload (suc n) zero =
    let none_more : suc n + 0 ≡ suc n = omega arith in
    ([], ap (carried body payload) none_more ∙ sym (append-nil (carried body payload (suc n))))
carried-first body payload (suc n) (suc k) =
    let (rest, e) = carried-first body payload (suc n) k in
    let last : List Bytes = body (suc n + k) ∷ [] in
    let more : suc n + suc k ≡ suc n + k + 1 = omega arith in
    (
      rest ++ last,
      ap (carried body payload) more
          ∙ carried-suc body payload (suc n + k) (omega arith)
          ∙ ap (λ (t : List Bytes). t ++ last) e
          ∙ append_assoc (carried body payload (suc n)) rest last,
    )

-- Once the packets 0 to n - 1 of a new session have all arrived, in any order and with any others of the
-- client's packets between them, the upstream was given what they carry, in order and before all else, as long
-- as the session lives. What `connect` makes of packet 0 is the payload.
pub deliver_all_complete :
    (body : ℕ → Bytes) (payload : Bytes) (u : Upstream) (ks : List ℕ) (t : Uplink) (n : ℕ)
    → u.connect (body 0) ≡ some payload
    → deliver_all u (packets body payload ks) new_uplink ≡ taken t
    → ((k : ℕ) → k < n → elem k ks ≡ true)
    → (rest : List Bytes) × (t.written ≡ carried body payload n ++ rest)
deliver_all_complete body payload u ks t n opens e arrived =
    let reached =
      next_seq-reached u (packets body payload ks) t n e
        (λ k small. elem-Arrives body payload k ks (arrived k small)) in
    let v =
      deliver_all-InOrder body payload u ks new_uplink t opens
        (record { in_order = refl; started = refl; waits = tt }) e in
    let (rest, split) = carried-first body payload n (t.next_seq - n) in
    let whole : t.next_seq ≡ n + (t.next_seq - n) = omega arith in
    (rest, v.in_order ∙ ap (carried body payload) whole ∙ split)
