-- ===== src/Relay/Xhttp/Packets.antt =====
-- core/emunel_core/relay/xhttp.py: the packets of `packet_up_upload`, from the point where a packet's
-- body is read, sized and accounted. The calls of one session are taken one after the other.
pub mod Order
pub mod Budget
pub mod Progress
use emunel.Prelude.{
  ℕ, zero, suc, ◌+◌, ◌*◌, Bool, true, false, ◌||◌, Option, none, some, List, [], ◌∷◌, ◌++◌, length,
  leb, ltb, ◌==◌, nat_eq, ◌≡◌, refl, ◌⊎◌, inl, inr, if◌then◌else◌,
}
use emunel.Prelude.Dict.{Dict, get, put, remove}

abbrev pub Bytes : Type 0
Bytes = List ℕ

abbrev pub max_seq_buf_entries : ℕ
max_seq_buf_entries = 256

abbrev pub max_seq_buf_bytes : ℕ
max_seq_buf_bytes = 4 * 1024 * 1024

-- The part of a session that `packet_up_upload` works on. `is_open` says that there is a writer, and
-- `written` is what it was given, oldest first.
pub record Uplink : Type 0 where
  pub is_open : Bool
  pub written : List Bytes
  pub seq_buf : Dict ℕ Bytes
  pub seq_buf_bytes : ℕ
  pub next_seq : ℕ

abbrev pub new_uplink : Uplink
new_uplink = record { is_open = false; written = []; seq_buf = []; seq_buf_bytes = 0; next_seq = 0 }

-- `connect` is `_open_tcp_for_session` on the first packet: the payload behind the header that it
-- writes, or `none` where it raises. `closing` is `writer.is_closing()`.
pub record Upstream : Type 0 where
  pub connect : Bytes → Option Bytes
  pub closing : Bool

-- A packet is taken, or the session is torn down and the answer is an error.
pub data Delivery : Type 0 where
  taken : Uplink → Delivery
  torn_down : Delivery

pub Delivery-cases : (d : Delivery) → ((t : Uplink) × (d ≡ taken t)) ⊎ (d ≡ torn_down)
Delivery-cases (taken t) = inl (t, refl)
Delivery-cases torn_down = inr refl

abbrev write : Bytes → Uplink → Uplink
write body s = record s { written = s.written ++ (body ∷ []) }

-- `while nxt in seq_buf`: each round pops an entry, so the size of the buffer is enough fuel.
unfoldable pub drain : ℕ → Bool → ℕ → Uplink → Delivery
drain zero closing nxt s = taken (record s { next_seq = nxt })
drain (suc fuel) closing nxt s = elim (get s.seq_buf nxt) [
  | none ↦ taken (record s { next_seq = nxt })
  | some pending ↦ elim closing [
    | true ↦ torn_down
    | false ↦
        drain fuel false (nxt + 1) (write pending (record s { seq_buf = remove s.seq_buf nxt }))
  ]
]

unfoldable pub buffer : ℕ → Bytes → Uplink → Delivery
buffer seq body s =
    if leb max_seq_buf_entries (length s.seq_buf)
      || ltb max_seq_buf_bytes (s.seq_buf_bytes + length body)
    then torn_down
    else taken (record s {
      seq_buf = put s.seq_buf seq body;
      seq_buf_bytes = s.seq_buf_bytes + length body;
    })

abbrev connected : Bool → Option Bytes → Uplink → Delivery
connected closing none s = torn_down
connected closing (some payload) s =
    drain (length s.seq_buf) closing 1 (write payload (record s { is_open = true }))

unfoldable pub deliver_first : Upstream → ℕ → Bytes → Uplink → Delivery
deliver_first u seq body s =
    if seq == 0 then connected u.closing (u.connect body) s else buffer seq body s

unfoldable pub deliver_next : Upstream → ℕ → Bytes → Uplink → Delivery
deliver_next u seq body s =
    if seq == s.next_seq
    then (if u.closing
        then torn_down
        else drain (length s.seq_buf) u.closing (s.next_seq + 1) (write body s))
    else buffer seq body s

unfoldable pub deliver : Upstream → ℕ → Bytes → Uplink → Delivery
deliver u seq body s = if s.is_open then deliver_next u seq body s else deliver_first u seq body s

-- Packets in the order in which they arrive, with one upstream for the whole run. After a teardown
-- there is no session.
unfoldable pub deliver_all : Upstream → List (ℕ × Bytes) → Uplink → Delivery
deliver_all u [] s = taken s
deliver_all u ((seq, body) ∷ ps) s = elim (deliver u seq body s) [
  | torn_down ↦ torn_down
  | taken s' ↦ deliver_all u ps s'
]
