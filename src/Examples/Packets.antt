-- ===== src/Examples/Packets.antt =====
-- core/emunel_core/relay/xhttp.py: packets out of order.
use emunel.Prelude.{
  List, ◌++◌, elem, nat_eq, ℕ, ◌+◌, ◌-◌, ◌*◌, ◌<◌, ◌≡◌, refl, true, false, some, [], ◌∷◌, arith,
  drop,
}
use emunel.Prelude.Dict.{get, put, remove}
use emunel.Relay.Xhttp.Packets.{
  Bytes, Uplink, Upstream, taken, torn_down, new_uplink, deliver, deliver_all, deliver_first,
  deliver_next, drain, buffer,
}
use emunel.Relay.Xhttp.Packets.Order.{InOrder, carried, packets, deliver_all-InOrder}
use emunel.Relay.Xhttp.Packets.Progress.{deliver_all_complete}
use emunel.Relay.Xhttp.Packets.Budget.{IsDrained, swaps, swaps_exhaust}

abbrev packet_body : ℕ → Bytes
packet_body k = k ∷ k ∷ []

-- The header is one byte.
abbrev upstream : Upstream
upstream = record { connect = λ b. some (drop 1 b); closing = false }

abbrev three_taken : Uplink
three_taken = record {
  is_open = true;
  written = (0 ∷ []) ∷ packet_body 1 ∷ packet_body 2 ∷ [];
  seq_buf = [];
  seq_buf_bytes = 4;
  next_seq = 3;
}

three :
    deliver_all upstream (packets packet_body (0 ∷ []) (2 ∷ 1 ∷ 0 ∷ [])) new_uplink
    ≡ taken three_taken
unfolding deliver_all deliver deliver_first deliver_next drain buffer get put remove
three = refl

deliver_all-InOrder_example : InOrder packet_body (0 ∷ []) three_taken
deliver_all-InOrder_example =
    deliver_all-InOrder packet_body (0 ∷ []) upstream (2 ∷ 1 ∷ 0 ∷ []) new_uplink three_taken refl
      (record { in_order = refl; started = refl; waits = tt }) three

all_arrive : (k : ℕ) → k < 3 → elem k (2 ∷ 1 ∷ 0 ∷ []) ≡ true
all_arrive k h = ground arith

deliver_all_complete_example :
    (rest : List Bytes) × (three_taken.written ≡ carried packet_body (0 ∷ []) 3 ++ rest)
deliver_all_complete_example =
    deliver_all_complete packet_body (0 ∷ []) upstream (2 ∷ 1 ∷ 0 ∷ []) three_taken 3 refl three
      all_arrive

-- One byte is left of the 4 MB when the next two pairs come.
abbrev late : Uplink
late = record {
  is_open = true;
  written = [];
  seq_buf = [];
  seq_buf_bytes = 4 * 1024 * 1024 - 1;
  next_seq = 7;
}

swaps_exhaust_example :
    (t : Uplink) × (deliver_all upstream (swaps 7 ((1 ∷ [], 2 ∷ []) ∷ [])) late ≡ taken t)
    × IsDrained (4 * 1024 * 1024) t
    × (deliver upstream (t.next_seq + 1) (3 ∷ []) t ≡ torn_down)
swaps_exhaust_example =
    swaps_exhaust upstream (4 * 1024 * 1024 - 1) late ((1 ∷ [], 2 ∷ []) ∷ []) (3 ∷ []) refl
      (record { is_open = refl; nothing_waits = refl; counted = refl }) (omega arith) (omega arith)
