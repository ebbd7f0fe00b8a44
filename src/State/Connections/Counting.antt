-- ===== src/State/Connections/Counting.antt =====
-- core/emunel_core/state.py, `ConnectionTracker`: how many different addresses a list holds.
use emunel.Prelude.{
  ℕ, ◌+◌, ◌≤◌, ◌≡◌, refl, true, none, some, List, [], ◌∷◌, ◌++◌, Str, length, arith, elem, ◌==◌,
  str_eq, if◌then◌else◌, map, keep,
}
use mathlib.Core.List.{append_assoc}
use emunel.Prelude.Dict.{get, put, remove}
use emunel.State.Connections.{Conn, ConnectionTracker, distinct, is_from, values}

abbrev pub card : List Str → ℕ
card xs = length (distinct xs)

pub elem-distinct : (a : Str) (xs : List Str) → elem a (distinct xs) ≡ elem a xs
unfolding distinct
elem-distinct a [] = refl
elem-distinct a (x ∷ xs) =
    ground (arith, elem-distinct a xs, elem-distinct x xs, str_eq.same_iff x a)

card-cons : (x : Str) (xs : List Str) → card (x ∷ xs) ≡ card xs + (if elem x xs then 0 else 1)
unfolding distinct
card-cons x xs = ground (arith, elem-distinct x xs)

elem-insert :
    (a x : Str) (ys bs : List Str)
    → elem a (ys ++ (x ∷ bs)) ≡ (if x == a then true else elem a (ys ++ bs))
elem-insert a x [] bs = refl
elem-insert a x (b ∷ ys) bs = ground (arith, elem-insert a x ys bs)

-- Where an element stands makes no difference.
pub card-insert :
    (x : Str) (ys bs : List Str)
    → card (ys ++ (x ∷ bs)) ≡ card (ys ++ bs) + (if elem x (ys ++ bs) then 0 else 1)
card-insert x [] bs = card-cons x bs
card-insert x (a ∷ ys) bs = ground (
  arith,
  card-insert x ys bs,
  card-cons a (ys ++ (x ∷ bs)),
  card-cons a (ys ++ bs),
  elem-insert a x ys bs,
  str_eq.same_iff x a,
  str_eq.same_iff a x,
)

abbrev pub ips : Str → ConnectionTracker → List Str
ips uuid conns = map (λ c. c.ip) (keep (is_from uuid) (values conns))

pub card-remove :
    (uuid conn_id : Str) (ys : List Str) (conns : ConnectionTracker)
    → card (ys ++ ips uuid (remove conns conn_id)) ≤ card (ys ++ ips uuid conns)
unfolding remove
card-remove uuid conn_id ys [] = omega arith
card-remove uuid conn_id ys ((j, c) ∷ conns) = ground (
  arith,
  card-remove uuid conn_id ys conns,
  card-remove uuid conn_id (ys ++ (c.ip ∷ [])) conns,
  card-insert c.ip ys (ips uuid conns),
  append_assoc ys (c.ip ∷ []) (ips uuid conns),
  append_assoc ys (c.ip ∷ []) (ips uuid (remove conns conn_id)),
)

-- A new connection adds its address at the end, if it counts for the link.
pub ips-put :
    (uuid conn_id : Str) (c : Conn) (conns : ConnectionTracker)
    → get conns conn_id ≡ none
    → ips uuid (put conns conn_id c) ≡ ips uuid conns ++ (if is_from uuid c then c.ip ∷ [] else [])
unfolding get put
ips-put uuid conn_id c [] h = ground arith
ips-put uuid conn_id c ((j, d) ∷ conns) h = ground (arith, ips-put uuid conn_id c conns)

-- More bytes on a connection change no address.
pub ips-grow :
    (uuid conn_id : Str) (c : Conn) (n : ℕ) (conns : ConnectionTracker)
    → get conns conn_id ≡ some c
    → ips uuid (put conns conn_id (record c { bytes = c.bytes + n })) ≡ ips uuid conns
unfolding get put
ips-grow uuid conn_id c n [] h = absurd (ground arith)
ips-grow uuid conn_id c n ((j, d) ∷ conns) h = ground (arith, ips-grow uuid conn_id c n conns)
