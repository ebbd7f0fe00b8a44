-- ===== src/State/Links/Quota.antt =====
-- core/emunel_core/state.py: the quota of a link over any sequence of `LinkStore.use` calls.
use emunel.Prelude.{
  ℕ, ◌+◌, ◌≤◌, ◌≡◌, refl, ◌∙◌, Bool, true, false, some, List, [], ◌∷◌, Str, arith, ◌==◌, str_eq,
  if◌then◌else◌, ◌⊎◌, inl, inr, All, ◌&&◌, str_beq_iff, Option-cases,
}
use emunel.Prelude.Int.{ℤ, pos, ◌+ℤ◌, ◌<ℤ◌, int_laws, +ℤ_parts}
use emunel.Prelude.Dict.{get, get-put}
use emunel.State.Link.{Link, Clock, is_allowed, over_quota}
use emunel.State.Links.{LinkStore, charge, spend, use_link}
use emunel.State.Links.Spend.{Charge, spend_all, accepted}

-- Where a call for a link succeeds, the link was within its quota.
is_allowed-over_quota : (k : Clock) (l : Link) → is_allowed k l ≡ true → over_quota l ≡ false
unfolding is_allowed
is_allowed-over_quota k l h = ground arith

+ℤ-zero : (a : ℤ) → a +ℤ pos 0 ≡ a
unfolding ◌+ℤ◌
+ℤ-zero a = ground arith

+ℤ-pos_assoc : (a : ℤ) (m n : ℕ) → a +ℤ pos m +ℤ pos n ≡ a +ℤ pos (m + n)
+ℤ-pos_assoc a m n = omega int_laws

charge-UnderCap :
    (l : Link) (n b : ℕ)
    → pos 0 <ℤ l.limit_bytes
    → over_quota l ≡ false
    → n ≤ b
    → l.used_bytes +ℤ pos n <ℤ l.limit_bytes +ℤ pos b
unfolding over_quota
charge-UnderCap l n b limited within small =
    ground (arith, +ℤ_parts l.used_bytes (pos n), +ℤ_parts l.limit_bytes (pos b))

abbrev charges : LinkStore → Str → Charge → Bool
charges links u c = (spend c.clock links c.uuid c.bytes).1 && c.uuid == u

abbrev Charged : LinkStore → Str → Link → Charge → Type 0
Charged links u l c =
    (charges links u c ≡ true)
    × (over_quota l ≡ false)
    × (get (spend c.clock links c.uuid c.bytes).0 u ≡ some (charge l c.bytes))

abbrev Untouched : LinkStore → Str → Link → Charge → Type 0
Untouched links u l c =
    (charges links u c ≡ false) × (get (spend c.clock links c.uuid c.bytes).0 u ≡ some l)

pub spend_cases :
    (links : LinkStore) (u : Str) (l : Link) (c : Charge)
    → get links u ≡ some l
    → Charged links u l c ⊎ Untouched links u l c
unfolding spend
spend_cases links u l c h = elim (Option-cases (get links c.uuid)) [
  | inl gone ↦ inr (rw (gone, use_link) refl, rw (gone, use_link) h)
  | inr (m, found) ↦ ground (
    arith,
    found,
    str_beq_iff c.uuid u,
    get-put links c.uuid u (charge m c.bytes),
    is_allowed-over_quota c.clock m,
  )
]

-- The link of `u` after one more call.
abbrev after : LinkStore → Str → Link → Charge → Link
after links u l c = if charges links u c then charge l c.bytes else l

get-spend :
    (links : LinkStore) (u : Str) (l : Link) (c : Charge)
    → get links u ≡ some l
    → get (spend c.clock links c.uuid c.bytes).0 u ≡ some (after links u l c)
get-spend links u l c h = ground (arith, spend_cases links u l c h)

-- The link of `u` after any sequence of calls is the link that it was, with the accepted bytes added
-- to its counter: no byte that `use` accepted is lost, and none is counted twice.
spend_all-accepted :
    (links : LinkStore) (u : Str) (l : Link) (cs : List Charge)
    → get links u ≡ some l
    → get (spend_all links cs) u
      ≡ some (record l { used_bytes = l.used_bytes +ℤ pos (accepted u links cs) })
unfolding spend_all accepted
spend_all-accepted links u l [] h = rw (+ℤ-zero l.used_bytes) h
spend_all-accepted links u l (c ∷ cs) h = ground (
  arith,
  spend_cases links u l c h,
  spend_all-accepted (spend c.clock links c.uuid c.bytes).0 u (after links u l c) cs,
  get-spend links u l c h,
  +ℤ-pos_assoc l.used_bytes c.bytes (accepted u (spend c.clock links c.uuid c.bytes).0 cs),
)

abbrev pub UnderCap : ℕ → Link → Type 0
UnderCap b l = l.used_bytes <ℤ l.limit_bytes +ℤ pos b

-- With a limit, and no call of more than `b` bytes, the counter stays below the limit plus `b`,
-- whatever the calls, their order and the clock.
spend_all-UnderCap :
    (links : LinkStore) (u : Str) (l : Link) (b : ℕ) (cs : List Charge)
    → get links u ≡ some l
    → pos 0 <ℤ l.limit_bytes
    → UnderCap b l
    → All (λ c. c.bytes ≤ b) cs
    → (m : Link) × (get (spend_all links cs) u ≡ some m)
      × (m.limit_bytes ≡ l.limit_bytes)
      × UnderCap b m
unfolding spend_all
spend_all-UnderCap links u l b [] h limited under small = (l, h, refl, under)
spend_all-UnderCap links u l b (c ∷ cs) h limited under small = elim (spend_cases links u l c h) [
  | inl (t, open_, e) ↦
      spend_all-UnderCap (spend c.clock links c.uuid c.bytes).0 u (charge l c.bytes) b cs e limited
        (charge-UnderCap l c.bytes b limited open_ small.0) small.1
  | inr (t, e) ↦
      spend_all-UnderCap (spend c.clock links c.uuid c.bytes).0 u l b cs e limited under small.1
]

-- The link of `u` is there with the limit `limit`, and its counter is below the limit plus `b`.
abbrev pub HoldsQuota : Str → ℤ → ℕ → LinkStore → Type 0
HoldsQuota u limit b links =
    (m : Link) × (get links u ≡ some m) × (m.limit_bytes ≡ limit) × UnderCap b m

-- One call of at most `b` bytes.
pub spend-HoldsQuota :
    (k : Clock) (links : LinkStore) (u v : Str) (limit : ℤ) (n b : ℕ)
    → pos 0 <ℤ limit
    → n ≤ b
    → HoldsQuota u limit b links
    → HoldsQuota u limit b (spend k links v n).0
unfolding spend_all
spend-HoldsQuota k links u v limit n b limited small (l, e, el, under) =
    let (m, found, same, below) =
      spend_all-UnderCap links u l b (record { clock = k; uuid = v; bytes = n } ∷ []) e
        (rw el limited) under (small, tt) in
    (m, found, same ∙ el, below)

-- A link whose quota is used up stays as it is: no later call is charged to it, at any clock.
spent_stays_spent :
    (links : LinkStore) (u : Str) (l : Link) (cs : List Charge)
    → get links u ≡ some l
    → over_quota l ≡ true
    → (get (spend_all links cs) u ≡ some l) × (accepted u links cs ≡ 0)
unfolding spend_all accepted
spent_stays_spent links u l [] h over = (h, refl)
spent_stays_spent links u l (c ∷ cs) h over = ground (
  arith,
  spend_cases links u l c h,
  spent_stays_spent (spend c.clock links c.uuid c.bytes).0 u l cs,
)
