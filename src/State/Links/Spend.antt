-- ===== src/State/Links/Spend.antt =====
-- core/emunel_core/state.py: one call of `LinkStore.use`.
use mathlib.Core.Option
use emunel.Prelude.{
  ℕ, ◌+◌, ◌≡◌, List, [], ◌∷◌, Str, arith, ◌==◌, str_eq, if◌then◌else◌, is_some, Option-cases, inl,
  inr, ◌&&◌, str_beq_iff,
}
use emunel.Prelude.Dict.{get, get-put}
use emunel.State.Link.{Clock, is_allowed}
use emunel.State.Links.{LinkStore, get_allowed, charge, spend, use_link}

-- `use` succeeds exactly when `get_allowed` finds the link; then it adds `n` to that link's counter,
-- and it changes no other link. When it fails it changes nothing.
spend_lem :
    (k : Clock) (links : LinkStore) (u j : Str) (n : ℕ)
    → ((spend k links u n).1 ≡ is_some (get_allowed k links u))
      × (get (spend k links u n).0 j ≡ (
          if (spend k links u n).1 && u == j
          then Option.map (λ l. charge l n) (get links j)
          else get links j))
unfolding spend get_allowed
spend_lem k links u j n = elim (Option-cases (get links u)) [
  | inl gone ↦ rw (gone, use_link) (ground arith)
  | inr (l, found) ↦
      ground (arith, found, str_beq_iff u j, get-put links u j (charge l n), is_allowed k l)
]

-- A call at its clock: the link that is charged, and the bytes.
pub record Charge : Type 0 where
  pub clock : Clock
  pub uuid : Str
  pub bytes : ℕ

-- The store after a sequence of calls, of all connections in the order in which they run.
unfoldable pub spend_all : LinkStore → List Charge → LinkStore
spend_all links [] = links
spend_all links (c ∷ cs) = spend_all (spend c.clock links c.uuid c.bytes).0 cs

-- The bytes that the successful calls for one link add up to.
unfoldable pub accepted : Str → LinkStore → List Charge → ℕ
accepted u links [] = 0
accepted u links (c ∷ cs) =
    (if (spend c.clock links c.uuid c.bytes).1 && c.uuid == u then c.bytes else 0)
    + accepted u (spend c.clock links c.uuid c.bytes).0 cs
