-- ===== src/State/Links.antt =====
-- core/emunel_core/state.py: `LinkStore`. Its methods never suspend while they hold the lock, so each
-- is one step.
pub mod Spend
pub mod Quota
use emunel.Prelude.{
  ℕ, ◌+◌, Bool, true, false, Option, none, some, List, [], ◌∷◌, Str, length, map, sum_of, keep,
  if◌then◌else◌, str_eq, str_beq,
}
use emunel.Prelude.Int.{ℤ, pos, ◌+ℤ◌}
use emunel.Prelude.Dict.{Dict, get, put, remove}
use emunel.State.Link.{Link, Clock, is_allowed, is_expired}

abbrev pub LinkStore : Type 0
LinkStore = Dict Str Link

unfoldable pub add : LinkStore → Link → LinkStore
add links link = put links link.uuid link

-- `remove`: the link that was there, and the store without it
unfoldable pub pop : LinkStore → Str → LinkStore × Option Link
pop links uuid = (remove links uuid, get links uuid)

abbrev if_allowed : Clock → Option Link → Option Link
if_allowed k none = none
if_allowed k (some link) = if is_allowed k link then some link else none

unfoldable pub get_allowed : Clock → LinkStore → Str → Option Link
get_allowed k links uuid = if_allowed k (get links uuid)

abbrev pub charge : Link → ℕ → Link
charge link n = record link { used_bytes = link.used_bytes +ℤ pos n }

use_link : Clock → LinkStore → Str → ℕ → Option Link → LinkStore × Bool
use_link k links uuid n none = (links, false)
use_link k links uuid n (some link) =
    if is_allowed k link then (put links uuid (charge link n), true) else (links, false)

-- quota check and accounting
unfoldable pub spend : Clock → LinkStore → Str → ℕ → LinkStore × Bool
unfolding use_link
spend k links uuid n = use_link k links uuid n (get links uuid)

pub record Totals : Type 0 where
  pub count : ℕ
  pub active : ℕ
  pub expired : ℕ
  pub used_bytes : ℤ
  pub limit_bytes : ℤ

sum_ℤ : (Link → ℤ) → List Link → ℤ
sum_ℤ f [] = pos 0
sum_ℤ f (l ∷ ls) = f l +ℤ sum_ℤ f ls

abbrev values : LinkStore → List Link
values = map (λ p. p.1)

unfoldable pub totals : Clock → LinkStore → Totals
unfolding sum_ℤ
totals k links = record {
  count = length (values links);
  active = sum_of (λ l. if is_allowed k l then 1 else 0) (values links);
  expired = sum_of (λ l. if is_expired k l then 1 else 0) (values links);
  used_bytes = sum_ℤ (λ l. l.used_bytes) (values links);
  limit_bytes = sum_ℤ (λ l. l.limit_bytes) (values links);
}
