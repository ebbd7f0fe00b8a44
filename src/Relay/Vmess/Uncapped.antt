-- ===== src/Relay/Vmess/Uncapped.antt =====
-- core/emunel_core/relay/vmess.py: `account` and the cap of the instance.
use emunel.Prelude.{
  ℕ, ◌+◌, ◌≡◌, refl, true, some, List, [], ◌∷◌, Str, codes, ◌==◌, str_eq, str_beq_iff, arith,
  sum_of,
}
use emunel.Prelude.Int.{pos}
use emunel.Prelude.Dict.{get, put, get-put}
use emunel.State.Link.{Link, Clock, is_allowed, is_expired, over_quota}
use emunel.State.Links.{LinkStore, spend, charge}
use emunel.State.Stats.{add_traffic}
use emunel.Relay.Gate.{RelayContext}
use emunel.Relay.Vmess.{account, relay_all}

-- A link for VMess without a quota, which may relay.
pub record IsOpen (k : Clock) (l : Link) : Type 0 where
  pub vmess : (l.protocol == codes "vmess-ws") ≡ true
  pub unlimited : l.limit_bytes ≡ pos 0
  pub allowed : is_allowed k l ≡ true

charge-IsOpen : (k : Clock) (l : Link) (n : ℕ) → IsOpen k l → IsOpen k (charge l n)
unfolding is_allowed is_expired over_quota
charge-IsOpen k l n v = record {
  vmess = v.vmess;
  unlimited = v.unlimited;
  allowed = ground (arith, v.allowed, v.unlimited);
}

spend-open :
    (k : Clock) (links : LinkStore) (uuid : Str) (n : ℕ) (l : Link)
    → get links uuid ≡ some l
    → is_allowed k l ≡ true
    → spend k links uuid n ≡ (put links uuid (charge l n), true)
unfolding spend
spend-open k links uuid n l e v = rw (e, v) refl

account-open :
    (k : Clock) (hour conn_id uuid : Str) (n : ℕ) (ctx : RelayContext) (l : Link)
    → get ctx.links uuid ≡ some l
    → IsOpen k l
    → (let r = account k hour conn_id uuid n ctx in
        (r.1 ≡ true)
        × (get r.0.links uuid ≡ some (charge l n))
        × (r.0.stats.total_bytes ≡ ctx.stats.total_bytes + n))
unfolding account add_traffic
account-open k hour conn_id uuid n ctx l e v =
    rw (e, v.vmess, v.allowed, spend-open k ctx.links uuid n l e v.allowed)
      (
        refl,
        ground (arith, get-put ctx.links uuid uuid (charge l n), (str_beq_iff uuid uuid).1 refl),
        refl,
      )

-- The cap of the instance does not stop VMess: whatever the cap is and however far the total is past it, the
-- frames of a tunnel are all passed on and counted. The link has no quota and is allowed.
relay_all_uncapped :
    (k : Clock) (hour conn_id uuid : Str) (frames : List ℕ) (ctx : RelayContext) (l : Link)
    → get ctx.links uuid ≡ some l
    → IsOpen k l
    → (let r = relay_all k hour conn_id uuid frames ctx in
        (r.1 ≡ sum_of (λ n. n) frames)
        × (r.0.stats.total_bytes ≡ ctx.stats.total_bytes + sum_of (λ n. n) frames))
unfolding relay_all
relay_all_uncapped k hour conn_id uuid [] ctx l e v = (refl, omega arith)
relay_all_uncapped k hour conn_id uuid (n ∷ ns) ctx l e v =
    let (ok, found, total) = account-open k hour conn_id uuid n ctx l e v in
    let rest =
      relay_all_uncapped k hour conn_id uuid ns (account k hour conn_id uuid n ctx).0 (charge l n)
        found (charge-IsOpen k l n v) in
    rw ok (omega (arith, rest.0), omega (arith, rest.1, total))
