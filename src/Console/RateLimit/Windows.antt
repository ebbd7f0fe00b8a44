-- ===== src/Console/RateLimit/Windows.antt =====
-- console/api/emunel_console/security/ratelimit.py: the windows over any sequence of calls.
use emunel.Prelude.{
  ℕ, suc, ◌+◌, ◌≤◌, ◌≡◌, refl, List, [], ◌∷◌, ◌++◌, Str, length, ltb, ◌==◌, str_eq, if◌then◌else◌,
  All, arith, length-append, ◌⊎◌, false,
}
use emunel.Prelude.Dict.{get, put, get-put}
use emunel.Console.RateLimit.{
  Rule, RateLimiter, Verdict, passed, limited, broken, hits_of, prune, judge, check, refuse,
}

pub record Call : Type 0 where
  pub key : Str
  pub rule : Rule
  pub now : ℕ

-- The calls that passed, newest first.
abbrev pub Log : Type 0
Log = List (Str × ℕ)

abbrev pub noted : Call → Log → Verdict → RateLimiter × Log
noted c log (passed hits) = (hits, (c.key, c.now) ∷ log)
noted c log (limited retry hits) = (hits, log)
noted c log (broken hits) = (hits, log)

unfoldable pub check_all : List Call → RateLimiter → Log → RateLimiter × Log
check_all [] hits log = (hits, log)
check_all (c ∷ cs) hits log =
    let (hits', log') = noted c log (check c.key c.rule c.now hits) in check_all cs hits' log'

-- How many of the times fall into the window that ends at `t`.
abbrev pub recent : ℕ → ℕ → List ℕ → ℕ
recent width t [] = 0
recent width t (x ∷ xs) =
    let rest = recent width t xs in if ltb t (x + width) then suc rest else rest

-- The times at which the key passed.
abbrev pub passes_of : Str → Log → List ℕ
passes_of key [] = []
passes_of key ((k, x) ∷ log) = let rest = passes_of key log in if k == key then x ∷ rest else rest

recent-prune :
    (width t now : ℕ) (xs : List ℕ)
    → now ≤ t
    → recent width t (prune width now xs) ≡ recent width t xs
unfolding prune
recent-prune width t now [] h = refl
recent-prune width t now (x ∷ xs) h = ground (arith, recent-prune width t now xs h)

recent-append :
    (width t now : ℕ) (xs : List ℕ)
    → recent width t (xs ++ (now ∷ [])) ≡ recent width t xs + (if ltb t (now + width) then 1 else 0)
recent-append width t now [] = ground arith
recent-append width t now (x ∷ xs) = ground (arith, recent-append width t now xs)

recent-le : (width t : ℕ) (xs : List ℕ) → recent width t xs ≤ length xs
recent-le width t [] = omega arith
recent-le width t (x ∷ xs) = ground (arith, recent-le width t xs)

pub length-prune-le : (width now : ℕ) (xs : List ℕ) → length (prune width now xs) ≤ length xs
unfolding prune
length-prune-le width now [] = omega arith
length-prune-le width now (x ∷ xs) = ground (arith, length-prune-le width now xs)

pub noted-refuse :
    (c : Call) (log : Log) (window : List ℕ) (hits : RateLimiter)
    → noted c log (refuse c.rule c.now window hits) ≡ (hits, log)
noted-refuse c log [] hits = refl
noted-refuse c log (x ∷ xs) hits = refl

module _ (width limit t : ℕ) (key : Str) where
  -- A call up to time `t`: one for another key, or under a rule with this width and at most this limit.
  abbrev pub IsDue : Call → Type 0
  IsDue c =
      (((c.key == key) ≡ false) ⊎ ((c.rule.window ≡ width) × (c.rule.limit ≤ limit))) × (c.now ≤ t)

  -- The window of the key has no more hits than the limit, and holds every pass that still counts.
  pub record Covers (s : RateLimiter × Log) : Type 0 where
    pub fits : length (hits_of s.0 key) ≤ limit
    pub held : recent width t (passes_of key s.1) ≤ recent width t (hits_of s.0 key)

  check-Covers :
      (c : Call) (hits : RateLimiter) (log : Log)
      → IsDue c
      → Covers (hits, log)
      → Covers (noted c log (check c.key c.rule c.now hits))
  unfolding check judge
  check-Covers c hits log (rules, n) v =
      let window = prune c.rule.window c.now (hits_of hits c.key) in
      let old = get-put hits c.key key window in
      let new = get-put hits c.key key (window ++ (c.now ∷ [])) in
      let shrinks = length-prune-le c.rule.window c.now (hits_of hits c.key) in
      let keeps = recent-prune c.rule.window t c.now (hits_of hits c.key) n in
      let grows = recent-append c.rule.window t c.now window in
      let longer = length-append window (c.now ∷ []) in
      let refused = noted-refuse c log window (put hits c.key window) in
      record {
        fits = ground (arith, v.fits, str_eq.same_iff c.key key);
        held = ground (arith, v.held, str_eq.same_iff c.key key);
      }

  pub check_all-Covers :
      (cs : List Call) (hits : RateLimiter) (log : Log)
      → All IsDue cs
      → Covers (hits, log)
      → Covers (check_all cs hits log)
  unfolding check_all
  check_all-Covers [] hits log h v = v
  check_all-Covers (c ∷ cs) hits log h v =
      let (hits', log') = noted c log (check c.key c.rule c.now hits) in
      check_all-Covers cs hits' log' h.1 (check-Covers c hits log h.0 v)

  -- In every window of time a key passes `limit` times at most, whatever calls of other keys, under whatever
  -- rules, come between: up to any time `t`, the passes of the last `width` milliseconds are no more than the
  -- limit, if the rules of this key's own calls have this width and no limit above this one.
  pub check_all-recent :
      (cs : List Call)
      → All IsDue cs
      → recent width t (passes_of key (check_all cs [] []).1) ≤ limit
  check_all-recent cs h =
      let v =
        check_all-Covers cs [] [] h
          (unfold get in record { fits = omega arith; held = omega arith }) in
      omega (arith, v.fits, v.held, recent-le width t (hits_of (check_all cs [] []).0 key))
