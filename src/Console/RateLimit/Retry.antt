-- ===== src/Console/RateLimit/Retry.antt =====
-- console/api/emunel_console/security/ratelimit.py: the wait that a refusal of `check` tells.
use emunel.Prelude.{
  ◌==◌, ℕ, ◌+◌, ◌-◌, ◌*◌, ◌/◌, ◌≤◌, ◌≡◌, List, [], ◌∷◌, ◌++◌, Str, length, leb, ==-refl, str_eq,
  All, arith, inl, inr, Bool-cases,
}
use emunel.Prelude.Dict.{get, put, get-put}
use emunel.Console.RateLimit.{
  Rule, RateLimiter, passed, limited, hits_of, prune, judge, check, refuse,
}
use emunel.Console.RateLimit.Windows.{
  Call, Log, noted, noted-refuse, check_all, check_all-Covers, IsDue, length-prune-le,
}

-- What a refusal tells: the first hit that still counts, the wait, and the hits that stay.
abbrev Refused : Rule → ℕ → Str → RateLimiter → ℕ → List ℕ → RateLimiter → Type 0
Refused rule now key hits retry [] h = ⊥
Refused rule now key hits retry (x ∷ xs) h =
    (rule.limit ≤ length (x ∷ xs))
    × (retry ≡ (rule.window - (now - x)) / 1000 + 1)
    × (h ≡ put hits key (x ∷ xs))

refuse-Refused :
    (rule : Rule) (now : ℕ) (key : Str) (hits h : RateLimiter) (retry : ℕ) (window : List ℕ)
    → rule.limit ≤ length window
    → refuse rule now window (put hits key window) ≡ limited retry h
    → Refused rule now key hits retry window h
refuse-Refused rule now key hits h retry [] l e = absurd (ground arith)
refuse-Refused rule now key hits h retry (x ∷ xs) l e = (l, ground arith, ground arith)

judge-Refused :
    (rule : Rule) (now : ℕ) (key : Str) (hits h : RateLimiter) (retry : ℕ) (window : List ℕ)
    → judge rule now key hits window ≡ limited retry h
    → Refused rule now key hits retry window h
unfolding judge
judge-Refused rule now key hits h retry window e =
    elim (Bool-cases (leb rule.limit (length window))) [
      | inl full ↦ refuse-Refused rule now key hits h retry window (ground arith) (ground arith)
      | inr free ↦ absurd (ground arith)
    ]

prune-All : (P : ℕ → Type 0) (width now : ℕ) (xs : List ℕ) → All P xs → All P (prune width now xs)
unfolding prune
prune-All P width now [] h = h
prune-All P width now (x ∷ xs) h = elim (Bool-cases (leb (x + width) now)) [
  | inl old ↦ rw (old, prune) (prune-All P width now xs h.1)
  | inr new ↦ rw (new, prune) h
]

passes_later :
    (rule : Rule) (now later retry : ℕ) (key : Str) (hits h : RateLimiter) (window : List ℕ)
    → Refused rule now key hits retry window h
    → length window ≤ rule.limit
    → All (λ x. x ≤ now) window
    → now + retry * 1000 ≤ later
    → (h' : RateLimiter) × (check key rule later h ≡ passed h')
unfolding check judge prune
passes_later rule now later retry key hits h [] r l p w = absurd r
passes_later rule now later retry key hits h (x ∷ xs) (full, wait, same) l p w =
    let kept = get-put hits key key (x ∷ xs) in
    let gone : x + rule.window ≤ later = omega (arith, p.0) in
    let shorter = length-prune-le rule.window later xs in
    (put h key (prune rule.window later xs ++ (later ∷ [])), ground (arith, ==-refl key))

check-retry_after_hits :
    (rule : Rule) (now later retry : ℕ) (key : Str) (hits h : RateLimiter)
    → length (hits_of hits key) ≤ rule.limit
    → All (λ x. x ≤ now) (hits_of hits key)
    → check key rule now hits ≡ limited retry h
    → now + retry * 1000 ≤ later
    → (h' : RateLimiter) × (check key rule later h ≡ passed h')
unfolding check
check-retry_after_hits rule now later retry key hits h l p e w =
    let window = prune rule.window now (hits_of hits key) in
    passes_later rule now later retry key hits h window
      (judge-Refused rule now key hits h retry window e)
      (omega (arith, length-prune-le rule.window now (hits_of hits key)))
      (prune-All (λ x. x ≤ now) rule.window now (hits_of hits key) p) w

put-All :
    (P : ℕ → Type 0) (hits : RateLimiter) (k key : Str) (window : List ℕ)
    → All P window
    → All P (hits_of hits key)
    → All P (hits_of (put hits k window) key)
put-All P hits k key window new old = elim (Bool-cases (k == key)) [
  | inl same ↦ rw (get-put hits k key window, same) new
  | inr other ↦ rw (get-put hits k key window, other) old
]

append-All : (P : ℕ → Type 0) (xs : List ℕ) (x : ℕ) → All P xs → P x → All P (xs ++ (x ∷ []))
append-All P [] x h p = (p, tt)
append-All P (y ∷ xs) x h p = (h.0, append-All P xs x h.1 p)

check-times :
    (P : ℕ → Type 0) (key : Str) (c : Call) (hits : RateLimiter) (log : Log)
    → P c.now
    → ((k : Str) → All P (hits_of hits k))
    → All P (hits_of (noted c log (check c.key c.rule c.now hits)).0 key)
unfolding check judge
check-times P key c hits log now old =
    let window = prune c.rule.window c.now (hits_of hits c.key) in
    let kept = prune-All P c.rule.window c.now (hits_of hits c.key) (old c.key) in
    elim (Bool-cases (leb c.rule.limit (length window))) [
      | inl full ↦
          rw (full, noted-refuse c log window (put hits c.key window))
            (put-All P hits c.key key window kept (old key))
      | inr free ↦ rw free (
          put-All P hits c.key key (window ++ (c.now ∷ [])) (append-All P window c.now kept now)
            (old key))
    ]

check_all-times :
    (width limit now : ℕ) (key : Str) (cs : List Call) (hits : RateLimiter) (log : Log)
    → All (IsDue width limit now key) cs
    → ((k : Str) → All (λ x. x ≤ now) (hits_of hits k))
    → (k : Str) → All (λ x. x ≤ now) (hits_of (check_all cs hits log).0 k)
unfolding check_all
check_all-times width limit now key [] hits log h old = old
check_all-times width limit now key (c ∷ cs) hits log h old =
    let (hits', log') = noted c log (check c.key c.rule c.now hits) in
    check_all-times width limit now key cs hits' log' h.1
      (λ k. check-times (λ x. x ≤ now) k c hits log h.0.1 old)

-- After any calls, of which those of the key were made under rules with this window and no limit above this one:
-- a call of the key that is refused with `Retry-After: r` passes when it is made again `r` seconds later, if the
-- key was not used in between.
pub check-retry_after :
    (rule : Rule) (now later retry : ℕ) (key : Str) (cs : List Call) (h : RateLimiter)
    → All (IsDue rule.window rule.limit now key) cs
    → check key rule now (check_all cs [] []).0 ≡ limited retry h
    → now + retry * 1000 ≤ later
    → (h' : RateLimiter) × (check key rule later h ≡ passed h')
check-retry_after rule now later retry key cs h due e w =
    let hits = (check_all cs [] []).0 in
    let covers =
      check_all-Covers rule.window rule.limit now key cs [] [] due
        (unfold get in record { fits = omega arith; held = omega arith }) in
    let times =
      check_all-times rule.window rule.limit now key cs [] [] due (unfold get in λ k. tt) key in
    check-retry_after_hits rule now later retry key hits h covers.fits times e w
