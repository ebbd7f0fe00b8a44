-- ===== src/State/Speed/Rate.antt =====
-- core/emunel_core/state.py: `_TokenBucket.consume` of all that wait at one bucket.
use emunel.Prelude.{ℕ, ◌+◌, ◌-◌, ◌*◌, ◌≤◌, ◌≡◌, refl, ap, ◌∙◌, max, List, [], ◌∷◌, arith}
use emunel.State.Speed.{TokenBucket, new_bucket, bucket_round, min_rate, min_burst}

-- The rounds of all that wait at one bucket, in the order in which they come: the reading of the clock
-- and the bytes that are wanted. The result counts the bytes that were let through.
unfoldable pub rounds : List (ℕ × ℕ) → TokenBucket → TokenBucket × ℕ
rounds [] b = (b, 0)
rounds ((now, n) ∷ rs) b =
    let (b', taken) = bucket_round now n b in let (b'', more) = rounds rs b' in (b'', taken + more)

-- A round pays for what it lets through from the tokens and the time that has passed.
pub record IsPaid (b b' : TokenBucket) (taken : ℕ) : Type 0 where
  pub paid : 1000 * taken + b'.tokens ≤ b.tokens + (b'.last - b.last) * b.rate
  pub forward : b.last ≤ b'.last
  pub same_rate : b'.rate ≡ b.rate

bucket_round-IsPaid :
    (now n : ℕ) (b : TokenBucket) → IsPaid b (bucket_round now n b).0 (bucket_round now n b).1
unfolding bucket_round
bucket_round-IsPaid now n b = ground arith

-- Two spans of time pay as much as both together.
span-add : (a b c rate : ℕ) → a ≤ b → b ≤ c → (b - a) * rate + (c - b) * rate ≡ (c - a) * rate
span-add a b c rate h k = grind arith

IsPaid-trans : (a b c : TokenBucket) (k m : ℕ) → IsPaid a b k → IsPaid b c m → IsPaid a c (k + m)
IsPaid-trans a b c k m p q = record {
  paid = omega (
    arith,
    p.paid,
    q.paid,
    span-add a.last b.last c.last a.rate p.forward q.forward,
    ap (λ (r : ℕ). (c.last - b.last) * r) p.same_rate,
  );
  forward = omega (arith, p.forward, q.forward);
  same_rate = q.same_rate ∙ p.same_rate;
}

rounds-IsPaid : (rs : List (ℕ × ℕ)) (b : TokenBucket) → IsPaid b (rounds rs b).0 (rounds rs b).1
unfolding rounds
rounds-IsPaid [] b = record { paid = omega arith; forward = omega arith; same_rate = refl }
rounds-IsPaid ((now, n) ∷ rs) b =
    let (b', taken) = bucket_round now n b in
    IsPaid-trans b b' (rounds rs b').0 taken (rounds rs b').1 (bucket_round-IsPaid now n b)
      (rounds-IsPaid rs b')

-- However many connections wait at the bucket of a link and in whatever order their rounds come, the
-- bytes that pass since the bucket was made are no more than its burst and the rate times the time that
-- has passed. A rate is at least 1024 bytes a second, and a burst a second's worth or 16 KB.
rounds-le-rate :
    (rate now : ℕ) (rs : List (ℕ × ℕ))
    → (let (b, passed) = rounds rs (new_bucket rate now) in
        1000 * passed
        ≤ 1000 * max (max rate min_rate) min_burst + (b.last - now) * max rate min_rate)
unfolding new_bucket
rounds-le-rate rate now rs = let p = rounds-IsPaid rs (new_bucket rate now) in omega (arith, p.paid)
