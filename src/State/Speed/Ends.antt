-- ===== src/State/Speed/Ends.antt =====
-- core/emunel_core/state.py: the loop of `_TokenBucket.consume`.
use emunel.Prelude.{ℕ, ◌+◌, ◌-◌, ◌*◌, ◌≤◌, List, [], ◌∷◌}
use emunel.State.Speed.{TokenBucket, bucket_round, min_rate, min_burst, pause}

-- The floors of a bucket, and a bucket that is no more than full.
pub record IsBucket (b : TokenBucket) : Type 0 where
  pub rate : min_rate ≤ b.rate
  pub capacity : min_burst ≤ b.capacity
  pub full : b.tokens ≤ 1000 * b.capacity

-- Each round comes after the pause of the one before it, and the first not before `due`.
abbrev pub IsPaced : ℕ → List ℕ → ℕ → TokenBucket → Type 0
IsPaced due [] n b = Unit
IsPaced due (now ∷ readings) n b =
    let (b', taken) = bucket_round now n b in
    (due ≤ now) × IsPaced (now + pause (n - taken) b') readings (n - taken) b'
