-- ===== src/State/Speed.antt =====
-- core/emunel_core/state.py: `_TokenBucket` and `SpeedLimiter`. The floats of the source are exact here:
-- a clock reading is in milliseconds, and tokens are thousandths of a byte, of which a rate of r bytes a
-- second adds r in a millisecond.
pub mod Rate
pub mod Ends
use emunel.Prelude.{
  ℕ, zero, suc, ◌+◌, ◌-◌, ◌*◌, ◌/◌, min, max, Bool, Option, none, some, List, [], ◌∷◌, Str, ltb,
  leb, if◌then◌else◌, ◌==◌, nat_eq, str_eq, not, ◌||◌,
}
use emunel.Prelude.Dict.{Dict, get, put, remove}

abbrev pub min_rate : ℕ
min_rate = 1024

abbrev pub min_burst : ℕ
min_burst = 16 * 1024

pub record TokenBucket : Type 0 where
  pub rate : ℕ
  pub capacity : ℕ
  pub tokens : ℕ
  pub last : ℕ

unfoldable pub new_bucket : ℕ → ℕ → TokenBucket
new_bucket rate_bytes_per_sec now =
    let rate = max rate_bytes_per_sec min_rate in
    let capacity = max rate min_burst in
    record { rate = rate; capacity = capacity; tokens = 1000 * capacity; last = now }

unfoldable pub refill : ℕ → TokenBucket → TokenBucket
refill now b =
    if ltb b.last now
    then record b {
      last = now;
      tokens = min (1000 * b.capacity) (b.tokens + (now - b.last) * b.rate);
    }
    else b

-- `take = min(n, int(self.tokens))`, and the tokens without it
unfoldable pub grab : ℕ → TokenBucket → TokenBucket × ℕ
grab n b =
    let taken = min n (b.tokens / 1000) in (record b { tokens = b.tokens - 1000 * taken }, taken)

-- One round of the loop at a reading of the clock: the bucket after it, and the bytes it lets through.
unfoldable pub bucket_round : ℕ → ℕ → TokenBucket → TokenBucket × ℕ
unfolding refill grab
bucket_round now n b = grab n (refill now b)

-- The sleep after a round, with `n` bytes left: deficit / rate, between 4 and 500 milliseconds.
unfoldable pub pause : ℕ → TokenBucket → ℕ
pause n b = min (max ((1000 * min n b.capacity - b.tokens) / b.rate) 4) 500

-- `consume`, at the readings that its rounds get: the bytes that are left when they end
unfoldable pub consume : List ℕ → ℕ → TokenBucket → TokenBucket × ℕ
consume [] n b = (b, n)
consume (now ∷ readings) n b =
    let (b', taken) = bucket_round now n b in
    let rest = consume readings (n - taken) b' in if leb n taken then (b', 0) else rest

-- The bucket of a link: a new one if there is none, or one for another rate.
abbrev pub bucket_of : ℕ → ℕ → Option TokenBucket → TokenBucket
bucket_of rate now none = new_bucket rate now
bucket_of rate now (some b) = if b.rate == max rate min_rate then b else new_bucket rate now

abbrev pub SpeedLimiter : Type 0
SpeedLimiter = Dict Str TokenBucket

-- `SpeedLimiter.consume`: the bytes that still wait are the result.
unfoldable pub limit_speed : List ℕ → ℕ → Str → ℕ → ℕ → SpeedLimiter → SpeedLimiter × ℕ
limit_speed readings now uuid rate n buckets =
    if rate == 0 || n == 0
    then (buckets, 0)
    else let (b, left) = consume readings n (bucket_of rate now (get buckets uuid)) in
      (put buckets uuid b, left)

unfoldable pub reset : Str → SpeedLimiter → SpeedLimiter
reset uuid buckets = remove buckets uuid
