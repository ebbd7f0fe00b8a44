-- ===== src/Examples/Speeds.antt =====
-- core/emunel_core/state.py: a link of 4096 bytes a second.
use emunel.Prelude.{ℕ, ◌≡◌, refl, List, [], ◌∷◌}
use emunel.State.Speed.{TokenBucket, new_bucket, bucket_round, refill, grab}
use emunel.State.Speed.Rate.{rounds}

abbrev waits : List (ℕ × ℕ)
waits = (10, 20000) ∷ (20, 8000) ∷ (520, 12000) ∷ []

-- The burst of 16 KB, and what half a second is worth.
passes : (rounds waits (new_bucket 4096 10)).1 ≡ 18472
unfolding rounds bucket_round refill grab new_bucket
passes = refl

-- Two bytes pass at once.
abbrev two_left : TokenBucket
two_left = record { rate = 4096; capacity = 16384; tokens = 2000; last = 10 }
