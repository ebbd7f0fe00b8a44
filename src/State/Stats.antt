-- ===== src/State/Stats.antt =====
-- core/emunel_core/state.py: `RuntimeStats`. The clock's readings are arguments: `hour` is the text of
-- the current hour, `cutoff` that of `keep_hours` before it.
use emunel.Prelude.{
  ℕ, ◌+◌, ◌-◌, Bool, true, false, Option, none, some, List, [], ◌∷◌, ◌++◌, Str, length, take, drop,
  keep, leb, ltb, not, if◌then◌else◌, str_eq,
}
use emunel.Prelude.Dict.{Dict, get, put}

pub record ErrorEntry : Type 0 where
  pub error : Str
  pub time : Str

pub record RuntimeStats : Type 0 where
  pub total_bytes : ℕ
  pub total_requests : ℕ
  pub total_errors : ℕ
  pub hourly : Dict Str ℕ
  pub errors : List ErrorEntry
  pub instance_cap_bytes : ℕ
  pub instance_cap_hits : ℕ

abbrev pub new_stats : RuntimeStats
new_stats = record {
  total_bytes = 0;
  total_requests = 0;
  total_errors = 0;
  hourly = [];
  errors = [];
  instance_cap_bytes = 0;
  instance_cap_hits = 0;
}

-- `defaultdict(int)`: a missing key reads as 0
abbrev pub count_of : Option ℕ → ℕ
count_of none = 0
count_of (some n) = n

unfoldable pub add_traffic : Str → ℕ → RuntimeStats → RuntimeStats
add_traffic hour n s = record s {
  total_bytes = s.total_bytes + n;
  hourly = put s.hourly hour (count_of (get s.hourly hour) + n);
}

unfoldable pub add_request : RuntimeStats → RuntimeStats
add_request s = record s { total_requests = s.total_requests + 1 }

-- `deque(maxlen=50)`: an append to a full deque drops its oldest entry
unfoldable pub push_error : List ErrorEntry → ErrorEntry → List ErrorEntry
push_error errors e = let all = errors ++ (e ∷ []) in drop (length all - 50) all

unfoldable pub add_error : Str → Str → RuntimeStats → RuntimeStats
unfolding push_error
add_error message time s = record s {
  total_errors = s.total_errors + 1;
  errors = push_error s.errors (record { error = take 300 message; time = time });
}

-- `k < cutoff`, on texts: by code points
unfoldable pub str_lt : Str → Str → Bool
str_lt s [] = false
str_lt [] (y ∷ t) = true
str_lt (x ∷ s) (y ∷ t) =
    let rest = str_lt s t in if ltb x y then true else if ltb y x then false else rest

unfoldable pub prune_hourly : Str → ℕ → RuntimeStats → RuntimeStats
unfolding str_lt
prune_hourly cutoff keep_hours s =
    if leb (length s.hourly) keep_hours
    then s
    else record s { hourly = keep (λ p. not (str_lt p.0 cutoff)) s.hourly }
