-- ===== src/Examples/Fixtures.antt =====
-- Small stores, gates and rows.
use emunel.Prelude.{
  ℕ, ◌+◌, ◌-◌, ◌*◌, ◌/◌, Option, none, some, [], ◌∷◌, true, Str, codes, ltb, leb, ◌==◌, nat_eq,
}
use emunel.Prelude.Int.{ℤ, pos}
use emunel.Prelude.Float.{Floats}
use emunel.State.Link.{Link, Clock, http11}
use emunel.State.Links.{LinkStore}
use emunel.State.Stats.{new_stats}
use emunel.Relay.Gate.{RelayContext, QuotaGate, Moment, quota_start_batch}
use emunel.Relay.Traffic.{Traffic}
use emunel.Console.Volume.{Instance, VolumeRow, Reach, StalePolicy}

-- Thousandths.
abbrev pub milli : Floats
milli = record {
  Float = ℕ;
  of_nat = λ n. n * 1000;
  literal = λ n d. n * 1000 / d;
  add = λ a b. a + b;
  sub = λ a b. a - b;
  mul = λ a b. a * b / 1000;
  div = λ a b. a * 1000 / b;
  ltb = ltb;
  leb = leb;
  eqb = λ a b. a == b;
  trunc = λ a. a / 1000;
}

abbrev pub alice : Str
alice = codes "a"

abbrev pub bob : Str
bob = codes "b"

abbrev pub link_of : Str → ℤ → ℤ → Link
link_of uuid limit used = record {
  uuid = uuid;
  label = codes "Link";
  protocol = codes "vless-ws";
  active = true;
  limit_bytes = limit;
  used_bytes = used;
  created_at = codes "2025";
  expires_at = none;
  note = [];
  alpn = http11;
  fingerprint = codes "chrome";
  ss_cipher = none;
  ss_password = none;
  speed_limit_bytes = 0;
  ip_limit = 2;
}

abbrev pub links : LinkStore
links = (alice, link_of alice (pos 1000) (pos 400)) ∷ (bob, link_of bob (pos 50) (pos 50)) ∷ []

abbrev pub clock : Clock
clock = record { from_iso = λ s. none; now = 7 }

abbrev pub moment : Moment milli
moment = record { clock = clock; hour = codes "h"; monotonic = 100 }

abbrev pub ctx_with : ℕ → RelayContext
ctx_with cap = record {
  links = links;
  connections = [];
  stats = record new_stats { instance_cap_bytes = cap; total_bytes = 10 };
  speed = true;
}

abbrev pub gate : QuotaGate milli
gate = record {
  uuid = alice;
  conn_id = none;
  pending = 100;
  last_check = 0;
  ok = true;
  batch_bytes = quota_start_batch;
  rate_ewma = 0;
}

abbrev pub traffic : Traffic milli
traffic = record { ctx = ctx_with 5000; gates = gate ∷ [] }

abbrev pub mb : ℕ
mb = 1024 * 1024

abbrev pub reach : Reach
reach = record {
  now = 50;
  quota_read = true;
  quota_put = true;
  stats_read = true;
  stop_done = true;
}

abbrev pub policy : StalePolicy
policy = record { alert_after = 2; stop_after = 0 }

abbrev pub row : Option ℕ → ℕ → VolumeRow
row expires cached = record {
  limit_bytes = some (100 * mb);
  baseline_bytes = some (10 * mb);
  used_cache = some cached;
  used_at = none;
  expires_at = expires;
}

abbrev pub instance_with : Option ℕ → ℕ → ℕ → Instance
instance_with expires cached total = record {
  row = row expires cached;
  core = record new_stats { total_bytes = total };
  running = true;
  stale = none;
  notices = [];
}
