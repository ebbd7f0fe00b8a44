-- ===== src/Api/Quota.antt =====
-- core/emunel_core/app.py: `core_quota_get` and `core_quota_set`. The bearer token is checked before.
use emunel.Prelude.{ℕ, ◌^◌, Bool, Option, none, some, ltb, if◌then◌else◌}
use emunel.Prelude.Int.{ℤ, at_least_zero}
use emunel.State.Stats.{RuntimeStats}

-- 1024 ** 5
abbrev pub one_petabyte : ℕ
one_petabyte = 1024 ^ 5

pub data Reply : Type 0 where
  ok : Reply
  bad_request : Reply

-- `raw` is `none` where `int(raw or 0)` raises.
unfoldable pub quota_set : Option ℤ → RuntimeStats → RuntimeStats × Reply
quota_set none s = (s, bad_request)
quota_set (some raw) s =
    if ltb one_petabyte (at_least_zero raw)
    then (s, bad_request)
    else (record s { instance_cap_bytes = at_least_zero raw }, ok)

pub record QuotaView : Type 0 where
  pub cap_bytes : ℕ
  pub used_bytes : ℕ
  pub enforced : Bool
  pub cap_hits : ℕ

unfoldable pub quota_get : RuntimeStats → QuotaView
quota_get s = record {
  cap_bytes = s.instance_cap_bytes;
  used_bytes = s.total_bytes;
  enforced = ltb 0 s.instance_cap_bytes;
  cap_hits = s.instance_cap_hits;
}
