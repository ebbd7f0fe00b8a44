-- ===== src/Console/Policy.antt =====
-- console/api/emunel_console/services/links.py: the policy of a config as it is read from a body. What
-- `float`, `int` and `datetime` give is an interface with no laws.
pub mod Bounds
use emunel.Prelude.{
  ℕ, ◌+◌, ◌-◌, ◌*◌, ◌^◌, Bool, true, false, ◌||◌, ◌&&◌, not, Option, none, some, List, [], ◌∷◌, Str,
  codes, map, leb, ltb, ◌==◌, str_eq, nat_eq, if◌then◌else◌, is_some,
}
use emunel.Prelude.Int.{ℤ, pos, negsuc}
use emunel.Prelude.Float.{Floats}
use emunel.Prelude.Text.{strip}
use emunel.Prelude.Dict.{Dict, get}
use emunel.Api.Links.{or_text}
use emunel.Console.Configs.{LinkPolicy, or_zero}

abbrev pub min_limit_bytes : ℕ
min_limit_bytes = 1024

abbrev pub max_limit_bytes : ℕ
max_limit_bytes = 1024 * 1024 * 1024 * 1024 * 1024

abbrev pub max_speed_bytes : ℕ
max_speed_bytes = 10 * 1024 * 1024 * 1024

abbrev pub max_ip_limit : ℕ
max_ip_limit = 999

-- A value is read, or `ValidationError` answers 400, or another exception leaves the function.
pub data Parsed (A : Type 0) : Type 0 where
  parsed : A → Parsed A
  invalid : Parsed A
  raises : Parsed A

-- int(x) of a float: NaN raises `ValueError`, and an infinite one `OverflowError`.
pub data AsInt : Type 0 where
  whole : ℤ → AsInt
  not_a_number overflows : AsInt

infixl 5 ◌then_read◌
abbrev pub ◌then_read◌ : {A B : Type 0} → Parsed A → (A → Parsed B) → Parsed B
parsed a then_read f = f a
invalid then_read f = invalid
raises then_read f = raises

-- The ASCII part of s.upper(), which is compared with the names of units.
abbrev upper : Str → Str
upper = map (λ c. if leb b'a' c && leb c b'z' then c - 32 else c)

abbrev unit_bytes : Dict Str ℕ
unit_bytes =
    (codes "B", 1)
    ∷ (codes "KB", 1024)
    ∷ (codes "MB", 1024 * 1024)
    ∷ (codes "GB", 1024 * 1024 * 1024)
    ∷ (codes "TB", 1024 * 1024 * 1024 * 1024)
    ∷ []

module _ (F : Floats) where
  -- A value of a body; `other` is one for which `float` raises.
  pub data Value : Type 0 where
    null : Value
    text : Str → Value
    number : F.Float → Value
    other : Value

  -- What Python reads: float(s), int(x), an ISO time as `isoformat` writes it again, and the time so
  -- many days from now.
  pub record Reading : Type 0 where
    pub float_of : Str → Option F.Float
    pub int_of : F.Float → AsInt
    pub iso_of : Str → Option Str
    pub after_days : F.Float → Option Str

  -- The keys of a body; an absent key is `none`.
  pub record PolicyBody : Type 0 where
    pub limit : Option Value
    pub limit_bytes : Option Value
    pub unit : Option Str
    pub expiry_days : Option Value
    pub expires_at : Option Str
    pub speed_mbps : Option Value
    pub ip_limit : Option Value

  is_blank : Str → Bool
  unfolding strip
  is_blank s = strip s == []

  -- `_empty(body.get(key))`
  unfoldable pub is_empty : Option Value → Bool
  unfolding is_blank
  is_empty none = true
  is_empty (some null) = true
  is_empty (some (text s)) = is_blank s
  is_empty (some (number x)) = false
  is_empty (some other) = false

  module _ (r : Reading) where
    to_float : Option Value → Option F.Float
    to_float (some (text s)) = r.float_of s
    to_float (some (number x)) = some x
    to_float _ = none

    -- float(raw) in its `try`
    read_float : Option Value → Parsed F.Float
    unfolding to_float
    read_float v = elim (to_float v) [ none ↦ invalid | some x ↦ parsed x ]

    -- int(x) in a `try` that catches `ValueError`
    guarded_int : F.Float → Parsed ℤ
    guarded_int x = elim (r.int_of x) [
      | whole n ↦ parsed n
      | not_a_number ↦ invalid
      | overflows ↦ raises
    ]

    plain_int : F.Float → Parsed ℤ
    plain_int x = elim (r.int_of x) [
      | whole n ↦ parsed n
      | not_a_number ↦ raises
      | overflows ↦ raises
    ]

    is_negative : F.Float → Bool
    is_negative x = F.ltb x (F.of_nat 0)

    is_zero : F.Float → Bool
    is_zero x = F.eqb x (F.of_nat 0)

    -- The end of `parse_quota`
    check_limit : ℤ → Parsed (Option ℕ)
    check_limit (negsuc n) = invalid
    check_limit (pos n) =
        if n == 0
        then parsed none
        else if ltb n min_limit_bytes
        then invalid
        else if ltb max_limit_bytes n
        then invalid
        else parsed (some n)

    unit_name : Option Str → Str
    unit_name none = codes "GB"
    unit_name (some []) = codes "GB"
    unit_name (some (c ∷ s)) = upper (strip (c ∷ s))

    scaled : F.Float → Option ℕ → Parsed (Option ℕ)
    unfolding check_limit plain_int
    scaled value none = invalid
    scaled value (some unit) = plain_int (F.mul value (F.of_nat unit)) then_read check_limit

    quota_of : Option Str → F.Float → Parsed (Option ℕ)
    unfolding is_negative is_zero scaled unit_name get
    quota_of unit value =
        if is_negative value
        then invalid
        else if is_zero value
        then parsed none
        else scaled value (get unit_bytes (unit_name unit))

    unfoldable pub parse_quota : PolicyBody → Parsed (Option ℕ)
    unfolding is_empty read_float guarded_int check_limit quota_of
    parse_quota b =
        if is_some b.limit_bytes && not (is_some b.limit)
        then if is_empty b.limit_bytes
          then parsed none
          else read_float b.limit_bytes then_read guarded_int then_read check_limit
        else if is_empty b.limit
        then parsed none
        else read_float b.limit then_read quota_of b.unit

    or_raises : Option Str → Parsed (Option Str)
    or_raises none = raises
    or_raises (some t) = parsed (some t)

    or_invalid : Option Str → Parsed (Option Str)
    or_invalid none = invalid
    or_invalid (some t) = parsed (some t)

    days_from_now : F.Float → Parsed (Option Str)
    unfolding is_negative is_zero or_raises
    days_from_now days =
        if is_negative days
        then invalid
        else if is_zero days
        then parsed none
        else if F.ltb days (F.literal 1 1440)
        then invalid
        else if F.ltb (F.of_nat 3650) days
        then invalid
        else or_raises (r.after_days days)

    -- The time of `parse_expiry`; the days are not used.
    unfoldable pub parse_expiry : PolicyBody → Parsed (Option Str)
    unfolding is_empty is_blank or_invalid read_float days_from_now
    parse_expiry b =
        if not (is_blank (or_text b.expires_at []))
        then or_invalid (r.iso_of (or_text b.expires_at []))
        else if is_empty b.expiry_days
        then parsed none
        else read_float b.expiry_days then_read days_from_now

    check_speed : ℤ → Parsed ℕ
    check_speed (negsuc n) = parsed 0
    check_speed (pos n) =
        if ltb n 1 then parsed 0 else if ltb max_speed_bytes n then invalid else parsed n

    speed_of : F.Float → Parsed ℕ
    unfolding is_negative is_zero plain_int check_speed
    speed_of mbps =
        if is_negative mbps
        then invalid
        else if is_zero mbps
        then parsed 0
        else plain_int (F.div (F.mul (F.mul mbps (F.of_nat 1024)) (F.of_nat 1024)) (F.of_nat 8))
          then_read check_speed

    unfoldable pub parse_speed : PolicyBody → Parsed ℕ
    unfolding is_empty read_float speed_of
    parse_speed b =
        if is_empty b.speed_mbps then parsed 0 else read_float b.speed_mbps then_read speed_of

    check_ips : ℤ → Parsed ℕ
    check_ips (negsuc n) = invalid
    check_ips (pos n) = if ltb max_ip_limit n then invalid else parsed n

    unfoldable pub parse_ip_limit : PolicyBody → Parsed ℕ
    unfolding is_empty read_float guarded_int check_ips
    parse_ip_limit b =
        if is_empty b.ip_limit
        then parsed 0
        else read_float b.ip_limit then_read guarded_int then_read check_ips

    abbrev policy_with : Option ℕ → Option Str → ℕ → ℕ → LinkPolicy
    policy_with limit expires_at speed ips = record {
      limit_bytes = or_zero limit;
      expires_at = expires_at;
      speed_limit_bytes = speed;
      ip_limit = ips;
    }

    unfoldable pub parse_link_policy : PolicyBody → Parsed LinkPolicy
    parse_link_policy b = parse_quota b then_read λ limit. parse_expiry b then_read λ expires_at.
        parse_speed b then_read λ speed.
        parse_ip_limit b then_read λ ips. parsed (policy_with limit expires_at speed ips)
