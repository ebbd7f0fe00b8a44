-- ===== src/Console/Policy/Bounds.antt =====
-- console/api/emunel_console/services/links.py: what `parse_link_policy` accepts.
use emunel.Prelude.{
  ℕ, ◌≤◌, ◌≡◌, ap, sym, subst, ◌⊎◌, inl, inr, refl, Bool, true, false, ◌&&◌, not, Option, none,
  some, Str, ltb, ◌==◌, nat_eq, str_eq, if◌then◌else◌, arith, is_some,
}
use emunel.Prelude.Int.{ℤ, pos, negsuc}
use emunel.Prelude.Float.{Floats}
use emunel.Prelude.Dict.{get}
use emunel.Console.Configs.{LinkPolicy}
use emunel.Console.Policy.{
  min_limit_bytes, max_limit_bytes, max_speed_bytes, max_ip_limit, Parsed, parsed, invalid, raises,
  ◌then_read◌, Reading, PolicyBody, is_empty, is_negative, is_zero, unit_name, unit_bytes,
  read_float, guarded_int, plain_int, check_limit, scaled, quota_of, parse_quota, parse_expiry,
  check_speed, speed_of, parse_speed, check_ips, parse_ip_limit, policy_with, parse_link_policy,
}

-- Whatever is read satisfies `P`.
record Reads {A : Type 0} (P : A → Type 0) (m : Parsed A) : Type 0 where
  pub holds : (a : A) → m ≡ parsed a → P a

parsed_of : {A : Type 0} → A → Parsed A → A
parsed_of d (parsed a) = a
parsed_of d invalid = d
parsed_of d raises = d

IsParsed : {A : Type 0} → Parsed A → Type 0
IsParsed (parsed a) = Unit
IsParsed invalid = ⊥
IsParsed raises = ⊥

Reads-parsed : {A : Type 0} (P : A → Type 0) (a : A) → P a → Reads P (parsed a)
unfolding parsed_of
Reads-parsed P a p = record { holds = λ b e. subst P (ap (parsed_of a) e) p }

Reads-invalid : {A : Type 0} (P : A → Type 0) → Reads P invalid
unfolding IsParsed
Reads-invalid P = record { holds = λ b e. absurd (subst IsParsed (sym e) tt) }

Reads-raises : {A : Type 0} (P : A → Type 0) → Reads P raises
unfolding IsParsed
Reads-raises P = record { holds = λ b e. absurd (subst IsParsed (sym e) tt) }

-- A chain reads what its last link reads, when what is read first satisfies `Q`.
then-Reads-with :
    {A B : Type 0} (Q : A → Type 0) (P : B → Type 0) (m : Parsed A) (f : A → Parsed B)
    → Reads Q m
    → ((a : A) → Q a → Reads P (f a))
    → Reads P (m then_read f)
then-Reads-with Q P (parsed a) f q h = h a (q.holds a refl)
then-Reads-with Q P invalid f q h = Reads-invalid P
then-Reads-with Q P raises f q h = Reads-raises P

then-Reads :
    {A B : Type 0} (P : B → Type 0) (m : Parsed A) (f : A → Parsed B)
    → ((a : A) → Reads P (f a))
    → Reads P (m then_read f)
then-Reads P m f h = then-Reads-with (λ a. Unit) P m f (record { holds = λ a e. tt }) (λ a q. h a)

Reads-if :
    {A : Type 0} (P : A → Type 0) (c : Bool) (x y : Parsed A)
    → (c ≡ true → Reads P x)
    → (c ≡ false → Reads P y)
    → Reads P (if c then x else y)
Reads-if P true x y h k = h refl
Reads-if P false x y h k = k refl

abbrev IsQuota : Option ℕ → Type 0
IsQuota none = Unit
IsQuota (some n) = (min_limit_bytes ≤ n) × (n ≤ max_limit_bytes)

-- A quota is unlimited or between 1 KB and 1 PB.
pub record IsPolicy (p : LinkPolicy) : Type 0 where
  pub limit :
      (p.limit_bytes ≡ 0) ⊎ ((min_limit_bytes ≤ p.limit_bytes) × (p.limit_bytes ≤ max_limit_bytes))
  pub speed : p.speed_limit_bytes ≤ max_speed_bytes
  pub ips : p.ip_limit ≤ max_ip_limit

abbrev IsSpeed : ℕ → Type 0
IsSpeed n = n ≤ max_speed_bytes

module _ (F : Floats) (r : Reading F) where
  check_limit-reads : (n : ℤ) → Reads IsQuota (check_limit F r n)
  unfolding check_limit
  check_limit-reads (negsuc n) = Reads-invalid IsQuota
  check_limit-reads (pos n) =
      Reads-if IsQuota (n == 0) _ _ (λ h. Reads-parsed IsQuota none tt)
        λ h.
          Reads-if IsQuota (ltb n min_limit_bytes) _ _ (λ h. Reads-invalid IsQuota)
            λ low.
              Reads-if IsQuota (ltb max_limit_bytes n) _ _ (λ h. Reads-invalid IsQuota)
                λ high. Reads-parsed IsQuota (some n) (ground (arith, low), ground (arith, high))

  scaled-reads : (x : F.Float) (unit : Option ℕ) → Reads IsQuota (scaled F r x unit)
  unfolding scaled
  scaled-reads x none = Reads-invalid IsQuota
  scaled-reads x (some unit) =
      then-Reads IsQuota (plain_int F r (F.mul x (F.of_nat unit))) (check_limit F r)
        check_limit-reads

  quota_of-reads : (unit : Option Str) (x : F.Float) → Reads IsQuota (quota_of F r unit x)
  unfolding quota_of
  quota_of-reads unit x =
      Reads-if IsQuota (is_negative F r x) _ _ (λ h. Reads-invalid IsQuota)
        λ h.
          Reads-if IsQuota (is_zero F r x) _ _ (λ h. Reads-parsed IsQuota none tt)
            λ h. scaled-reads x (get unit_bytes (unit_name F r unit))

  parse_quota-reads : (b : PolicyBody F) → Reads IsQuota (parse_quota F r b)
  unfolding parse_quota
  parse_quota-reads b =
      Reads-if IsQuota (is_some b.limit_bytes && not (is_some b.limit)) _ _
        (λ h.
          Reads-if IsQuota (is_empty F b.limit_bytes) _ _ (λ h. Reads-parsed IsQuota none tt)
            λ h.
              then-Reads IsQuota (read_float F r b.limit_bytes then_read guarded_int F r)
                (check_limit F r) check_limit-reads)
        (λ h.
          Reads-if IsQuota (is_empty F b.limit) _ _ (λ h. Reads-parsed IsQuota none tt)
            λ h.
              then-Reads IsQuota (read_float F r b.limit) (quota_of F r b.unit)
                (quota_of-reads b.unit))

  check_speed-reads : (n : ℤ) → Reads IsSpeed (check_speed F r n)
  unfolding check_speed
  check_speed-reads (negsuc n) = Reads-parsed IsSpeed 0 (omega arith)
  check_speed-reads (pos n) =
      Reads-if IsSpeed (ltb n 1) _ _ (λ h. Reads-parsed IsSpeed 0 (omega arith))
        λ h.
          Reads-if IsSpeed (ltb max_speed_bytes n) _ _ (λ h. Reads-invalid IsSpeed)
            λ high. Reads-parsed IsSpeed n (ground (arith, high))

  speed_of-reads : (x : F.Float) → Reads IsSpeed (speed_of F r x)
  unfolding speed_of
  speed_of-reads x =
      Reads-if IsSpeed (is_negative F r x) _ _ (λ h. Reads-invalid IsSpeed)
        λ h.
          Reads-if IsSpeed (is_zero F r x) _ _ (λ h. Reads-parsed IsSpeed 0 (omega arith))
            λ h.
              then-Reads IsSpeed
                (plain_int F r
                  (F.div (F.mul (F.mul x (F.of_nat 1024)) (F.of_nat 1024)) (F.of_nat 8)))
                (check_speed F r) check_speed-reads

  parse_speed-reads : (b : PolicyBody F) → Reads IsSpeed (parse_speed F r b)
  unfolding parse_speed
  parse_speed-reads b =
      Reads-if IsSpeed (is_empty F b.speed_mbps) _ _ (λ h. Reads-parsed IsSpeed 0 (omega arith))
        λ h. then-Reads IsSpeed (read_float F r b.speed_mbps) (speed_of F r) speed_of-reads

  abbrev IsIps : ℕ → Type 0
  IsIps n = n ≤ max_ip_limit

  check_ips-reads : (n : ℤ) → Reads IsIps (check_ips F r n)
  unfolding check_ips
  check_ips-reads (negsuc n) = Reads-invalid IsIps
  check_ips-reads (pos n) =
      Reads-if IsIps (ltb max_ip_limit n) _ _ (λ h. Reads-invalid IsIps)
        λ high. Reads-parsed IsIps n (ground (arith, high))

  parse_ip_limit-reads : (b : PolicyBody F) → Reads IsIps (parse_ip_limit F r b)
  unfolding parse_ip_limit
  parse_ip_limit-reads b =
      Reads-if IsIps (is_empty F b.ip_limit) _ _ (λ h. Reads-parsed IsIps 0 (omega arith))
        λ h.
          then-Reads IsIps (read_float F r b.ip_limit then_read guarded_int F r) (check_ips F r)
            check_ips-reads

  policy_with-IsPolicy :
      (limit : Option ℕ) (t : Option Str) (speed ips : ℕ)
      → IsQuota limit
      → IsSpeed speed
      → IsIps ips
      → Reads IsPolicy (parsed (policy_with F r limit t speed ips))
  policy_with-IsPolicy none t speed ips q s i =
      Reads-parsed IsPolicy _ (record { limit = inl refl; speed = s; ips = i })
  policy_with-IsPolicy (some n) t speed ips q s i =
      Reads-parsed IsPolicy _ (record { limit = inr q; speed = s; ips = i })

  reads : (b : PolicyBody F) → Reads IsPolicy (parse_link_policy F r b)
  unfolding parse_link_policy
  reads b = then-Reads-with IsQuota IsPolicy (parse_quota F r b) _ (parse_quota-reads b) λ limit q.
      then-Reads IsPolicy (parse_expiry F r b) _ λ t.
        then-Reads-with IsSpeed IsPolicy (parse_speed F r b) _ (parse_speed-reads b) λ speed s.
          then-Reads-with IsIps IsPolicy (parse_ip_limit F r b) _ (parse_ip_limit-reads b)
            λ ips i. policy_with-IsPolicy limit t speed ips q s i

  -- Whatever the body of a config is, and whatever `float` and `int` make of it, a policy that is read from
  -- it has no quota or one between 1 KB and 1 PB, a speed of at most 10 * 1024 ^ 3 bytes a second, and at
  -- most 999 addresses.
  parse_link_policy-IsPolicy :
      (b : PolicyBody F) (p : LinkPolicy) → parse_link_policy F r b ≡ parsed p → IsPolicy p
  parse_link_policy-IsPolicy b = (reads b).holds
