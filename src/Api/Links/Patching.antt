-- ===== src/Api/Links/Patching.antt =====
-- core/emunel_core/app.py: `_apply_link_patch` where no number is bad.
use emunel.Prelude.{ℕ, ◌≡◌, refl, Bool, true, false, Option, none, some, Str, take}
use emunel.Prelude.Int.{ℤ, pos, at_least_zero}
use emunel.State.Link.{Link}
use emunel.Api.Links.{
  LinkPatch, so_far, apply_link_patch, set_label, set_active, set_note, reset_used, set_limit_bytes,
  set_expiry, set_speed, set_ips,
}

-- A key that is there has a number.
abbrev pub IsNumber : Option (Option ℤ) → Type 0
IsNumber (some none) = ⊥
IsNumber _ = Unit

abbrev text_or : ℕ → Option Str → Str → Str
text_or n none old = old
text_or n (some s) old = take n s

abbrev pub or_old : {A : Type 0} → Option A → A → A
or_old none old = old
or_old (some a) old = a

abbrev pub limit_or : Option (Option ℤ) → ℤ → ℤ
limit_or (some (some n)) old = pos (at_least_zero n)
limit_or _ old = old

abbrev pub number_or : Option (Option ℤ) → ℕ → ℕ
number_or (some (some n)) old = at_least_zero n
number_or _ old = old

abbrev used_or : Option Bool → ℤ → ℤ
used_or (some true) old = pos 0
used_or _ old = old

-- Every field at once.
abbrev pub applied : LinkPatch → Link → Link
applied p l = record l {
  label = text_or 80 p.label l.label;
  active = or_old p.active l.active;
  note = text_or 300 p.note l.note;
  used_bytes = used_or p.reset_usage l.used_bytes;
  limit_bytes = limit_or p.limit_bytes l.limit_bytes;
  expires_at = or_old p.expires_at l.expires_at;
  speed_limit_bytes = number_or p.speed_limit_bytes l.speed_limit_bytes;
  ip_limit = number_or p.ip_limit l.ip_limit;
}

set_label-applied :
    (o : Option Str) (l : Link) → set_label o l ≡ so_far (record l { label = text_or 80 o l.label })
unfolding set_label
set_label-applied none l = refl
set_label-applied (some s) l = refl

set_active-applied :
    (o : Option Bool) (l : Link) → set_active o l ≡ so_far (record l { active = or_old o l.active })
unfolding set_active
set_active-applied none l = refl
set_active-applied (some b) l = refl

set_note-applied :
    (o : Option Str) (l : Link) → set_note o l ≡ so_far (record l { note = text_or 300 o l.note })
unfolding set_note
set_note-applied none l = refl
set_note-applied (some s) l = refl

reset_used-applied :
    (o : Option Bool) (l : Link)
    → reset_used o l ≡ so_far (record l { used_bytes = used_or o l.used_bytes })
unfolding reset_used
reset_used-applied none l = refl
reset_used-applied (some true) l = refl
reset_used-applied (some false) l = refl

set_limit_bytes-applied :
    (o : Option (Option ℤ)) (l : Link)
    → IsNumber o
    → set_limit_bytes o l ≡ so_far (record l { limit_bytes = limit_or o l.limit_bytes })
unfolding set_limit_bytes
set_limit_bytes-applied none l h = refl
set_limit_bytes-applied (some none) l h = absurd h
set_limit_bytes-applied (some (some n)) l h = refl

set_expiry-applied :
    (o : Option (Option Str)) (l : Link)
    → set_expiry o l ≡ so_far (record l { expires_at = or_old o l.expires_at })
unfolding set_expiry
set_expiry-applied none l = refl
set_expiry-applied (some t) l = refl

set_speed-applied :
    (o : Option (Option ℤ)) (l : Link)
    → IsNumber o
    → set_speed o l ≡ so_far (record l { speed_limit_bytes = number_or o l.speed_limit_bytes })
unfolding set_speed
set_speed-applied none l h = refl
set_speed-applied (some none) l h = absurd h
set_speed-applied (some (some n)) l h = refl

set_ips-applied :
    (o : Option (Option ℤ)) (l : Link)
    → IsNumber o
    → set_ips o l ≡ so_far (record l { ip_limit = number_or o l.ip_limit })
unfolding set_ips
set_ips-applied none l h = refl
set_ips-applied (some none) l h = absurd h
set_ips-applied (some (some n)) l h = refl

pub apply_link_patch-applied :
    (p : LinkPatch) (l : Link)
    → IsNumber p.limit_bytes
    → IsNumber p.speed_limit_bytes
    → IsNumber p.ip_limit
    → apply_link_patch p l ≡ so_far (applied p l)
unfolding apply_link_patch
apply_link_patch-applied p l limit speed ips =
    rw
      (
        set_label-applied p.label l,
        set_active-applied p.active _,
        set_note-applied p.note _,
        reset_used-applied p.reset_usage _,
        set_limit_bytes-applied p.limit_bytes _ limit,
        set_expiry-applied p.expires_at _,
        set_speed-applied p.speed_limit_bytes _ speed,
        set_ips-applied p.ip_limit _ ips,
      )
      refl
