-- ===== src/Api/Links/Clean.antt =====
-- core/emunel_core/app.py: the fields of the links that the management API makes and patches.
use emunel.Prelude.{
  ℕ, ◌≤◌, ◌≡◌, refl, Bool, true, false, Option, none, some, Str, str_beq, codes, length, take,
  length-take, elem, ◌==◌, str_eq, arith, inl, inr, Bool-cases,
}
use emunel.Prelude.Int.{ℤ}
use emunel.State.Link.{Link, LinkArgs, new_link, clean_fingerprint, fingerprints}
use emunel.State.Link.Alpn.{clean_alpn_idem}
use emunel.State.Store.RoundTrip.{IsClean}
use emunel.Api.Links.{
  LinkBody, Fresh, LinkPatch, Made, made, failed, Patched, so_far, raised, or_text, with_cipher,
  args_of, make_link, link_from_body, apply_link_patch, protocols, ◌then_patch◌, set_label,
  set_active, set_note, reset_used, set_limit_bytes, set_expiry, set_speed, set_ips,
}

take-short : (n : ℕ) (s : Str) → length (take n s) ≤ n
take-short n s = omega (arith, length-take n s)

fingerprint_known : (f : Str) → elem (clean_fingerprint f) fingerprints ≡ true
unfolding clean_fingerprint
fingerprint_known f = elim (Bool-cases (elem f fingerprints)) [
  | inl known ↦ rw known known
  | inr other ↦ rw other (unfold str_beq in refl)
]

-- The constructor makes a clean link of any arguments with at most 60 characters of ALPN.
new_link-IsClean :
    (now_iso : Str) (a : LinkArgs) → length a.alpn ≤ 60 → IsClean (new_link now_iso a)
unfolding new_link
new_link-IsClean now_iso a short = record {
  label = take-short 80 a.label;
  note = take-short 300 a.note;
  alpn = clean_alpn_idem a.alpn short;
  fingerprint = fingerprint_known a.fingerprint;
}

with_cipher-IsClean : (fresh : Fresh) (l : Link) → IsClean l → IsClean (with_cipher fresh l)
unfolding with_cipher
with_cipher-IsClean fresh l v = elim (Bool-cases (l.protocol == codes "shadowsocks")) [
  | inl e ↦
      rw e (record { label = v.label; note = v.note; alpn = v.alpn; fingerprint = v.fingerprint })
  | inr e ↦ rw e v
]

abbrev pub IsCleanMade : Made → Type 0
IsCleanMade (made l) = IsClean l
IsCleanMade (failed status) = Unit

make_link-IsClean :
    (fresh : Fresh) (protocol : Str) (b : LinkBody) (limit used speed ips : Option ℤ)
    → IsCleanMade (make_link fresh protocol b limit used speed ips)
make_link-IsClean fresh protocol b (some limit) (some used) (some speed) (some ips) =
    let args = args_of fresh protocol b limit used speed ips in
    with_cipher-IsClean fresh (new_link fresh.now_iso args)
      (new_link-IsClean fresh.now_iso args (take-short 60 (or_text b.alpn (codes "h2,http/1.1"))))
make_link-IsClean fresh protocol b none used speed ips = tt
make_link-IsClean fresh protocol b (some limit) none speed ips = tt
make_link-IsClean fresh protocol b (some limit) (some used) none ips = tt
make_link-IsClean fresh protocol b (some limit) (some used) (some speed) none = tt

pub link_from_body-IsClean : (fresh : Fresh) (b : LinkBody) → IsCleanMade (link_from_body fresh b)
unfolding link_from_body
link_from_body-IsClean fresh b =
    elim (Bool-cases (elem (or_text b.protocol (codes "vless-ws")) protocols)) [
      | inl known ↦ rw known (
          make_link-IsClean fresh (or_text b.protocol (codes "vless-ws")) b b.limit_bytes
            b.used_bytes b.speed_limit_bytes b.ip_limit)
      | inr other ↦ rw other tt
    ]

-- A patch keeps the uuid, and a clean link clean, also where it stops half way.
abbrev pub KeepsLink : Link → Patched → Type 0
KeepsLink l (so_far l') = (l'.uuid ≡ l.uuid) × IsClean l'
KeepsLink l (raised l') = (l'.uuid ≡ l.uuid) × IsClean l'

-- One setter keeps the link that an earlier one left.
abbrev Keeps : Link → (Link → Patched) → Type 0
Keeps l f = (l' : Link) → l'.uuid ≡ l.uuid → IsClean l' → KeepsLink l (f l')

then-Keeps :
    (l : Link) (m : Patched) (f : Link → Patched)
    → KeepsLink l m
    → Keeps l f
    → KeepsLink l (m then_patch f)
then-Keeps l (so_far l') f (same, v) keeps = keeps l' same v
then-Keeps l (raised l') f h keeps = h

module _ (l : Link) where
  set_label-Keeps : (o : Option Str) → Keeps l (set_label o)
  unfolding set_label
  set_label-Keeps none l' e v = (e, v)
  set_label-Keeps (some s) l' e v = (
    e,
    record { label = take-short 80 s; note = v.note; alpn = v.alpn; fingerprint = v.fingerprint },
  )

  set_active-Keeps : (o : Option Bool) → Keeps l (set_active o)
  unfolding set_active
  set_active-Keeps none l' e v = (e, v)
  set_active-Keeps (some b) l' e v =
      (e, record { label = v.label; note = v.note; alpn = v.alpn; fingerprint = v.fingerprint })

  set_note-Keeps : (o : Option Str) → Keeps l (set_note o)
  unfolding set_note
  set_note-Keeps none l' e v = (e, v)
  set_note-Keeps (some s) l' e v = (
    e,
    record { label = v.label; note = take-short 300 s; alpn = v.alpn; fingerprint = v.fingerprint },
  )

  reset_used-Keeps : (o : Option Bool) → Keeps l (reset_used o)
  unfolding reset_used
  reset_used-Keeps none l' e v = (e, v)
  reset_used-Keeps (some true) l' e v =
      (e, record { label = v.label; note = v.note; alpn = v.alpn; fingerprint = v.fingerprint })
  reset_used-Keeps (some false) l' e v = (e, v)

  set_limit_bytes-Keeps : (o : Option (Option ℤ)) → Keeps l (set_limit_bytes o)
  unfolding set_limit_bytes
  set_limit_bytes-Keeps none l' e v = (e, v)
  set_limit_bytes-Keeps (some none) l' e v = (e, v)
  set_limit_bytes-Keeps (some (some n)) l' e v =
      (e, record { label = v.label; note = v.note; alpn = v.alpn; fingerprint = v.fingerprint })

  set_expiry-Keeps : (o : Option (Option Str)) → Keeps l (set_expiry o)
  unfolding set_expiry
  set_expiry-Keeps none l' e v = (e, v)
  set_expiry-Keeps (some t) l' e v =
      (e, record { label = v.label; note = v.note; alpn = v.alpn; fingerprint = v.fingerprint })

  set_speed-Keeps : (o : Option (Option ℤ)) → Keeps l (set_speed o)
  unfolding set_speed
  set_speed-Keeps none l' e v = (e, v)
  set_speed-Keeps (some none) l' e v = (e, v)
  set_speed-Keeps (some (some n)) l' e v =
      (e, record { label = v.label; note = v.note; alpn = v.alpn; fingerprint = v.fingerprint })

  set_ips-Keeps : (o : Option (Option ℤ)) → Keeps l (set_ips o)
  unfolding set_ips
  set_ips-Keeps none l' e v = (e, v)
  set_ips-Keeps (some none) l' e v = (e, v)
  set_ips-Keeps (some (some n)) l' e v =
      (e, record { label = v.label; note = v.note; alpn = v.alpn; fingerprint = v.fingerprint })

pub apply_link_patch-IsClean :
    (p : LinkPatch) (l : Link) → IsClean l → KeepsLink l (apply_link_patch p l)
unfolding apply_link_patch
apply_link_patch-IsClean p l v =
    then-Keeps l _ (set_ips p.ip_limit)
      (then-Keeps l _ (set_speed p.speed_limit_bytes)
        (then-Keeps l _ (set_expiry p.expires_at)
          (then-Keeps l _ (set_limit_bytes p.limit_bytes)
            (then-Keeps l _ (reset_used p.reset_usage)
              (then-Keeps l _ (set_note p.note)
                (then-Keeps l _ (set_active p.active) (set_label-Keeps l p.label l refl v)
                  (set_active-Keeps l p.active))
                (set_note-Keeps l p.note))
              (reset_used-Keeps l p.reset_usage))
            (set_limit_bytes-Keeps l p.limit_bytes))
          (set_expiry-Keeps l p.expires_at))
        (set_speed-Keeps l p.speed_limit_bytes))
      (set_ips-Keeps l p.ip_limit)
