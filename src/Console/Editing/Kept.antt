-- ===== src/Console/Editing/Kept.antt =====
-- console/api/emunel_console/services/links.py: the table and the Core over any edits of configs.
use emunel.Prelude.{
  ℕ, ◌≡◌, ◌≢◌, refl, sym, ap, Bool, true, ◌&&◌, not, Option, none, some, [], ◌++◌, Str, codes, ◌==◌,
  str_eq, str_beq_iff, nat_eq, elem, arith, inl, inr, Bool-cases, Option-cases,
}
use emunel.Prelude.Int.{ℤ, pos}
use emunel.Prelude.Float.{Floats}
use emunel.Prelude.Dict.{get, get-remove}
use emunel.State.Link.{Link, Clock, new_link, is_allowed}
use emunel.State.Links.{add, pop, spend}
use emunel.Api.Links.{
  Core, Fresh, made, or_text, protocols, with_cipher, args_of, link_from_body, core_links_create,
  core_links_update, core_links_delete,
}
use emunel.Api.Links.Patching.{
  applied, IsNumber, apply_link_patch-applied, or_old, limit_or, number_or,
}
use emunel.Console.Configs.{ConfigRow, LinkPolicy, or_zero, or_null, post_of}
use emunel.Console.Configs.Restored.{IsInLine, with_cipher-IsInLine, or_text_again}
use emunel.Console.Policy.{Parsed, parsed, invalid, raises, Reading, PolicyBody, parse_link_policy}
use emunel.Console.Editing.{
  Desk, CoreCall, undelivered, unanswered, answered, call_core, row_of, post_link, posted,
  clean_label, create_link, ConfigEdit, Changes, changes_of, patch_of, is_change, edited,
  or_old_column, patch_link, patched, update_link, delete_link, limit_of, number_of,
}
use emunel.Console.Editing.Synced.{IsSynced, sync-put, sync-charge, sync-remove}

-- The answer is not lost.
abbrev pub IsCertain : CoreCall → Type 0
IsCertain undelivered = Unit
IsCertain unanswered = ⊥
IsCertain answered = Unit

or_zero-or_null : (n : ℕ) → or_zero (or_null n) ≡ n
or_zero-or_null n = ground arith

module _ (fresh : Fresh) (label protocol : Str) (p : LinkPolicy) where
  abbrev posted_link : Link
  posted_link = with_cipher fresh (
      new_link fresh.now_iso (
        args_of fresh protocol (post_of none label protocol 0 p) (pos p.limit_bytes) (pos 0)
          (pos p.speed_limit_bytes) (pos p.ip_limit)))

  posted_link-IsInLine : IsInLine (row_of label protocol p) true posted_link
  unfolding new_link
  posted_link-IsInLine = with_cipher-IsInLine fresh (row_of label protocol p) true _ (record {
    limit = ap (λ (n : ℕ). pos n) (sym (or_zero-or_null p.limit_bytes));
    expiry = refl;
    speed = sym (or_zero-or_null p.speed_limit_bytes);
    ips = sym (or_zero-or_null p.ip_limit);
    state = refl;
  })

  link_from_body-posted :
      or_text (some protocol) (codes "vless-ws") ≡ protocol
      → elem protocol protocols ≡ true
      → link_from_body fresh (post_of none label protocol 0 p) ≡ made posted_link
  unfolding link_from_body
  link_from_body-posted named known = rw (named, known) refl

  post_link-IsSynced :
      (call : CoreCall) (runtime : Bool) (d : Desk)
      → IsCertain call
      → or_text (some protocol) (codes "vless-ws") ≡ protocol
      → elem protocol protocols ≡ true
      → IsSynced d
      → IsSynced (post_link call runtime fresh label protocol p d).0
  unfolding post_link call_core core_links_create add
  post_link-IsSynced undelivered runtime d certain named known s = s
  post_link-IsSynced unanswered runtime d certain named known s = absurd certain
  post_link-IsSynced answered runtime d certain named known s =
      elim (Bool-cases (posted_link.protocol == codes "vmess-ws" && not runtime)) [
        | inl no_runtime ↦ rw (link_from_body-posted named known, no_runtime) s
        | inr fine ↦
            rw (link_from_body-posted named known, fine)
              (sync-put d _ posted_link.uuid (row_of label protocol p) posted_link refl
                posted_link-IsInLine s)
      ]

number_or-number_of :
    (o row : Option ℕ) (old : ℕ)
    → old ≡ or_zero row
    → number_or (number_of o) old ≡ or_zero (or_old_column o row)
number_or-number_of none row old e = e
number_or-number_of (some n) row old e = refl

limit_or-limit_of :
    (o : Option (Option ℕ)) (row : Option ℕ) (old : ℤ)
    → old ≡ pos (or_zero row)
    → limit_or (limit_of o) old ≡ pos (or_zero (or_old o row))
limit_or-limit_of none row old e = e
limit_or-limit_of (some none) row old e = refl
limit_or-limit_of (some (some n)) row old e = refl

or_old-expiry :
    (o : Option (Option Str)) (row old : Option Str)
    → or_text old [] ≡ or_text row []
    → or_text (or_old o old) [] ≡ or_text (or_old o row) []
or_old-expiry none row old e = e
or_old-expiry (some t) row old e = refl

edited-IsInLine :
    (x : Changes) (row : ConfigRow) (l : Link)
    → IsInLine row row.active l
    → IsInLine (edited x row) (edited x row).active (applied (patch_of x) l)
edited-IsInLine x row l v = record {
  limit = limit_or-limit_of x.limit_bytes row.limit_bytes l.limit_bytes v.limit;
  expiry = or_old-expiry x.expires_at row.expires_at l.expires_at v.expiry;
  speed = number_or-number_of x.speed_limit_bytes row.speed_limit_bytes l.speed_limit_bytes v.speed;
  ips = number_or-number_of x.ip_limit row.ip_limit l.ip_limit v.ips;
  state = ap (or_old x.active) v.state;
}

number_of-IsNumber : (o : Option ℕ) → IsNumber (number_of o)
number_of-IsNumber none = tt
number_of-IsNumber (some n) = tt

limit_of-IsNumber : (o : Option (Option ℕ)) → IsNumber (limit_of o)
limit_of-IsNumber none = tt
limit_of-IsNumber (some none) = tt
limit_of-IsNumber (some (some n)) = tt

patch_link-IsSynced :
    (call : CoreCall) (uuid : Str) (x : Changes) (row : ConfigRow) (d : Desk)
    → IsCertain call
    → get d.rows uuid ≡ some row
    → IsSynced d
    → IsSynced (patch_link call uuid x row d).0
unfolding patch_link call_core core_links_update
patch_link-IsSynced undelivered uuid x row d certain found s = elim (Bool-cases (is_change x)) [
  | inl some_ ↦ rw some_ s
  | inr nothing ↦ rw nothing s
]
patch_link-IsSynced unanswered uuid x row d certain found s = absurd certain
patch_link-IsSynced answered uuid x row d certain found s =
    let (l, e, v) = s.holds uuid row found in
    let applies =
      apply_link_patch-applied (patch_of x) l (limit_of-IsNumber x.limit_bytes)
        (number_of-IsNumber x.speed_limit_bytes) (number_of-IsNumber x.ip_limit) in
    elim (Bool-cases (is_change x)) [
      | inl some_ ↦
          rw (some_, e, applies)
            (sync-put d _ uuid (edited x row) (applied (patch_of x) l) refl
              (edited-IsInLine x row l v) s)
      | inr nothing ↦ rw nothing s
    ]

delete-other :
    (uuid j : Str) (c : Core) → uuid ≢ j → get (core_links_delete uuid c).0.links j ≡ get c.links j
unfolding core_links_delete pop
delete-other uuid j c apart = elim (Option-cases (get c.links uuid)) [
  | inl e ↦ rw e refl
  | inr (l, e) ↦ rw e (ground (arith, get-remove c.links uuid j, (str_beq_iff uuid j).0))
]

call-delete-other :
    (call : CoreCall) (uuid j : Str) (c : Core)
    → uuid ≢ j
    → get (call_core call (core_links_delete uuid) c).0.links j ≡ get c.links j
unfolding call_core
call-delete-other undelivered uuid j c apart = refl
call-delete-other unanswered uuid j c apart = delete-other uuid j c apart
call-delete-other answered uuid j c apart = delete-other uuid j c apart

pub delete_link-IsSynced :
    (call : CoreCall) (uuid : Str) (d : Desk) → IsSynced d → IsSynced (delete_link call uuid d).0
unfolding delete_link
delete_link-IsSynced call uuid d s = elim (Option-cases (get d.rows uuid)) [
  | inl e ↦ rw e s
  | inr (row, e) ↦
      rw e (sync-remove d _ uuid (λ j apart. call-delete-other call uuid j d.core apart) s)
]

pub spend-IsSynced :
    (clock : Clock) (uuid : Str) (n : ℕ) (d : Desk)
    → IsSynced d
    → IsSynced (record d { core = record d.core { links = (spend clock d.core.links uuid n).0 } })
unfolding spend
spend-IsSynced clock uuid n d s = elim (Option-cases (get d.core.links uuid)) [
  | inl e ↦ rw e s
  | inr (l, e) ↦ elim (Bool-cases (is_allowed clock l)) [
    | inl b ↦ rw (e, b) (sync-charge d _ uuid l n e refl s)
    | inr b ↦ rw (e, b) s
  ]
]

module _ (F : Floats) (r : Reading F) where
  posted-IsSynced :
      (call : CoreCall) (runtime : Bool) (fresh : Fresh) (label protocol : Str)
      (m : Parsed LinkPolicy) (d : Desk)
      → IsCertain call
      → or_text (some protocol) (codes "vless-ws") ≡ protocol
      → elem protocol protocols ≡ true
      → IsSynced d
      → IsSynced (posted F r call runtime fresh label protocol m d).0
  posted-IsSynced call runtime fresh label protocol (parsed p) d certain named known s =
      post_link-IsSynced fresh label protocol p call runtime d certain named known s
  posted-IsSynced call runtime fresh label protocol invalid d certain named known s = s
  posted-IsSynced call runtime fresh label protocol raises d certain named known s = s

  pub create_link-IsSynced :
      (call : CoreCall) (runtime : Bool) (fresh : Fresh) (protocol label : Option Str)
      (b : PolicyBody F) (d : Desk)
      → IsCertain call
      → IsSynced d
      → IsSynced (create_link F r call runtime fresh protocol label b d).0
  unfolding create_link
  create_link-IsSynced call runtime fresh protocol label b d certain s =
      let proto = or_text protocol (codes "vless-ws") in
      elim (Bool-cases (elem proto protocols)) [
        | inl known ↦ rw known (
            posted-IsSynced call runtime fresh
              (or_text (some (clean_label label)) (codes "Config " ++ proto)) proto
              (parse_link_policy F r b) d certain (or_text_again protocol) known s)
        | inr other ↦ rw other s
      ]

  patched-IsSynced :
      (call : CoreCall) (uuid : Str) (m : Parsed Changes) (row : ConfigRow) (d : Desk)
      → IsCertain call
      → get d.rows uuid ≡ some row
      → IsSynced d
      → IsSynced (patched F r call uuid m row d).0
  patched-IsSynced call uuid (parsed x) row d certain found s =
      patch_link-IsSynced call uuid x row d certain found s
  patched-IsSynced call uuid invalid row d certain found s = s
  patched-IsSynced call uuid raises row d certain found s = s

  pub update_link-IsSynced :
      (call : CoreCall) (uuid : Str) (b : ConfigEdit F r) (d : Desk)
      → IsCertain call
      → IsSynced d
      → IsSynced (update_link F r call uuid b d).0
  unfolding update_link
  update_link-IsSynced call uuid b d certain s = elim (Option-cases (get d.rows uuid)) [
    | inl e ↦ rw e s
    | inr (row, e) ↦ rw e (patched-IsSynced call uuid (changes_of F r b) row d certain e s)
  ]
