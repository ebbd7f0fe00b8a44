-- ===== src/Relay/Vmess/Pool.antt =====
-- core/emunel_core/relay/vmess.py: `acquire`, the end of a tunnel, an exit and `close`, in any order.
use emunel.Prelude.{
  ℕ, ◌+◌, ◌-◌, ◌<◌, ◌≡◌, ◌≢◌, refl, sym, ap, subst, ◌∙◌, Bool, true, false, not, ◌||◌, none, some,
  List, [], ◌∷◌, Str, length, leb, ◌==◌, nat_eq, nat_same_iff, str_eq, str_beq_iff, pair_eq,
  same_pair_iff, if◌then◌else◌, arith, inl, inr, ◌⊎◌, Bool-cases, Option-cases,
}
use emunel.Prelude.Dict.{Dict, get, put, remove, length-put-none, length-put-some, length-remove-le}
use emunel.Relay.Vmess.{
  Entry, XrayRuntime, new_runtime, held, acquire_entry, acquire, release_entry, without, is_held,
  release, exit_entry, close, Event, acquires, releases, exits, closes, happen, happen_all,
}
use emunel.Relay.Vmess.Counts.{
  count, count-here, count-apart, count-fresh, count-without, All-more, All-without, IsCounted,
  KeepsOthers, put-IsRight, remove-IsRight, is_one,
}

-- A new entry, and one more tunnel.
start-IsCounted :
    (room : ℕ) (uuid : Str) (r : XrayRuntime)
    → get r.entries uuid ≡ none
    → length r.entries < room
    → IsCounted room r
    → IsCounted room (
        held uuid
          (record { serial = r.started; exited = false; refs = 0 })
          (record r { started = r.started + 1 }))
start-IsCounted room uuid r new free v =
    let e : Entry = record { serial = r.started; exited = false; refs = 1 } in
    let r' =
      held uuid (record { serial = r.started; exited = false; refs = 0 })
        (record r { started = r.started + 1 }) in
    let counted : count (uuid, r.started) r'.holders ≡ 1 = omega (
      arith,
      count-here (uuid, r.started) r.holders,
      count-fresh uuid r.started r.holders v.given,
    ) in
    record {
      right =
          put-IsRight r r' uuid e refl
            ((λ j t apart. count-apart uuid j r.started t r.holders apart), omega arith)
            (sym counted, omega arith, omega arith) v.right;
      given = (omega arith, All-more r.started r.holders v.given);
      fits = omega (arith, length-put-none r.entries uuid e new, free);
    }

-- One more tunnel at an entry.
join-IsCounted :
    (room : ℕ) (uuid : Str) (e : Entry) (r : XrayRuntime)
    → get r.entries uuid ≡ some e
    → IsCounted room r
    → IsCounted room (held uuid e r)
join-IsCounted room uuid e r found v =
    let (refs, some_, serial) = v.right uuid e found in
    let e' : Entry = record e { refs = e.refs + 1 } in
    record {
      right =
          put-IsRight r (held uuid e r) uuid e' refl
            ((λ j t apart. count-apart uuid j e.serial t r.holders apart), omega arith)
            (omega (arith, refs, count-here (uuid, e.serial) r.holders), omega arith, serial)
            v.right;
      given = (serial, v.given);
      fits = omega (arith, length-put-some r.entries uuid e' e found, v.fits);
    }

-- Either branch of a test.
either-IsCounted :
    (room : ℕ) (b : Bool) (x y : XrayRuntime × Bool)
    → IsCounted room x.0
    → (b ≡ false → IsCounted room y.0)
    → IsCounted room (if b then x else y).0
either-IsCounted room true x y v w = v
either-IsCounted room false x y v w = w refl

acquire-IsCounted :
    (room : ℕ) (starts : Bool) (uuid : Str) (r : XrayRuntime)
    → IsCounted room r
    → IsCounted room (acquire room starts uuid r).0
unfolding acquire
acquire-IsCounted room starts uuid r v =
    either-IsCounted room r.closed (r, false)
      (acquire_entry room starts uuid (get r.entries uuid) r) v
      λ open_. elim (Option-cases (get r.entries uuid)) [
        | inl new ↦ rw new (
            either-IsCounted room (leb room (length r.entries) || not starts) (r, false) _ v
              λ free. start-IsCounted room uuid r new (ground (arith, free)) v)
        | inr (e, found) ↦ rw found (
            either-IsCounted room e.exited (r, false) (held uuid e r, true) v
              λ runs. join-IsCounted room uuid e r found v)
      ]

exit-IsCounted :
    (room : ℕ) (uuid : Str) (r : XrayRuntime)
    → IsCounted room r
    → IsCounted room (exit_entry uuid (get r.entries uuid) r)
exit-IsCounted room uuid r v = elim (Option-cases (get r.entries uuid)) [
  | inl new ↦ rw new v
  | inr (e, found) ↦
      let e' : Entry = record e { exited = true } in
      let r' : XrayRuntime = record r { entries = put r.entries uuid e' } in
      rw found (record {
        right =
            put-IsRight r r' uuid e' refl ((λ j t apart. refl), omega arith) (v.right uuid e found)
              v.right;
        given = v.given;
        fits = omega (arith, length-put-some r.entries uuid e' e found, v.fits);
      })
]

close-IsCounted : (room : ℕ) (r : XrayRuntime) → IsCounted room r → IsCounted room (close r)
unfolding close get
close-IsCounted room r v = record {
  right = λ uuid e found. absurd (ground (arith, found));
  given = v.given;
  fits = omega arith;
}

-- A tunnel fewer, at its own entry and at any other.
without-counted :
    (h : Str × ℕ) (hs : List (Str × ℕ))
    → is_held h hs ≡ true
    → count h (without h hs) + 1 ≡ count h hs
without-counted h hs is =
    let one : is_one h h ≡ 1 = ground (arith, (same_pair_iff h h).1 refl) in
    omega (arith, count-without h h hs is, one)

without-keeps :
    (uuid j : Str) (s t : ℕ) (hs : List (Str × ℕ))
    → is_held (uuid, s) hs ≡ true
    → (uuid ≢ j) ⊎ (s ≢ t)
    → count (j, t) (without (uuid, s) hs) ≡ count (j, t) hs
without-keeps uuid j s t hs is apart =
    let none_ : is_one (j, t) (uuid, s) ≡ 0 = ground (arith, (str_beq_iff uuid j).0, apart) in
    omega (arith, count-without (uuid, s) (j, t) hs is, none_)

module _ (room : ℕ) (uuid : Str) (s : ℕ) (r : XrayRuntime) (is : is_held (uuid, s) r.holders ≡ true)
    (v : IsCounted room r) where
  abbrev left : Dict Str Entry → XrayRuntime
  left entries = record r { entries = entries; holders = without (uuid, s) r.holders }

  keeps_others : (entries : Dict Str Entry) → KeepsOthers uuid r (left entries)
  keeps_others entries =
      ((λ j t apart. without-keeps uuid j s t r.holders is (inl apart)), omega arith)

  -- The tunnel's entry is gone.
  leave-IsCounted :
      ((e : Entry) → get r.entries uuid ≡ some e → e.serial ≢ s) → IsCounted room (left r.entries)
  leave-IsCounted other = record {
    right = λ j f found.
        let (refs, some_, serial) = v.right j f found in
        let apart : (uuid ≢ j) ⊎ (s ≢ f.serial) = elim (Bool-cases (uuid == j)) [
          | inl here ↦ inr (λ e.
              other f
                (subst (λ (i : Str). get r.entries i ≡ some f) (sym ((str_beq_iff uuid j).0 here))
                  found)
                (sym e))
          | inr there ↦ inl (λ e. absurd (ground (arith, there, (str_beq_iff uuid j).1 e)))
        ] in
        (refs ∙ sym (without-keeps uuid j s f.serial r.holders is apart), some_, serial);
    given = All-without (uuid, s) r.started r.holders v.given;
    fits = v.fits;
  }

  -- It was the last that held its entry.
  last-IsCounted : IsCounted room (left (remove r.entries uuid))
  last-IsCounted = record {
    right =
        remove-IsRight r (left (remove r.entries uuid)) uuid refl
          (keeps_others (remove r.entries uuid)) v.right;
    given = All-without (uuid, s) r.started r.holders v.given;
    fits = omega (arith, length-remove-le r.entries uuid, v.fits);
  }

  -- Others hold it still.
  fewer-IsCounted :
      (e : Entry)
      → get r.entries uuid ≡ some e
      → e.serial ≡ s
      → 1 < e.refs
      → IsCounted room (left (put r.entries uuid (record e { refs = e.refs - 1 })))
  fewer-IsCounted e found same more =
      let (refs, some_, serial) = v.right uuid e found in
      let e' : Entry = record e { refs = e.refs - 1 } in
      let fewer : count (uuid, e.serial) (without (uuid, s) r.holders) + 1
          ≡ count (uuid, e.serial) r.holders =
        subst
          (λ (t : ℕ). count (uuid, t) (without (uuid, s) r.holders) + 1 ≡ count (uuid, t) r.holders)
          (sym same) (without-counted (uuid, s) r.holders is) in
      record {
        right =
            put-IsRight r (left (put r.entries uuid e')) uuid e' refl
              (keeps_others (put r.entries uuid e'))
              (omega (arith, refs, fewer), omega (arith, more), serial) v.right;
        given = All-without (uuid, s) r.started r.holders v.given;
        fits = omega (arith, length-put-some r.entries uuid e' e found, v.fits);
      }

  release_entry-IsCounted :
      IsCounted room (left (release_entry uuid s (get r.entries uuid) r.entries))
  release_entry-IsCounted = elim (Option-cases (get r.entries uuid)) [
    | inl new ↦ rw new (leave-IsCounted (λ e found. absurd (ground (arith, new, found))))
    | inr (e, found) ↦ elim (Bool-cases (e.serial == s)) [
      | inl same ↦ elim (Bool-cases (leb e.refs 1)) [
        | inl last ↦ rw (found, same, last) last-IsCounted
        | inr more ↦
            rw (found, same, more)
              (fewer-IsCounted e found ((nat_same_iff e.serial s).0 same) (ground (arith, more)))
      ]
      | inr other ↦
          rw (found, other)
            (leave-IsCounted (λ f there named.
              let same : e ≡ f = ground (arith, found, there) in
              absurd (
                ground (
                  arith,
                  other,
                  (nat_same_iff e.serial s).1 (ap (λ (x : Entry). x.serial) same ∙ named),
                ))))
    ]
  ]

release-IsCounted :
    (room : ℕ) (h : Str × ℕ) (r : XrayRuntime) → IsCounted room r → IsCounted room (release h r)
unfolding release
release-IsCounted room (uuid, s) r v = elim (Bool-cases (is_held (uuid, s) r.holders)) [
  | inl is ↦ rw is (release_entry-IsCounted room uuid s r is v)
  | inr no_ ↦ rw no_ v
]

happen-IsCounted :
    (room : ℕ) (e : Event) (r : XrayRuntime) → IsCounted room r → IsCounted room (happen room e r)
unfolding happen
happen-IsCounted room (acquires starts uuid) r v = acquire-IsCounted room starts uuid r v
happen-IsCounted room (releases h) r v = release-IsCounted room h r v
happen-IsCounted room (exits uuid) r v = exit-IsCounted room uuid r v
happen-IsCounted room closes r v = close-IsCounted room r v

happen_all_kept :
    (room : ℕ) (es : List Event) (r : XrayRuntime)
    → IsCounted room r
    → IsCounted room (happen_all room es r)
unfolding happen_all
happen_all_kept room [] r v = v
happen_all_kept room (e ∷ es) r v =
    happen_all_kept room es (happen room e r) (happen-IsCounted room e r v)

new_runtime-IsCounted : (room : ℕ) → IsCounted room new_runtime
unfolding get
new_runtime-IsCounted room = record {
  right = λ uuid e found. absurd (ground (arith, found));
  given = tt;
  fits = omega arith;
}

-- However tunnels begin and end, processes fail to start or exit, and the Core shuts down, there are never
-- more runtimes than there is room for, and each is counted by exactly the tunnels that hold it.
pub happen_all-IsCounted :
    (room : ℕ) (es : List Event) → IsCounted room (happen_all room es new_runtime)
happen_all-IsCounted room es = happen_all_kept room es new_runtime (new_runtime-IsCounted room)

-- A dictionary in which nothing is found is empty.
nothing_found : (d : Dict Str Entry) → ((uuid : Str) (e : Entry) → get d uuid ≢ some e) → d ≡ []
unfolding get
nothing_found [] h = refl
nothing_found ((uuid, e) ∷ d) h = absurd (h uuid e (ground (arith, (str_beq_iff uuid uuid).1 refl)))

-- When the last tunnel has ended, no runtime is left, whatever happened before.
happen_all_idle :
    (room : ℕ) (es : List Event)
    → (happen_all room es new_runtime).holders ≡ []
    → (happen_all room es new_runtime).entries ≡ []
unfolding count
happen_all_idle room es idle =
    let r = happen_all room es new_runtime in
    nothing_found r.entries (λ uuid e found.
      let (refs, some_, serial) = (happen_all-IsCounted room es).right uuid e found in
      let nobody : e.refs ≡ 0 = refs ∙ ap (count (uuid, e.serial)) idle in
      omega (arith, some_, nobody))
