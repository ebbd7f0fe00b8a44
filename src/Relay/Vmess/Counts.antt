-- ===== src/Relay/Vmess/Counts.antt =====
-- core/emunel_core/relay/vmess.py: the reference counts over the life of the tunnels.
use emunel.Prelude.{
  ℕ, ◌+◌, ◌≤◌, ◌<◌, ◌≡◌, ◌≢◌, refl, sym, ap, ◌∙◌, true, some, List, [], ◌∷◌, Str, All, length, ◌==◌,
  nat_eq, str_eq, str_beq_iff, pair_eq, same_pair_iff, if◌then◌else◌, arith, inl, inr, Bool-cases,
  sum_of,
}
use mathlib.Core.Path.{subst₂}
use emunel.Prelude.Dict.{Dict, get, put, remove, get-put, get-remove}
use emunel.Relay.Vmess.{Entry, XrayRuntime, without, is_held}

-- How many tunnels hold an entry.
abbrev pub is_one : Str × ℕ → Str × ℕ → ℕ
is_one h j = if j == h then 1 else 0

unfoldable pub count : Str × ℕ → List (Str × ℕ) → ℕ
count h hs = sum_of (is_one h) hs

pub count-without :
    (h j : Str × ℕ) (hs : List (Str × ℕ))
    → is_held h hs ≡ true
    → count j (without h hs) + is_one j h ≡ count j hs
unfolding count without is_held
count-without h j [] held_ = absurd (ground (arith, held_))
count-without h j (i ∷ hs) held_ = elim (Bool-cases (i == h)) [
  | inl same ↦ rw same (omega (arith, ap (is_one j) ((same_pair_iff i h).0 same)))
  | inr other ↦ rw other (omega (arith, count-without h j hs (ground (arith, held_, other))))
]

-- Each serial was given out.
pub count-fresh :
    (uuid : Str) (serial : ℕ) (hs : List (Str × ℕ))
    → All (λ h. h.1 < serial) hs
    → count (uuid, serial) hs ≡ 0
unfolding count
count-fresh uuid serial [] v = refl
count-fresh uuid serial ((j, s) ∷ hs) (v, vs) = ground (arith, count-fresh uuid serial hs vs, v)

pub All-without :
    (h : Str × ℕ) (n : ℕ) (hs : List (Str × ℕ))
    → All (λ j. j.1 < n) hs
    → All (λ j. j.1 < n) (without h hs)
unfolding without
All-without h n [] v = tt
All-without h n (i ∷ hs) (v, vs) = elim (Bool-cases (i == h)) [
  | inl same ↦ rw same vs
  | inr other ↦ rw other (v, All-without h n hs vs)
]

pub count-here : (h : Str × ℕ) (hs : List (Str × ℕ)) → count h (h ∷ hs) ≡ 1 + count h hs
unfolding count
count-here h hs = ground (arith, (same_pair_iff h h).1 refl)

pub count-apart :
    (uuid j : Str) (s t : ℕ) (hs : List (Str × ℕ))
    → uuid ≢ j
    → count (j, t) ((uuid, s) ∷ hs) ≡ count (j, t) hs
unfolding count
count-apart uuid j s t hs h = ground (arith, (str_beq_iff uuid j).0, h)

pub All-more : (n : ℕ) (hs : List (Str × ℕ)) → All (λ h. h.1 < n) hs → All (λ h. h.1 < n + 1) hs
All-more n [] v = tt
All-more n (h ∷ hs) (v, vs) = (omega (arith, v), All-more n hs vs)

-- The tunnels that hold the entry are counted, it is held, and its serial was given out.
abbrev pub IsRight : XrayRuntime → Str → Entry → Type 0
IsRight r uuid e =
    (e.refs ≡ count (uuid, e.serial) r.holders) × (1 ≤ e.refs) × (e.serial < r.started)

-- A runtime runs while tunnels hold it, and only then, and there are no more than there is room.
pub record IsCounted (room : ℕ) (r : XrayRuntime) : Type 0 where
  pub right : (uuid : Str) (e : Entry) → get r.entries uuid ≡ some e → IsRight r uuid e
  pub given : All (λ h. h.1 < r.started) r.holders
  pub fits : length r.entries ≤ room

-- The entries of other links are right as before.
abbrev pub KeepsOthers : Str → XrayRuntime → XrayRuntime → Type 0
KeepsOthers uuid r r' =
    ((j : Str) (t : ℕ) → uuid ≢ j → count (j, t) r'.holders ≡ count (j, t) r.holders)
    × (r.started ≤ r'.started)

pub put-IsRight :
    (r r' : XrayRuntime) (uuid : Str) (e : Entry)
    → r'.entries ≡ put r.entries uuid e
    → KeepsOthers uuid r r'
    → IsRight r' uuid e
    → ((j : Str) (f : Entry) → get r.entries j ≡ some f → IsRight r j f)
    → (j : Str) (f : Entry) → get r'.entries j ≡ some f
    → IsRight r' j f
put-IsRight r r' uuid e puts (same, later) new old j f found =
    let found' : get (put r.entries uuid e) j ≡ some f =
      sym (ap (λ (d : Dict Str Entry). get d j) puts) ∙ found in
    elim (Bool-cases (uuid == j)) [
      | inl here ↦
          let value : e ≡ f = ground (arith, found', here, get-put r.entries uuid j e) in
          subst₂ (λ (u : Str) (g : Entry). IsRight r' u g) ((str_beq_iff uuid j).0 here) value new
      | inr there ↦
          let (refs, some_, serial) =
            old j f (ground (arith, found', there, get-put r.entries uuid j e)) in
          let apart : uuid ≢ j = λ e. absurd (ground (arith, there, (str_beq_iff uuid j).1 e)) in
          (refs ∙ sym (same j f.serial apart), some_, omega (arith, serial, later))
    ]

pub remove-IsRight :
    (r r' : XrayRuntime) (uuid : Str)
    → r'.entries ≡ remove r.entries uuid
    → KeepsOthers uuid r r'
    → ((j : Str) (f : Entry) → get r.entries j ≡ some f → IsRight r j f)
    → (j : Str) (f : Entry) → get r'.entries j ≡ some f
    → IsRight r' j f
remove-IsRight r r' uuid removes (same, later) old j f found =
    let found' : get (remove r.entries uuid) j ≡ some f =
      sym (ap (λ (d : Dict Str Entry). get d j) removes) ∙ found in
    let apart : uuid ≢ j =
      λ e. absurd (ground (arith, found', get-remove r.entries uuid j, (str_beq_iff uuid j).1 e)) in
    let (refs, some_, serial) = old j f (ground (arith, found', get-remove r.entries uuid j)) in
    (refs ∙ sym (same j f.serial apart), some_, omega (arith, serial, later))
