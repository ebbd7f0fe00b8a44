-- ===== src/Prelude/Dict.antt =====
-- Python's `dict`: an association list in insertion order. A key that is there keeps its place.
pub mod Keys
use Prim.Native.Nat.{◌<◌, suc, ◌≤◌}
use mathlib.Core.Logic.{inl, inr}
use mathlib.Core.Path.{◌≡◌, refl, sym, subst, subst₂}
use mathlib.Core.List.{List, [], ◌∷◌}
use mathlib.Core.Option.{Option, none, some}
use native.Mathlib.Omega.{arith}
use emunel.Prelude.Tests.{Bool-cases, if◌then◌else◌, ◌==◌, Equality}
use emunel.Prelude.Lists.{All, length}

abbrev pub Dict {ℓ κ} : Type ℓ → Type κ → Type (ℓ ⊔ κ)
Dict K V = List (K × V)

module _ {ℓ κ} {K : Type ℓ} {V : Type κ} ⦃e : Equality K⦄ where
  -- d.get(k)
  unfoldable pub get : Dict K V → K → Option V
  get [] k = none
  get ((j, v) ∷ d) k = let rest = get d k in if j == k then some v else rest

  -- d[k] = v
  unfoldable pub put : Dict K V → K → V → Dict K V
  put [] k v = (k, v) ∷ []
  put ((j, w) ∷ d) k v = let rest = put d k v in if j == k then (j, v) ∷ d else (j, w) ∷ rest

  -- d.pop(k, None)
  unfoldable pub remove : Dict K V → K → Dict K V
  remove [] k = []
  remove ((j, w) ∷ d) k = let rest = remove d k in if j == k then rest else (j, w) ∷ rest

  pub get-put :
      (d : Dict K V) (k j : K) (v : V) → get (put d k v) j ≡ (if k == j then some v else get d j)
  unfolding get put
  get-put [] k j v = ground arith
  get-put ((i, w) ∷ d) k j v =
      ground (arith, e.same_iff k j, e.same_iff i k, e.same_iff i j, get-put d k j v)

  pub get-remove :
      (d : Dict K V) (k j : K) → get (remove d k) j ≡ (if k == j then none else get d j)
  unfolding get remove
  get-remove [] k j = ground arith
  get-remove ((i, w) ∷ d) k j =
      ground (arith, e.same_iff k j, e.same_iff i k, e.same_iff i j, get-remove d k j)

  pub get-remove_self : (d : Dict K V) (k : K) → get (remove d k) k ≡ none
  get-remove_self d k = ground (arith, get-remove d k k, e.same_iff k k)

  pub remove_absent : (d : Dict K V) (k : K) → get d k ≡ none → remove d k ≡ d
  unfolding get remove
  remove_absent [] k h = refl
  remove_absent ((i, w) ∷ d) k h = ground (arith, remove_absent d k)

  -- An update of a key that is there keeps the size.
  pub length-put-some :
      (d : Dict K V) (k : K) (v w : V) → get d k ≡ some w → length (put d k v) ≡ length d
  unfolding get put
  length-put-some [] k v w h = absurd (ground arith)
  length-put-some ((i, u) ∷ d) k v w h = ground (arith, length-put-some d k v w)

  pub length-put-none :
      (d : Dict K V) (k : K) (v : V) → get d k ≡ none → length (put d k v) ≡ suc (length d)
  unfolding get put
  length-put-none [] k v h = refl
  length-put-none ((i, u) ∷ d) k v h = ground (arith, length-put-none d k v)

  pub length-remove-le : (d : Dict K V) (k : K) → length (remove d k) ≤ length d
  unfolding remove
  length-remove-le [] k = omega arith
  length-remove-le ((i, u) ∷ d) k = ground (arith, length-remove-le d k)

  -- A key that is there frees an entry.
  pub length-remove-lt :
      (d : Dict K V) (k : K) (v : V) → get d k ≡ some v → length (remove d k) < length d
  unfolding get remove
  length-remove-lt [] k v h = absurd (ground arith)
  length-remove-lt ((i, u) ∷ d) k v h = ground (arith, length-remove-le d k, length-remove-lt d k v)

-- A property of all entries.
module _ {ℓ κ μ} {K : Type ℓ} {V : Type κ} ⦃e : Equality K⦄ (P : K × V → Type μ) where
  pub All-put : (d : Dict K V) (k : K) (v : V) → P (k, v) → All P d → All P (put d k v)
  unfolding put
  All-put [] k v p h = (p, tt)
  All-put ((j, w) ∷ d) k v p h = elim (Bool-cases (j == k)) [
    | inl same ↦ rw (same, put) (subst (λ (i : K). P (i, v)) (sym ((e.same_iff j k).0 same)) p, h.1)
    | inr other ↦ rw (other, put) (h.0, All-put d k v p h.1)
  ]

  pub All-remove : (d : Dict K V) (k : K) → All P d → All P (remove d k)
  unfolding remove
  All-remove [] k h = tt
  All-remove ((j, w) ∷ d) k h = elim (Bool-cases (j == k)) [
    | inl same ↦ rw (same, remove) (All-remove d k h.1)
    | inr other ↦ rw (other, remove) (h.0, All-remove d k h.1)
  ]

  pub All-get : (d : Dict K V) (k : K) (v : V) → get d k ≡ some v → All P d → P (k, v)
  unfolding get
  All-get [] k v found h = absurd (ground arith)
  All-get ((j, w) ∷ d) k v found h = elim (Bool-cases (j == k)) [
    | inl same ↦
        let key : j ≡ k = (e.same_iff j k).0 same in
        let value : w ≡ v = ground (arith, same) in
        subst₂ (λ (i : K) (x : V). P (i, x)) key value h.0
    | inr other ↦ All-get d k v (ground (arith, other)) h.1
  ]

pub ruleset dict_laws = (get-put, get-remove)
