-- ===== src/Prelude/Dict/Keys.antt =====
-- Dictionaries have each key once; an update with many entries.
use mathlib.Core.Path.{◌≡◌, refl, sym, ap, subst, ◌∙◌}
use mathlib.Core.Bool.{false}
use mathlib.Core.List.{[], ◌∷◌, ◌++◌, append_assoc, append-nil}
use mathlib.Core.Option.{none, some}
use native.Mathlib.Omega.{arith}
use emunel.Prelude.Tests.{◌==◌, Equality}
use emunel.Prelude.Lists.{All}
use emunel.Prelude.Dict.{Dict, get, put, remove, get-put, get-remove}

module _ {ℓ κ} {K : Type ℓ} {V : Type κ} ⦃e : Equality K⦄ where
  -- d.update(entries), one after the other
  unfoldable pub put_all : Dict K V → Dict K V → Dict K V
  put_all d [] = d
  put_all d ((k, v) ∷ entries) = put_all (put d k v) entries

  abbrev pub HasKeysOnce : Dict K V → Type κ
  HasKeysOnce [] = Unit
  HasKeysOnce ((k, v) ∷ d) = (get d k ≡ none) × HasKeysOnce d

  pub put-HasKeysOnce : (d : Dict K V) (k : K) (v : V) → HasKeysOnce d → HasKeysOnce (put d k v)
  unfolding put get
  put-HasKeysOnce [] k v h = (refl, tt)
  put-HasKeysOnce ((j, w) ∷ d) k v h =
      ground (arith, put-HasKeysOnce d k v, get-put d k j v, e.same_iff k j, e.same_iff j k)

  pub remove-HasKeysOnce : (d : Dict K V) (k : K) → HasKeysOnce d → HasKeysOnce (remove d k)
  unfolding remove
  remove-HasKeysOnce [] k h = tt
  remove-HasKeysOnce ((j, w) ∷ d) k h = ground (arith, remove-HasKeysOnce d k, get-remove d k j)

  get-append : (d entries : Dict K V) (k : K) → get (d ++ entries) k ≡ none → get d k ≡ none
  unfolding get
  get-append [] entries k h = refl
  get-append ((j, w) ∷ d) entries k h = ground (arith, get-append d entries k)

  get-behind :
      (d entries : Dict K V) (j k : K) (v : V)
      → get (d ++ ((k, v) ∷ entries)) j ≡ none
      → (k == j) ≡ false
  unfolding get
  get-behind [] entries j k v h = ground (arith, h)
  get-behind ((i, w) ∷ d) entries j k v h = ground (arith, get-behind d entries j k v)

  get-first :
      (d entries : Dict K V) (k : K) (v : V)
      → HasKeysOnce (d ++ ((k, v) ∷ entries))
      → get d k ≡ none
  unfolding get
  get-first [] entries k v h = refl
  get-first ((j, w) ∷ d) entries k v h =
      ground
        (arith, get-behind d entries j k v, get-first d entries k v, e.same_iff k j, e.same_iff j k)

  put_fresh : (d : Dict K V) (k : K) (v : V) → get d k ≡ none → put d k v ≡ d ++ ((k, v) ∷ [])
  unfolding put get
  put_fresh [] k v h = refl
  put_fresh ((j, w) ∷ d) k v h = ground (arith, put_fresh d k v)

  -- An update with new keys appends them.
  pub put_all-append :
      (d entries : Dict K V) → HasKeysOnce (d ++ entries) → put_all d entries ≡ d ++ entries
  unfolding put_all
  put_all-append d [] h = sym (append-nil d)
  put_all-append d ((k, v) ∷ entries) h =
      let joined = append_assoc d ((k, v) ∷ []) entries in
      ap (λ (d' : Dict K V). put_all d' entries) (put_fresh d k v (get-first d entries k v h))
      ∙ put_all-append (d ++ ((k, v) ∷ [])) entries (subst HasKeysOnce (sym joined) h)
      ∙ joined

-- What holds of every entry that is found holds of all.
pub All-found {ℓ κ μ} :
    {K : Type ℓ} {V : Type κ} ⦃e : Equality K⦄ (P : K × V → Type μ) (d : Dict K V)
    → HasKeysOnce d
    → ((k : K) (v : V) → get d k ≡ some v → P (k, v))
    → All P d
unfolding get
All-found P [] once h = tt
All-found ⦃e⦄ P ((j, w) ∷ d) (new, once) h = (
  h j w (ground (arith, (e.same_iff j j).1 refl)),
  All-found P d once (λ k v found. h k v (ground (arith, new, found, e.same_iff j k))),
)
