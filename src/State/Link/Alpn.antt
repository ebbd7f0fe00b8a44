-- ===== src/State/Link/Alpn.antt =====
-- core/emunel_core/state.py: the ALPN list that `Link.__init__` cleans.
use emunel.Prelude.{
  ℕ, ◌≤◌, ◌≡◌, refl, ap, ◌∙◌, true, false, List, [], ◌∷◌, Str, str_beq, All, map, keep, length,
  take, take_all, arith, inl, inr, Bool-cases, nat_beq,
}
use emunel.Prelude.Text.{strip, lower, split, join}
use emunel.Prelude.Text.Trim.{strip_idem, strip-All, length-strip-le}
use emunel.Prelude.Text.Tokens.{HasNo, spread, split-HasNo, spread-split, length-join, split-join}
use emunel.State.Link.{is_kept_token, alpn_tokens, clean_alpn, or_http11}

-- What cleaning leaves of a word.
abbrev IsToken : Str → Type 0
IsToken w = HasNo b',' w × (strip w ≡ w) × (is_kept_token w ≡ true)

cleaned : List Str → List Str
cleaned ws = keep is_kept_token (map strip ws)

cleaned-All : (ws : List Str) → All (HasNo b',') ws → All IsToken (cleaned ws)
unfolding cleaned
cleaned-All [] h = tt
cleaned-All (w ∷ ws) (h, hs) = elim (Bool-cases (is_kept_token (strip w))) [
  | inl e ↦
      rw e ((strip-All (λ (c : ℕ). nat_beq c b',' ≡ false) w h, strip_idem w, e), cleaned-All ws hs)
  | inr e ↦ rw e (cleaned-All ws hs)
]

cleaned_tokens : (ws : List Str) → All IsToken ws → cleaned ws ≡ ws
unfolding cleaned
cleaned_tokens [] h = refl
cleaned_tokens (w ∷ ws) ((apart, stripped, kept), hs) =
    rw (stripped, kept) (ap (λ (t : List Str). w ∷ t) (cleaned_tokens ws hs))

separate : (ws : List Str) → All IsToken ws → All (HasNo b',') ws
separate [] h = tt
separate (w ∷ ws) (t, h) = (t.0, separate ws h)

spread-cleaned-le : (ws : List Str) → spread (cleaned ws) ≤ spread ws
unfolding cleaned
spread-cleaned-le [] = omega arith
spread-cleaned-le (w ∷ ws) = ground (arith, spread-cleaned-le ws, length-strip-le w)

module _ (s : Str) (short : length s ≤ 60) where
  -- The list that the words of `s` give.
  again :
      (tokens : List Str)
      → All IsToken tokens
      → spread tokens ≤ 61
      → clean_alpn (or_http11 tokens) ≡ or_http11 tokens
  unfolding clean_alpn alpn_tokens cleaned
  again [] h l = unfold lower split strip join str_beq in refl
  again (w ∷ ws) h l =
      let line = join b',' (w ∷ ws) in
      let whole : take 60 line ≡ line = take_all 60 line (omega (arith, length-join b',' w ws)) in
      let words : alpn_tokens line ≡ w ∷ ws =
        ap cleaned (split-join b',' w ws (separate (w ∷ ws) h)) ∙ cleaned_tokens (w ∷ ws) h in
      ap (λ (t : Str). or_http11 (alpn_tokens t)) whole ∙ ap or_http11 words

  tokens-All : All IsToken (alpn_tokens s)
  unfolding alpn_tokens cleaned
  tokens-All = cleaned-All (split b',' s) (split-HasNo b',' s)

  tokens_fit : spread (alpn_tokens s) ≤ 61
  unfolding alpn_tokens cleaned
  tokens_fit = omega (arith, spread-cleaned-le (split b',' s), spread-split b',' s)

  -- Cleaning a list of at most 60 characters twice is cleaning it once.
  pub clean_alpn_idem : clean_alpn (clean_alpn s) ≡ clean_alpn s
  unfolding clean_alpn
  clean_alpn_idem = again (alpn_tokens s) (tokens-All) (tokens_fit)
