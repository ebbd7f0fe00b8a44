-- ===== src/Engines/StateStore/Toggles.antt =====
-- engines/state.py and manager.py: what a restart finds of the operator's toggles.
use emunel.Prelude.{
  ℕ, ◌≡◌, refl, inl, inr, Bool, true, false, List, [], ◌∷◌, Option, none, some, Str, str_eq,
  str_beq_iff, ap, ◌∙◌, arith, Option-cases,
}
use emunel.Prelude.Dict.{get, put, get-put}
use emunel.Engines.StateStore.{
  EngineStateStore, get_payload, mutated, mutate, maybe_flush, load, new_store, flush_all, Enabled,
  toggles_key, record_toggle, persisted_toggles, started, payload_or,
}

-- The payload of the toggles in a store.
abbrev pub stored : EngineStateStore Enabled → Option Enabled
stored s = get s.engines toggles_key

-- What a new process finds.
abbrev pub found_after : EngineStateStore Enabled → Enabled
found_after s = (persisted_toggles (load (new_store s))).0

found_after-record_toggle :
    (now : ℕ) (name : Str) (enabled : Bool) (s : EngineStateStore Enabled)
    → found_after (record_toggle true now name enabled s)
      ≡ mutated [] (λ toggles. put toggles name enabled) (stored s)
unfolding persisted_toggles get_payload load record_toggle mutate maybe_flush
found_after-record_toggle now name enabled s =
    let after = mutated [] (λ toggles. put toggles name enabled) (stored s) in
    let found : get (put s.engines toggles_key after) toggles_key ≡ some after = ground (
      arith,
      get-put s.engines toggles_key toggles_key after,
      str_beq_iff toggles_key toggles_key,
    ) in
    let s' = load (new_store (record_toggle true now name enabled s)) in
    ap (λ (o : Option Enabled). (payload_or [] s' toggles_key o).0) found

stored-get_payload :
    (s : EngineStateStore Enabled)
    → stored (get_payload [] toggles_key s).1 ≡ some (get_payload [] toggles_key s).0
unfolding get_payload
stored-get_payload s = elim (Option-cases (get s.engines toggles_key)) [
  | inl missing ↦
      let found : get (put s.engines toggles_key []) toggles_key ≡ some [] = ground (
        arith,
        get-put s.engines toggles_key toggles_key [],
        str_beq_iff toggles_key toggles_key,
      ) in
      rw missing found
  | inr (payload, there) ↦ rw there there
]

-- Where the engines are on and the write succeeds, a new process finds the toggle that was recorded, together
-- with the toggles that the running process found when it started.
pub persisted_toggles-record_toggle :
    (now : ℕ) (name : Str) (enabled : Bool) (s : EngineStateStore Enabled)
    → found_after (record_toggle true now name enabled (started true s))
      ≡ put (persisted_toggles (load s)).0 name enabled
unfolding persisted_toggles
persisted_toggles-record_toggle now name enabled s =
    found_after-record_toggle now name enabled (started true s)
    ∙ ap (mutated [] (λ (toggles : Enabled). put toggles name enabled))
        (stored-get_payload (load s))

-- Where the engines are off altogether, the first toggle that is recorded is lost, though its write succeeds: a
-- new process finds none.
pub record_toggle_lost :
    (now : ℕ) (name : Str) (enabled : Bool) (s : EngineStateStore Enabled)
    → stored s ≡ none
    → found_after (record_toggle true now name enabled (started false s)) ≡ []
record_toggle_lost now name enabled s missing =
    found_after-record_toggle now name enabled s
    ∙ ap (mutated [] (λ (toggles : Enabled). put toggles name enabled)) missing

flush_all_clean :
    (rounds : List (Bool × ℕ)) (s : EngineStateStore Enabled)
    → s.dirty ≡ false
    → flush_all rounds s ≡ s
unfolding flush_all maybe_flush
flush_all_clean [] s clean = refl
flush_all_clean ((ok, now) ∷ rounds) s clean = ground (arith, clean, flush_all_clean rounds s)

-- A toggle whose write fails is not written by any later round of the maintenance loop, though these writes
-- may succeed: the file stays as it was.
flush_all-record_toggle :
    (rounds : List (Bool × ℕ)) (now : ℕ) (name : Str) (enabled : Bool)
    (s : EngineStateStore Enabled)
    → (flush_all rounds (record_toggle false now name enabled s)).file ≡ s.file
unfolding record_toggle maybe_flush mutate
flush_all-record_toggle rounds now name enabled s =
    ap (λ (t : EngineStateStore Enabled). t.file)
      (flush_all_clean rounds (record_toggle false now name enabled s) refl)
