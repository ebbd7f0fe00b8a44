-- ===== src/Engines/StateStore.antt =====
-- engines/state.py, `EngineStateStore`, and the toggles that engines/manager.py keeps in it. Of the payloads of
-- the engines only that of the toggles is looked at; the file holds the payloads, and a time that no one reads.
pub mod Toggles
use emunel.Prelude.{
  ℕ, ◌-◌, Bool, true, false, not, ◌&&◌, ◌||◌, List, [], ◌∷◌, Option, none, some, ltb, if◌then◌else◌,
  Str, str_eq, codes,
}
use emunel.Prelude.Dict.{Dict, get, put}

pub record EngineStateStore {ℓ} (P : Type ℓ) : Type ℓ where
  pub flush_interval : ℕ
  pub engines : Dict Str P
  pub dirty : Bool
  pub last_flush : ℕ
  pub file : Option (Dict Str P)

module _ {ℓ} {P : Type ℓ} (empty : P) where
  -- `get`, with no default: a payload that is not there is put there.
  abbrev pub payload_or : EngineStateStore P → Str → Option P → P × EngineStateStore P
  payload_or s name (some payload) = (payload, s)
  payload_or s name none = (empty, record s { engines = put s.engines name empty })

  unfoldable pub get_payload : Str → EngineStateStore P → P × EngineStateStore P
  get_payload name s = payload_or s name (get s.engines name)

  unfoldable pub set_payload : Str → P → EngineStateStore P → EngineStateStore P
  set_payload name payload s = record s { engines = put s.engines name payload; dirty = true }

  -- `fn` changes the payload in place, or a dictionary that is then dropped.
  abbrev pub mutated : (P → P) → Option P → P
  mutated fn (some payload) = fn payload
  mutated fn none = empty

  unfoldable pub mutate : Str → (P → P) → EngineStateStore P → EngineStateStore P
  mutate name fn s = record s {
    engines = put s.engines name (mutated fn (get s.engines name));
    dirty = true;
  }

module _ {ℓ} {P : Type ℓ} where
  -- The write succeeds or not.
  abbrev pub written : Bool → ℕ → EngineStateStore P → EngineStateStore P
  written ok now s = record s {
    dirty = false;
    last_flush = now;
    file = if ok then some s.engines else s.file;
  }

  unfoldable pub maybe_flush : Bool → Bool → ℕ → EngineStateStore P → EngineStateStore P
  maybe_flush ok force now s =
      if not force && (not s.dirty || ltb (now - s.last_flush) s.flush_interval)
      then s
      else written ok now s

  -- A file that is there holds a dictionary, since only `maybe_flush` writes it.
  abbrev pub read_file : EngineStateStore P → Option (Dict Str P) → EngineStateStore P
  read_file s none = s
  read_file s (some engines) = record s { engines = engines }

  unfoldable pub load : EngineStateStore P → EngineStateStore P
  load s = read_file s s.file

  -- A new process, which finds the file
  abbrev pub new_store : EngineStateStore P → EngineStateStore P
  new_store s = record s { engines = []; dirty = false; last_flush = 0 }

  -- The rounds of `_maintenance_loop`, each with its time
  unfoldable pub flush_all : List (Bool × ℕ) → EngineStateStore P → EngineStateStore P
  flush_all [] s = s
  flush_all ((ok, now) ∷ rounds) s = flush_all rounds (maybe_flush ok false now s)

-- The payload of the toggles is its `enabled` dictionary.
abbrev pub Enabled : Type 0
Enabled = Dict Str Bool

abbrev pub toggles_key : Str
toggles_key = codes "EngineToggles"

-- `_record_toggle`
unfoldable pub record_toggle :
    Bool → ℕ → Str → Bool → EngineStateStore Enabled → EngineStateStore Enabled
record_toggle ok now name enabled s =
    maybe_flush ok true now (mutate [] toggles_key (λ toggles. put toggles name enabled) s)

-- `_persisted_toggles`
unfoldable pub persisted_toggles : EngineStateStore Enabled → Enabled × EngineStateStore Enabled
persisted_toggles s = get_payload [] toggles_key s

-- What `start` of the manager does with the store, unless the engines are off altogether.
abbrev pub started : Bool → EngineStateStore Enabled → EngineStateStore Enabled
started enabled s = if enabled then (persisted_toggles (load s)).1 else s
