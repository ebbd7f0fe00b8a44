-- ===== src/State/Saver.antt =====
-- core/emunel_core/state.py: `StateStore.schedule_save`, the debounce. A `version` counts the changes of
-- the state. The loop runs in the call that found nothing pending; other calls only set a flag.
pub mod Durable
use emunel.Prelude.{ℕ, ◌+◌, Bool, true, false, Option, List, [], ◌∷◌, if◌then◌else◌}

pub record Saver : Type 0 where
  pub pending : Bool
  pub dirty_again : Bool
  -- the version of the state, the version in the file, and the number of writes
  pub version : ℕ
  pub saved : ℕ
  pub writes : ℕ

abbrev pub idle : ℕ → Saver
idle version = record {
  pending = false;
  dirty_again = false;
  version = version;
  saved = version;
  writes = 0;
}

pub data Event : Type 0 where
  -- the state changes, and `schedule_save` is called
  changes : Event
  -- the sleep of the running loop ends; the file system raises no `OSError` if `written`
  wakes : Bool → Event
  -- the task of the running loop is cancelled in its sleep
  cancelled : Event

-- `schedule_save` up to its sleep
unfoldable pub schedule_save : Saver → Saver
schedule_save s =
    if s.pending
    then record s { dirty_again = true }
    else record s { pending = true; dirty_again = false }

abbrev write : Bool → Saver → Saver
write written s = if written then record s { saved = s.version; writes = s.writes + 1 } else s

-- `save`, and then the test of the loop: it sleeps again, or it ends
unfoldable pub wake : Bool → Saver → Saver
wake written s =
    let t = write written s in
    if t.dirty_again then record t { dirty_again = false } else record t { pending = false }

unfoldable pub happen : Event → Saver → Saver
unfolding schedule_save wake
happen changes s = schedule_save (record s { version = s.version + 1 })
happen (wakes written) s = if s.pending then wake written s else s
happen cancelled s = record s { pending = false }

unfoldable pub happen_all : List Event → Saver → Saver
happen_all [] s = s
happen_all (e ∷ es) s = happen_all es (happen e s)
