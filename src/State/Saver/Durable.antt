-- ===== src/State/Saver/Durable.antt =====
-- core/emunel_core/state.py: `schedule_save` over any sequence of changes and ends of sleeps.
use emunel.Prelude.{◌+◌, ◌≤◌, ◌≡◌, true, false, List, [], ◌∷◌, if◌then◌else◌, arith, All, ◌⊎◌}
use emunel.State.Saver.{Saver, idle, Event, changes, wakes, cancelled, happen, happen_all}

-- The events are changes and writes that succeed.
abbrev pub IsRegular : Event → Type 0
IsRegular changes = Unit
IsRegular (wakes written) = written ≡ true
IsRegular cancelled = ⊥

-- Either the file is up to date, or a loop runs that will write it. Each change has one write at most to
-- its name.
pub record IsDurable (s : Saver) : Type 0 where
  pub up_to_date : (s.saved ≡ s.version) ⊎ (s.pending ≡ true)
  pub flagged : (s.pending ≡ true) ⊎ (s.dirty_again ≡ false)
  pub few_writes :
      s.writes + (if s.pending then 1 else 0) + (if s.dirty_again then 1 else 0) ≤ s.version

happen-IsDurable : (e : Event) (s : Saver) → IsRegular e → IsDurable s → IsDurable (happen e s)
unfolding happen
happen-IsDurable changes s r v = ground (arith, v.up_to_date, v.flagged, v.few_writes)
happen-IsDurable (wakes written) s r v = ground (arith, v.up_to_date, v.flagged, v.few_writes)
happen-IsDurable cancelled s r v = absurd r

happen_all-IsDurable :
    (es : List Event) (s : Saver) → All IsRegular es → IsDurable s → IsDurable (happen_all es s)
unfolding happen_all
happen_all-IsDurable [] s r v = v
happen_all-IsDurable (e ∷ es) s r v =
    happen_all-IsDurable es (happen e s) r.1 (happen-IsDurable e s r.0 v)

-- What a state is once nothing more happens and the sleeps have ended.
pub record IsSettled (s : Saver) : Type 0 where
  pub up_to_date : s.saved ≡ s.version
  pub stopped : s.pending ≡ false
  pub few_writes : s.writes ≤ s.version

settles : (s : Saver) → IsDurable s → IsSettled (happen (wakes true) (happen (wakes true) s))
unfolding happen
settles s v = ground (arith, v.up_to_date, v.flagged, v.few_writes)

-- However the changes and the ends of the sleeps follow one another, no change is forgotten: after the
-- last change the loop ends with its second sleep at the latest, the file then holds the last version,
-- and no more was written than changed. No write fails, and the loop is not cancelled.
pub happen_all-wakes :
    (es : List Event)
    → All IsRegular es
    → IsSettled (happen (wakes true) (happen (wakes true) (happen_all es (idle 0))))
happen_all-wakes es r =
    settles (happen_all es (idle 0)) (happen_all-IsDurable es (idle 0) r (ground arith))
