-- ===== src/Engines/Coalescing.antt =====
-- engines/base.py, `EngineContext` as far as frames go, and engines/engines/coalescing.py.
pub mod Merged
use emunel.Prelude.{
  ℕ, ◌+◌, ◌-◌, ◌*◌, Bool, true, false, not, ◌&&◌, ◌||◌, List, [], ◌∷◌, ◌++◌, ltb, leb, nat_beq,
  if◌then◌else◌, Str, length, sum_of,
}

-- A batch of frames on its way down (from the Core to the client) or up.
pub record Batch : Type 0 where
  pub down : Bool
  pub frames : List Str

-- `b"".join(frames)`, the byte stream
unfoldable pub joined : List Str → Str
joined [] = []
joined (frame ∷ frames) = frame ++ joined frames

pub record Metrics : Type 0 where
  pub frames_in : ℕ
  pub frames_out : ℕ
  pub bytes_in : ℕ
  pub bytes_out : ℕ
  pub merges : ℕ
  pub header_bytes_saved : ℕ

-- The loop over the frames: `current` is the frame that is being filled.
unfoldable pub merge : ℕ → Str → List Str → List Str
merge max_size current [] = if nat_beq (length current) 0 then [] else current ∷ []
merge max_size current (frame ∷ frames) =
    let cut = current ∷ merge max_size frame frames in
    let grown = merge max_size (current ++ frame) frames in
    if not (nat_beq (length current) 0) && ltb max_size (length current + length frame)
    then cut
    else grown

abbrev pub total : List Str → ℕ
total = sum_of length

-- The frames that go out, with the source's check that no byte is missing
abbrev pub checked : List Str → List Str → List Str
checked frames merged =
    if nat_beq (total merged) (total frames)
    then merged
    else if nat_beq (total frames) 0
    then []
    else joined frames ∷ []

abbrev pub counted : Metrics → List Str → List Str → Metrics
counted m frames out = record {
  frames_in = m.frames_in + length frames;
  frames_out = m.frames_out + length out;
  bytes_in = m.bytes_in + total frames;
  bytes_out = m.bytes_out + total out;
  merges = m.merges + (length frames - length out);
  header_bytes_saved = m.header_bytes_saved + 8 * (length frames - length out);
}

unfoldable pub process : ℕ → Batch → Metrics → Batch × Metrics
process max_size b m =
    if not b.down
    then (b, m)
    else if leb (length b.frames) 1
    then (
      b,
      record m {
        frames_in = m.frames_in + length b.frames;
        frames_out = m.frames_out + length b.frames;
      },
    )
    else (let out = checked b.frames (merge max_size [] b.frames) in
        (record b { frames = out }, counted m b.frames out))
