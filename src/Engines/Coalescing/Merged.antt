-- ===== src/Engines/Coalescing/Merged.antt =====
-- engines/engines/coalescing.py: what the merged frames hold.
use mathlib.Core.List.{append_assoc}
use emunel.Prelude.{
  ℕ, ◌+◌, ◌≤◌, ◌≡◌, refl, ap, sym, ◌∙◌, ◌⊎◌, inl, inr, true, false, not, ◌&&◌, List, [], ◌∷◌, ◌++◌,
  ltb, leb, nat_beq, if◌then◌else◌, Str, str_eq, str_beq_iff, elem, length, length-append, All,
  arith, Bool-cases,
}
use emunel.Engines.Coalescing.{Batch, joined, Metrics, merge, total, checked, process}

joined_last :
    (current : Str)
    → joined (if nat_beq (length current) 0 then [] else current ∷ []) ≡ current ++ []
unfolding joined
joined_last [] = refl
joined_last (c ∷ current) =
    let filled : nat_beq (length (c ∷ current)) 0 ≡ false = ground arith in rw filled

joined-merge :
    (max_size : ℕ) (current : Str) (frames : List Str)
    → joined (merge max_size current frames) ≡ current ++ joined frames
unfolding joined merge
joined-merge max_size current [] = joined_last current
joined-merge max_size current (frame ∷ frames) =
    elim (Bool-cases
      (not (nat_beq (length current) 0) && ltb max_size (length current + length frame))) [
        | inl full ↦ rw full (ap (λ (t : Str). current ++ t) (joined-merge max_size frame frames))
        | inr room ↦ rw room (
            joined-merge max_size (current ++ frame) frames
            ∙ append_assoc current frame (joined frames))
      ]

total-eq-length : (frames : List Str) → total frames ≡ length (joined frames)
unfolding joined
total-eq-length [] = refl
total-eq-length (frame ∷ frames) =
    omega (arith, total-eq-length frames, length-append frame (joined frames))

-- A frame of at most `max_size` bytes, or one of the frames that came in.
abbrev pub IsMerged : ℕ → List Str → Str → Type 0
IsMerged max_size frames frame = (length frame ≤ max_size) ⊎ (elem frame frames ≡ true)

appended-IsMerged :
    (max_size : ℕ) (all : List Str) (current frame : Str)
    → elem frame all ≡ true
    → (not (nat_beq (length current) 0) && ltb max_size (length current + length frame)) ≡ false
    → IsMerged max_size all (current ++ frame)
appended-IsMerged max_size all [] frame own room = inr own
appended-IsMerged max_size all (c ∷ current) frame own room =
    let short : length (c ∷ current) + length frame ≤ max_size = ground arith in
    inl (omega (arith, short, length-append (c ∷ current) frame))

merge-IsMerged :
    (max_size : ℕ) (all : List Str) (current : Str) (frames : List Str)
    → IsMerged max_size all current
    → All (λ frame. elem frame all ≡ true) frames
    → All (IsMerged max_size all) (merge max_size current frames)
unfolding merge
merge-IsMerged max_size all current [] own h = elim (Bool-cases (nat_beq (length current) 0)) [
  | inl empty ↦ rw empty tt
  | inr filled ↦ rw filled (own, tt)
]
merge-IsMerged max_size all current (frame ∷ frames) own h =
    elim (Bool-cases
      (not (nat_beq (length current) 0) && ltb max_size (length current + length frame))) [
        | inl full ↦ rw full (own, merge-IsMerged max_size all frame frames (inr h.0) h.1)
        | inr room ↦ rw room (
            merge-IsMerged max_size all (current ++ frame) frames
              (appended-IsMerged max_size all current frame h.0 room) h.1)
      ]

length-merge :
    (max_size : ℕ) (current : Str) (frames : List Str)
    → length (merge max_size current frames) ≤ length frames + 1
unfolding merge
length-merge max_size current [] = ground arith
length-merge max_size current (frame ∷ frames) =
    ground
      (arith, length-merge max_size frame frames, length-merge max_size (current ++ frame) frames)

elem-own :
    (frames more : List Str)
    → All (λ frame. elem frame frames ≡ true) more
    → (f : Str) → All (λ frame. elem frame (f ∷ frames) ≡ true) more
elem-own frames [] h f = tt
elem-own frames (x ∷ more) h f = (ground (arith, h.0), elem-own frames more h.1 f)

elem_all : (frames : List Str) → All (λ frame. elem frame frames ≡ true) frames
elem_all [] = tt
elem_all (f ∷ frames) =
    (ground (arith, str_beq_iff f f), elem-own frames frames (elem_all frames) f)

-- What the merge of a whole batch gives.
merge_whole :
    (max_size : ℕ) (frames : List Str)
    → let out = merge max_size [] frames in
      (checked frames out ≡ out)
      × (joined out ≡ joined frames)
      × All (IsMerged max_size frames) out
      × (length out ≤ length frames)
unfolding merge
merge_whole max_size frames =
    let out = merge max_size [] frames in
    let same : joined out ≡ joined frames = joined-merge max_size [] frames in
    let whole : total out ≡ total frames =
      total-eq-length out ∙ ap length same ∙ sym (total-eq-length frames) in
    let passed : nat_beq (total out) (total frames) ≡ true = ground (arith, whole) in
    (
      rw passed,
      same,
      merge-IsMerged max_size frames [] frames (inl (omega arith)) (elem_all frames),
      shorter max_size frames,
    )
  where
    shorter : (max_size : ℕ) (frames : List Str) → length (merge max_size [] frames) ≤ length frames
    shorter max_size [] = omega arith
    shorter max_size (f ∷ frames) = omega (arith, length-merge max_size f frames)

unmerged :
    (max_size : ℕ) (frames more : List Str)
    → All (λ frame. elem frame frames ≡ true) more
    → All (IsMerged max_size frames) more
unmerged max_size frames [] h = tt
unmerged max_size frames (f ∷ more) h = (inr h.0, unmerged max_size frames more h.1)

-- Coalescing keeps the byte stream, whatever the frames: the frames that go out hold the bytes that came in,
-- in order; they are no more than came in; and each has at most the maximal size or came in as it is.
pub joined-process :
    (max_size : ℕ) (b : Batch) (m : Metrics)
    → let out = (process max_size b m).0.frames in
      (joined out ≡ joined b.frames)
      × (length out ≤ length b.frames)
      × All (IsMerged max_size b.frames) out
unfolding process
joined-process max_size b m =
    let as_is : (joined b.frames ≡ joined b.frames)
        × (length b.frames ≤ length b.frames)
        × All (IsMerged max_size b.frames) b.frames =
      (refl, omega arith, unmerged max_size b.frames b.frames (elem_all b.frames)) in
    elim (Bool-cases (not b.down)) [
      | inl up ↦ rw up as_is
      | inr down ↦ elim (Bool-cases (leb (length b.frames) 1)) [
        | inl few ↦ rw (down, few) as_is
        | inr many ↦
            let (passed, same, merged, shorter) = merge_whole max_size b.frames in
            rw (down, many, passed) (same, shorter, merged)
      ]
    ]
