-- ===== src/Protocol/Framing.antt =====
-- `frame` of src/protocol.rs: one line of input, read chunk by chunk, in a call that runs to its end. A reader is the list of what
-- `fill_buf` gives next: a chunk, or the error of a read. At the end of the list, and at an empty
-- chunk, the input has ended.
pub mod Chunks
pub mod Lines
use spinfoam.Prelude.{
  ℕ, suc, ◌+◌, ◌*◌, Bool, true, false, List, [], ◌∷◌, ◌++◌, Option, none, some, Result, ok, err,
  ltb, leb, ◌==◌, if◌then◌else◌, length, take, drop,
}
use spinfoam.Text.{Text}
use spinfoam.Outbox.Queues.{Bytes, is_empty, max_frame}

pub data FrameError : Type 0 where
  io : Text → FrameError
  ends_inside too_long : FrameError

abbrev pub Reader : Type 0
Reader = List (Result Text Bytes)

-- `bytes.iter().position(|b| *b == b'\n').map(|i| i + 1)`
abbrev pub line_end : Bytes → Option ℕ
line_end [] = none
line_end (b ∷ bs) =
    let rest : Option ℕ = elim (line_end bs) [ none ↦ none | some n ↦ some (suc n) ] in
    if b == b'\n' then some 1 else rest

-- `reader.consume(count)`: what is left of a chunk is given again.
abbrev pub unconsumed : Bytes → Reader → Reader
unconsumed [] r = r
unconsumed (b ∷ bs) r = ok (b ∷ bs) ∷ r

abbrev pub at_end : Bytes → Result FrameError (Option Bytes)
at_end [] = ok none
at_end (b ∷ bs) = err ends_inside

-- The loop, with the bytes collected so far.
unfoldable pub frame_from : Bytes → Reader → Result FrameError (Option Bytes) × Reader
frame_from frame [] = (at_end frame, [])
frame_from frame (err e ∷ r) = (err (io e), r)
frame_from frame (ok [] ∷ r) = (at_end frame, r)
frame_from frame (ok (b ∷ bs) ∷ r) = elim (line_end (b ∷ bs)) [
  | some count ↦
      if ltb max_frame (length frame + count)
      then (err too_long, ok (b ∷ bs) ∷ r)
      else (ok (some (frame ++ take count (b ∷ bs))), unconsumed (drop count (b ∷ bs)) r)
  | none ↦
      let rest = frame_from (frame ++ b ∷ bs) r in
      if ltb max_frame (length frame + length (b ∷ bs))
      then (err too_long, ok (b ∷ bs) ∷ r)
      else rest
]

unfoldable pub frame : Reader → Result FrameError (Option Bytes) × Reader
frame r = frame_from [] r

-- What a call of `frame` leaves that is dropped in a wait for input, with so many chunks read and the
-- bytes collected so far: the chunks are consumed, and their bytes go with the call. The loop of `serve_with_config`
-- drops the call wherever another branch of its `select!` is taken.
unfoldable pub frame_dropped : ℕ → Bytes → Reader → Reader
frame_dropped (suc n) frame (ok (b ∷ bs) ∷ r) = elim (line_end (b ∷ bs)) [
  | some count ↦ ok (b ∷ bs) ∷ r
  | none ↦
      let rest = frame_dropped n (frame ++ b ∷ bs) r in
      if ltb max_frame (length frame + length (b ∷ bs)) then ok (b ∷ bs) ∷ r else rest
]
frame_dropped _ frame r = r
