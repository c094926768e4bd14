-- ===== src/Outbox/Drained.antt =====
-- What the writer of src/protocol.rs, with `next` of src/outbox.rs, writes, and how it stops.
use spinfoam.Prelude.{
  ℕ, ◌+◌, ◌≡◌, true, false, List, [], ◌∷◌, ◌++◌, map, Result, err, Option, some, length,
}
use spinfoam.Text.{Text}
use spinfoam.Outbox.Queues.{Bytes, Outbox}
use spinfoam.Outbox.Rounds.{frames_of}
use spinfoam.Outbox.Taken.{Frame, bytes_of, Splits}
use spinfoam.Outbox.Writing.{Written, ended, waits}

-- What the writer has done where it stops, from an outbox `o` on, write number `i` being its first.
-- All queues are empty and it flushed the closed outbox, or waits on one that is open; or a write
-- failed, and the outbox is closed.
pub data Outcome (sink : ℕ → Bytes → Option Text) (flush : Result Text (Unit {0})) (i : ℕ)
    (o : Outbox) : Outbox × List Bytes × Written → Type 0 where
  flushes :
      {last : Outbox} (fs : List Frame)
      → Splits o fs last
      → frames_of last ≡ 0
      → o.closed ≡ true
      → Outcome sink flush i o (last, map bytes_of fs, ended flush)
  rests :
      {last : Outbox} (fs : List Frame)
      → Splits o fs last
      → frames_of last ≡ 0
      → o.closed ≡ false
      → Outcome sink flush i o (last, map bytes_of fs, waits)
  write_fails :
      {last : Outbox} (fs : List Frame) (f : Frame) (e : Text)
      → Splits o (fs ++ f ∷ []) last
      → last.closed ≡ true
      → sink (i + length fs) (bytes_of f) ≡ some e
      → Outcome sink flush i o (last, map bytes_of fs, ended (err e))
