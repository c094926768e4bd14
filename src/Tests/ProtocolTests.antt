-- ===== src/Tests/ProtocolTests.antt =====
-- Runs of the framing on an input cut inside a line.
use spinfoam.Prelude.{suc, ◌≡◌, refl, List, [], ◌∷◌, some, ok, length, arith}
use spinfoam.Text.{text}
use spinfoam.Outbox.Queues.{Bytes}
use spinfoam.Protocol.Framing.{Reader, frame_from, frame, frame_dropped}
use spinfoam.Protocol.Framing.Chunks.{joined, first_line, frame-first_line}
use spinfoam.Protocol.Framing.Lines.{frames, read_back, frames-written}

abbrev lines : List Bytes
lines = text "ab" ∷ text "c" ∷ []

abbrev chunks : Reader
chunks = ok (b'a' ∷ []) ∷ ok (b'b' ∷ b'\n' ∷ b'c' ∷ []) ∷ ok (b'\n' ∷ []) ∷ []

frame-first_line_example : (frame chunks).0 ≡ first_line (joined chunks)
frame-first_line_example = frame-first_line chunks tt

frames-written_example : frames (suc (length lines)) chunks ≡ read_back lines
frames-written_example =
    frames-written lines chunks tt ((refl, omega arith), ((refl, omega arith), tt)) refl

-- The first chunk is lost where the call that read it is dropped: the next line begins behind it.
dropped_line : (frame (frame_dropped 1 [] chunks)).0 ≡ ok (some (text "b\n"))
unfolding frame_from frame frame_dropped
dropped_line = refl
