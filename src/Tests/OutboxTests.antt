-- ===== src/Tests/OutboxTests.antt =====
-- Runs of the outbox with two objects and a control frame.
use spinfoam.Prelude.{ℕ, ◌≡◌, ◌≢◌, refl, List, [], ◌∷◌, Option, none, some, ok, ltb, if◌then◌else◌}
use spinfoam.Text.{Text, text, text_discrete}
use spinfoam.Json.{string}
use spinfoam.Outbox.Queues.{
  Bytes, Outbox, panicked, enqueue, push_data, push_control, remove_request, remove_object,
  take_data, poll_data_queues, take_control, poll_queues, next, by_closed, next_woken,
}
use spinfoam.Outbox.Frames.{
  encode, control_frame, try_control, count_dropped, try_data, data_frame, poll_control, poll_data,
}
use spinfoam.Outbox.Valid.{IsValid}
use spinfoam.Outbox.Fairness.{Within, Delivers, served-Within}
use spinfoam.Outbox.Writing.{writer, ended}
use spinfoam.Outbox.History.{
  Op, closes, try_controls, try_sends, nexts, control_with, data_with, step, run, run-IsValid,
  next-ne-panicked,
}
use spinfoam.Outbox.Lanes.{Move, view}
use spinfoam.Outbox.Refines.{handed, step-Move}
use spinfoam.Tests.Samples.{sample_to_vec, sample_from_i64}

program : Unit {0}
unfolding text_discrete enqueue push_data push_control remove_request remove_object take_data
    poll_data_queues take_control poll_queues next next_woken encode control_frame try_control
    count_dropped try_data data_frame poll_control poll_data writer control_with data_with step run
program = tt

-- The latest call stands first.
abbrev calls : List (Op ℕ)
calls =
    try_controls (string (text "c"))
    ∷ try_sends (text "b") (string (text "y"))
    ∷ try_sends (text "a") (string (text "x"))
    ∷ []

abbrev busy : Outbox
busy = run sample_to_vec sample_from_i64 calls

busy_ready : busy.ready ≡ text "a" ∷ text "b" ∷ []
unfolding program
busy_ready = refl

run-IsValid_example : IsValid busy
run-IsValid_example = run-IsValid sample_to_vec sample_from_i64 calls

next-ne-panicked_example : (next busy).1 ≢ panicked
next-ne-panicked_example = next-ne-panicked sample_to_vec sample_from_i64 calls

served-Within_example : Within (Delivers (b'y' ∷ b'\n' ∷ [])) 18 busy
unfolding program
served-Within_example =
    served-Within (text "a" ∷ []) (text "b") []
      (record { bytes = b'y' ∷ b'\n' ∷ []; request_id = none }) [] busy run-IsValid_example refl
      refl

step-Move_example :
    Move
      (view busy)
      (view (step sample_to_vec sample_from_i64 nexts busy))
      (handed sample_to_vec sample_from_i64 nexts busy)
step-Move_example = step-Move sample_to_vec sample_from_i64 nexts busy run-IsValid_example

-- A closed outbox with three frames left.
abbrev closed_calls : List (Op ℕ)
closed_calls = closes ∷ calls

abbrev last_frames : Outbox
last_frames = run sample_to_vec sample_from_i64 closed_calls

-- Writes of which the third fails.
abbrev breaks_late : ℕ → Bytes → Option Text
breaks_late i b = if ltb i 2 then none else some (text "broken pipe")

all_written :
    (writer 4 (λ i b. none) (ok tt) none 0 last_frames).1
    ≡ text "c\n" ∷ text "x\n" ∷ text "y\n" ∷ []
unfolding program
all_written = refl

left_behind :
    writer 4 breaks_late (ok tt) (some by_closed) 0 last_frames ≡ (last_frames, [], ended (ok tt))
unfolding program
left_behind = refl
