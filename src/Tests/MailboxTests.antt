-- ===== src/Tests/MailboxTests.antt =====
-- Runs of a mailbox.
use spinfoam.Prelude.{ℕ, ◌≡◌, refl, List, [], ◌∷◌, ◌++◌, map, true, arith}
use spinfoam.Text.{Text, text, text_discrete}
use spinfoam.Json.{Value, string, field, end}
use spinfoam.Mailbox.{push_recent, admit, receive, clear, deliver_named, deliver, seen}
use spinfoam.Mailbox.Bounds.{IsValid}
use spinfoam.Mailbox.History.{
  Call, delivers, receives, clears, received, thrown, event_of, waiting, is_duplicate, step, run,
}
use spinfoam.Mailbox.Window.{last, duplicate_window, received_in_order, run-mailbox-IsValid}
use spinfoam.Tests.Samples.{sample_to_vec}

program : Unit {0}
unfolding text_discrete push_recent admit receive clear deliver_named deliver step run
program = tt

abbrev event : Text → Value ℕ
event id = Value.object (field (text "event_id") (string id) end)

abbrev calls : List (Call ℕ)
calls = receives ∷ delivers (event (text "e1")) ∷ delivers (event (text "e2")) ∷ []

duplicate_seen :
    is_duplicate (deliver sample_to_vec (event (text "e2")) (run sample_to_vec calls).mailbox).1
    ≡ true
unfolding program
duplicate_seen = refl

duplicate_window_example :
    is_duplicate (deliver sample_to_vec (event (text "e2")) (run sample_to_vec calls).mailbox).1
    ≡ seen (text "e2") (last 128 (run sample_to_vec calls).ids)
unfolding program
duplicate_window_example =
    duplicate_window sample_to_vec calls (event (text "e2")) (text "e2") refl (omega arith)

-- One event is received, and another thrown away by a clear that a third one follows.
abbrev cleared_calls : List (Call ℕ)
cleared_calls = delivers (event (text "e3")) ∷ clears ∷ calls

cleared_left :
    (run sample_to_vec cleared_calls).left
    ≡ received (event (text "e2")) ∷ thrown (event (text "e1")) ∷ []
unfolding program
cleared_left = refl

received_in_order_example :
    map event_of (run sample_to_vec cleared_calls).left
      ++ waiting (run sample_to_vec cleared_calls).mailbox
    ≡ (run sample_to_vec cleared_calls).log
received_in_order_example = received_in_order sample_to_vec cleared_calls

run-mailbox-IsValid_example : IsValid (run sample_to_vec calls).mailbox
run-mailbox-IsValid_example = run-mailbox-IsValid sample_to_vec calls
