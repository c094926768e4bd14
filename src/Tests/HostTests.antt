-- ===== src/Tests/HostTests.antt =====
-- Runs of the host with calls of two objects.
use spinfoam.Prelude.{
  ℕ, ◌≡◌, ◌≢◌, ◌↔◌, refl, true, List, [], ◌∷◌, none, some, lookup, Distinct, arith,
}
use spinfoam.Text.{text, text_discrete}
use spinfoam.Text.Decimal.{digits, decimal}
use spinfoam.Outbox.Queues.{initial, queue_of, or_default, enqueue, push_data}
use spinfoam.Outbox.Frames.{poll_data}
use spinfoam.Host.Calls.{Host, sending, begin_call, poll_call, response, drop_guard, cancel_object}
use spinfoam.Host.Once.{IsValid}
use spinfoam.Host.History.{Step, begins, polls, serve, history, history-IsValid}
use spinfoam.Host.Ends.{NoneHas, drop_guard_clears}
use spinfoam.Host.Cancelled.{cancel_object_iff}
use spinfoam.Tests.Samples.{sample_to_vec}

program : Unit {0}
unfolding text_discrete enqueue push_data poll_data digits decimal begin_call poll_call response
    drop_guard cancel_object serve history
program = tt

abbrev idle : Host ℕ
idle = record { calls = []; next = 0; session = text "s"; out = initial; ignored = 0; replies = [] }

idle-IsValid : IsValid idle
idle-IsValid = record {
  distinct = tt;
  few = omega arith;
  once = tt;
  apart = λ id o e. cc;
  issued = λ id o e. cc;
  replied = λ id r e. cc;
  counted = omega arith;
}

-- The calls of `a` and of `b` are pending, and the first has its request queued.
abbrev steps : List (Step ℕ)
steps =
    polls (text "a") (text "sf:s:1") (sending (text "x"))
    ∷ begins (text "b")
    ∷ begins (text "a")
    ∷ []

abbrev busy : Host ℕ
busy = history sample_to_vec idle steps

second_pending : lookup text_discrete (text "sf:s:2") busy.calls ≡ some (text "b")
unfolding program
second_pending = refl

history-IsValid_example : IsValid busy
history-IsValid_example = history-IsValid sample_to_vec idle steps idle-IsValid

one_queue : Distinct text_discrete busy.out.queues
unfolding program
one_queue = (refl, tt)

drop_guard_clears_example :
    (lookup text_discrete
        (text "sf:s:1")
        (drop_guard sample_to_vec true (text "a") (text "sf:s:1") busy).calls
      ≡ none)
    × NoneHas (text "sf:s:1") (
        or_default
          (queue_of (text "a") (drop_guard sample_to_vec true (text "a") (text "sf:s:1") busy).out))
drop_guard_clears_example =
    drop_guard_clears sample_to_vec true (text "a") (text "sf:s:1") busy
      history-IsValid_example.distinct one_queue

cancel_object_iff_example :
    (lookup text_discrete (text "sf:s:2") (cancel_object sample_to_vec (text "a") busy).calls
      ≡ some (text "b"))
    ↔ ((text "b" ≢ text "a") × (lookup text_discrete (text "sf:s:2") busy.calls ≡ some (text "b")))
cancel_object_iff_example =
    cancel_object_iff sample_to_vec (text "a") busy (text "sf:s:2") (text "b")
      history-IsValid_example.distinct
