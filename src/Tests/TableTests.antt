-- ===== src/Tests/TableTests.antt =====
-- A runtime with one object, which is loaded, runs, calls its host, and ends or is unloaded.
use spinfoam.Prelude.{
  ℕ, ◌≡◌, ◌≢◌, ◌⊎◌, refl, true, [], Option, none, some, ok, lookup, ℕ_discrete, arith,
}
use spinfoam.Text.{Text, text, text_discrete}
use spinfoam.Text.Decimal.{decimal}
use spinfoam.Json.{null}
use spinfoam.Outbox.Queues.{remove_object}
use spinfoam.Outbox.Frames.{poll_data, try_control}
use spinfoam.Helpers.Values.{valid_value}
use spinfoam.Host.Calls.{begin_call, poll_call, sending, cancel_object}
use spinfoam.Runtime.Object.{load, start, first_poll, poll, stop, stop_woken}
use spinfoam.Runtime.Table.{
  Entry, Runtime, System, waits, panics_here, check_load, load_begin, load_end, get, find,
  start_object, task_polled, task_first, task_next,
}
use spinfoam.Runtime.Stop.{stop_end, stop_polled, stop_begin, stop_wake}
use spinfoam.Runtime.Owned.{IsClear}
use spinfoam.Runtime.Valid.{IsValid}
use spinfoam.Runtime.Steps.{
  load_begins, load_ends, starts, firsts, nexts, calls, call_polls, stop_begins, new, Reach, at_new,
  after,
}
use spinfoam.Runtime.Whole.{runtime-IsValid}
use spinfoam.Runtime.Ends.{
  Gone, ended-IsClear, load_end-kept, start_object-ne-panics, unload-Gone, stop_wake-replies,
}
use spinfoam.Text.Order.{ordered, Ascending}
use spinfoam.Protocol.Listing.{walk, listed_only}
use spinfoam.Protocol.Listing.Pages.{walk_finds_all}
use spinfoam.Tests.Samples.{sample_to_vec, sample_from_i64}

program : Unit {0}
unfolding text_discrete ℕ_discrete decimal valid_value check_load load_begin load_end get
    start_object start first_poll poll task_polled task_first task_next begin_call poll_call
    poll_data remove_object try_control cancel_object stop stop_woken stop_end stop_polled
    stop_begin stop_wake
program = tt

abbrev pub sample_system : System ℕ
sample_system = record {
  to_vec = sample_to_vec;
  from_u64 = λ n. n;
  from_i64 = sample_from_i64;
  sha256 = λ bytes. text "hash";
  loader = λ bytes. ok true;
}

abbrev o1 : Text
o1 = text "o1"

abbrev loads : Runtime ℕ
loads = (load_begin sample_system null [] (new (text "s"))).0

abbrev has_one : Runtime ℕ
has_one = (load_end sample_system 1 null [] [] loads).0

abbrev has_started : Runtime ℕ
has_started = (start_object sample_system o1 has_one).0

abbrev runs : Runtime ℕ
runs = task_first sample_system o1 has_started

abbrev has_called : Runtime ℕ
has_called = record runs { host = (begin_call o1 runs.host).0 }

abbrev has_sent : Runtime ℕ
has_sent = record has_called {
  host = (poll_call o1 (text "sf:s:1") (sending (text "{}")) has_called.host).0;
}

abbrev asked : Runtime ℕ
asked = (stop_begin sample_system o1 true has_sent).0

abbrev has_exited : Runtime ℕ
has_exited = task_next sample_system o1 (some (ok 7)) has_sent

-- The object's entry, as it was loaded if it is not there.
abbrev entry_of : Option (Entry ℕ) → Entry ℕ
entry_of none = record { hash = []; capabilities = []; object = load null; listed = true }
entry_of (some e) = e

abbrev the_entry : Runtime ℕ → Entry ℕ
the_entry rt = entry_of (lookup text_discrete o1 rt.entries)

loads_reached : Reach sample_system loads
loads_reached = after (at_new (text "s")) (load_begins null [] (new (text "s")))

one_reached : Reach sample_system has_one
unfolding program
one_reached = after loads_reached (load_ends 1 null [] [] loads (omega arith))

started_reached : Reach sample_system has_started
unfolding program
started_reached = after one_reached (starts o1 has_one)

runs_reached : Reach sample_system runs
unfolding program
runs_reached = after started_reached (firsts o1 (the_entry has_started) has_started refl refl)

sent_reached : Reach sample_system has_sent
unfolding program
sent_reached = after (after runs_reached (calls o1 (the_entry runs) runs refl refl)) (
    call_polls o1 (text "sf:s:1") (the_entry has_called) (sending (text "{}")) has_called refl refl)

asked_reached : Reach sample_system asked
unfolding program
asked_reached = after sent_reached (stop_begins o1 true has_sent)

runtime-IsValid_example : IsValid has_sent
runtime-IsValid_example = runtime-IsValid sample_system sent_reached

ended-IsClear_example : IsClear o1 has_exited.host
unfolding program
ended-IsClear_example =
    ended-IsClear sample_system o1 (the_entry has_exited) has_exited
      (after sent_reached (nexts o1 (the_entry has_sent) (some (ok 7)) has_sent refl refl)) refl
      refl

-- A second load begins while the first object runs.
abbrev loads_more : Runtime ℕ
loads_more = (load_begin sample_system null [] has_sent).0

load_end-kept_example :
    lookup text_discrete o1 (load_end sample_system 2 null [] [] loads_more).0.entries
    ≡ some (the_entry has_sent)
unfolding program
load_end-kept_example =
    load_end-kept sample_system 2 null [] [] o1 (the_entry has_sent) loads_more
      (after sent_reached (load_begins null [] has_sent)) (omega arith) refl

start_object-ne-panics_example : (start_object sample_system o1 has_one).1 ≢ panics_here
start_object-ne-panics_example = start_object-ne-panics sample_system o1 has_one one_reached

unload-Gone_example :
    (((stop_begin sample_system o1 true asked).1 ≡ waits)
      ⊎ Gone sample_system o1 (stop_begin sample_system o1 true asked))
    × (((stop_wake sample_system o1 true asked).1 ≡ waits)
        ⊎ Gone sample_system o1 (stop_wake sample_system o1 true asked))
unfolding program
unload-Gone_example = unload-Gone sample_system o1 (the_entry asked) asked asked_reached refl

stop_wake-replies_example :
    ((stop_wake sample_system o1 true (task_first sample_system o1 asked)).1 ≢ waits)
    × ((stop_wake sample_system o1 true (task_next sample_system o1 none asked)).1 ≢ waits)
unfolding program
stop_wake-replies_example =
    stop_wake-replies sample_system o1 true none (the_entry asked) asked refl refl

-- Two objects, in pages of one.
abbrev has_two : Runtime ℕ
has_two = (load_end sample_system 2 null [] [] loads_more).0

two_reached : Reach sample_system has_two
unfolding program
two_reached =
    after (after sent_reached (load_begins null [] has_sent))
      (load_ends 2 null [] [] loads_more (omega arith))

walk_finds_all_example :
    ((walk 3 none 1 (ordered (listed_only has_two.entries))).1 ≡ true)
    × Ascending (walk 3 none 1 (ordered (listed_only has_two.entries))).0
    × ((id : Text)
        → lookup text_discrete id (walk 3 none 1 (ordered (listed_only has_two.entries))).0
          ≡ find id has_two)
unfolding program
walk_finds_all_example =
    walk_finds_all sample_system has_two 3 1 two_reached (omega arith) (omega arith)
