-- ===== src/Tests/RuntimeTests.antt =====
-- The life of an object that is started, runs and exits.
use spinfoam.Prelude.{ℕ, ◌≤◌, refl, some, ok}
use spinfoam.Json.{null}
use spinfoam.Runtime.Object.{Object, load, start, first_poll, poll, stop}
use spinfoam.Runtime.Life.{Step, starts, first_polls, polls, stops, IsValid}
use spinfoam.Runtime.Reached.{
  Reach, at_load, after, rank, Unchanged, reached-IsValid, state_forward, ended-Unchanged,
}

program : Unit {0}
unfolding start first_poll poll stop
program = tt

abbrev fresh_object : Object ℕ
fresh_object = load null

abbrev begun : Object ℕ
begun = (start fresh_object).0

abbrev busy : Object ℕ
busy = first_poll begun

abbrev gone : Object ℕ
gone = poll (λ n. n) (some (ok 7)) busy

busy_reached : Reach busy
unfolding program
busy_reached = after (after (at_load null) (starts fresh_object)) (first_polls begun refl)

exits : Step busy gone
unfolding program
exits = polls (λ n. n) (some (ok 7)) busy refl

reached-IsValid_example : IsValid busy
reached-IsValid_example = reached-IsValid busy_reached

state_forward_example : rank busy.state ≤ rank gone.state
state_forward_example = state_forward busy_reached exits

ended-Unchanged_example : Unchanged gone (stop gone)
unfolding program
ended-Unchanged_example = ended-Unchanged (after busy_reached exits) (stops gone) refl
