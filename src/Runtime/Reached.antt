-- ===== src/Runtime/Reached.antt =====
-- What holds of every object that src/runtime.rs can come to.
use spinfoam.Prelude.{ℕ, ◌≤◌, ◌≡◌, ◌≢◌, refl, ap, true, false, Option, Result, arith}
use spinfoam.Text.{Text}
use spinfoam.Json.{Value}
use spinfoam.Error.{RpcResult}
use spinfoam.Mailbox.{Mailbox}
use spinfoam.Runtime.Object.{
  State, loaded, starting, running, stopping, stopped, exited, failed, Task, unspawned, spawned,
  polled, finished, Object, panics, load, deliver, start, first_poll, poll, stop, stop_woken,
}
use spinfoam.Runtime.Life.{
  terminal, Step, delivers, starts, first_polls, polls, uses, stops, wakes, cancels, IsValid,
  load-IsValid, start_from, Step-IsValid,
}

-- The objects that steps lead to from a loaded one.
pub data Reach {N : Type 0} : Object N → Type 0 where
  at_load : (config : Value N) → Reach (load config)
  after : {o o' : Object N} → Reach o → Step o o' → Reach o'

-- The order in which an object goes through its states.
abbrev pub rank : State → ℕ
rank loaded = 0
rank starting = 1
rank running = 2
rank stopping = 3
rank stopped = 4
rank exited = 4
rank failed = 4

module _ {N : Type 0} where
  -- Of every object that can be reached: a loaded one has its program and no task, a starting one
  -- a task that was not polled yet, a running one a polled task, a stopping one a task that is not
  -- finished and its cancellation, one that ended has no task that is unfinished; and the mailbox of
  -- one that ended is empty.
  pub reached-IsValid : {o : Object N} → Reach o → IsValid o
  reached-IsValid (at_load config) = load-IsValid config
  reached-IsValid (after r s) = Step-IsValid s (reached-IsValid r)

  -- `start` finds the program of every loaded object that can be reached: its `expect` never fails.
  pub start-ne-panics : (o : Object N) → Reach o → (start o).1 ≢ panics
  start-ne-panics o r = (start_from o.state o (reached-IsValid r)).1

  deliver_state :
      (put : Mailbox N → Mailbox N × RpcResult N) (o : Object N) → (deliver put o).0.state ≡ o.state
  unfolding deliver
  deliver_state put o = ground arith

  start_forward : (o : Object N) → rank o.state ≤ rank (start o).0.state
  unfolding start
  start_forward o = ground arith

  stop_forward : (o : Object N) → rank o.state ≤ rank (stop o).state
  unfolding stop
  stop_forward o = ground arith

  pub woken_state : (o : Object N) → (stop_woken o).state ≡ o.state
  unfolding stop_woken
  woken_state o = ground arith

  first_poll_forward :
      (o : Object N) → o.task ≡ spawned → IsValid o → rank o.state ≤ rank (first_poll o).state
  unfolding first_poll
  first_poll_forward o e v = ground (arith, v.agree)

  poll_forward :
      (f : ℕ → N) (result : Option (Result Text ℕ)) (o : Object N)
      → o.task ≡ polled
      → IsValid o
      → rank o.state ≤ rank (poll f result o).state
  unfolding poll
  poll_forward f result o e v = ground (arith, v.agree)

  -- An object that can be reached goes through its states in one direction: loaded, starting,
  -- running, stopping, ended.
  pub state_forward : {o o' : Object N} → Reach o → Step o o' → rank o.state ≤ rank o'.state
  state_forward r (delivers put o) = omega (arith, ap rank (deliver_state put o))
  state_forward r (starts o) = start_forward o
  state_forward r (first_polls o e) = first_poll_forward o e (reached-IsValid r)
  state_forward r (polls f result o e) = poll_forward f result o e (reached-IsValid r)
  state_forward r (uses m wait o e) = omega arith
  state_forward r (stops o) = stop_forward o
  state_forward r (wakes o h) = omega (arith, ap rank (woken_state o))
  state_forward r (cancels o) = omega arith

  no_task_left :
      (o : Object N) (t : Task)
      → o.task ≡ t
      → t ≢ finished
      → t ≢ unspawned
      → IsValid o
      → terminal o.state ≡ false
  no_task_left o t e h k v = ground (arith, v.agree)

  abbrev pub Unchanged : Object N → Object N → Type 0
  Unchanged o o' = (o'.state ≡ o.state) × (o'.outcome ≡ o.outcome)

  deliver-Unchanged :
      (put : Mailbox N → Mailbox N × RpcResult N) (o : Object N) → Unchanged o (deliver put o).0
  unfolding deliver
  deliver-Unchanged put o = ground arith

  start-Unchanged : (o : Object N) → terminal o.state ≡ true → Unchanged o (start o).0
  unfolding start
  start-Unchanged o h = ground arith

  stop-Unchanged : (o : Object N) → terminal o.state ≡ true → Unchanged o (stop o)
  unfolding stop
  stop-Unchanged o h = ground arith

  woken-Unchanged : (o : Object N) → Unchanged o (stop_woken o)
  unfolding stop_woken
  woken-Unchanged o = ground arith

  -- An object that has ended stays as it ended: no step changes its state or its outcome.
  pub ended-Unchanged :
      {o o' : Object N} → Reach o → Step o o' → terminal o.state ≡ true → Unchanged o o'
  ended-Unchanged r (delivers put o) h = deliver-Unchanged put o
  ended-Unchanged r (starts o) h = start-Unchanged o h
  ended-Unchanged r (first_polls o e) h =
      absurd (let x = no_task_left o spawned e (λ y. cc) (λ y. cc) (reached-IsValid r) in cc)
  ended-Unchanged r (polls f result o e) h =
      absurd (let x = no_task_left o polled e (λ y. cc) (λ y. cc) (reached-IsValid r) in cc)
  ended-Unchanged r (uses m wait o e) h = (refl, refl)
  ended-Unchanged r (stops o) h = stop-Unchanged o h
  ended-Unchanged r (wakes o k) h = woken-Unchanged o
  ended-Unchanged r (cancels o) h = (refl, refl)
