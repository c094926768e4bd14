-- ===== src/Runtime/Life.antt =====
-- The life of an object (src/runtime.rs) as a step relation: what stays true, and where it leads.
use spinfoam.Prelude.{
  ℕ, ◌≡◌, ◌≢◌, refl, Bool, true, false, [], Option, none, some, Result, ok, err, if_cases,
  Bool-cases, inl, inr, arith,
}
use spinfoam.Text.{Text}
use spinfoam.Json.{Value}
use spinfoam.Error.{RpcResult}
use spinfoam.Mailbox.{Mailbox, clear}
use spinfoam.Runtime.Object.{
  State, loaded, starting, running, stopping, stopped, exited, failed, Task, unspawned, spawned,
  polled, finished, Object, panics, accepts, load, deliver, start, first_poll, poll, stop,
  stop_woken, cancel, used, release,
}

abbrev pub past_loaded : State → Bool
past_loaded loaded = false
past_loaded _ = true

abbrev pub terminal : State → Bool
terminal stopped = true
terminal exited = true
terminal failed = true
terminal _ = false

-- What may happen to an object, in any order: its task is polled once it is spawned, and a `stop`
-- waits only for an object that has been started.
pub data Step {N : Type 0} : Object N → Object N → Type 0 where
  delivers : (put : Mailbox N → Mailbox N × RpcResult N) (o : Object N) → Step o (deliver put o).0
  starts : (o : Object N) → Step o (start o).0
  first_polls : (o : Object N) → o.task ≡ spawned → Step o (first_poll o)
  polls :
      (from_u64 : ℕ → N) (result : Option (Result Text ℕ)) (o : Object N)
      → o.task ≡ polled
      → Step o (poll from_u64 result o)
  uses : (m : Mailbox N) (wait : Text) (o : Object N) → o.task ≡ polled → Step o (used m wait o)
  stops : (o : Object N) → Step o (stop o)
  wakes : (o : Object N) → past_loaded o.state ≡ true → Step o (stop_woken o)
  cancels : (o : Object N) → Step o (cancel o)

-- Which states go with which points of the task.
abbrev pub legal : State → Task → Bool → Bool → Bool
legal loaded unspawned c p = p
legal starting spawned c p = true
legal running polled c p = true
legal stopping spawned c p = c
legal stopping polled c p = c
legal stopped unspawned c p = true
legal stopped finished c p = true
legal exited finished c p = true
legal failed finished c p = true
legal _ _ c p = false

pub record IsValid {N : Type 0} (o : Object N) : Type 0 where
  pub agree : legal o.state o.task o.cancelled o.program ≡ true
  pub quiet : terminal o.state ≡ true → o.mailbox.entries ≡ []

-- Past `loaded` the program makes no difference, and a cancellation never does.
legal_released :
    (s : State) (t : Task) (c p : Bool)
    → past_loaded s ≡ true
    → legal s t c p ≡ true
    → legal s t c false ≡ true
legal_released s t c p h k = ground arith

legal_cancelled :
    (s : State) (t : Task) (c p : Bool) → legal s t c p ≡ true → legal s t true p ≡ true
legal_cancelled s t c p k = ground arith

legal_stopped : (t : Task) (c p : Bool) → legal loaded t c p ≡ true → legal stopped t c false ≡ true
legal_stopped t c p k = ground arith

legal_stopping :
    (s : State) (t : Task) (c p : Bool)
    → past_loaded s ≡ true
    → terminal s ≡ false
    → legal s t c p ≡ true
    → legal stopping t true p ≡ true
legal_stopping s t c p h n k = ground arith

pub running_only :
    (s : State) (t : Task) (c p : Bool) → t ≡ polled → legal s t c p ≡ true → terminal s ≡ false
running_only s t c p e k = ground arith

module _ {N : Type 0} where
  pub load-IsValid : (config : Value N) → IsValid (load config)
  load-IsValid config = record { agree = refl; quiet = λ e. cc }

  deliver-IsValid :
      (put : Mailbox N → Mailbox N × RpcResult N) (o : Object N)
      → IsValid o
      → IsValid (deliver put o).0
  unfolding deliver
  deliver-IsValid put o v =
      if_cases {A = Object N × RpcResult N} (λ r. IsValid r.0) (accepts o.state) _ _
        (λ b. record { agree = v.agree; quiet = λ e. absurd (open_not_terminal o.state b e) })
        λ _. v
    where
      open_not_terminal : (s : State) → accepts s ≡ true → ¬ (terminal s ≡ true)
      open_not_terminal loaded b e = cc
      open_not_terminal starting b e = cc
      open_not_terminal running b e = cc
      open_not_terminal stopping b e = cc
      open_not_terminal stopped b e = cc
      open_not_terminal exited b e = cc
      open_not_terminal failed b e = cc

  -- `start` on an object in one state.
  pub start_from :
      (s : State) (o : Object N)
      → IsValid (record o { state = s })
      → IsValid (start (record o { state = s })).0 × ((start (record o { state = s })).1 ≢ panics)
  unfolding start
  start_from loaded o v = elim (Bool-cases o.program) [
    | inl b ↦ rw b (record { agree = refl; quiet = λ e. cc }, λ e. cc)
    | inr b ↦ absurd (ground (arith, v.agree))
  ]
  start_from starting o v = (v, λ e. cc)
  start_from running o v = (v, λ e. cc)
  start_from stopping o v = (v, λ e. cc)
  start_from stopped o v = (v, λ e. cc)
  start_from exited o v = (v, λ e. cc)
  start_from failed o v = (v, λ e. cc)

  release-IsValid : (o : Object N) → past_loaded o.state ≡ true → IsValid o → IsValid (release o)
  unfolding clear
  release-IsValid o h v = record {
    agree = legal_released o.state o.task o.cancelled o.program h v.agree;
    quiet = λ e. refl;
  }

  asked_to_stop-IsValid :
      (o : Object N)
      → past_loaded o.state ≡ true
      → terminal o.state ≡ false
      → IsValid o
      → IsValid (record o { state = stopping; cancelled = true })
  asked_to_stop-IsValid o h n v = record {
    agree = legal_stopping o.state o.task o.cancelled o.program h n v.agree;
    quiet = λ e. cc;
  }

  stop_from :
      (s : State) (o : Object N)
      → IsValid (record o { state = s })
      → IsValid (stop (record o { state = s }))
  unfolding stop clear
  stop_from loaded o v = record {
    agree = legal_stopped o.task o.cancelled o.program v.agree;
    quiet = λ e. refl;
  }
  stop_from starting o v = asked_to_stop-IsValid (record o { state = starting }) refl refl v
  stop_from running o v = asked_to_stop-IsValid (record o { state = running }) refl refl v
  stop_from stopping o v = asked_to_stop-IsValid (record o { state = stopping }) refl refl v
  stop_from stopped o v = release-IsValid (record o { state = stopped }) refl v
  stop_from exited o v = release-IsValid (record o { state = exited }) refl v
  stop_from failed o v = release-IsValid (record o { state = failed }) refl v

  woken_from :
      (s : State) (o : Object N)
      → past_loaded s ≡ true
      → IsValid (record o { state = s })
      → IsValid (stop_woken (record o { state = s }))
  unfolding stop_woken clear
  woken_from loaded o h v = cc
  woken_from starting o h v = release-IsValid (record o { state = starting }) refl v
  woken_from running o h v = release-IsValid (record o { state = running }) refl v
  woken_from stopping o h v = v
  woken_from stopped o h v = release-IsValid (record o { state = stopped }) refl v
  woken_from exited o h v = release-IsValid (record o { state = exited }) refl v
  woken_from failed o h v = release-IsValid (record o { state = failed }) refl v

  first_poll-IsValid : (o : Object N) → o.task ≡ spawned → IsValid o → IsValid (first_poll o)
  unfolding first_poll clear
  first_poll-IsValid o e v =
      if_cases IsValid o.cancelled _ _ (λ _. record { agree = refl; quiet = λ _. refl })
        λ _. record { agree = refl; quiet = λ x. cc }

  poll-IsValid :
      (from_u64 : ℕ → N) (result : Option (Result Text ℕ)) (o : Object N)
      → IsValid o
      → IsValid (poll from_u64 result o)
  unfolding poll clear
  poll-IsValid from_u64 none o v =
      if_cases IsValid o.cancelled _ _ (λ _. record { agree = refl; quiet = λ _. refl }) λ _. v
  poll-IsValid from_u64 (some (ok code)) o v =
      if_cases IsValid o.cancelled _ _ (λ _. record { agree = refl; quiet = λ _. refl })
        λ _. record { agree = refl; quiet = λ _. refl }
  poll-IsValid from_u64 (some (err e)) o v =
      if_cases IsValid o.cancelled _ _ (λ _. record { agree = refl; quiet = λ _. refl })
        λ _. record { agree = refl; quiet = λ _. refl }

  pub Step-IsValid : {o o' : Object N} → Step o o' → IsValid o → IsValid o'
  Step-IsValid (delivers put o) v = deliver-IsValid put o v
  Step-IsValid (starts o) v = (start_from o.state o v).0
  Step-IsValid (first_polls o e) v = first_poll-IsValid o e v
  Step-IsValid (polls f result o e) v = poll-IsValid f result o v
  Step-IsValid (uses m wait o e) v = record {
    agree = v.agree;
    quiet = λ x. absurd (let y = running_only o.state o.task o.cancelled o.program e v.agree in cc);
  }
  Step-IsValid (stops o) v = stop_from o.state o v
  Step-IsValid (wakes o h) v = woken_from o.state o h v
  Step-IsValid (cancels o) v = record {
    agree = legal_cancelled o.state o.task o.cancelled o.program v.agree;
    quiet = v.quiet;
  }
