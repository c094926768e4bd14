-- ===== src/Stdio.antt =====
-- `Stdio` of src/stdio.rs: its set-up and its drop, and the loops of `poll_read` and `poll_write`.
-- What the kernel and Tokio's `AsyncFd` answer is given: a call of `libc` succeeds or fails, and a
-- round of a loop comes to what the system says.
pub mod Polls
use spinfoam.Prelude.{
  ℕ, zero, suc, ◌+◌, ◌-◌, Bool, true, false, not, ◌&&◌, ◌||◌, List, [], ◌∷◌, ◌++◌, Option, none,
  some, Result, ok, err, if◌then◌else◌, length,
}
use spinfoam.Text.{Text, text}
use spinfoam.Outbox.Queues.{Bytes}

-- The flags of an open file that `F_GETFL` reads.
pub record Flags : Type 0 where
  pub nonblocking : Bool
  pub others : ℕ

pub record Stdio : Type 0 where
  pub fd : ℕ
  pub original : Flags

-- `st_mode & S_IFMT`
pub data FileType : Type 0 where
  fifo socket other : FileType

-- What the calls of `new` come to; `none` is success for those that return nothing.
pub record Setup : Type 0 where
  pub dup : Result Text ℕ
  pub stat : Result Text FileType
  pub get_flags : Option Text
  pub set_flags : Option Text
  pub register : Option Text

abbrev pub is_stream : FileType → Bool
is_stream fifo = true
is_stream socket = true
is_stream other = false

-- `original_flags | O_NONBLOCK`
abbrev pub with_nonblocking : Flags → Flags
with_nonblocking f = record f { nonblocking = true }

-- `fcntl(fd, F_SETFL, flags)`, of the file that the descriptor and its duplicate share.
abbrev pub set_to : Flags → Flags → Flags
set_to flags current = flags

abbrev pub prepared : Setup → ℕ → Flags → Flags × Result Text Stdio
prepared c fd flags = elim c.get_flags [
  | some e ↦ (flags, err e)
  | none ↦ elim c.set_flags [
    | some e ↦ (flags, err e)
    | none ↦ elim c.register [
      | some e ↦ (set_to flags (set_to (with_nonblocking flags) flags), err e)
      | none ↦ (set_to (with_nonblocking flags) flags, ok (record { fd = fd; original = flags }))
    ]
  ]
]

-- `new`, with the flags as it finds and as it leaves them.
unfoldable pub new : Setup → Flags → Flags × Result Text Stdio
new c flags = elim c.dup [
  | err e ↦ (flags, err e)
  | ok fd ↦ elim c.stat [
    | err e ↦ (flags, err e)
    | ok t ↦
        if is_stream t
        then prepared c fd flags
        else (flags, err (text "stdio must use pipes or Unix sockets"))
  ]
]

-- `drop`
abbrev pub drop_stdio : Stdio → Flags → Flags
drop_stdio s current = set_to s.original current

-- A round of a loop: the readiness is pending or fails, or the call would block, is interrupted,
-- fails, or is done.
pub data Round (A : Type 0) : Type 0 where
  pending : Round A
  unready : Text → Round A
  blocks interrupted : Round A
  fails : Text → Round A
  does : A → Round A

-- What a poll comes to; `unfinished` is a loop cut off.
pub data Polled (A : Type 0) : Type 0 where
  waits unfinished : Polled A
  ready : Result Text A → Polled A

module _ {A : Type 0} where
  abbrev pub ended : Round A → Polled A
  ended pending = waits
  ended (unready e) = ready (err e)
  ended blocks = unfinished
  ended interrupted = unfinished
  ended (fails e) = ready (err e)
  ended (does a) = ready (ok a)

  -- The loop, from a round on, for so many rounds at most.
  unfoldable pub loop : ℕ → (ℕ → Round A) → ℕ → Polled A
  loop zero rounds i = unfinished
  loop (suc n) rounds i =
      let rest = loop n rounds (suc i) in
      elim (rounds i) [ blocks ↦ rest | interrupted ↦ rest | r ↦ ended r ]

-- `ReadBuf`: what is filled, and how much it holds at most.
pub record Buffer : Type 0 where
  pub filled : Bytes
  pub capacity : ℕ

-- The length of `initialize_unfilled()`
abbrev pub room : Buffer → ℕ
room b = b.capacity - length b.filled

abbrev pub advanced : Buffer → Polled Bytes → Buffer × Polled (Unit {0})
advanced b waits = (b, waits)
advanced b unfinished = (b, unfinished)
advanced b (ready (err e)) = (b, ready (err e))
advanced b (ready (ok bytes)) = (record b { filled = b.filled ++ bytes }, ready (ok tt))

-- `poll_read`; `kernel` answers reads into so many bytes, round after round.
unfoldable pub poll_read : ℕ → (ℕ → ℕ → Round Bytes) → Buffer → Buffer × Polled (Unit {0})
unfolding loop
poll_read fuel kernel b = advanced b (loop fuel (kernel (room b)) 0)

-- `poll_write` of some bytes: how many were taken.
unfoldable pub poll_write : ℕ → (Bytes → ℕ → Round ℕ) → Bytes → Polled ℕ
unfolding loop
poll_write fuel kernel bytes = loop fuel (kernel bytes) 0
