-- ===== src/Helpers/Memory.antt =====
-- The helpers of src/helpers.rs that tell the time, and those that stand in for `memcpy`, `memset` and
-- `memcmp`. What `user_memory` gives is a parameter; the guest's own state stays as it is.
use spinfoam.Prelude.{
  ℕ, zero, suc, ◌*◌, ◌-◌, ◌/◌, ◌%◌, ◌^◌, Bool, [], ◌∷◌, Option, none, some, ltb, if◌then◌else◌, ite,
}
use spinfoam.Prelude.Int.{ℤ, pos, neg}
use spinfoam.Text.{text_discrete}
use spinfoam.Text.Order.{less}
use spinfoam.Outbox.Queues.{Bytes}
use spinfoam.Helpers.Table.{Reply, returns, faults, status, plain}

-- `started.elapsed().as_millis() as u64`, of a clock in nanoseconds.
abbrev pub h_mono : ℕ → ℕ → Reply
h_mono started now = plain ((now - started) / 1000000 % 2 ^ 64)

-- `now` is the time since the epoch in nanoseconds, nothing where the clock is before it.
abbrev pub h_unix : Option ℕ → Reply
h_unix none = plain 0
h_unix (some now) = plain (now / 1000000 % 2 ^ 64)

-- `h_yield`: its task ends with 0.
abbrev pub h_yield : Reply
h_yield = plain 0

-- The bytes that a helper writes stand in its reply; `writable` tells whether `user_memory_mut` gives
-- that many.
unfoldable pub h_memcpy : ℕ → Option Bytes → Bool → ℕ → Reply
h_memcpy d memory writable n =
    if ltb (16 * 1024) n
    then faults
    else elim memory [ none ↦ faults | some bytes ↦ if writable then returns d bytes else faults ]

abbrev pub filled_with : ℕ → ℕ → Bytes
filled_with zero v = []
filled_with (suc n) v = v ∷ filled_with n v

unfoldable pub h_memset : ℕ → ℕ → Bool → ℕ → Reply
h_memset p v writable n =
    if ltb (16 * 1024) n
    then faults
    else if writable
    then returns p (filled_with n (v % 256))
    else faults

-- `cmp` of two slices, as a sign.
abbrev pub sign_of : Bytes → Bytes → ℤ
sign_of a b = if less a b then neg 1 else ite (text_discrete a b) (pos 0) (pos 1)

unfoldable pub h_memcmp : Option Bytes → Option Bytes → ℕ → Reply
unfolding less text_discrete
h_memcmp left right n = if ltb (16 * 1024) n then faults else elim left [
  | none ↦ faults
  | some a ↦ elim right [ none ↦ faults | some b ↦ plain (status (sign_of a b)) ]
]
