-- ===== src/Stdio/Polls.antt =====
-- The loops of src/stdio.rs end with the first round that is not to be tried again, and the flags of
-- the file are given back.
use spinfoam.Prelude.{
  ℕ, zero, suc, ◌+◌, ◌-◌, ◌≤◌, ◌<◌, ◌≡◌, refl, sym, ap, subst, ◌∙◌, Bool, true, false, ◌&&◌, ◌++◌,
  length, length-append, Option, none, some, Result, ok, err, ◌⊎◌, inl, inr, arith,
}
use spinfoam.Text.{Text}
use spinfoam.Outbox.Queues.{Bytes}
use spinfoam.Stdio.{
  Flags, Stdio, Setup, prepared, new, drop_stdio, FileType, fifo, socket, other, Round, pending,
  waits, ready, unready, blocks, interrupted, fails, does, Polled, ended, loop, Buffer, room,
  advanced, poll_read, poll_write,
}

module _ {A : Type 0} where
  abbrev pub retries : Round A → Bool
  retries blocks = true
  retries interrupted = true
  retries _ = false

  -- All rounds before one are to be tried again.
  abbrev pub all_retry : (ℕ → Round A) → ℕ → ℕ → Bool
  all_retry rounds i zero = true
  all_retry rounds i (suc n) = retries (rounds i) && all_retry rounds (suc i) n

  loop_step :
      (n : ℕ) (rounds : ℕ → Round A) (i : ℕ) (r : Round A)
      → rounds i ≡ r
      → ((retries r ≡ true) × (loop (suc n) rounds i ≡ loop n rounds (suc i)))
        ⊎ ((retries r ≡ false) × (loop (suc n) rounds i ≡ ended r))
  unfolding loop
  loop_step n rounds i pending e = inr (refl, rw (e, loop) refl)
  loop_step n rounds i (unready x) e = inr (refl, rw (e, loop) refl)
  loop_step n rounds i blocks e = inl (refl, rw (e, loop) refl)
  loop_step n rounds i interrupted e = inl (refl, rw (e, loop) refl)
  loop_step n rounds i (fails x) e = inr (refl, rw (e, loop) refl)
  loop_step n rounds i (does a) e = inr (refl, rw (e, loop) refl)

  abbrev pub First : (ℕ → Round A) → ℕ → ℕ → Polled A → Type 0
  First rounds i k p =
      (j : ℕ) × (j ≤ k)
      × (all_retry rounds i j ≡ true)
      × (retries (rounds (i + j)) ≡ false)
      × (p ≡ ended (rounds (i + j)))

  First-later :
      (rounds : ℕ → Round A) (i k : ℕ) (p : Polled A)
      → retries (rounds i) ≡ true
      → First rounds (suc i) k p
      → First rounds i (suc k) p
  First-later rounds i k p t (j, small, before, stops, e) =
      let moved : rounds (suc i + j) ≡ rounds (i + suc j) = ap rounds (omega arith) in
      (suc j, omega (arith, small), rw t before, ap retries (sym moved) ∙ stops, e ∙ ap ended moved)

  First-now :
      (rounds : ℕ → Round A) (i k : ℕ) (p : Polled A)
      → retries (rounds i) ≡ false
      → p ≡ ended (rounds i)
      → First rounds i k p
  First-now rounds i k p t e =
      let here : rounds i ≡ rounds (i + 0) = ap rounds (omega arith) in
      (0, omega arith, refl, ap retries (sym here) ∙ t, e ∙ ap ended here)

  loop-First :
      (n : ℕ) (rounds : ℕ → Round A) (i k : ℕ)
      → k < n
      → retries (rounds (i + k)) ≡ false
      → First rounds i k (loop n rounds i)
  loop-First zero rounds i k l h = absurd (omega (arith, l))
  loop-First (suc n) rounds i zero l h = elim (loop_step n rounds i (rounds i) refl) [
    | inl (t, e) ↦
        let here : rounds i ≡ rounds (i + 0) = ap rounds (omega arith) in
        absurd (let x : true ≡ false = sym t ∙ ap retries here ∙ h in cc)
    | inr (t, e) ↦ First-now rounds i zero (loop (suc n) rounds i) t e
  ]
  loop-First (suc n) rounds i (suc k) l h = elim (loop_step n rounds i (rounds i) refl) [
    | inl (t, e) ↦
        let there : rounds (suc i + k) ≡ rounds (i + suc k) = ap rounds (omega arith) in
        subst (First rounds i (suc k)) (sym e) (
          First-later rounds i k (loop n rounds (suc i)) t
            (loop-First n rounds (suc i) k (omega (arith, l)) (ap retries there ∙ h)))
    | inr (t, e) ↦ First-now rounds i (suc k) (loop (suc n) rounds i) t e
  ]

first_round :
    {A : Type 0} (n : ℕ) (rounds : ℕ → Round A) (k : ℕ)
    → k < n
    → retries (rounds k) ≡ false
    → (j : ℕ) × (j ≤ k)
      × (all_retry rounds 0 j ≡ true)
      × (retries (rounds j) ≡ false)
      × (loop n rounds 0 ≡ ended (rounds j))
first_round n rounds k l h =
    let at_start : (j : ℕ) → rounds (0 + j) ≡ rounds j = λ j. ap rounds (omega arith) in
    let (j, small, before, stops, e) = loop-First n rounds 0 k l (ap retries (at_start k) ∙ h) in
    (j, small, before, ap retries (sym (at_start j)) ∙ stops, e ∙ ap ended (at_start j))

-- What a read comes to that the system answers for good: the buffer and the poll.
pub data Reads (b : Buffer) : Round Bytes → Buffer × Polled (Unit {0}) → Type 0 where
  no_readiness : Reads b pending (b, waits)
  readiness_fails : (e : Text) → Reads b (unready e) (b, ready (err e))
  read_fails : (e : Text) → Reads b (fails e) (b, ready (err e))
  read_gives :
      (bytes : Bytes)
      → length (b.filled ++ bytes) ≤ b.capacity
      → Reads b
          (does bytes)
          (record { filled = b.filled ++ bytes; capacity = b.capacity }, ready (ok tt))

-- What a write comes to.
pub data Writes : Round ℕ → Polled ℕ → Type 0 where
  no_readiness : Writes pending waits
  readiness_fails : (e : Text) → Writes (unready e) (ready (err e))
  write_fails : (e : Text) → Writes (fails e) (ready (err e))
  write_takes : (n : ℕ) → Writes (does n) (ready (ok n))

-- `read` gives as many bytes as it was asked for, at most.
abbrev pub FitsReads : (ℕ → ℕ → Round Bytes) → Type 0
FitsReads reads = (n i : ℕ) (bytes : Bytes) → reads n i ≡ does bytes → length bytes ≤ n

read-Reads :
    (b : Buffer) (r : Round Bytes)
    → length b.filled ≤ b.capacity
    → ((bytes : Bytes) → r ≡ does bytes → length bytes ≤ b.capacity - length b.filled)
    → retries r ≡ false
    → Reads b r (advanced b (ended r))
read-Reads b pending f s h = no_readiness
read-Reads b (unready e) f s h = readiness_fails e
read-Reads b blocks f s h = absurd cc
read-Reads b interrupted f s h = absurd cc
read-Reads b (fails e) f s h = read_fails e
read-Reads b (does bytes) f s h =
    read_gives bytes (omega (arith, f, s bytes refl, length-append b.filled bytes))

ended-Writes : (r : Round ℕ) → retries r ≡ false → Writes r (ended r)
ended-Writes pending h = no_readiness
ended-Writes (unready e) h = readiness_fails e
ended-Writes blocks h = absurd cc
ended-Writes interrupted h = absurd cc
ended-Writes (fails e) h = write_fails e
ended-Writes (does n) h = write_takes n

-- Of a `poll_read` into a buffer not filled beyond its capacity, and of a `poll_write`, of which some
-- round, as the system answers, is neither interrupted nor would block, with rounds enough for it,
-- and where no read gives more bytes than it was asked for: each ends with the first such round,
-- which is not after that one, all rounds before it being tried again. Where that round finds no
-- readiness, the poll waits; an error of the readiness or of the call is passed on; neither touches
-- the buffer of a read. A read asks for as many bytes as the buffer has room, and the bytes that it
-- gives then stand behind those that were there, within the capacity; a write gives the number of
-- bytes that were taken.
pub polls-First :
    (fuel k : ℕ) (b : Buffer) (bytes : Bytes) (reads : ℕ → ℕ → Round Bytes)
    (writes : Bytes → ℕ → Round ℕ)
    → k < fuel
    → length b.filled ≤ b.capacity
    → FitsReads reads
    → retries (reads (b.capacity - length b.filled) k) ≡ false
    → retries (writes bytes k) ≡ false
    → ((j : ℕ) × (j ≤ k)
        × (all_retry (reads (b.capacity - length b.filled)) 0 j ≡ true)
        × Reads b (reads (b.capacity - length b.filled) j) (poll_read fuel reads b))
      × (j : ℕ) × (j ≤ k)
      × (all_retry (writes bytes) 0 j ≡ true)
      × Writes (writes bytes j) (poll_write fuel writes bytes)
unfolding poll_read poll_write
polls-First fuel k b bytes reads writes l f s h g =
    let (i, small, before, stops, e) = first_round fuel (reads (room b)) k l h in
    let (j, small', before', stops', e') = first_round fuel (writes bytes) k l g in
    (
      (
        i,
        small,
        before,
        subst (λ p. Reads b (reads (room b) i) (advanced b p)) (sym e)
            (read-Reads b (reads (room b) i) f (s (room b) i) stops),
      ),
      j,
      small',
      before',
      subst (Writes (writes bytes j)) (sym e') (ended-Writes (writes bytes j) stops'),
    )

-- What `new` leaves: an error, and the flags as they were; or a `Stdio`, the file set not to block,
-- and the flags given back when it is dropped.
abbrev pub Restores : Flags → Flags × Result Text Stdio → Type 0
Restores flags (left, err e) = left ≡ flags
Restores flags (left, ok s) =
    (left.nonblocking ≡ true) × (left.others ≡ flags.others) × (drop_stdio s left ≡ flags)

-- However its calls come out, `new` leaves the flags of the file as they were or sets them not to
-- block; the latter just where it gives a `Stdio`, whose drop brings the old flags back.
pub new-Restores : (c : Setup) (flags : Flags) → Restores flags (new c flags)
unfolding new
new-Restores c flags = by_call c.dup c.stat c.get_flags c.set_flags c.register
  where
    prepared_by :
        (fd : ℕ) (g s r : Option Text)
        → Restores flags (
            prepared
              (record { dup = c.dup; stat = c.stat; get_flags = g; set_flags = s; register = r })
              fd
              flags)
    prepared_by fd (some e) s r = refl
    prepared_by fd none (some e) r = refl
    prepared_by fd none none (some e) = refl
    prepared_by fd none none none = (refl, refl, refl)

    by_call :
        (d : Result Text ℕ) (t : Result Text FileType) (g s r : Option Text)
        → Restores flags
            (new (record { dup = d; stat = t; get_flags = g; set_flags = s; register = r }) flags)
    by_call (err e) t g s r = refl
    by_call (ok fd) (err e) g s r = refl
    by_call (ok fd) (ok fifo) g s r = prepared_by fd g s r
    by_call (ok fd) (ok socket) g s r = prepared_by fd g s r
    by_call (ok fd) (ok other) g s r = refl
