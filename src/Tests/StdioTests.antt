-- ===== src/Tests/StdioTests.antt =====
-- A pipe whose calls are interrupted once, or would block, before they are done.
use spinfoam.Prelude.{ℕ, zero, suc, ◌-◌, ◌≤◌, ◌≡◌, refl, ap, true, length, take, length-take, arith}
use spinfoam.Text.{text}
use spinfoam.Outbox.Queues.{Bytes}
use spinfoam.Stdio.{Round, interrupted, blocks, does, Buffer, poll_read, poll_write}
use spinfoam.Stdio.Polls.{all_retry, Reads, Writes, FitsReads, polls-First}

abbrev sample_buffer : Buffer
sample_buffer = record { filled = text "a"; capacity = 3 }

abbrev sample_reads : ℕ → ℕ → Round Bytes
sample_reads n zero = interrupted
sample_reads n (suc i) = does (take n (text "bc"))

abbrev sample_writes : Bytes → ℕ → Round ℕ
sample_writes bytes zero = blocks
sample_writes bytes (suc i) = does 1

abbrev given : Round Bytes → ℕ
given (does bytes) = length bytes
given r = 0

sample_reads-FitsReads : FitsReads sample_reads
sample_reads-FitsReads n zero bytes e = absurd cc
sample_reads-FitsReads n (suc i) bytes e =
    let same : length (take n (text "bc")) ≡ length bytes = ap given e in
    omega (arith, same, length-take n (text "bc"))

polls-First_example :
    ((j : ℕ) × (j ≤ 1)
      × (all_retry (sample_reads (sample_buffer.capacity - length sample_buffer.filled)) 0 j ≡ true)
      × Reads sample_buffer
          (sample_reads (sample_buffer.capacity - length sample_buffer.filled) j)
          (poll_read 2 sample_reads sample_buffer))
    × (j : ℕ) × (j ≤ 1)
    × (all_retry (sample_writes (text "x")) 0 j ≡ true)
    × Writes (sample_writes (text "x") j) (poll_write 2 sample_writes (text "x"))
polls-First_example =
    polls-First 2 1 sample_buffer (text "x") sample_reads sample_writes (omega arith) (omega arith)
      sample_reads-FitsReads refl refl
