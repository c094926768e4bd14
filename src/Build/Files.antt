-- ===== src/Build/Files.antt =====
-- The helpers of the compiler's guest in src/build/compiler.rs: `input`, `write`, `fatal`,
-- `diagnostic`, `open`, `read`, `close` over the memory-only file system. What `user_memory` and
-- `user_memory_mut` give is an argument: the bytes, the buffer's length, or nothing where they fail.
pub mod Valid
pub mod Reading
pub mod History
use spinfoam.Prelude.{
  ℕ, suc, ◌+◌, ◌-◌, ◌*◌, ◌^◌, min, Bool, true, false, not, ◌&&◌, ◌||◌, List, [], ◌∷◌, ◌++◌, Option,
  none, some, Result, ok, err, ltb, leb, ◌==◌, if◌then◌else◌, length, take, drop, lookup, insert,
  remove, ℕ_discrete,
}
use spinfoam.Text.{Text, text, text_discrete, truncate}
use spinfoam.Outbox.Queues.{Bytes, sub_usize}
use spinfoam.Build.Paths.{virtual_path}
use spinfoam.Build.Requests.{Output}

abbrev pub max_output : ℕ
max_output = 64 * 1024

-- The field `open` is `opened` here.
pub record Context : Type 0 where
  pub input : Bytes
  pub files : List (Text × Bytes)
  pub opened : List (ℕ × (Text × ℕ))
  pub next : ℕ
  pub output : Bytes
  pub error : Text
  pub diagnostics : Text
  pub truncated : Bool

-- What a helper comes to: the status in the guest's register and the bytes put into its buffer, the
-- fault that ends the guest, or a panic of the host (a missing key of `ctx.files[name]`).
pub data Reply : Type 0 where
  returns : ℕ → Bytes → Reply
  faults panics : Reply

-- `u64::MAX`
abbrev pub minus_one : ℕ
minus_one = 2 ^ 64 - 1

unfoldable pub copy_input : Option ℕ → ℕ → Context → Context × Reply
copy_input none len c = (c, faults)
copy_input (some dst) len c =
    if not (dst == length c.input) then (c, faults) else (c, returns len c.input)

unfoldable pub write : Option Bytes → ℕ → Context → Context × Reply
write none len c = (c, faults)
write (some bytes) len c =
    if ltb (max_output - length c.output) len
    then (record c { error = text "compiler output exceeds 64 KiB" }, faults)
    else (record c { output = c.output ++ bytes }, returns len [])

-- The memory asked for is the first `len.min(4096)` bytes. `lossy` is `String::from_utf8_lossy`.
unfoldable pub fatal : (Bytes → Text) → Option Bytes → Context → Context × Reply
fatal lossy none c = (c, faults)
fatal lossy (some bytes) c = (record c { error = lossy bytes }, faults)

-- The memory asked for is the first `len.min(16 * 1024)` bytes.
unfoldable pub diagnostic : (Bytes → Text) → Option Bytes → ℕ → Context → Context × Reply
diagnostic lossy none len c = (c, faults)
diagnostic lossy (some bytes) len c =
    let message = lossy bytes ++ b'\n' ∷ [] in
    let remaining = 16 * 1024 - length c.diagnostics in
    (
      record c {
        truncated = c.truncated || ltb (16 * 1024) len || ltb remaining (length message);
        diagnostics = c.diagnostics ++ truncate message remaining;
      },
      returns len [],
    )

-- `open` from the checked path on: a new descriptor at offset 0.
unfoldable pub open_path : Text → Context → Context × Reply
open_path name c = elim (lookup text_discrete name c.files) [
  | none ↦ (c, returns minus_one [])
  | some bytes ↦
      if leb 64 (length c.opened)
      then (c, returns minus_one [])
      else if leb (c.next + 1) (2 ^ 31 - 1 - 2)
      then (
        record c {
          next = c.next + 1;
          opened = insert ℕ_discrete (c.next + 1 + 2) (name, 0) c.opened;
        },
        returns (c.next + 1 + 2) [],
      )
      else (c, faults)
]

-- `is_utf8` is the test of `str::from_utf8`.
unfoldable pub open_file : (Bytes → Bool) → Option Bytes → ℕ → ℕ → Context → Context × Reply
open_file is_utf8 memory len flags c =
    if ltb 256 len || not (flags == 0) then (c, returns minus_one []) else elim memory [
      | none ↦ (c, faults)
      | some bytes ↦ if not (is_utf8 bytes) then (c, faults) else elim (virtual_path bytes) [
        | none ↦ (c, returns minus_one [])
        | some name ↦ open_path name c
      ]
    ]

-- `read` of an open file: `dst` is the buffer's length.
unfoldable pub read_at : ℕ → ℕ → Text → ℕ → Context → Context × Reply
read_at fd dst name offset c = elim (lookup text_discrete name c.files) [
  | none ↦ (c, panics)
  | some bytes ↦
      let n = min dst (sub_usize (length bytes) offset) in
      (
        record c { opened = insert ℕ_discrete fd (name, offset + n) c.opened },
        returns n (take n (drop offset bytes)),
      )
]

unfoldable pub read_file : ℕ → Option ℕ → Context → Context × Reply
read_file fd none c = (c, faults)
read_file fd (some dst) c = elim (lookup ℕ_discrete fd c.opened) [
  | none ↦ (c, returns minus_one [])
  | some (name, offset) ↦ read_at fd dst name offset c
]

unfoldable pub close_file : ℕ → Context → Context × Reply
close_file fd c = (record c { opened = remove ℕ_discrete fd c.opened }, returns 0 [])

-- The context that `run` sets up: the entry's path with a final NUL, the files under `/src/`, and
-- the SDK header over any file of its name.
abbrev pub under : List (Text × Text) → List (Text × Bytes)
under [] = []
under ((name, s) ∷ files) = (text "/src/" ++ name, s) ∷ under files

unfoldable pub set_up : Text → List (Text × Text) → Text → Context
set_up sdk files entry = record {
  input = (text "/src/" ++ entry) ++ 0 ∷ [];
  files = insert text_discrete (text "/src/spinfoam.h") sdk (under files);
  opened = [];
  next = 0;
  output = [];
  error = [];
  diagnostics = [];
  truncated = false;
}

abbrev pub elf_magic : Bytes → Bool
elf_magic (a ∷ b ∷ c ∷ d ∷ s) = a == 0x7f && b == b'E' && c == b'L' && d == b'F'
elf_magic _ = false

-- The end of `run`: the helpers' error first, then the guest's fault, then its exit code.
-- `describe` is the text of the error for a code.
unfoldable pub finish : (ℕ → Text) → Result Text ℕ → Context → Result Text Output
finish describe result c = elim c.error [
  | e ∷ es ↦ err c.error
  | [] ↦ elim result [
    | err e ↦ err e
    | ok code ↦
        if code == 1 && elf_magic c.output
        then ok (record { elf = c.output; diagnostics = c.diagnostics; truncated = c.truncated })
        else err (describe code)
  ]
]
