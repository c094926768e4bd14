-- ===== src/Outbox/Queues.antt =====
-- The shared state of src/outbox.rs and the operations on encoded frames.
use spinfoam.Prelude.{
  ℕ, ◌+◌, ◌-◌, ◌*◌, ◌^◌, Bool, true, false, ◌||◌, List, [], ◌∷◌, ◌++◌, Option, none, some, Result,
  ok, err, ltb, leb, if◌then◌else◌, ite, length, lookup, insert, remove, weight, without,
}
use spinfoam.Text.{Text, text_discrete}

abbrev pub Bytes : Type 0
Bytes = List ℕ

abbrev pub max_frame : ℕ
max_frame = 256 * 1024

abbrev pub control_slots : ℕ
control_slots = 64

abbrev pub data_bytes : ℕ
data_bytes = 4 * 1024 * 1024

abbrev pub object_bytes : ℕ
object_bytes = 64 * 1024

pub record DataFrame : Type 0 where
  pub bytes : Bytes
  pub request_id : Option Text

-- A wake-up that an operation sends: `changed.notify_one()` or `space.notify_waiters()`.
pub data Signal : Type 0 where
  changed space : Signal

-- The fields of `Queues` and of `Outbox`; `signals` lists the wake-ups sent so far.
pub record Outbox : Type 0 where
  pub control : List Bytes
  pub queues : List (Text × List DataFrame)
  pub ready : List Text
  pub bytes : ℕ
  pub control_burst : ℕ
  pub closed : Bool
  pub dropped : ℕ
  pub signals : List Signal

-- What a poll of an `async` method comes to. `panicked` is a failed `expect`.
pub data Poll {ℓ} (A : Type ℓ) : Type ℓ where
  done : A → Poll A
  pending panicked : Poll A

pub data SendError : Type 0 where
  closed_error frame_too_large : SendError

abbrev pub initial : Outbox
initial = record {
  control = [];
  queues = [];
  ready = [];
  bytes = 0;
  control_burst = 0;
  closed = false;
  dropped = 0;
  signals = [];
}

-- `usize` subtraction in a release build: it wraps.
abbrev pub sub_usize : ℕ → ℕ → ℕ
sub_usize a b = if leb b a then a - b else a + 2 ^ 64 - b

abbrev pub is_empty {ℓ} : {A : Type ℓ} → List A → Bool
is_empty [] = true
is_empty (x ∷ xs) = false

-- The bytes of a queue: `v.iter().map(|frame| frame.bytes.len()).sum()`.
abbrev pub queue_bytes : List DataFrame → ℕ
queue_bytes [] = 0
queue_bytes (f ∷ fs) = length f.bytes + queue_bytes fs

abbrev pub queue_of : Text → Outbox → Option (List DataFrame)
queue_of object o = lookup text_discrete object o.queues

-- `.map(…).unwrap_or(0)`
abbrev pub used : Text → Outbox → ℕ
used object o = weight queue_bytes (queue_of object o)

-- `.entry(object).or_default()`
abbrev pub or_default : Option (List DataFrame) → List DataFrame
or_default none = []
or_default (some fs) = fs

-- The writes of `push_data` once the frame is admitted.
unfoldable pub enqueue : Text → DataFrame → Outbox → Outbox
enqueue object f o = record o {
  ready = elim (queue_of object o) [ none ↦ o.ready ++ object ∷ [] | some fs ↦ o.ready ];
  bytes = o.bytes + length f.bytes;
  queues = insert text_discrete object (or_default (queue_of object o) ++ f ∷ []) o.queues;
  signals = o.signals ++ changed ∷ [];
}

unfoldable pub push_data : Text → Bytes → Option Text → Outbox → Outbox × Result Bytes (Unit {0})
push_data object bytes request_id o =
    if o.closed
      || ltb object_bytes (used object o + length bytes)
      || ltb data_bytes (o.bytes + length bytes)
    then (o, err bytes)
    else (enqueue object (record { bytes = bytes; request_id = request_id }) o, ok tt)

-- The write that `control` and `try_control` share.
unfoldable pub push_control : Bytes → Outbox → Outbox
push_control bytes o = record o {
  control = o.control ++ bytes ∷ [];
  signals = o.signals ++ changed ∷ [];
}

-- `frame.request_id.as_deref() == Some(id)`
abbrev pub has_id : Text → DataFrame → Bool
has_id id f = elim f.request_id [ none ↦ false | some j ↦ ite (text_discrete j id) true false ]

-- `frames.retain(…)`: the frames that stay, and the bytes of those that go.
abbrev pub retain : Text → List DataFrame → List DataFrame
retain id [] = []
retain id (f ∷ fs) = if has_id id f then retain id fs else f ∷ retain id fs

abbrev pub removed : Text → List DataFrame → ℕ
removed id [] = 0
removed id (f ∷ fs) = if has_id id f then length f.bytes + removed id fs else removed id fs

unfoldable pub remove_request : Text → Text → Outbox → Outbox
remove_request object id o = elim (queue_of object o) [
  | none ↦ o
  | some fs ↦
      if is_empty (retain id fs)
      then record o {
        bytes = sub_usize o.bytes (removed id fs);
        queues = remove text_discrete object o.queues;
        ready = without text_discrete object o.ready;
        signals = o.signals ++ space ∷ [];
      }
      else record o {
        bytes = sub_usize o.bytes (removed id fs);
        queues = insert text_discrete object (retain id fs) o.queues;
        signals = o.signals ++ space ∷ [];
      }
]

unfoldable pub remove_object : Text → Outbox → Outbox
remove_object object o = elim (queue_of object o) [
  | none ↦ record o {
    ready = without text_discrete object o.ready;
    signals = o.signals ++ space ∷ [];
  }
  | some fs ↦ record o {
    queues = remove text_discrete object o.queues;
    bytes = sub_usize o.bytes (queue_bytes fs);
    ready = without text_discrete object o.ready;
    signals = o.signals ++ space ∷ [];
  }
]

-- `next` from `ready.pop_front()` on, `rest` being the ready queue without the popped object.
unfoldable pub take_data : Text → List Text → Outbox → Outbox × Poll (Option Bytes)
take_data id rest o = elim (queue_of id o) [
  | none ↦ (record o { ready = rest }, panicked)
  | some [] ↦ (record o { ready = rest }, panicked)
  | some (f ∷ []) ↦ (
    record o {
      ready = rest;
      queues = remove text_discrete id o.queues;
      bytes = sub_usize o.bytes (length f.bytes);
      control_burst = 0;
      signals = o.signals ++ space ∷ [];
    },
    done (some f.bytes),
  )
  | some (f ∷ g ∷ fs) ↦ (
    record o {
      ready = rest ++ id ∷ [];
      queues = insert text_discrete id (g ∷ fs) o.queues;
      bytes = sub_usize o.bytes (length f.bytes);
      control_burst = 0;
      signals = o.signals ++ space ∷ [];
    },
    done (some f.bytes),
  )
]

-- `next` behind the test for a control frame.
unfoldable pub poll_data_queues : List Text → Outbox → Outbox × Poll (Option Bytes)
poll_data_queues [] o = (o, if o.closed then done none else pending)
poll_data_queues (id ∷ rest) o = take_data id rest o

unfoldable pub take_control : Bytes → List Bytes → Outbox → Outbox × Poll (Option Bytes)
take_control item rest o = (
  record o {
    control = rest;
    control_burst = o.control_burst + 1;
    signals = o.signals ++ space ∷ [];
  },
  done (some item),
)

-- `!q.control.is_empty() && (q.control_burst < 8 || q.ready.is_empty())`, then the two branches.
unfoldable pub poll_queues : List Bytes → Outbox → Outbox × Poll (Option Bytes)
poll_queues [] o = poll_data_queues o.ready o
poll_queues (item ∷ rest) o =
    if ltb o.control_burst 8 || is_empty o.ready
    then take_control item rest o
    else poll_data_queues o.ready o

-- One round of the loop of `next`.
unfoldable pub next : Outbox → Outbox × Poll (Option Bytes)
next o = poll_queues o.control o

-- What wakes `next` from its wait, and what it does then: `changed` begins another round, `closed`
-- ends it at once.
pub data Wake : Type 0 where
  by_changed by_closed : Wake

unfoldable pub next_woken : Wake → Outbox → Outbox × Poll (Option Bytes)
unfolding next
next_woken by_changed o = next o
next_woken by_closed o = (o, done none)
