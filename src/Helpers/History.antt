-- ===== src/Helpers/History.antt =====
-- Any sequence of helper calls of a guest (src/helpers.rs), with handles made by other guests in
-- between.
use spinfoam.Prelude.{
  ℕ, ◌+◌, ◌^◌, Bool, List, [], ◌∷◌, Option, Result, ltb, if◌then◌else◌, if_cases, arith,
}
use spinfoam.Prelude.Int.{ℤ}
use spinfoam.Text.{Text, text}
use spinfoam.Json.{Value}
use spinfoam.Outbox.Queues.{Bytes, Outbox}
use spinfoam.Helpers.Table.{Capability, Guest, External}
use spinfoam.Helpers.Operations.{
  h_config, h_drop, h_at, h_kind, h_bool, h_string_read, h_object, h_array, h_null, h_boolean,
  h_bytes, h_len, h_read,
}
use spinfoam.Helpers.Encoded.{
  h_parse, h_get, h_i64, h_equals, h_string, h_number, h_set, h_push, h_dump,
}
use spinfoam.Helpers.Waiting.{h_sleep, h_event, event_end, call_end, h_call, h_log}
use spinfoam.Helpers.Handles.{IsValid, give-IsValid, give_or_invalid-IsValid, h_drop-IsValid}
use spinfoam.Helpers.Kept.{
  touched-IsValid, h_bytes-IsValid, h_read_same, h_string_read_same, event_end-IsValid,
  call_end-IsValid, h_dump-IsValid, h_parse-IsValid, h_string-IsValid, h_get-IsValid, h_equals_same,
  h_i64_same, h_set-IsValid, h_push-IsValid, h_call-IsValid, h_log-IsValid,
}

-- A call with what the guest's memory gives it; `others` counts handles made by other guests.
pub data Call (N : Type 0) : Type 0 where
  configs objects arrays nulls sleeps events : Call N
  drops kinds lens bools dumps numbers booleans : ℕ → Call N
  reads : ℕ → ℕ → (ℕ → Bool) → ℕ → Call N
  string_reads : ℕ → Option ℕ → ℕ → Call N
  i64s : ℕ → Bool → Call N
  ats pushes : ℕ → ℕ → Call N
  parses strings bytes_of : Option Bytes → ℕ → Call N
  gets : ℕ → Option Bytes → ℕ → Call N
  equals : ℕ → Option Bytes → ℕ → Option Bytes → ℕ → Call N
  sets : ℕ → Option Bytes → ℕ → ℕ → Call N
  event_ends : Option (Value N) → Call N
  host_calls : Option Bytes → ℕ → ℕ → ℕ → Call N
  call_ends : Result ℤ (Value N) → Call N
  logs : Option Bytes → ℕ → ℕ → Outbox → Call N
  others : ℕ → Call N

module _ {N : Type 0} where
  -- The context of a new guest.
  abbrev pub initial : Text → Value N → List (Capability N) → ℕ → ℕ → Guest N
  initial id config capabilities next_handle now = record {
    id = id;
    config = config;
    capabilities = capabilities;
    handles = [];
    next_handle = next_handle;
    wait = text "none";
    log_window = now;
    logs = 0;
  }

module _ {N : Type 0} (x : External N) where
  -- The counter that the guests share stops below `i64::MAX`.
  abbrev raised : ℕ → Guest N → Guest N
  raised n g =
      if ltb (g.next_handle + n) (2 ^ 63) then record g { next_handle = g.next_handle + n } else g

  unfoldable pub serve : Call N → Guest N → Guest N
  serve configs g = (h_config g).0
  serve objects g = (h_object g).0
  serve arrays g = (h_array g).0
  serve nulls g = (h_null g).0
  serve sleeps g = h_sleep g
  serve events g = h_event g
  serve (drops h) g = (h_drop h g).0
  serve (kinds h) g = (h_kind h g).0
  serve (lens h) g = (h_len h g).0
  serve (bools h) g = (h_bool h g).0
  serve (dumps h) g = (h_dump x h g).0
  serve (numbers n) g = (h_number x n g).0
  serve (booleans n) g = (h_boolean n g).0
  serve (reads h offset writable n) g = (h_read h offset writable n g).0
  serve (string_reads h dst n) g = (h_string_read h dst n g).0
  serve (i64s h writable) g = (h_i64 x h writable g).0
  serve (ats h i) g = (h_at h i g).0
  serve (pushes h value) g = (h_push x h value g).0
  serve (parses memory n) g = (h_parse x memory n g).0
  serve (strings memory n) g = (h_string x memory n g).0
  serve (bytes_of memory n) g = (h_bytes memory n g).0
  serve (gets h memory n) g = (h_get x h memory n g).0
  serve (equals h km kn vm vn) g = (h_equals x h km kn vm vn g).0
  serve (sets h memory n value) g = (h_set x h memory n value g).0
  serve (event_ends received) g = (event_end received g).0
  serve (host_calls memory n h ms) g = (h_call x memory n h ms g).0
  serve (call_ends result) g = (call_end result g).0
  serve (logs memory n now o) g = (h_log x memory n now o g).0.0
  serve (others n) g = raised n g

  -- The last call of the list is the latest.
  unfoldable pub session : Guest N → List (Call N) → Guest N
  session g [] = g
  session g (call ∷ calls) = serve call (session g calls)

  serve-IsValid : (call : Call N) (g : Guest N) → IsValid g → IsValid (serve call g)
  unfolding serve h_config h_object h_array h_null h_sleep h_event h_kind h_len h_bool h_number
      h_boolean h_at
  serve-IsValid configs g v = give-IsValid _ g v
  serve-IsValid objects g v = give-IsValid _ g v
  serve-IsValid arrays g v = give-IsValid _ g v
  serve-IsValid nulls g v = give-IsValid _ g v
  serve-IsValid sleeps g v = touched-IsValid _ _ _ g v
  serve-IsValid events g v = touched-IsValid _ _ _ g v
  serve-IsValid (drops h) g v = h_drop-IsValid h g v
  serve-IsValid (kinds h) g v = v
  serve-IsValid (lens h) g v = v
  serve-IsValid (bools h) g v = v
  serve-IsValid (dumps h) g v = h_dump-IsValid x h g v
  serve-IsValid (numbers n) g v = give-IsValid _ g v
  serve-IsValid (booleans n) g v = give-IsValid _ g v
  serve-IsValid (reads h offset writable n) g v = rw (h_read_same h offset writable n g) v
  serve-IsValid (string_reads h dst n) g v = rw (h_string_read_same h dst n g) v
  serve-IsValid (i64s h writable) g v = rw (h_i64_same x h writable g) v
  serve-IsValid (ats h i) g v = give_or_invalid-IsValid _ g v
  serve-IsValid (pushes h value) g v = h_push-IsValid x h value g v
  serve-IsValid (parses memory n) g v = h_parse-IsValid x memory n g v
  serve-IsValid (strings memory n) g v = h_string-IsValid x memory n g v
  serve-IsValid (bytes_of memory n) g v = h_bytes-IsValid memory n g v
  serve-IsValid (gets h memory n) g v = h_get-IsValid x h memory n g v
  serve-IsValid (equals h km kn vm vn) g v = rw (h_equals_same x h km kn vm vn g) v
  serve-IsValid (sets h memory n value) g v = h_set-IsValid x h memory n value g v
  serve-IsValid (event_ends received) g v = event_end-IsValid received g v
  serve-IsValid (host_calls memory n h ms) g v = h_call-IsValid x memory n h ms g v
  serve-IsValid (call_ends result) g v = call_end-IsValid result g v
  serve-IsValid (logs memory n now o) g v = h_log-IsValid x memory n now o g v
  serve-IsValid (others n) g v =
      if_cases {A = Guest N} IsValid (ltb (g.next_handle + n) (2 ^ 63)) _ _
        (λ b. record {
          distinct = v.distinct;
          few = v.few;
          fresh = λ h f. v.fresh h (omega arith);
          started = omega (arith, v.started);
          bounded = ground arith;
        })
        λ _. v

  -- From a valid guest, whatever helpers it calls and whatever handles other guests make in
  -- between: at most 128 handles are held, each number once, and no number that is still to be given
  -- out is held.
  pub session-IsValid :
      (g : Guest N) (calls : List (Call N)) → IsValid g → IsValid (session g calls)
  unfolding session
  session-IsValid g [] v = v
  session-IsValid g (call ∷ calls) v =
      serve-IsValid call (session g calls) (session-IsValid g calls v)
