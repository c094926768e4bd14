-- ===== src/Tests/ServeTests.antt =====
-- A server that is initialized and gets a request, and gets it again while it is outstanding.
use spinfoam.Prelude.{
  ℕ, ◌≡◌, ◌⊎◌, refl, true, false, List, [], ◌∷◌, none, Result, ok, err, ℕ_discrete,
}
use spinfoam.Text.{Text, text, text_discrete}
use spinfoam.Json.{Value, null, string, object, field, end}
use spinfoam.Outbox.Queues.{Bytes}
use spinfoam.Outbox.Frames.{encode, try_control, control_frame, poll_control}
use spinfoam.Error.{RpcResult}
use spinfoam.Build.Requests.{Builds}
use spinfoam.Runtime.Steps.{new}
use spinfoam.Protocol.Methods.{Codec, Service, handle, dispatch, method_of, shutdown_now}
use spinfoam.Protocol.Serve.{
  Request, answering, task_answers, Serving, classify, answer_now, admit, incoming, task_handles,
}
use spinfoam.Protocol.Steps.{reads, fresh, Reach, at_start, after}
use spinfoam.Protocol.Served.{IsValid, server-IsValid}
use spinfoam.Protocol.Session.{Call, session, initialize_first}
use spinfoam.Protocol.Answers.{Answered, incoming-Answered}
use spinfoam.Protocol.Shutdown.{Queued, shutdown-Queued}
use spinfoam.Tests.TableTests.{sample_system}

program : Unit {0}
unfolding text_discrete ℕ_discrete handle dispatch method_of classify answer_now admit incoming
    task_handles try_control
program = tt

-- Every parameter decodes to a refusal, but for the version.
abbrev sample_codec : Codec ℕ
sample_codec = record {
  decode_version = λ v. ok 1;
  decode_load = λ v. err (text "load");
  decode_id = λ v. ok (text "o1");
  decode_range = λ limit v. ok (record { after = none; limit = limit });
  decode_event = λ v. err (text "event");
  base64 = λ s. ok s;
  target = text "linux-x86_64";
}

abbrev sample_builds : Builds ℕ
sample_builds = record {
  unavailable = none;
  fingerprint = text "print";
  decode = λ v. err (text "request");
  sha256 = λ bytes. text "hash";
  base64 = λ bytes. text "data";
  from_i64 = sample_system.from_i64;
}

abbrev sample_service : Service ℕ
sample_service = record {
  runtime = new (text "s");
  builds = sample_builds;
  initialized = false;
  shutdown = false;
}

abbrev sample_calls : List (Call ℕ)
sample_calls =
    record { uptime = 1; method = text "sf.stats"; params = object end }
    ∷ record { uptime = 2; method = text "sf.initialize"; params = object end }
    ∷ []

initialize_first_example :
    (((session sample_system sample_codec sample_calls sample_service).0 ≡ 0)
      × ((session sample_system sample_codec sample_calls sample_service).1 ≡ sample_service))
    ⊎ (((session sample_system sample_codec sample_calls sample_service).0 ≡ 1)
        × ((session sample_system sample_codec sample_calls sample_service).1.initialized ≡ true))
initialize_first_example =
    initialize_first sample_system sample_codec sample_calls sample_service refl

abbrev sample_frame : Value ℕ
sample_frame = object (
    field (text "jsonrpc") (string (text "2.0")) (
      field (text "id") (string (text "r1"))
        (field (text "method") (string (text "sf.stats")) end)))

abbrev sample_parse : Bytes → Result Text (Value ℕ)
sample_parse bytes = ok sample_frame

abbrev idle : Serving ℕ
idle = fresh sample_builds (text "s")

abbrev has_request : Serving ℕ
has_request = incoming sample_system sample_codec sample_parse [] idle

request_reached : Reach sample_system sample_codec sample_parse has_request
unfolding program
request_reached = after (at_start sample_builds (text "s")) (reads [] idle refl refl)

server-IsValid_example : IsValid sample_system sample_codec sample_parse has_request
server-IsValid_example = server-IsValid sample_system sample_codec sample_parse request_reached

-- The same ID again.
incoming-Answered_example :
    Answered sample_system sample_codec
      (text "sf.stats")
      (object end)
      (text "r1")
      has_request
      (incoming sample_system sample_codec sample_parse [] has_request)
unfolding program
incoming-Answered_example =
    incoming-Answered sample_system sample_codec sample_parse [] sample_frame (text "sf.stats")
      (object end) (text "r1") has_request refl refl

-- The result of an `sf.shutdown` is sent.
abbrev farewell : RpcResult ℕ
farewell = ok null

abbrev leaving : Request ℕ
leaving = record {
  method = text "sf.shutdown";
  params = object end;
  permit = true;
  stage = answering farewell;
}

shutdown-Queued_example :
    (method_of leaving.method ≡ shutdown_now)
    × ((v : Value ℕ) × (farewell ≡ ok v))
    × Queued sample_system sample_codec
        (text "r2")
        farewell
        idle
        (task_answers sample_system sample_codec (text "r2") leaving farewell idle)
unfolding program encode task_answers control_frame poll_control
shutdown-Queued_example =
    shutdown-Queued sample_system sample_codec (text "r2") leaving farewell idle refl refl
