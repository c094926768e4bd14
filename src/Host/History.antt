-- ===== src/Host/History.antt =====
-- Any history of the host (src/host.rs): calls are answered at most once.
use spinfoam.Prelude.{Bool, List, [], ◌∷◌, Result}
use spinfoam.Text.{Text}
use spinfoam.Json.{Value}
use spinfoam.Outbox.Queues.{Bytes, Outbox}
use spinfoam.Host.Calls.{
  Host, Stage, begin_call, poll_call, response, drop_guard, cancel_object, ids_of,
}
use spinfoam.Host.Once.{
  IsValid, begin_call-IsValid, response-IsValid, drop_guard-IsValid, cancel_calls-IsValid,
  poll_call-IsValid, out-IsValid,
}

-- One step of the host's side: a call begins, is polled or is dropped, a response comes in, an
-- object's calls are cancelled, or the outbox changes by another's hand.
pub data Step (N : Type 0) : Type 0 where
  begins : Text → Step N
  polls : Text → Text → Stage → Step N
  drops : Bool → Text → Text → Step N
  responds : Value N → Step N
  cancels : Text → Step N
  changes : Outbox → Step N

module _ {N : Type 0} (to_vec : Value N → Result Text Bytes) where
  unfoldable pub serve : Step N → Host N → Host N
  serve (begins object) h = (begin_call object h).0
  serve (polls object id s) h = (poll_call object id s h).0
  serve (drops sent object id) h = drop_guard to_vec sent object id h
  serve (responds frame) h = response to_vec frame h
  serve (cancels object) h = cancel_object to_vec object h
  serve (changes out) h = record h { out = out }

  -- The latest step stands first.
  unfoldable pub history : Host N → List (Step N) → Host N
  history h [] = h
  history h (step ∷ steps) = serve step (history h steps)

  serve-IsValid : (step : Step N) (h : Host N) → IsValid h → IsValid (serve step h)
  unfolding serve cancel_object
  serve-IsValid (begins object) h v = begin_call-IsValid object h v
  serve-IsValid (polls object id s) h v = poll_call-IsValid to_vec object id s h v
  serve-IsValid (drops sent object id) h v = drop_guard-IsValid to_vec sent object id h v
  serve-IsValid (responds frame) h v = response-IsValid to_vec frame h v
  serve-IsValid (cancels object) h v =
      cancel_calls-IsValid to_vec (ids_of to_vec object h.calls) h v
  serve-IsValid (changes out) h v = out-IsValid out h.ignored h v

  -- From a valid host, in any history of calls, polls, drops, responses and cancellations: at most
  -- 16384 calls are pending, each under an ID of its own, a call is answered at most once, none that
  -- is pending has been answered, and the IDs of both are among those numbered so far.
  pub history-IsValid : (h : Host N) (steps : List (Step N)) → IsValid h → IsValid (history h steps)
  unfolding history
  history-IsValid h [] v = v
  history-IsValid h (step ∷ steps) v =
      serve-IsValid step (history h steps) (history-IsValid h steps v)
