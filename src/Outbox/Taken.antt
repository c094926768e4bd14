-- ===== src/Outbox/Taken.antt =====
-- Which queue of src/outbox.rs each frame comes from that `next` hands out, and what that leaves.
use spinfoam.Prelude.{
  ◌≡◌, refl, subst, true, sym, ap, ◌∙◌, List, [], ◌∷◌, ◌++◌, Option, some, ite, if_pos, if_neg, map,
}
use spinfoam.Text.{Text, text_discrete}
use spinfoam.Outbox.Queues.{Bytes, DataFrame, Outbox, queue_of, or_default}
use spinfoam.Outbox.Lanes.{
  view, Writes, Move, keeps, closes, queues_control, queues_data, withdraws, drops, emits_control,
  emits_data,
}

-- A frame with the queue it comes from.
pub data Frame : Type 0 where
  control_frame : Bytes → Frame
  object_frame : Text → Bytes → Frame

abbrev pub bytes_of : Frame → Bytes
bytes_of (control_frame b) = b
bytes_of (object_frame k b) = b

-- The control frames of a list, and the frames of an object, in order.
abbrev pub control_of : List Frame → List Bytes
control_of [] = []
control_of (control_frame b ∷ fs) = b ∷ control_of fs
control_of (object_frame k b ∷ fs) = control_of fs

abbrev pub object_of : Text → List Frame → List Bytes
object_of k [] = []
object_of k (control_frame b ∷ fs) = object_of k fs
object_of k (object_frame j b ∷ fs) = ite (text_discrete j k) (b ∷ object_of k fs) (object_of k fs)

-- What waits for an object.
abbrev pub waiting_of : Text → Outbox → List Bytes
waiting_of k o = map (λ f. f.bytes) (or_default (queue_of k o))

-- The frames, and then what is queued now, are what was queued before: for the control queue, and
-- for each object.
pub record Splits (o : Outbox) (fs : List Frame) (last : Outbox) : Type 0 where
  pub control : control_of fs ++ last.control ≡ o.control
  pub objects : (k : Text) → object_of k fs ++ waiting_of k last ≡ waiting_of k o

pub Splits-nothing : (o : Outbox) → Splits o [] o
Splits-nothing o = record { control = refl; objects = λ k. refl }

pub Splits-closed :
    {o last : Outbox} {fs : List Frame}
    → Splits o fs last
    → Splits o fs (record last { closed = true })
Splits-closed s = record { control = s.control; objects = s.objects }

cons_control :
    (o o' last : Outbox) (b : Bytes) (fs : List Frame)
    → o.control ≡ b ∷ o'.control
    → (view o').lane ≡ (view o).lane
    → Splits o' fs last
    → Splits o (control_frame b ∷ fs) last
cons_control o o' last b fs e l s = record {
  control = ap (◌∷◌ b) s.control ∙ sym e;
  objects = λ k. s.objects k ∙ ap (λ lane. map (λ f. f.bytes) (lane k)) l;
}

cons_object :
    (o o' last : Outbox) (k : Text) (f : DataFrame) (q : List DataFrame) (fs : List Frame)
    → (view o).lane k ≡ f ∷ q
    → Writes (view o) (view o') k q
    → Splits o' fs last
    → Splits o (object_frame k f.bytes ∷ fs) last
cons_object o o' last k f q fs e (self, other, kept, _) s = record {
  control = s.control ∙ kept;
  objects = λ j. elim (text_discrete k j) [
    | yes p ↦
        ap (λ l. l ++ waiting_of j last) (if_pos (text_discrete k j) p _ _)
        ∙ ap (◌∷◌ f.bytes) (s.objects j)
        ∙ subst (λ i. f.bytes ∷ map (λ g. g.bytes) ((view o').lane i) ≡ waiting_of i o) p
            (ap (λ l. f.bytes ∷ map (λ g. g.bytes) l) self ∙ ap (map (λ g. g.bytes)) (sym e))
    | no n ↦
        ap (λ l. l ++ waiting_of j last) (if_neg (text_discrete k j) n _ _)
        ∙ s.objects j
        ∙ ap (map (λ g. g.bytes)) (other j (λ x. n (sym x)))
  ];
}

-- A move that hands out a frame takes it from one queue.
pub Move-Splits :
    (o o' : Outbox) (b : Bytes) (r : Option Bytes)
    → Move (view o) (view o') r
    → r ≡ some b
    → (f : Frame) × (bytes_of f ≡ b)
      × ((fs : List Frame) (last : Outbox) → Splits o' fs last → Splits o (f ∷ fs) last)
Move-Splits o o' b r (keeps _ x) e = absurd cc
Move-Splits o o' b r (closes _ x) e = absurd cc
Move-Splits o o' b r (queues_control _ _ _ x) e = absurd cc
Move-Splits o o' b r (queues_data _ _ _ _ x) e = absurd cc
Move-Splits o o' b r (withdraws _ _ _ x) e = absurd cc
Move-Splits o o' b r (drops _ _ x) e = absurd cc
Move-Splits o o' b r (emits_control c h l _ x) e =
    (control_frame c, cc, λ fs last. cons_control o o' last c fs h l)
Move-Splits o o' b r (emits_data k f q h w x) e =
    (object_frame k f.bytes, cc, λ fs last. cons_object o o' last k f q fs h w)
