-- ===== src/Build/Run.antt =====
-- `run` of src/build/compiler.rs, and `compile` of src/build/mod.rs with it. What async-ebpf does is
-- given: whether the program loads, which helpers the guest calls, and how it ends.
use spinfoam.Prelude.{
  ℕ, ◌*◌, ◌≤◌, ◌≡◌, refl, sym, subst, ◌∙◌, Bool, true, ◌&&◌, List, [], ◌∷◌, Option, none, some,
  Result, ok, err, ◌==◌, length, Bool-cases, Result-cases, Option-cases, ◌⊎◌, inl, inr, arith,
}
use spinfoam.Prelude.Int.{neg}
use spinfoam.Text.{Text, text, truncate}
use spinfoam.Text.Truncate.{truncate_lem}
use spinfoam.Json.{Value}
use spinfoam.Error.{RpcError, RpcResult, params_error, rpc_error}
use spinfoam.Outbox.Queues.{Bytes}
use spinfoam.Build.Requests.{
  Request, Output, Builds, validate, compile, cancelled_reply, failed, succeeded, reply,
}
use spinfoam.Build.Files.{Context, max_output, elf_magic, finish}
use spinfoam.Build.Files.Valid.{IsValid}
use spinfoam.Build.Files.History.{Call, guest, guest-IsValid}

-- One run of the compiler's guest.
pub record Machine : Type 0 where
  pub lossy : Bytes → Text
  pub is_utf8 : Bytes → Bool
  pub describe : ℕ → Text
  pub sdk : Text
  pub load_error : Option Text
  pub calls : List Call
  pub result : Result Text ℕ

-- How the `select!` of `run` ends: it sees the cancellation, the deadline, or the operation's result.
pub data Ending : Type 0 where
  cancelled_first deadline_first completes : Ending

unfoldable pub run : Machine → Ending → List (Text × Text) → Text → Result Text Output
unfolding finish guest
run m cancelled_first files entry = err (text "build cancelled")
run m deadline_first files entry = err (text "compiler exceeded 15 second deadline")
run m completes files entry = elim m.load_error [
  | some e ↦ err e
  | none ↦ finish m.describe m.result (guest m.lossy m.is_utf8 m.sdk files entry m.calls)
]

-- What a build that succeeds gives: an ELF file of at most 64 KiB, and at most 16 KiB of diagnostics.
pub record IsBounded (o : Output) : Type 0 where
  pub magic : elf_magic o.elf ≡ true
  pub small : length o.elf ≤ max_output
  pub short : length o.diagnostics ≤ 16 * 1024

and_right : (a b : Bool) → a && b ≡ true → b ≡ true
and_right a b h = ground (arith, h)

finish-IsBounded :
    (describe : ℕ → Text) (result : Result Text ℕ) (c : Context) (o : Output)
    → IsValid c
    → finish describe result c ≡ ok o
    → IsBounded o
unfolding finish
finish-IsBounded describe result c o v h = by_error c.error result h
  where
    by_error :
        (e : Text) (r : Result Text ℕ)
        → finish describe r (record c { error = e }) ≡ ok o
        → IsBounded o
    by_error (x ∷ e) r q = absurd (let z : err (x ∷ e) ≡ ok o = q in cc)
    by_error [] (err x) q = absurd (let z : err x ≡ ok o = q in cc)
    by_error [] (ok code) q = elim (Bool-cases (code == 1 && elf_magic c.output)) [
      | inl b ↦
          let out : Output = record {
            elf = c.output;
            diagnostics = c.diagnostics;
            truncated = c.truncated;
          } in
          let given : ok out ≡ ok o = sym (rw b refl) ∙ q in
          let same : out ≡ o = cc in
          subst IsBounded same (record {
            magic = and_right (code == 1) (elf_magic c.output) b;
            small = v.small;
            short = v.short;
          })
      | inr b ↦ absurd (let z : err (describe code) ≡ ok o = sym (rw b refl) ∙ q in cc)
    ]

run-IsBounded :
    (m : Machine) (ending : Ending) (files : List (Text × Text)) (entry : Text) (o : Output)
    → run m ending files entry ≡ ok o
    → IsBounded o
unfolding run
run-IsBounded m cancelled_first files entry o h =
    absurd (let x : err (text "build cancelled") ≡ ok o = h in cc)
run-IsBounded m deadline_first files entry o h =
    absurd (let x : err (text "compiler exceeded 15 second deadline") ≡ ok o = h in cc)
run-IsBounded m completes files entry o h = elim (Option-cases m.load_error) [
  | inl e ↦
      finish-IsBounded m.describe m.result (guest m.lossy m.is_utf8 m.sdk files entry m.calls) o
        (guest-IsValid m.lossy m.is_utf8 m.sdk files entry m.calls) (sym (rw (e, run) refl) ∙ h)
  | inr (x, e) ↦ absurd (let z : err x ≡ ok o = sym (rw (e, run) refl) ∙ h in cc)
]

module _ {N : Type 0} (b : Builds N) where
  -- The replies to a build: cancelled, failed with at most 16 KiB of its error, or succeeded with a
  -- bounded output.
  abbrev pub Replies : Value N → Type 0
  Replies v =
      (v ≡ cancelled_reply b)
      ⊎ ((error : Text) × (v ≡ failed b error) × (length error ≤ 16 * 1024))
      ⊎ ((o : Output) × (v ≡ succeeded b o) × IsBounded o)

  reply-Replies :
      (m : Machine) (ending : Ending) (files : List (Text × Text)) (entry : Text)
      → Replies (reply b (run m ending files entry))
  reply-Replies m ending files entry = elim (Result-cases (run m ending files entry)) [
    | inl (e, h) ↦ inr (inl (truncate e (16 * 1024), rw h refl, (truncate_lem e (16 * 1024)).0))
    | inr (o, h) ↦ inr (inr (o, rw h refl, run-IsBounded m ending files entry o h))
  ]

  -- Where `compile`, with the guest's run as it goes, replies with a result: the parameters are a
  -- request that `validate` lets through, builds are enabled, and the reply says that the build was
  -- cancelled, that it failed, with at most 16 KiB of the error, or that it succeeded, with a file
  -- that begins as an ELF file does and has at most 64 KiB, and at most 16 KiB of diagnostics.
  pub compile-Replies :
      (m : Machine) (ending : Ending) (is_cancelled : Bool) (params v : Value N)
      → compile b (run m ending) is_cancelled params ≡ ok v
      → ((r : Request) × (b.decode params ≡ ok r) × (validate {N = N} r ≡ ok tt))
        × (b.unavailable ≡ none)
        × Replies v
  unfolding compile
  compile-Replies m ending is_cancelled params v h = elim (Result-cases (b.decode params)) [
    | inl (e, p) ↦ absurd (refused (params_error e) (sym (rw (p, compile) refl) ∙ h))
    | inr (r, p) ↦ elim (Result-cases (validate {N = N} r)) [
      | inl (e, q) ↦ absurd (refused e (sym (rw (p, q, compile) refl) ∙ h))
      | inr (u, q) ↦ elim (Option-cases b.unavailable) [
        | inr (reason, k) ↦ absurd (
            refused (rpc_error (neg 32020) (text "SANDBOX_UNAVAILABLE") reason)
              (sym (rw (p, q, k, compile) refl) ∙ h))
        | inl k ↦ (
          (r, p, q),
          k,
          elim (Bool-cases is_cancelled) [
            | inl c ↦
                accepted (cancelled_reply b) (sym (rw (p, q, k, c, compile) refl) ∙ h) (inl refl)
            | inr c ↦
                accepted (reply b (run m ending r.files r.entry))
                  (sym (rw (p, q, k, c, compile) refl) ∙ h) (reply-Replies m ending r.files r.entry)
          ],
        )
      ]
    ]
  ]
    where
      refused : (e : RpcError N) → ¬ (◌≡◌ {A = RpcResult N} (err e) (ok v))
      refused e z = cc

      accepted : (w : Value N) → ◌≡◌ {A = RpcResult N} (ok w) (ok v) → Replies w → Replies v
      accepted w z q = let same : w ≡ v = cc in subst Replies same q
