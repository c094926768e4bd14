-- ===== src/Build/Requests.antt =====
-- The build request of src/build/mod.rs: `Request`, its `validate`, and `compile`. The decoder of
-- the parameters, the hash, base64 and the compiler's run are parameters.
pub mod Accepted
use spinfoam.Prelude.{
  ℕ, suc, ◌+◌, ◌*◌, Bool, true, false, not, ◌&&◌, ◌||◌, List, [], ◌∷◌, ◌++◌, map, Option, none,
  some, Result, ok, err, ◌>>=◌, ◌>>◌, fail_if, map_err, ltb, leb, ◌==◌, if◌then◌else◌, length,
  lookup, total,
}
use spinfoam.Prelude.Int.{ℤ, pos, neg}
use spinfoam.Text.{Text, text, text_discrete, truncate}
use spinfoam.Json.{Value, null, boolean, number, string, field, end}
use spinfoam.Error.{RpcError, RpcResult, rpc_error, params_error}
use spinfoam.Outbox.Queues.{Bytes, is_empty}
use spinfoam.Build.Paths.{valid_path}

pub record Request : Type 0 where
  pub sdk_version : ℕ
  pub files : List (Text × Text)
  pub entry : Text

abbrev pub has_file : Text → List (Text × Text) → Bool
has_file name files = elim (lookup text_discrete name files) [ none ↦ false | some s ↦ true ]

-- `self.files.keys().any(|p| !valid_path(p))`
abbrev pub any_invalid : List (Text × Text) → Bool
any_invalid [] = false
any_invalid ((name, s) ∷ files) = not (valid_path name) || any_invalid files

-- `name.match_indices('/')` with `&name[..i]`: what stands before each slash.
abbrev pub directories : Text → List Text
directories [] = []
directories (c ∷ s) =
    let rest = map (◌∷◌ c) (directories s) in if c == b'/' then [] ∷ rest else rest

abbrev pub any {ℓ} : {A : Type ℓ} → (A → Bool) → List A → Bool
any p [] = false
any p (x ∷ xs) = p x || any p xs

-- The two nested loops: a file that is another file's directory.
abbrev pub any_conflict : List (Text × Text) → List (Text × Text) → Bool
any_conflict [] files = false
any_conflict ((name, s) ∷ rest) files =
    any (λ d. has_file d files) (directories name) || any_conflict rest files

module _ {N : Type 0} where
  unfoldable pub validate : Request → Result (RpcError N) (Unit {0})
  validate r = do
    fail_if (not (r.sdk_version == 1)) (params_error (text "sdk_version must be 1"))
    fail_if (is_empty r.files || ltb 32 (length r.files) || ltb (128 * 1024) (total length r.files))
        (params_error (text "source bundle exceeds limits"))
    fail_if (not (valid_path r.entry) || not (has_file r.entry r.files) || any_invalid r.files)
        (params_error (text "invalid source path or entry"))
    fail_if (any_conflict r.files r.files) (params_error (text "source file/directory conflict"))
    ok tt

-- What `compiler::run` returns.
pub record Output : Type 0 where
  pub elf : Bytes
  pub diagnostics : Text
  pub truncated : Bool

-- `Builds`, and what the code around it supplies: `cancelled` is read after the run.
pub record Builds (N : Type 0) : Type 0 where
  pub unavailable : Option Text
  pub fingerprint : Text
  pub decode : Value N → Result Text Request
  pub sha256 : Bytes → Text
  pub base64 : Bytes → Text
  pub from_i64 : ℤ → N

module _ {N : Type 0} (b : Builds N) where
  -- `info`
  abbrev pub info : Value N
  info = Value.object (
      field (text "available") (boolean (elim b.unavailable [ none ↦ true | some reason ↦ false ]))
        (field (text "reason") (elim b.unavailable [ none ↦ null | some reason ↦ string reason ])
          (field (text "fingerprint") (string b.fingerprint) (
            field (text "name") (string (text "tinycc-in-ebpf")) (
              field (text "revision") (string (text "7069256d9287e8f6fcacd575fcbb0b83f2300058")) (
                field (text "target") (string (text "bpfel"))
                  (field (text "embedded") (boolean true) end)))))))

  -- `json!({"state":"succeeded","result":{…}})`
  abbrev pub succeeded : Output → Value N
  succeeded output = Value.object (
      field (text "state") (string (text "succeeded")) (
        field (text "result")
          (Value.object (
            field (text "sha256") (string (b.sha256 output.elf)) (
              field (text "elf") (string (b.base64 output.elf)) (
                field (text "sdk_version") (number (b.from_i64 (pos 1))) (
                  field (text "toolchain") (string b.fingerprint) (
                    field (text "diagnostics") (string output.diagnostics)
                      (field (text "diagnostics_truncated") (boolean output.truncated) end)))))))
          end))

  abbrev pub failed : Text → Value N
  failed error = Value.object (
      field (text "state") (string (text "failed")) (
        field (text "result")
          (Value.object (
            field (text "kind") (string (text "BUILD_FAILED"))
              (field (text "error") (string error) end)))
          end))

  abbrev pub cancelled_reply : Value N
  cancelled_reply =
      Value.object
        (field (text "state") (string (text "cancelled")) (field (text "result") null end))

  abbrev pub reply : Result Text Output → Value N
  reply (ok output) = succeeded output
  reply (err e) = failed (truncate e (16 * 1024))

  -- `compile`, given what `compiler::run` returns for the files and the entry.
  unfoldable pub compile :
      (List (Text × Text) → Text → Result Text Output) → Bool → Value N → RpcResult N
  compile run cancelled params = do
    request ← map_err params_error (b.decode params)
    validate request
    elim b.unavailable [
      | some reason ↦ err (rpc_error (neg 32020) (text "SANDBOX_UNAVAILABLE") reason)
      | none ↦
          if cancelled then ok cancelled_reply else ok (reply (run request.files request.entry))
    ]
