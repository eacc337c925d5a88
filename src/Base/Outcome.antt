-- ===== src/Base/Outcome.antt =====
-- The sentinel errors of errors.go and those that the operations build, and what a Go call that
-- returns `(value, error)` gives: a value, an error or a panic.
use Prim.Native.Nat.{ℕ}
use Prim.Native.String.{String}
use mathlib.Core.Path.{◌≡◌, refl}
use mathlib.Core.Logic.{◌⊎◌, inl, inr}
use mathlib.Core.Option.{Option, none, some}
use omnistorage.Base.Equality.{Bytes}

pub data Error : Type 0 where
  not_found already_exists permission_denied backend_closed writer_closed : Error
  reader_closed invalid_path not_supported unknown_backend : Error
  -- `io.EOF`, `io.ErrUnexpectedEOF`, `io.ErrClosedPipe`, `context.Canceled`
  eof unexpected_eof closed_pipe canceled : Error
  -- `fmt.Errorf("message: %s", detail)`, which wraps nothing
  message : String → Bytes → Error
  -- `fmt.Errorf("%w: %s", err, detail)`, or the detail in front
  wrapped : Error → Bytes → Error
  -- `*sync.RetryError`
  retry_error : ℕ → Error → Error

pub data Result {ℓ} (A : Type ℓ) : Type ℓ where
  ok : A → Result A
  err : Error → Result A
  panic : Result A

-- `ctx.Err()`: nil, or why the context is done.
abbrev pub Context : Type 0
Context = Option Error

abbrev pub ctx_err : Context → Result (Unit {0})
ctx_err none = ok tt
ctx_err (some e) = err e

-- A pointer or a map entry that has to be there.
abbrev pub or_err {ℓ} : {A : Type ℓ} → Option A → Error → Result A
or_err none e = err e
or_err (some a) e = ok a

pub Result-cases {ℓ} :
    {A : Type ℓ} (r : Result A) → ((a : A) × (r ≡ ok a)) ⊎ ((e : Error) × (r ≡ err e)) ⊎ (r ≡ panic)
Result-cases (ok a) = inl (a, refl)
Result-cases (err e) = inr (inl (e, refl))
Result-cases panic = inr (inr refl)
