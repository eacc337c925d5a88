-- ===== src/Sync/Content.antt =====
-- sync/check.go, `compareContent`: two readers are read side by side in pieces of one size.
use omnistorage.Base.{
  ℕ, zero, suc, ◌*◌, Bytes, bytes_eq, nat_eq, Bool, true, false, Option, none, some, Error, eof,
  unexpected_eof, Result, ok, err, panic, if◌then◌else◌, ◌==◌, length, take, drop, leb,
}
use mathlib.Core.List.{flatten}
use omnistorage.Base.Action.{Action, ◌>>=◌, lift}
use omnistorage.Backends.{Stream, Backend}

-- What a reader has yet to deliver, and the error other than `io.EOF` behind it, if any.
pub record Pending : Type 0 where
  pub bytes : Bytes
  pub failure : Option Error

-- `err == io.EOF || err == io.ErrUnexpectedEOF`, which is asked of what `io.ReadFull` gives. A
-- reader may fail with the second by itself, when what it reads from is cut off.
abbrev is_end_error : Error → Bool
is_end_error eof = true
is_end_error unexpected_eof = true
is_end_error _ = false

-- Whether what stands behind the bytes of a reader passes for their end.
unfoldable pub is_end : Option Error → Bool
is_end none = true
is_end (some e) = is_end_error e

abbrev error_of : Option Error → Error
error_of none = eof
error_of (some e) = e

-- How `io.ReadFull` ends: the buffer is full, or the reader is at its end (`io.EOF`, or
-- `io.ErrUnexpectedEOF` behind some bytes or from the reader itself), or it has failed.
pub data ReadEnd : Type 0 where
  full at_eof : ReadEnd
  failed : Error → ReadEnd

-- `io.ReadFull` into a buffer of `n` bytes, behind `take n bytes`.
abbrev pub read_end : ℕ → Pending → ReadEnd
read_end n p =
    if leb n (length p.bytes)
    then full
    else if is_end p.failure
    then at_eof
    else failed (error_of p.failure)

abbrev advance : ℕ → Pending → Pending
advance n p = record p { bytes = drop n p.bytes }

-- What the checks for EOF and for other errors come to, and `next` if there is none.
abbrev pub both_ends : ReadEnd → ReadEnd → Result Bool → Result Bool
both_ends at_eof at_eof next = ok true
both_ends at_eof _ next = ok false
both_ends _ at_eof next = ok false
both_ends (failed e) _ next = err e
both_ends full (failed e) next = err e
both_ends full full next = next

-- The loop, for buffers of `n` bytes. Each round takes `n` bytes off each side.
unfoldable pub compare_loop : ℕ → ℕ → Pending → Pending → Result Bool
compare_loop zero n src dst = panic
compare_loop (suc fuel) n src dst =
    let next = compare_loop fuel n (advance n src) (advance n dst) in
    let x = take n src.bytes in
    let y = take n dst.bytes in
    if length x == length y
    then (if x == y then both_ends (read_end n src) (read_end n dst) next else ok false)
    else ok false

abbrev pub pending : Stream → Pending
pending s = record { bytes = flatten s.chunks; failure = s.failure }

-- `compareContent`, at the full paths.
unfoldable pub compare_content :
    {W : Type 0} → Backend W → Backend W → Bytes → Bytes → Action W Bool
compare_content S D src dst = S.new_reader src >>= λ a. D.new_reader dst >>= λ b.
    lift (compare_loop (suc (length (flatten a.chunks))) (64 * 1024) (pending a) (pending b))
