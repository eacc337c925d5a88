-- ===== src/Base/Decimal.antt =====
-- `%d` of fmt, and `strconv.ParseInt(s, 10, 64)`, which is `strconv.Atoi` on 64 bits.
use Prim.Native.Nat.{ℕ, zero, suc, ◌+◌, ◌-◌, ◌*◌, ◌/◌, ◌%◌, ◌^◌, ◌<◌}
use mathlib.Core.Bool.{Bool, true, false, ◌&&◌}
use mathlib.Core.List.{[], ◌∷◌}
use mathlib.Core.Option.{Option, none, some}
use omnistorage.Base.Equality.{Bytes, nat_eq, ◌==◌, if◌then◌else◌}
use mathlib.Core.Path.{◌≡◌}
use mathlib.Core.Logic.{◌≢◌, inl, inr}
use native.Mathlib.Omega.{arith}
use omnistorage.Base.Tests.{ltb, leb, Bool-cases}
use omnistorage.Base.Lists.{All}
use omnistorage.Base.Int.{ℤ, pos, negsuc}

-- The digits of a number in front of a text. A number has fewer digits than its successor has units.
unfoldable pub digits : ℕ → ℕ → Bytes → Bytes
digits zero n s = s
digits (suc fuel) n s =
    let more = digits fuel (n / 10) ((48 + n % 10) ∷ s) in if ltb n 10 then (48 + n) ∷ s else more

unfoldable pub show : ℤ → Bytes
unfolding digits
show (pos n) = digits (suc n) n []
show (negsuc n) = b'-' ∷ digits (suc (suc n)) (suc n) []

-- The number that the digits make behind those that are read.
unfoldable pub read_digits : ℕ → Bytes → Option ℕ
read_digits n [] = some n
read_digits n (c ∷ s) =
    let rest = read_digits (n * 10 + (c - 48)) s in if leb 48 c && leb c 57 then rest else none

abbrev read_some : Bytes → Option ℕ
unfolding read_digits
read_some [] = none
read_some (c ∷ s) = read_digits 0 (c ∷ s)

abbrev from_sign : Bool → ℕ → Option ℤ
from_sign negative n =
    if negative
    then (if leb n (2 ^ 63) then some (elim n [ zero ↦ pos 0 | suc m ↦ negsuc m ]) else none)
    else if ltb n (2 ^ 63)
    then some (pos n)
    else none

abbrev with_sign : Bool → Option ℕ → Option ℤ
with_sign negative none = none
with_sign negative (some n) = from_sign negative n

unfoldable pub parse_int : Bytes → Option ℤ
unfolding read_some
parse_int [] = none
parse_int (c ∷ s) =
    if c == b'-'
    then with_sign true (read_some s)
    else if c == b'+'
    then with_sign false (read_some s)
    else with_sign false (read_some (c ∷ s))

-- The digits of a number are read as the number, whatever follows.
pub read_digits-digits :
    (fuel n : ℕ) (s : Bytes) → n < fuel → read_digits 0 (digits fuel n s) ≡ read_digits n s
unfolding digits read_digits
read_digits-digits zero n s h = absurd (omega arith)
read_digits-digits (suc fuel) n s h = elim (Bool-cases (ltb n 10)) [
  | inl small ↦ ground (arith, small)
  | inr large ↦
      let rest = read_digits-digits fuel (n / 10) ((48 + n % 10) ∷ s) (ground arith) in
      let last : n / 10 * 10 + n % 10 ≡ n = omega arith in ground (arith, rest, large, last)
]

pub read_digits-show : (n : ℕ) → read_digits 0 (show (pos n)) ≡ some n
unfolding show read_digits
read_digits-show n = read_digits-digits (suc n) n [] (omega arith)

digits-Avoids : (fuel n : ℕ) (s : Bytes) → All (λ c. c ≢ 45) s → All (λ c. c ≢ 45) (digits fuel n s)
unfolding digits
digits-Avoids zero n s h = h
digits-Avoids (suc fuel) n s h =
    let here : 48 + n % 10 ≢ 45 = λ e. omega arith in
    let more = digits-Avoids fuel (n / 10) ((48 + n % 10) ∷ s) (here, h) in
    elim (Bool-cases (ltb n 10)) [
      | inl small ↦ rw small ((λ e. omega arith), h)
      | inr large ↦ rw large more
    ]

-- There is no sign among them.
pub show-Avoids : (n : ℕ) → All (λ c. c ≢ 45) (show (pos n))
unfolding show
show-Avoids n = digits-Avoids (suc n) n [] tt

digits_there : (fuel n : ℕ) (s : Bytes) → n < fuel → digits fuel n s ≢ []
unfolding digits
digits_there zero n s h = absurd (omega arith)
digits_there (suc fuel) n s h =
    let more = digits_there fuel (n / 10) ((48 + n % 10) ∷ s) in
    λ e. elim (Bool-cases (ltb n 10)) [
      | inl small ↦ ground (arith, small, e)
      | inr large ↦ more (ground arith) (ground (arith, large, e))
    ]

pub show-ne-nil : (n : ℕ) → show (pos n) ≢ []
unfolding show
show-ne-nil n = digits_there (suc n) n [] (omega arith)
