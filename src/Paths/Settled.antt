-- ===== src/Paths/Settled.antt =====
-- What the fields of a cleaned path look like, and that cleaning them again keeps them.
use mathlib.Core.List
use mathlib.Core.List.{reverse}
use omnistorage.Base.{Bytes, ◌≡◌, refl, ◌≢◌, Bool, false, List, [], ◌∷◌, ◌++◌}
use omnistorage.Base.{arith, ◌==◌, bytes_eq, All, Bool-cases, inl, inr}
use omnistorage.Paths.Text.{slash, split, Avoids, split-Avoids}
use omnistorage.Paths.Clean.{dot, dotdot, is_rooted, pop, push, resolve}

-- A field that `path.Clean` keeps.
pub record IsField (w : Bytes) : Type 0 where
  pub not_empty : w ≢ []
  pub not_dot : w ≢ dot
  pub no_slash : Avoids slash w

-- `..` stands only in front, so below it on the stack is nothing else.
abbrev pub Settled : List Bytes → Type 0
Settled [] = Unit
Settled (w ∷ out) = IsField w × (w ≡ dotdot → All (λ v. v ≡ dotdot) out) × Settled out

dotdot-IsField : IsField dotdot
dotdot-IsField = record { not_empty = λ e. cc; not_dot = λ e. cc; no_slash = omega arith }

pop-Settled : (rooted : Bool) (out : List Bytes) → Settled out → Settled (pop rooted out)
unfolding pop
pop-Settled rooted [] s = ground (arith, dotdot-IsField)
pop-Settled rooted (top ∷ out) s = elim (Bool-cases (top == dotdot)) [
  | inl e ↦ rw e (dotdot-IsField, (λ _. (ground arith, s.1 (ground arith))), s)
  | inr e ↦ rw e s.2
]

push-Settled :
    (rooted : Bool) (out : List Bytes) (w : Bytes)
    → Avoids slash w
    → Settled out
    → Settled (push rooted out w)
unfolding push
push-Settled rooted out w a s = elim (Bool-cases (w == [])) [
  | inl e ↦ rw e s
  | inr e₁ ↦ rw e₁ (elim (Bool-cases (w == dot)) [
    | inl e ↦ rw e s
    | inr e₂ ↦ rw e₂ (elim (Bool-cases (w == dotdot)) [
      | inl e ↦ rw e (pop-Settled rooted out s)
      | inr e₃ ↦ rw e₃ (
        record { not_empty = ground arith; not_dot = ground arith; no_slash = a },
        (λ e. ground arith),
        s,
      )
    ])
  ])
]

resolve-Settled :
    (rooted : Bool) (out ws : List Bytes)
    → All (Avoids slash) ws
    → Settled out
    → Settled (resolve rooted out ws)
unfolding resolve
resolve-Settled rooted out [] a s = s
resolve-Settled rooted out (w ∷ ws) (a, as') s =
    resolve-Settled rooted (push rooted out w) ws as' (push-Settled rooted out w a s)

-- The stack that `path.Clean` ends with.
unfoldable pub stack : Bytes → List Bytes
stack p = resolve (is_rooted p) [] (split slash p)

pub stack-Settled : (p : Bytes) → Settled (stack p)
unfolding stack
stack-Settled p = resolve-Settled (is_rooted p) [] (split slash p) (split-Avoids slash p) tt

pub resolve-append :
    (rooted : Bool) (out vs ws : List Bytes)
    → resolve rooted out (vs ++ ws) ≡ resolve rooted (resolve rooted out vs) ws
unfolding resolve
resolve-append rooted out [] ws = refl
resolve-append rooted out (v ∷ vs) ws = resolve-append rooted (push rooted out v) vs ws

push-eq-cons : (w : Bytes) (out : List Bytes) → Settled (w ∷ out) → push false out w ≡ w ∷ out
unfolding push pop
push-eq-cons w [] s = ground (arith, s.0.not_empty, s.0.not_dot)
push-eq-cons w (v ∷ out) s = ground (arith, s.0.not_empty, s.0.not_dot, s.1)

-- Fields that are settled are kept by a second run, as those of a relative path.
pub resolve-reverse : (out : List Bytes) → Settled out → resolve false [] (reverse out) ≡ out
unfolding resolve
resolve-reverse [] s = refl
resolve-reverse (w ∷ out) s =
    rw (List.reverse-cons, resolve-append, resolve-reverse out s.2) (push-eq-cons w out s)
