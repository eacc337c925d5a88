-- ===== src/Tests/Reader.antt =====
-- Reads of a file with a limit.
use mathlib.Core.List.{flatten}
use omnistorage.Base.{
  ℕ, zero, suc, ◌≤◌, Bytes, ◌≡◌, refl, [], ◌∷◌, ◌++◌, codes, Option, none, some, Error, eof, length,
  take, drop, take-append-drop, arith,
}
use omnistorage.Base.Int.{pos, ◌-ℤ◌}
use omnistorage.Sftp.Reader.{Read, limited_read, reads, ReadsFile, left, limited_read_exact}

abbrev failure_at : Bytes → Option Error
failure_at [] = some eof
failure_at (_ ∷ _) = none

-- The state is what is left of the file.
abbrev whole_file : Read Bytes
whole_file n s = ((take n s, failure_at s), drop n s)

length-take : (n : ℕ) (s : Bytes) → length (take n s) ≤ n
length-take zero [] = omega arith
length-take (suc n) [] = omega arith
length-take zero (c ∷ s) = omega arith
length-take (suc n) (c ∷ s) = omega (arith, length-take n s)

abbrev contents : Bytes → Bytes
contents s = s

drop-nil : (n : ℕ) → drop {A = ℕ} n [] ≡ []
drop-nil zero = refl
drop-nil (suc n) = refl

ends_at : (n : ℕ) (s : Bytes) → failure_at s ≡ some eof → drop n s ≡ []
ends_at n [] e = drop-nil n
ends_at n (c ∷ s) e = cc

whole_file-ReadsFile : ReadsFile whole_file contents
whole_file-ReadsFile = record {
  splits = take-append-drop;
  fits = length-take;
  ends = λ n s h e. ends_at n s e;
}

-- Four bytes of six, by three and then by three.
four_bytes :
    (reads whole_file (3 ∷ 3 ∷ []) (pos 4, codes "abcdef")).0 ≡ codes "abc" ∷ codes "d" ∷ []
unfolding reads limited_read ◌-ℤ◌
four_bytes = refl

limited_read_exact_example :
    let (pieces, t) = reads whole_file (3 ∷ 3 ∷ []) (pos 4, codes "abcdef") in
    (flatten pieces ++ left whole_file contents whole_file-ReadsFile t ≡ codes "abcd")
    × ((limited_read whole_file 8 t).0.1 ≡ some eof
        → flatten pieces ++ (limited_read whole_file 8 t).0.0 ≡ codes "abcd")
limited_read_exact_example =
    limited_read_exact whole_file contents whole_file-ReadsFile (3 ∷ 3 ∷ []) 7 4 (codes "abcdef")
