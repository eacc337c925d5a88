-- ===== src/Sftp/Reader.antt =====
-- The limited reader of backend/sftp/backend.go.
use mathlib.Core.List
use mathlib.Core.List.{flatten}
use omnistorage.Base.{
  ℕ, zero, suc, ◌-◌, ◌≤◌, ◌<◌, Bytes, true, false, List, [], ◌∷◌, ◌++◌, Option, some, Error, eof,
  ◌≡◌, refl, sym, ap, ◌∙◌, arith, if◌then◌else◌, length, take,
}
use omnistorage.Base.Int.{ℤ, pos, negsuc, pos_part, ltb_ℤ, ◌-ℤ◌}

-- `io.Reader`: a buffer of some size is filled with bytes, and there may be an error with them.
abbrev pub Read : Type 0 → Type 0
Read W = ℕ → W → (Bytes × Option Error) × W

module _ {W : Type 0} (below : Read W) where
  -- `limitedReader.Read`, with `remaining` in front of the state of the reader below.
  unfoldable pub limited_read : Read (ℤ × W)
  limited_read size (remaining, w) =
      if ltb_ℤ (pos 0) remaining
      then (let n = if ltb_ℤ remaining (pos size) then pos_part remaining else size in
          let (r, w') = below n w in (r, (remaining -ℤ pos (length r.0), w')))
      else (([], some eof), (remaining, w))

  -- Reads with buffers of these sizes: the pieces, and the state behind them.
  unfoldable pub reads : List ℕ → ℤ × W → List Bytes × (ℤ × W)
  unfolding limited_read
  reads [] s = ([], s)
  reads (size ∷ sizes) s =
      let (r, s') = limited_read size s in let (pieces, t) = reads sizes s' in (r.0 ∷ pieces, t)

  -- The reader below delivers what is left of a file: a piece that fits into the buffer, and `io.EOF`
  -- for a buffer of some size only when nothing is left behind the piece.
  pub record ReadsFile (rest : W → Bytes) : Type 0 where
    pub splits : (n : ℕ) (w : W) → (below n w).0.0 ++ rest (below n w).1 ≡ rest w
    pub fits : (n : ℕ) (w : W) → length (below n w).0.0 ≤ n
    pub ends : (n : ℕ) (w : W) → 0 < n → (below n w).0.1 ≡ some eof → rest (below n w).1 ≡ []

  take-append : (p q : Bytes) (k : ℕ) → length p ≤ k → take k (p ++ q) ≡ p ++ take (k - length p) q
  take-append [] q k h = ap (λ n. take n q) (omega arith)
  take-append (c ∷ p) q zero h = absurd (omega arith)
  take-append (c ∷ p) q (suc k) h =
      ap (λ s. c ∷ s) (take-append p q k (omega arith))
      ∙ ap (λ n. (c ∷ p) ++ take n q) (omega arith)

  module _ (rest : W → Bytes) (R : ReadsFile rest) where
    -- What may still be read.
    abbrev pub left : ℤ × W → Bytes
    left (remaining, w) = take (pos_part remaining) (rest w)

    -- How many bytes the reader below is asked for.
    abbrev asked : ℕ → ℕ → ℕ
    asked size k = if ltb_ℤ (pos k) (pos size) then k else size

    minus : (k n : ℕ) → n ≤ k → pos k -ℤ pos n ≡ pos (k - n)
    unfolding ◌-ℤ◌
    minus k n h = ground arith

    read_more :
        (size k : ℕ) (w : W)
        → let (r, w') = below (asked size (suc k)) w in
          limited_read size (pos (suc k), w) ≡ (r, (pos (suc k - length r.0), w'))
    unfolding limited_read
    read_more size k w =
        let n = asked size (suc k) in
        let more : ltb_ℤ (pos 0) (pos (suc k)) ≡ true = ground arith in
        let small : n ≤ suc k = ground arith in
        let fits : length (below n w).0.0 ≤ suc k = omega (arith, R.fits n w, small) in
        rw (more, minus (suc k) (length (below n w).0.0) fits) refl

    read_below_zero :
        (size k : ℕ) (w : W) → limited_read size (negsuc k, w) ≡ (([], some eof), (negsuc k, w))
    unfolding limited_read
    read_below_zero size k w =
        let none_left : ltb_ℤ (pos 0) (negsuc k) ≡ false = ground arith in rw none_left refl

    read-left : (size : ℕ) (s : ℤ × W) → let (r, t) = limited_read size s in r.0 ++ left t ≡ left s
    unfolding limited_read
    read-left size (negsuc k, w) = ap (λ t. t.0.0 ++ left t.1) (read_below_zero size k w)
    read-left size (pos zero, w) = refl
    read-left size (pos (suc k), w) =
        let n = asked size (suc k) in
        let small : n ≤ suc k = ground arith in
        let fits : length (below n w).0.0 ≤ suc k = omega (arith, R.fits n w, small) in
        let split = take-append (below n w).0.0 (rest (below n w).1) (suc k) fits in
        let whole : take (suc k) ((below n w).0.0 ++ rest (below n w).1) ≡ take (suc k) (rest w) =
          ap (take (suc k)) (R.splits n w) in
        ap (λ t. t.0.0 ++ left t.1) (read_more size k w) ∙ sym split ∙ whole

    take-nil : (n : ℕ) → take {A = ℕ} n [] ≡ []
    take-nil zero = refl
    take-nil (suc n) = refl

    read-ends :
        (size : ℕ) (s : ℤ × W)
        → (limited_read (suc size) s).0.1 ≡ some eof
        → left (limited_read (suc size) s).1 ≡ []
    unfolding limited_read
    read-ends size (negsuc k, w) h = ap (λ t. left t.1) (read_below_zero (suc size) k w)
    read-ends size (pos zero, w) h = refl
    read-ends size (pos (suc k), w) h =
        let n = asked (suc size) (suc k) in
        let some_asked : 0 < n = ground arith in
        let ended = R.ends n w some_asked (sym (ap (λ t. t.0.1) (read_more (suc size) k w)) ∙ h) in
        ap (λ t. left t.1) (read_more (suc size) k w)
        ∙ ap (take (suc k - length (below n w).0.0)) ended
        ∙ take-nil (suc k - length (below n w).0.0)

    reads-left :
        (sizes : List ℕ) (s : ℤ × W)
        → let (pieces, t) = reads sizes s in flatten pieces ++ left t ≡ left s
    unfolding reads flatten
    reads-left [] s = refl
    reads-left (size ∷ sizes) s =
        let (r, s') = limited_read size s in
        let (pieces, t) = reads sizes s' in
        List.append_assoc r.0 (flatten pieces) (left t)
        ∙ ap (λ q. r.0 ++ q) (reads-left sizes s')
        ∙ read-left size s

    -- Reads of a limited reader with buffers of any sizes: what they have given and what the limit
    -- still lets through are together the bytes of the file up to the limit; and when a further
    -- read with room for a byte says `io.EOF`, exactly these bytes have been read.
    pub limited_read_exact :
        (sizes : List ℕ) (size limit : ℕ) (w : W)
        → let (pieces, t) = reads sizes (pos limit, w) in
          (flatten pieces ++ left t ≡ take limit (rest w))
          × ((limited_read (suc size) t).0.1 ≡ some eof
              → flatten pieces ++ (limited_read (suc size) t).0.0 ≡ take limit (rest w))
    limited_read_exact sizes size limit w =
        let s : ℤ × W = (pos limit, w) in
        let (pieces, t) = reads sizes s in
        let (r, u) = limited_read (suc size) t in
        (
          reads-left sizes s,
          (λ ended.
              let whole : r.0 ≡ left t =
                sym (List.append-nil r.0)
                ∙ ap (λ q. r.0 ++ q) (sym (read-ends size t ended))
                ∙ read-left (suc size) t in
              ap (λ q. flatten pieces ++ q) whole ∙ reads-left sizes s),
        )
