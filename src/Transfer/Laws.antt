-- ===== src/Transfer/Laws.antt =====
-- Copies over any backends: which calls one that reports success has made.
use omnistorage.Base.{
  Bytes, ◌≡◌, refl, inl, inr, ap, sym, ◌∙◌, List, [], ◌∷◌, Option, none, some, Error, ok, arith,
  Result-cases,
}
use omnistorage.Base.Action.{◌>>=◌, >>=-eq-ok}
use omnistorage.Options.{WriterOption}
use omnistorage.Backends.{Stream, Backend}
use omnistorage.Transfer.{io_copy, copy_and_close, copy_path}

module _ {W : Type 0} where
  -- The writer takes the chunks one after the other, and `t` is the world that this leaves.
  pub data Written (D : Backend W) (w : D.Writer) : List Bytes → W → W → Type 0 where
    nothing : {s : W} → Written D w [] s s
    chunk_written :
        {chunk : Bytes} {chunks : List Bytes} {s t : W}
        → (D.write w chunk s).0 ≡ ok tt
        → Written D w chunks (D.write w chunk s).1 t
        → Written D w (chunk ∷ chunks) s t

  io_copy_ok :
      (D : Backend W) (w : D.Writer) (chunks : List Bytes) (failure : Option Error) (s : W)
      → (io_copy D w chunks failure s).0 ≡ ok tt
      → (failure ≡ none) × Written D w chunks s (io_copy D w chunks failure s).1
  unfolding io_copy
  io_copy_ok D w [] none s h = (refl, nothing)
  io_copy_ok D w [] (some e) s h = cc
  io_copy_ok D w (chunk ∷ chunks) failure s h =
      let (_, first, eq) = >>=-eq-ok (D.write w chunk) (λ _. io_copy D w chunks failure) s h in
      let t = (D.write w chunk s).1 in
      let done : (io_copy D w chunks failure t).0 ≡ ok tt = sym (ap (λ r. r.0) eq) ∙ h in
      let (e, rest) = io_copy_ok D w chunks failure t done in
      (e, chunk_written first (rw (ap (λ r. r.1) eq) rest))

  copy_and_close_ok :
      (D : Backend W) (w : D.Writer) (stream : Stream) (s : W)
      → (copy_and_close D w stream s).0 ≡ ok tt
      → (t : W) × (stream.failure ≡ none)
        × Written D w stream.chunks s t
        × ((D.close w t).0 ≡ ok tt)
        × (copy_and_close D w stream s ≡ D.close w t)
  unfolding copy_and_close
  copy_and_close_ok D w stream s h =
      elim (Result-cases (io_copy D w stream.chunks stream.failure s).0) [
        | inl (_, e) ↦
            let (f, all_written) = io_copy_ok D w stream.chunks stream.failure s e in
            (
              (io_copy D w stream.chunks stream.failure s).1,
              f,
              all_written,
              ground arith,
              rw (e, copy_and_close),
            )
        | inr (inl (f, e)) ↦ absurd (ground arith)
        | inr (inr e) ↦ absurd (ground arith)
      ]

  module _ (S D : Backend W) (src dst : Bytes) (opts : List WriterOption) (s : W) where
    -- A copy that reports success has opened the reader and the writer, the reader has ended without
    -- a failure, each chunk was written in order, and the writer was closed without an error.
    pub copy_path_ok :
        (copy_path S src D dst opts s).0 ≡ ok tt
        → (stream : Stream) × (w : D.Writer) × (t : W) × ((S.new_reader src s).0 ≡ ok stream)
          × ((D.new_writer dst opts (S.new_reader src s).1).0 ≡ ok w)
          × (stream.failure ≡ none)
          × Written D w stream.chunks (D.new_writer dst opts (S.new_reader src s).1).1 t
          × ((D.close w t).0 ≡ ok tt)
          × ((copy_path S src D dst opts s).1 ≡ (D.close w t).1)
    unfolding copy_path
    copy_path_ok h =
        let (stream, r, eq) =
          >>=-eq-ok (S.new_reader src)
            (λ stream. D.new_writer dst opts >>= λ w. copy_and_close D w stream) s h in
        let s1 = (S.new_reader src s).1 in
        let (w, o, eq1) =
          >>=-eq-ok (D.new_writer dst opts) (λ w. copy_and_close D w stream) s1
            (sym (ap (λ r. r.0) eq) ∙ h) in
        let all = eq ∙ eq1 in
        let s2 = (D.new_writer dst opts s1).1 in
        let (t, f, all_written, closed, eq2) =
          copy_and_close_ok D w stream s2 (sym (ap (λ r. r.0) all) ∙ h) in
        (stream, w, t, r, o, f, all_written, closed, ap (λ r. r.1) (all ∙ eq2))
