-- ===== src/Compress/Once.antt =====
-- The wrapper of each codec closes what is below it once.
use mathlib.Core.Path.{subst}
use omnistorage.Base.{
  ℕ, ◌+◌, Bytes, ◌≡◌, refl, sym, ap, ◌∙◌, arith, true, false, List, [], ◌∷◌, closed_pipe, ok, err,
  Result-cases, if◌then◌else◌,
}
use omnistorage.Base.Int.{ℤ}
use omnistorage.Compress.Gzip
use omnistorage.Compress.Zstd
use omnistorage.Compress.Closings.{
  Call, write, flush, close, LeavesOpen, closed_once, has_close, after_all, closes_once,
}

module _ {W : Type 0} (L : Gzip.Library W) where
  abbrev pub call_gzip : Call → W × Gzip.Writer L → W × Gzip.Writer L
  call_gzip (write p) t = (Gzip.write L p t).1
  call_gzip flush t = (Gzip.flush L t).1
  call_gzip close t = (Gzip.close_writer L t).1

  unfoldable pub calls_gzip : List Call → W × Gzip.Writer L → W × Gzip.Writer L
  calls_gzip [] t = t
  calls_gzip (call ∷ calls) t = calls_gzip calls (call_gzip call t)

  gzip_made :
      (sink : L.Sink) (level : ℤ) (w : W) (wr : Gzip.Writer L)
      → (Gzip.new_writer_level L sink level w).0 ≡ ok wr
      → (wr.closed ≡ false) × (wr.closer ≡ sink)
  unfolding Gzip.new_writer_level
  gzip_made sink level w wr h = ground (arith, Result-cases (L.new_encoder sink level w).0)

  calls_gzip-eq-after_all :
      {closings : L.Sink → W → ℕ}
      (O : LeavesOpen L.write L.flush L.close_encoder L.close_sink closings) (calls : List Call)
      (t : W × Gzip.Writer L)
      → calls_gzip calls t ≡ after_all O calls t
  unfolding Gzip.write Gzip.flush Gzip.close_writer calls_gzip after_all
  calls_gzip-eq-after_all O [] t = refl
  calls_gzip-eq-after_all O (write p ∷ calls) t =
      calls_gzip-eq-after_all O calls (call_gzip (write p) t)
  calls_gzip-eq-after_all O (flush ∷ calls) t = calls_gzip-eq-after_all O calls (call_gzip flush t)
  calls_gzip-eq-after_all O (close ∷ calls) t = calls_gzip-eq-after_all O calls (call_gzip close t)

  -- With a codec that does not close what is below it: however a new writer is used, what is below it
  -- is closed once if there is a `Close` among the calls, also where closes fail, and never otherwise.
  -- A writer that is closed refuses to write and to flush, and closing it again changes nothing.
  pub gzip_closes_once :
      (closings : L.Sink → W → ℕ)
      → LeavesOpen L.write L.flush L.close_encoder L.close_sink closings
      → (calls : List Call) (sink : L.Sink) (level : ℤ) (w : W) (wr : Gzip.Writer L)
      → (Gzip.new_writer_level L sink level w).0 ≡ ok wr
      → (v : W)
      → let t = calls_gzip calls (v, wr) in
        (closings sink t.0 ≡ closings sink v + (if has_close calls then 1 else 0))
        × (has_close calls ≡ true
            → ((p : Bytes) → Gzip.write L p t ≡ (err closed_pipe, t))
              × (Gzip.flush L t ≡ (err closed_pipe, t))
              × (Gzip.close_writer L t ≡ (ok tt, t)))
  unfolding Gzip.write Gzip.flush Gzip.close_writer
  gzip_closes_once closings O calls sink level w wr made v =
      let (unclosed, below) = gzip_made sink level w wr made in
      let t = calls_gzip calls (v, wr) in
      let same = calls_gzip-eq-after_all O calls (v, wr) in
      let (counts, shut) =
        closes_once O calls (closings sink v) sink v wr unclosed
          (ground (arith, unclosed), below) in
      let is_shut : t.1.closed ≡ has_close calls =
        ap (λ (u : W × Gzip.Writer L). u.1.closed) same ∙ shut in
      let total : closings sink t.0 ≡ closings sink v + closed_once t.1 =
        subst (λ (u : W × Gzip.Writer L). closings sink u.0 ≡ closings sink v + closed_once u.1)
          (sym same) counts.0 in
      (
        ground (arith, total, is_shut),
        λ ended.
            let shut_now : t.1.closed ≡ true = is_shut ∙ ended in
            ((λ p. ground (arith, shut_now)), ground (arith, shut_now), ground (arith, shut_now)),
      )

module _ {W : Type 0} (L : Zstd.Library W) where
  abbrev pub call_zstd : Call → W × Zstd.Writer L → W × Zstd.Writer L
  call_zstd (write p) t = (Zstd.write L p t).1
  call_zstd flush t = (Zstd.flush L t).1
  call_zstd close t = (Zstd.close_writer L t).1

  unfoldable pub calls_zstd : List Call → W × Zstd.Writer L → W × Zstd.Writer L
  calls_zstd [] t = t
  calls_zstd (call ∷ calls) t = calls_zstd calls (call_zstd call t)

  zstd_made :
      (sink : L.Sink) (opts : List L.EncoderOption) (w : W) (wr : Zstd.Writer L)
      → (Zstd.new_writer_with_options L sink opts w).0 ≡ ok wr
      → (wr.closed ≡ false) × (wr.closer ≡ sink)
  unfolding Zstd.new_writer_with_options
  zstd_made sink opts w wr h = ground (arith, Result-cases (L.new_encoder sink opts w).0)

  calls_zstd-eq-after_all :
      {closings : L.Sink → W → ℕ}
      (O : LeavesOpen L.write L.flush L.close_encoder L.close_sink closings) (calls : List Call)
      (t : W × Zstd.Writer L)
      → calls_zstd calls t ≡ after_all O calls t
  unfolding Zstd.write Zstd.flush Zstd.close_writer calls_zstd after_all
  calls_zstd-eq-after_all O [] t = refl
  calls_zstd-eq-after_all O (write p ∷ calls) t =
      calls_zstd-eq-after_all O calls (call_zstd (write p) t)
  calls_zstd-eq-after_all O (flush ∷ calls) t = calls_zstd-eq-after_all O calls (call_zstd flush t)
  calls_zstd-eq-after_all O (close ∷ calls) t = calls_zstd-eq-after_all O calls (call_zstd close t)

  -- With a codec that does not close what is below it: however a new writer is used, what is below it
  -- is closed once if there is a `Close` among the calls, also where closes fail, and never otherwise.
  -- A writer that is closed refuses to write and to flush, and closing it again changes nothing.
  pub zstd_closes_once :
      (closings : L.Sink → W → ℕ)
      → LeavesOpen L.write L.flush L.close_encoder L.close_sink closings
      → (calls : List Call) (sink : L.Sink) (opts : List L.EncoderOption) (w : W)
        (wr : Zstd.Writer L)
      → (Zstd.new_writer_with_options L sink opts w).0 ≡ ok wr
      → (v : W)
      → let t = calls_zstd calls (v, wr) in
        (closings sink t.0 ≡ closings sink v + (if has_close calls then 1 else 0))
        × (has_close calls ≡ true
            → ((p : Bytes) → Zstd.write L p t ≡ (err closed_pipe, t))
              × (Zstd.flush L t ≡ (err closed_pipe, t))
              × (Zstd.close_writer L t ≡ (ok tt, t)))
  unfolding Zstd.write Zstd.flush Zstd.close_writer
  zstd_closes_once closings O calls sink opts w wr made v =
      let (unclosed, below) = zstd_made sink opts w wr made in
      let t = calls_zstd calls (v, wr) in
      let same = calls_zstd-eq-after_all O calls (v, wr) in
      let (counts, shut) =
        closes_once O calls (closings sink v) sink v wr unclosed
          (ground (arith, unclosed), below) in
      let is_shut : t.1.closed ≡ has_close calls =
        ap (λ (u : W × Zstd.Writer L). u.1.closed) same ∙ shut in
      let total : closings sink t.0 ≡ closings sink v + closed_once t.1 =
        subst (λ (u : W × Zstd.Writer L). closings sink u.0 ≡ closings sink v + closed_once u.1)
          (sym same) counts.0 in
      (
        ground (arith, total, is_shut),
        λ ended.
            let shut_now : t.1.closed ≡ true = is_shut ∙ ended in
            ((λ p. ground (arith, shut_now)), ground (arith, shut_now), ground (arith, shut_now)),
      )
