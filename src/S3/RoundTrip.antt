-- ===== src/S3/RoundTrip.antt =====
-- What is written to an object and closed is what is read.
use mathlib.Core.List
use mathlib.Core.List.{flatten}
use omnistorage.Base.{
  ℕ, ◌+◌, ◌<◌, ◌^◌, Bytes, bytes_eq, ◌≡◌, ◌∙◌, ap, arith, false, List, [], ◌∷◌, ◌++◌, some, Context,
  Result, ok, Result-cases, Bool-cases, Option-cases, if◌then◌else◌, ◌==◌,
}
use omnistorage.Base.Int.{ℤ, pos}
use omnistorage.Base.Action.{Action, ◌>>=◌, ◌>>◌, pure}
use omnistorage.Options.{WriterConfig}
use omnistorage.S3.Client.{Client}
use omnistorage.S3.Backend.{Backend, full_key, new_reader}
use omnistorage.S3.Writer.{ObjectWriter, new_writer, write, close_writer, upload_of}
use omnistorage.S3.Store.{IsStore, slice, new_reader-slice}

module _ {W : Type 0} (C : Client W) where
  -- One write after the other, as long as they succeed.
  abbrev pub write_all : List Bytes → Action (W × ObjectWriter) (Unit {0})
  write_all [] = pure tt
  write_all (chunk ∷ chunks) = write C chunk >> write_all chunks

  -- `NewWriter`, the writes, and `Close`.
  abbrev pub put : Backend → Context → Bytes → WriterConfig → List Bytes → Action W (Unit {0})
  put b ctx p config chunks = new_writer C b ctx p config >>= λ wr w.
      let (r, (w', _)) = (write_all chunks >> close_writer C) (w, wr) in (r, w')

module _ {W : Type 0} (C : Client W) (S : IsStore C) (b : Backend) where
  abbrev open_writer : Bytes → WriterConfig → Bytes → ObjectWriter
  open_writer p config buffer = record {
    bucket = b.bucket;
    key = full_key b p;
    buffer = buffer;
    content_type = config.content_type;
    metadata = config.metadata;
    closed = false;
  }

  -- A write keeps what is written, and leaves the store as it is.
  write_all_open :
      (chunks : List Bytes) (p : Bytes) (config : WriterConfig) (buffer : Bytes) (w : W)
      → write_all C chunks (w, open_writer p config buffer)
        ≡ (ok tt, (w, open_writer p config (buffer ++ flatten chunks)))
  unfolding write flatten
  write_all_open [] p config buffer w = rw List.append-nil
  write_all_open (chunk ∷ chunks) p config buffer w =
      write_all_open chunks p config (buffer ++ chunk) w ∙ rw List.append_assoc

  put_lem :
      (ctx : Context) (p : Bytes) (config : WriterConfig) (chunks : List Bytes) (w : W)
      → (put C b ctx p config chunks w).0 ≡ ok tt
      → let u = upload_of (open_writer p config (flatten chunks)) in
        ((C.upload_object u w).0 ≡ ok tt)
        × ((put C b ctx p config chunks w).1 ≡ (C.upload_object u w).1)
  unfolding new_writer close_writer
  put_lem ctx p config chunks w h =
      let u = upload_of (open_writer p config (flatten chunks)) in
      let finish : (write_all C chunks >> close_writer C) (w, open_writer p config [])
          ≡ close_writer C (w, open_writer p config (flatten chunks)) =
        ap
          (λ (t : Result (Unit {0}) × (W × ObjectWriter)).
            ((λ _. t) >> close_writer C) (w, open_writer p config []))
          (write_all_open chunks p config [] w) in
      ground
        (arith, finish, Bool-cases b.closed, Option-cases ctx, Result-cases (C.upload_object u w).0)

  -- A write that is closed without an error has stored what was written, one piece after the other,
  -- at its key, and nothing elsewhere; readers of the path give slices of it.
  pub new_reader-put :
      (ctx : Context) (p : Bytes) (config : WriterConfig) (chunks : List Bytes) (w : W)
      → (put C b ctx p config chunks w).0 ≡ ok tt
      → ((q : Bytes)
          → S.content b.bucket (full_key b q) (put C b ctx p config chunks w).1 ≡ (
              if full_key b q == full_key b p
              then some (flatten chunks)
              else S.content b.bucket (full_key b q) w))
        × ((reading : Context) (size : ℤ) (o l : ℕ) (body : C.Body)
            → o + l < 2 ^ 63
            → (new_reader C b reading p
                (record { buffer_size = size; offset = pos o; limit = pos l })
                (put C b ctx p config chunks w).1).0
              ≡ ok body
            → S.delivers body
              ≡ slice
                  (record { buffer_size = size; offset = pos o; limit = pos l })
                  (flatten chunks))
  unfolding upload_of
  new_reader-put ctx p config chunks w h =
      let (done, e) = put_lem ctx p config chunks w h in
      let stored = S.uploads (upload_of (open_writer p config (flatten chunks))) w done in
      (
        (λ q. rw e (stored (full_key b q))),
        (λ reading size o l body small r.
            let (s, at, d) = new_reader-slice C S b reading p size o l _ body small r in
            let here = stored (full_key b p) in
            let same : s ≡ flatten chunks = ground (arith, here, at, e) in
            d ∙ ap (slice (record { buffer_size = size; offset = pos o; limit = pos l })) same),
      )
