-- ===== src/S3/Writer.antt =====
-- backend/s3/backend.go: `NewWriter` and `s3Writer`, which keeps what is written until it is closed.
use omnistorage.Base.{
  Bytes, Bool, true, false, [], ◌∷◌, ◌++◌, codes, none, some, writer_closed, wrapped, Context, ok,
  err, panic, if◌then◌else◌,
}
use omnistorage.Base.Action.{Action, ◌>>◌, pure}
use omnistorage.Base.Dict.{Dict}
use omnistorage.Options.{WriterConfig}
use omnistorage.S3.Client.{Upload, Client}
use omnistorage.S3.Backend.{Backend, full_key, guards}

-- `s3Writer`; the client and the context do not change.
pub record ObjectWriter : Type 0 where
  pub bucket : Bytes
  pub key : Bytes
  pub buffer : Bytes
  pub content_type : Bytes
  pub metadata : Dict Bytes Bytes
  pub closed : Bool

-- `UploadObjectInput`, as `Close` builds it.
unfoldable pub upload_of : ObjectWriter → Upload
upload_of wr = record {
  bucket = wr.bucket;
  key = wr.key;
  body = wr.buffer;
  content_type = elim wr.content_type [ [] ↦ none | c ∷ s ↦ some (c ∷ s) ];
  metadata = elim wr.metadata [ [] ↦ none | kv ∷ m ↦ some (kv ∷ m) ];
}

module _ {W : Type 0} (C : Client W) where
  unfoldable pub new_writer : Backend → Context → Bytes → WriterConfig → Action W ObjectWriter
  new_writer b ctx p config =
      guards C b ctx
      >> pure (record {
        bucket = b.bucket;
        key = full_key b p;
        buffer = [];
        content_type = config.content_type;
        metadata = config.metadata;
        closed = false;
      })

  unfoldable pub write : Bytes → Action (W × ObjectWriter) (Unit {0})
  write p (w, wr) =
      if wr.closed
      then (err writer_closed, (w, wr))
      else (ok tt, (w, record wr { buffer = wr.buffer ++ p }))

  unfoldable pub close_writer : Action (W × ObjectWriter) (Unit {0})
  unfolding upload_of
  close_writer (w, wr) =
      if wr.closed
      then (ok tt, (w, wr))
      else (let (r, w') = C.upload_object (upload_of wr) w in
          let wr' = record wr { closed = true } in
          elim r [
            | ok _ ↦ (ok tt, (w', wr'))
            | err e ↦ (err (wrapped e (codes "uploading object")), (w', wr'))
            | panic ↦ (panic, (w', wr'))
          ])
