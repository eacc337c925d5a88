-- ===== src/S3/Client.antt =====
-- What the S3 backend asks of the client of its vendor, over a world `W` that holds the buckets.
-- The bucket comes first.
use omnistorage.Base.{ℕ, Bytes, Bool, List, Option, Error}
use omnistorage.Base.Int.{ℤ}
use omnistorage.Base.Action.{Action}
use omnistorage.Base.Dict.{Dict}

-- The answer to `HeadObject`, with its pointers.
pub record Head : Type 0 where
  pub content_length : Option ℤ
  pub last_modified : Option ℕ
  pub content_type : Option Bytes
  pub etag : Option Bytes

-- `transfermanager.UploadObjectInput`
pub record Upload : Type 0 where
  pub bucket : Bytes
  pub key : Bytes
  pub body : Bytes
  pub content_type : Option Bytes
  pub metadata : Option (Dict Bytes Bytes)

pub record Client (W : Type 0) : Type 1 where
  -- The body of an object that is read.
  pub Body : Type 0
  -- `GetObject` of a key, with the header `Range` if there is one.
  pub get_object : Bytes → Bytes → Option Bytes → Action W Body
  pub head_object : Bytes → Bytes → Action W Head
  pub delete_object : Bytes → Bytes → Action W (Unit {0})
  pub put_object : Bytes → Bytes → Bytes → Action W (Unit {0})
  -- `CopyObject`: the source, with its bucket in front, and the key of the destination.
  pub copy_object : Bytes → Bytes → Bytes → Action W (Unit {0})
  pub upload_object : Upload → Action W (Unit {0})
  -- The keys of `ListObjectsV2` with a prefix, of which there are at most so many.
  pub list_objects : Bytes → Bytes → ℕ → Action W (List (Option Bytes))
  -- `NewListObjectsV2Paginator` with a prefix, `HasMorePages` and `NextPage`.
  pub Paginator : Type 0
  pub new_paginator : Bytes → Bytes → Paginator
  pub has_more_pages : Paginator → Bool
  pub next_page : Paginator → Action W (List (Option Bytes) × Paginator)
  -- What `errors.As` finds: `*types.NotFound`, `*types.NoSuchBucket`, `*types.NoSuchUpload`, and the
  -- code of an error that has one.
  pub is_not_found : Error → Bool
  pub is_no_such_bucket : Error → Bool
  pub is_no_such_upload : Error → Bool
  pub error_code : Error → Option Bytes
