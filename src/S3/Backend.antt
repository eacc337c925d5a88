-- ===== src/S3/Backend.antt =====
-- backend/s3/backend.go: the methods of a backend that is connected, except its writer.
use omnistorage.Base.{
  ℕ, zero, suc, Bytes, bytes_eq, nat_eq, ◌^◌, Bool, true, false, ◌||◌, List, [], ◌∷◌, ◌++◌, codes,
  Option, none, some, Error, not_found, permission_denied, backend_closed, message, wrapped,
  Context, ok, err, panic, if◌then◌else◌, ◌==◌, ltb, leb,
}
use omnistorage.Base.Int.{ℤ, pos, ltb_ℤ, ◌+ℤ◌, ◌-ℤ◌, pos_part, neg_part}
use omnistorage.Base.Action.{Action, ◌>>=◌, ◌>>◌, pure, fail_when, check_ctx}
use omnistorage.Base.Decimal.{show}
use omnistorage.Base.Dict.{Dict}
use omnistorage.Options.{ReaderConfig}
use omnistorage.Paths.Text.{slash, trim_prefix, contains_text}
use omnistorage.Paths.Clean.{path_join}
use omnistorage.Features.{Features, HashType, hash_md5}
use omnistorage.S3.Client.{Client}

-- `bucket` and `prefix` are those of the configuration.
pub record Backend : Type 0 where
  pub bucket : Bytes
  pub prefix : Bytes
  pub closed : Bool

-- `fullKey`
unfoldable pub full_key : Backend → Bytes → Bytes
full_key b p = if b.prefix == [] then p else path_join b.prefix p

-- `int64(z)` of a sum of two `int64`.
unfoldable pub int64 : ℤ → ℤ
int64 z =
    if leb (2 ^ 63) (pos_part z)
    then z -ℤ pos (2 ^ 64)
    else if ltb (2 ^ 63) (neg_part z)
    then z +ℤ pos (2 ^ 64)
    else z

-- `bytes=%d-%d` and `bytes=%d-`
unfoldable pub range_between : ℤ → ℤ → Bytes
range_between first last = codes "bytes=" ++ (show first ++ (codes "-" ++ show last))

unfoldable pub range_from : ℤ → Bytes
range_from first = codes "bytes=" ++ (show first ++ codes "-")

-- The header `Range` of `NewReader`.
unfoldable pub range_header : ReaderConfig → Option Bytes
unfolding int64 range_between range_from
range_header config =
    if ltb_ℤ (pos 0) config.limit
    then some (range_between config.offset (int64 (int64 (config.offset +ℤ config.limit) -ℤ pos 1)))
    else if ltb_ℤ (pos 0) config.offset
    then some (range_from config.offset)
    else none

-- The key of a directory marker.
unfoldable pub ends_with_slash : Bytes → Bool
ends_with_slash [] = false
ends_with_slash (c ∷ []) = c == slash
ends_with_slash (_ ∷ d ∷ s) = ends_with_slash (d ∷ s)

unfoldable pub marker : Bytes → Bytes
unfolding ends_with_slash
marker key = if ends_with_slash key then key else key ++ codes "/"

-- `strings.Trim(s, "\"")`
unfoldable pub trim_left : Bytes → Bytes
trim_left [] = []
trim_left (c ∷ s) = let rest = trim_left s in if c == 34 then rest else c ∷ s

unfoldable pub trim_right : Bytes → Bytes
trim_right [] = []
trim_right (c ∷ s) =
    let rest = trim_right s in if rest == [] then (if c == 34 then [] else c ∷ []) else c ∷ rest

-- The hashes of `Stat`: a tag without a hyphen is an MD5.
unfoldable pub hashes_of : Option Bytes → Dict HashType Bytes
unfolding trim_left trim_right
hashes_of none = []
hashes_of (some tag) =
    let etag = trim_right (trim_left tag) in
    if contains_text etag (codes "-") then [] else (hash_md5, etag) ∷ []

-- The path of a listed key, where there is one.
unfoldable pub relative : Backend → Bytes → Bytes
relative b key = trim_prefix (trim_prefix key b.prefix) (codes "/")

-- The loop of `List` over a page.
unfoldable pub page_loop : Backend → List (Option Bytes) → List Bytes
unfolding relative
page_loop b [] = []
page_loop b (none ∷ keys) = page_loop b keys
page_loop b (some key ∷ keys) =
    let rest = page_loop b keys in if relative b key == [] then rest else relative b key ∷ rest

-- The loop of `Rmdir`: how many keys are not the marker.
unfoldable pub count_others : Bytes → List (Option Bytes) → ℕ
count_others key [] = 0
count_others key (none ∷ keys) = count_others key keys
count_others key (some k ∷ keys) =
    let rest = count_others key keys in if k == key then rest else suc rest

-- `Features`
abbrev pub features : Features
features = record {
  copy = true;
  move = true;
  mkdir = true;
  rmdir = true;
  stat = true;
  hashes = hash_md5 ∷ [];
  can_stream = true;
  server_side_encryption = true;
  versioning = true;
  range_read = true;
  list_prefix = true;
  set_mod_time = false;
  custom_metadata = false;
}

-- `BasicObjectInfo`, of which there are no directories and no metadata.
pub record ObjectStat : Type 0 where
  pub path : Bytes
  pub size : ℤ
  pub mod_time : Option ℕ
  pub content_type : Bytes
  pub hashes : Dict HashType Bytes

abbrev or_else {ℓ} : {A : Type ℓ} → A → Option A → A
or_else a none = a
or_else a (some x) = x

module _ {W : Type 0} (C : Client W) (b : Backend) where
  -- The codes that are tested.
  abbrev is_missing : Bytes → Bool
  is_missing code = code == codes "NotFound" || code == codes "NoSuchKey"

  abbrev is_refused : Bytes → Bool
  is_refused code =
      code == codes "AccessDenied"
      || (code == codes "InvalidAccessKeyId" || code == codes "SignatureDoesNotMatch")

  -- `translateError`
  unfoldable pub translate_error : Bytes → Error → Error
  translate_error path e =
      let other : Error = wrapped e (codes "s3") in
      if C.is_not_found e
      then not_found
      else if C.is_no_such_bucket e
      then message "s3: bucket not found" b.bucket
      else if C.is_no_such_upload e
      then message "s3: upload not found" path
      else elim (C.error_code e) [
        | none ↦ other
        | some code ↦
            if is_missing code
            then not_found
            else if is_refused code
            then permission_denied
            else other
      ]

  abbrev pub translated : {A : Type 0} → Bytes → Action W A → Action W A
  translated p m w =
      let (r, w') = m w in
      elim r [ ok a ↦ (ok a, w') | err e ↦ (err (translate_error p e), w') | panic ↦ (panic, w') ]

  abbrev pub or_wrapped : {A : Type 0} → Bytes → Action W A → Action W A
  or_wrapped what m w =
      let (r, w') = m w in
      elim r [ ok a ↦ (ok a, w') | err e ↦ (err (wrapped e what), w') | panic ↦ (panic, w') ]

  -- `checkClosed` and `ctx.Err`
  abbrev pub guards : Context → Action W (Unit {0})
  guards ctx = fail_when b.closed backend_closed >> check_ctx ctx

  unfoldable pub new_reader : Context → Bytes → ReaderConfig → Action W C.Body
  unfolding translate_error range_header
  new_reader ctx p config =
      guards ctx >> translated p (C.get_object b.bucket (full_key b p) (range_header config))

  -- What `Exists` takes for the answer that there is nothing.
  abbrev says_absent : Error → Bool
  says_absent e =
      C.is_not_found e || elim (C.error_code e) [ none ↦ false | some code ↦ is_missing code ]

  unfoldable pub exists : Context → Bytes → Action W Bool
  unfolding translate_error
  exists ctx p = guards ctx >> λ w.
      let (r, w') = C.head_object b.bucket (full_key b p) w in
      elim r [
        | ok _ ↦ (ok true, w')
        | err e ↦ (if says_absent e then ok false else err (translate_error p e), w')
        | panic ↦ (panic, w')
      ]

  unfoldable pub delete : Context → Bytes → Action W (Unit {0})
  unfolding translate_error
  delete ctx p = guards ctx >> λ w.
      let (r, w') = C.delete_object b.bucket (full_key b p) w in
      elim r [
        | ok _ ↦ (ok tt, w')
        | err e ↦ (if C.is_not_found e then ok tt else err (translate_error p e), w')
        | panic ↦ (panic, w')
      ]

  -- The loop of `List` over the pages, with what the context says before each; the fuel bounds the
  -- pages.
  unfoldable pub pages_loop : (ℕ → Context) → ℕ → C.Paginator → Action W (List Bytes)
  unfolding page_loop
  pages_loop ctx zero pager w = (panic, w)
  pages_loop ctx (suc fuel) pager w = elim (C.has_more_pages pager) [
    | false ↦ (ok [], w)
    | true ↦
        (check_ctx (ctx fuel)
            >> (or_wrapped (codes "listing objects") (C.next_page pager) >>= λ (page, pager').
                pages_loop ctx fuel pager' >>= λ rest. pure (page_loop b page ++ rest)))
          w
  ]

  unfoldable pub list : (ℕ → Context) → Context → ℕ → Bytes → Action W (List Bytes)
  unfolding pages_loop
  list ctx first fuel prefix =
      guards first >> pages_loop ctx fuel (C.new_paginator b.bucket (full_key b prefix))

  unfoldable pub stat : Context → Bytes → Action W ObjectStat
  unfolding translate_error hashes_of
  stat ctx p = do
    guards ctx
    head ← translated p (C.head_object b.bucket (full_key b p))
    pure (record {
      path = p;
      size = or_else (pos 0) head.content_length;
      mod_time = head.last_modified;
      content_type = or_else [] head.content_type;
      hashes = hashes_of head.etag;
    })

  unfoldable pub mkdir : Context → Bytes → Action W (Unit {0})
  unfolding marker
  mkdir ctx p =
      guards ctx
      >> or_wrapped (codes "creating directory marker")
          (C.put_object b.bucket (marker (full_key b p)) [])

  unfoldable pub rmdir : Context → Bytes → Action W (Unit {0})
  unfolding translate_error marker count_others
  rmdir ctx p = do
    guards ctx
    let key = marker (full_key b p)
    keys ← or_wrapped (codes "checking directory") (C.list_objects b.bucket key 2)
    fail_when (ltb 0 (count_others key keys)) (message "s3: directory not empty" p)
    translated p (C.delete_object b.bucket key)

  unfoldable pub copy : Context → Bytes → Bytes → Action W (Unit {0})
  unfolding translate_error
  copy ctx src dst =
      guards ctx
      >> translated src
          (C.copy_object b.bucket (b.bucket ++ (slash ∷ full_key b src)) (full_key b dst))

  unfoldable pub move : Context → Bytes → Bytes → Action W (Unit {0})
  unfolding copy delete
  move ctx src dst = guards ctx >> copy ctx src dst >> delete ctx src

-- `Close`
unfoldable pub close : Backend → Backend
close b = record b { closed = true }
