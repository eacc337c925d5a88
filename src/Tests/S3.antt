-- ===== src/Tests/S3.antt =====
-- A bucket as a list of objects, with ranges and pages, and the theorems on the S3 backend over it.
use mathlib.Core.List.{map, flatten}
use omnistorage.Base.{
  ℕ, suc, ◌+◌, ◌<◌, ◌^◌, Context, Bytes, bytes_eq, nat_eq, true, false, ◌≡◌, refl, ◌-◌, ◌≢◌, List,
  [], ◌∷◌, ◌++◌, codes, Option, none, some, not_found, Result, ok, err, arith, Option-cases,
  Bool-cases, inl, inr, ◌==◌, if◌then◌else◌, take, drop,
}
use omnistorage.Base.Int.{ℤ, pos}
use omnistorage.Base.Dict
use omnistorage.Base.Dict.{Dict}
use omnistorage.Base.Decimal.{show, read_digits, read_digits-show, show-Avoids, show-ne-nil}
use omnistorage.Paths.Text.{
  split, split_field, split_last, join, has_prefix, trim_prefix, contains_text,
}
use omnistorage.Paths.Clean.{clean, segments, resolve, push, pop, is_rooted, path_join}
use omnistorage.Options.{WriterConfig}
use omnistorage.S3.Client.{Client}
use omnistorage.S3.Backend.{
  Backend, full_key, range_between, range_from, list, pages_loop, page_loop, relative, rmdir,
  marker, ends_with_slash, count_others, delete, move, copy, translate_error, new_reader,
}
use omnistorage.S3.Writer.{new_writer, write, close_writer, upload_of}
use omnistorage.S3.Store.{IsStore, slice}
use omnistorage.S3.RoundTrip.{put, new_reader-put}
use omnistorage.S3.Listing.{HandsOut, listed_exact, Distinct}

abbrev Objects : Type 0
Objects = Dict Bytes Bytes

-- What is behind `bytes=`: a first byte, and a last one if it is given.
abbrev bounded : Bytes → ℕ → Option ℕ → Option Bytes
bounded s o none = none
bounded s o (some l) = some (take (suc l - o) (drop o s))

abbrev within : Bytes → List Bytes → Option Bytes
within s (first ∷ last ∷ []) = elim (read_digits 0 first) [
  | none ↦ none
  | some o ↦ if last == [] then some (drop o s) else bounded s o (read_digits 0 last)
]
within s _ = none

answer : Option Bytes → Option Bytes → Option Bytes
answer none range = none
answer (some s) none = some s
answer (some s) (some range) = within s (split b'-' (drop 6 range))

abbrev or_missing : Option Bytes → Result Bytes
or_missing none = err not_found
or_missing (some s) = ok s

keys_below : Bytes → Objects → List Bytes
keys_below prefix [] = []
keys_below prefix ((k, _) ∷ d) =
    let rest = keys_below prefix d in if has_prefix k prefix then k ∷ rest else rest

abbrev bucket : Client Objects
bucket = record {
  Body = Bytes;
  get_object = λ b key range d. (or_missing (answer (Dict.lookup key d) range), d);
  head_object = λ b key d. (err not_found, d);
  delete_object = λ b key d. (ok tt, Dict.erase key d);
  put_object = λ b key body d. (ok tt, Dict.insert key body d);
  copy_object = λ b from to d. (
    ok tt,
    elim (Dict.lookup (trim_prefix from (b ++ codes "/")) d) [
      | none ↦ d
      | some body ↦ Dict.insert to body d
    ],
  );
  upload_object = λ u d. (ok tt, Dict.insert u.key u.body d);
  list_objects = λ b prefix n d. (ok (map some (take n (keys_below prefix d))), d);
  -- One key to a page; the pages that are left.
  Paginator = List Bytes;
  new_paginator = λ b prefix. codes "data/a" ∷ codes "database/b" ∷ [];
  has_more_pages = λ pager. elim pager [ [] ↦ false | _ ∷ _ ↦ true ];
  next_page =
      λ pager d. elim pager [ [] ↦ (ok ([], []), d) | key ∷ keys ↦ (ok (some key ∷ [], keys), d) ];
  is_not_found = λ e. false;
  is_no_such_bucket = λ e. false;
  is_no_such_upload = λ e. false;
  error_code = λ e. none;
}

from_lem : (s : Bytes) (o : ℕ) → answer (some s) (some (range_from (pos o))) ≡ some (drop o s)
unfolding answer range_from
from_lem s o =
    let fields = split_field b'-' (show (pos o)) [] (show-Avoids o) in
    let last = split_last b'-' [] tt in
    let read = read_digits-show o in ground (arith, fields, last, read)

between_lem :
    (s : Bytes) (o l : ℕ)
    → answer (some s) (some (range_between (pos o) (pos l))) ≡ some (take (suc l - o) (drop o s))
unfolding answer range_between
between_lem s o l =
    let fields = split_field b'-' (show (pos o)) (show (pos l)) (show-Avoids o) in
    let last = split_last b'-' (show (pos l)) (show-Avoids l) in
    let read = read_digits-show o in
    let read_last = read_digits-show l in
    ground (arith, fields, last, read, read_last, show-ne-nil l)

bucket-IsStore : IsStore bucket
unfolding upload_of
bucket-IsStore = record {
  content = λ b key d. Dict.lookup key d;
  delivers = λ body. body;
  gets = λ b key d body h. unfold answer in ground (arith, Option-cases (Dict.lookup key d));
  gets_from = λ b key o d body h. elim (Option-cases (Dict.lookup key d)) [
    | inl e ↦ absurd (unfold answer in ground (arith, e, h))
    | inr (s, e) ↦ (s, e, ground (arith, e, h, from_lem s o))
  ];
  gets_between = λ b key o l d body le h. elim (Option-cases (Dict.lookup key d)) [
    | inl e ↦ absurd (unfold answer in ground (arith, e, h))
    | inr (s, e) ↦ (s, e, ground (arith, e, h, between_lem s o l))
  ];
  uploads = λ u d h key. Dict.lookup-insert key u.key u.body d;
}

abbrev backend : Backend
backend = record { bucket = codes "b"; prefix = codes "data"; closed = false }

abbrev plain : WriterConfig
plain = record { buffer_size = pos 0; content_type = []; metadata = [] }

abbrev pieces : List Bytes
pieces = codes "he" ∷ codes "llo" ∷ []

-- What the runs below compute through.
placed_at : Bytes → Bytes
unfolding full_key path_join clean segments resolve push pop is_rooted split join bytes_eq nat_eq
    has_prefix trim_prefix contains_text Dict.lookup Dict.insert Dict.erase list pages_loop
    page_loop relative rmdir marker ends_with_slash count_others delete move copy translate_error
    new_writer write close_writer upload_of keys_below
placed_at p = full_key backend p

unchecked : placed_at (codes "../x") ≡ codes "x"
unfolding placed_at
unchecked = refl

stored : (put bucket backend none (codes "a") plain pieces []).0 ≡ ok tt
unfolding placed_at
stored = refl

new_reader-put_example :
    ((q : Bytes)
      → Dict.lookup (full_key backend q) (put bucket backend none (codes "a") plain pieces []).1 ≡ (
          if full_key backend q == full_key backend (codes "a")
          then some (codes "hello")
          else Dict.lookup (full_key backend q) []))
    × ((reading : Context) (size : ℤ) (o l : ℕ) (body : Bytes)
        → o + l < 2 ^ 63
        → (new_reader bucket backend reading
            (codes "a")
            (record { buffer_size = size; offset = pos o; limit = pos l })
            (put bucket backend none (codes "a") plain pieces []).1).0
          ≡ ok body
        → body
          ≡ slice (record { buffer_size = size; offset = pos o; limit = pos l }) (codes "hello"))
unfolding bucket-IsStore flatten
new_reader-put_example =
    new_reader-put bucket bucket-IsStore backend none (codes "a") plain pieces [] stored

-- A key beside the prefix is listed, under a path that names another key.
siblings : (list bucket backend (λ n. none) none 3 [] []).0 ≡ ok (codes "a" ∷ codes "base/b" ∷ [])
unfolding placed_at
siblings = refl

-- Two keys below the prefix.
abbrev tidy : Client Objects
tidy = record bucket { new_paginator = λ b prefix. codes "data/a" ∷ codes "data/b/c" ∷ [] }

tidy-HandsOut : HandsOut tidy backend []
tidy-HandsOut = record {
  pages = map (λ key. some key ∷ []);
  ends = λ pager e.
      elim pager
          as (λ pager. map (λ key. some key ∷ []) pager ≡ [] → tidy.has_more_pages pager ≡ false) [
            | [] ↦ λ e. refl
            | key ∷ keys ↦ λ e. cc
          ]
        e;
  gives = λ pager page rest e.
      elim pager
          as (λ pager.
            map (λ key. some key ∷ []) pager ≡ page ∷ rest
            → (tidy.has_more_pages pager ≡ true)
              × (next : List Bytes) × (tidy.next_page pager [] ≡ (ok (page, next), []))
              × (map (λ key. some key ∷ []) next ≡ rest)) [
                | [] ↦ λ e. cc
                | key ∷ keys ↦ λ e. (refl, keys, ground (arith, e), ground (arith, e))
              ]
        e;
}

two_pages :
    flatten (tidy-HandsOut.pages (tidy.new_paginator backend.bucket (full_key backend [])))
    ≡ some (codes "data/a") ∷ some (codes "data/b/c") ∷ []
unfolding tidy-HandsOut flatten
two_pages = refl

listed_exact_example :
    list tidy backend (λ n. none) none 3 [] [] ≡ (ok (codes "a" ∷ codes "b/c" ∷ []), [])
listed_exact_example =
    listed_exact tidy backend [] tidy-HandsOut [] 3 (codes "a" ∷ codes "b/c" ∷ []) refl
      ((λ e. ground arith), ((λ e. ground arith), tt)) two_pages
      (unfold tidy-HandsOut in omega arith)

abbrev busy : Objects
busy = (codes "data/d/", []) ∷ (codes "data/d/x", codes "text") ∷ []

removed : (rmdir bucket backend none (codes "d") ((codes "data/d/", []) ∷ [])) ≡ (ok tt, [])
unfolding placed_at
removed = refl

different : codes "data/d/" ≢ codes "data/d/x"
different e = cc

busy-Distinct : (key : Bytes) → Distinct (keys_below key busy)
unfolding keys_below
busy-Distinct key = ground (
  arith,
  different,
  Bool-cases (has_prefix (codes "data/d/") key),
  Bool-cases (has_prefix (codes "data/d/x") key),
)
