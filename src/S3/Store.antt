-- ===== src/S3/Store.antt =====
-- What is read from an object store, and what a write to it leaves.
use omnistorage.Base.{
  ℕ, zero, suc, Bytes, bytes_eq, ◌≡◌, refl, ap, ◌∙◌, sym, arith, ◌+◌, ◌-◌, ◌^◌, ◌≤◌, ◌<◌, Option,
  none, some, Context, Option-cases, ok, Result-cases, Bool-cases, if◌then◌else◌, ◌==◌, take, drop,
  take_of_length-le, drop_of_length-le,
}
use omnistorage.Base.Int.{ℤ, pos, ◌+ℤ◌, ◌-ℤ◌}
use omnistorage.Options.{ReaderConfig}
use omnistorage.Memory.Query.{apply_offset, apply_limit}
use omnistorage.S3.Client.{Upload, Client}
use omnistorage.S3.Backend.{
  Backend, full_key, range_between, range_from, range_header, int64, new_reader,
}

-- An object store: what is at a key, and what a body delivers. A range names its last byte, and has
-- to begin inside of the object.
pub record IsStore {W : Type 0} (C : Client W) : Type 0 where
  pub content : Bytes → Bytes → W → Option Bytes
  pub delivers : C.Body → Bytes
  pub gets :
      (bucket key : Bytes) (w : W) (body : C.Body)
      → (C.get_object bucket key none w).0 ≡ ok body
      → content bucket key w ≡ some (delivers body)
  pub gets_from :
      (bucket key : Bytes) (o : ℕ) (w : W) (body : C.Body)
      → (C.get_object bucket key (some (range_from (pos o))) w).0 ≡ ok body
      → (s : Bytes) × (content bucket key w ≡ some s) × (delivers body ≡ drop o s)
  pub gets_between :
      (bucket key : Bytes) (o l : ℕ) (w : W) (body : C.Body)
      → o ≤ l
      → (C.get_object bucket key (some (range_between (pos o) (pos l))) w).0 ≡ ok body
      → (s : Bytes) × (content bucket key w ≡ some s)
        × (delivers body ≡ take (suc l - o) (drop o s))
  pub uploads :
      (u : Upload) (w : W)
      → (C.upload_object u w).0 ≡ ok tt
      → (key : Bytes)
      → content u.bucket key (C.upload_object u w).1
        ≡ (if key == u.key then some u.body else content u.bucket key w)

-- What a reader with a configuration gives of an object, as the memory backend has it.
abbrev pub slice : ReaderConfig → Bytes → Bytes
slice config s = apply_limit config.limit (apply_offset config.offset s)

apply_offset-eq-drop : (o : ℕ) (s : Bytes) → apply_offset (pos o) s ≡ drop o s
unfolding apply_offset
apply_offset-eq-drop zero s = refl
apply_offset-eq-drop (suc o) s = ground (arith, drop_of_length-le (suc o) s)

apply_limit-eq-take : (l : ℕ) (s : Bytes) → 0 < l → apply_limit (pos l) s ≡ take l s
unfolding apply_limit
apply_limit-eq-take l s h = ground (arith, take_of_length-le l s)

range_header_between :
    (size : ℤ) (o l : ℕ)
    → 0 < l
    → o + l < 2 ^ 63
    → range_header (record { buffer_size = size; offset = pos o; limit = pos l })
      ≡ some (range_between (pos o) (pos (o + l - 1)))
unfolding range_header int64 ◌+ℤ◌ ◌-ℤ◌
range_header_between size o l h small = ground arith

-- What a reader without a range, with a first byte, or with both ends, is asked for.
range_header_from :
    (size : ℤ) (o : ℕ)
    → 0 < o
    → range_header (record { buffer_size = size; offset = pos o; limit = pos 0 })
      ≡ some (range_from (pos o))
unfolding range_header
range_header_from size o h = ground arith

module _ {W : Type 0} (C : Client W) (S : IsStore C) (b : Backend) where
  -- What the client is asked for by a reader that opens.
  opened :
      (ctx : Context) (p : Bytes) (config : ReaderConfig) (w : W) (body : C.Body)
      → (new_reader C b ctx p config w).0 ≡ ok body
      → (C.get_object b.bucket (full_key b p) (range_header config) w).0 ≡ ok body
  unfolding new_reader
  opened ctx p config w body h = ground (
    arith,
    Bool-cases b.closed,
    Option-cases ctx,
    Result-cases (C.get_object b.bucket (full_key b p) (range_header config) w).0,
  )

  -- A reader that opens gives of the object at the path what the memory backend would give of the
  -- same bytes: from the offset on, and at most the limit, where these are not negative and their
  -- sum is an `int64`.
  pub new_reader-slice :
      (ctx : Context) (p : Bytes) (size : ℤ) (o l : ℕ) (w : W) (body : C.Body)
      → o + l < 2 ^ 63
      → (new_reader C b ctx p (record { buffer_size = size; offset = pos o; limit = pos l }) w).0
        ≡ ok body
      → (s : Bytes) × (S.content b.bucket (full_key b p) w ≡ some s)
        × (S.delivers body ≡ slice (record { buffer_size = size; offset = pos o; limit = pos l }) s)
  new_reader-slice ctx p size o (suc l) w body small h =
      let got =
        opened ctx p (record { buffer_size = size; offset = pos o; limit = pos (suc l) }) w body
          h in
      let (s, at, e) =
        S.gets_between b.bucket (full_key b p) o (o + suc l - 1) w body (omega arith)
          (rw (sym (range_header_between size o (suc l) (omega arith) small)) got) in
      let count : suc (o + suc l - 1) - o ≡ suc l = omega arith in
      (
        s,
        at,
        e
            ∙ rw (apply_offset-eq-drop o s, apply_limit-eq-take (suc l) (drop o s) (omega arith))
                (ap (λ n. take n (drop o s)) count),
      )
  new_reader-slice ctx p size (suc o) zero w body small h =
      let got =
        opened ctx p (record { buffer_size = size; offset = pos (suc o); limit = pos 0 }) w body
          h in
      let (s, at, e) =
        S.gets_from b.bucket (full_key b p) (suc o) w body
          (rw (sym (range_header_from size (suc o) (omega arith))) got) in
      (s, at, e ∙ sym (unfold apply_limit in apply_offset-eq-drop (suc o) s))
  new_reader-slice ctx p size zero zero w body small h =
      let got =
        opened ctx p (record { buffer_size = size; offset = pos 0; limit = pos 0 }) w body h in
      let at = S.gets b.bucket (full_key b p) w body (unfold range_header in got) in
      (S.delivers body, at, unfold apply_limit in sym (apply_offset-eq-drop 0 (S.delivers body)))
