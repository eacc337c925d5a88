-- ===== src/S3/Listing.antt =====
-- The pages of `List`, and the two keys that `Rmdir` looks at.
use mathlib.Core.List.{flatten, map}
use omnistorage.Base.{
  ℕ, zero, suc, Bytes, bytes_eq, ◌≡◌, refl, ◌≢◌, ◌∙◌, ap, arith, ◌<◌, true, false, List, [], ◌∷◌,
  ◌++◌, Option, none, some, ok, err, message, codes, length, take, All,
}
use omnistorage.Paths.Text.{slash, trim_prefix, trim_prefix-append, trim_prefix_other}
use omnistorage.S3.Client.{Client}
use omnistorage.S3.Backend.{
  Backend, full_key, list, pages_loop, page_loop, relative, rmdir, marker, count_others, translated,
}

page_loop-append :
    (b : Backend) (xs ys : List (Option Bytes))
    → page_loop b (xs ++ ys) ≡ page_loop b xs ++ page_loop b ys
unfolding page_loop
page_loop-append b [] ys = refl
page_loop-append b (none ∷ xs) ys = page_loop-append b xs ys
page_loop-append b (some k ∷ xs) ys = ground (arith, page_loop-append b xs ys)

-- A path that is not empty and does not begin with a slash.
abbrev pub IsRelative : Bytes → Type 0
IsRelative [] = ⊥
IsRelative (c ∷ s) = c ≢ slash

-- The key of a path below a prefix of keys, which may be empty.
abbrev pub key_below : Bytes → Bytes → Bytes
key_below [] p = p
key_below (c ∷ prefix) p = (c ∷ prefix) ++ (slash ∷ p)

trimmed :
    (prefix p : Bytes)
    → IsRelative p
    → trim_prefix (trim_prefix (key_below prefix p) prefix) (codes "/") ≡ p
trimmed prefix [] h = absurd h
trimmed [] (d ∷ p) h =
    ap (λ s. trim_prefix s (codes "/")) (trim_prefix-append [] (d ∷ p))
    ∙ trim_prefix_other slash d p h
trimmed (c ∷ prefix) (d ∷ p) h =
    ap (λ s. trim_prefix s (codes "/")) (trim_prefix-append (c ∷ prefix) (slash ∷ (d ∷ p)))
    ∙ trim_prefix-append (codes "/") (d ∷ p)

relative-key_below :
    (b : Backend) (p : Bytes) → IsRelative p → relative b (key_below b.prefix p) ≡ p
unfolding relative
relative-key_below b p h = trimmed b.prefix p h

page_loop-eq :
    (b : Backend) (paths : List Bytes)
    → All IsRelative paths
    → page_loop b (map (λ p. some (key_below b.prefix p)) paths) ≡ paths
unfolding page_loop
page_loop-eq b [] h = refl
page_loop-eq b ([] ∷ paths) (h, hs) = absurd h
page_loop-eq b ((c ∷ p) ∷ paths) (h, hs) =
    ground (arith, relative-key_below b (c ∷ p) h, page_loop-eq b paths hs)

module _ {W : Type 0} (C : Client W) (b : Backend) where
  -- A paginator that hands out pages one after the other, from a store that does not change.
  pub record HandsOut (w : W) : Type 0 where
    pub pages : C.Paginator → List (List (Option Bytes))
    pub ends : (pager : C.Paginator) → pages pager ≡ [] → C.has_more_pages pager ≡ false
    pub gives :
        (pager : C.Paginator) (page : List (Option Bytes)) (rest : List (List (Option Bytes)))
        → pages pager ≡ page ∷ rest
        → (C.has_more_pages pager ≡ true)
          × (next : C.Paginator) × (C.next_page pager w ≡ (ok (page, next), w))
          × (pages next ≡ rest)

  pages_loop_lem :
      (w : W) (H : HandsOut w) (fuel : ℕ) (pager : C.Paginator) (ps : List (List (Option Bytes)))
      → H.pages pager ≡ ps
      → length ps < fuel
      → pages_loop C b (λ n. none) fuel pager w ≡ (ok (page_loop b (flatten ps)), w)
  unfolding pages_loop page_loop flatten
  pages_loop_lem w H zero pager ps e h = absurd (omega arith)
  pages_loop_lem w H (suc fuel) pager [] e h = ground (arith, H.ends pager e)
  pages_loop_lem w H (suc fuel) pager (page ∷ ps) e h =
      let (more, next, gives, rest) = H.gives pager page ps e in
      let ih = pages_loop_lem w H fuel next ps rest (omega arith) in
      let split = page_loop-append b page (flatten ps) in ground (arith, more, gives, ih, split)

  -- With an open backend, a context that lives, and a client that hands out its pages one by one: if
  -- the keys on the pages for the full key of the prefix are, in their order, those of some paths
  -- below the prefix of the configuration, with a slash between the two if that is not empty, then
  -- `List` gives exactly these paths in this order, in as many rounds as there are pages and one
  -- more. The paths are not empty and do not begin with a slash.
  pub listed_exact :
      (w : W) (H : HandsOut w) (prefix : Bytes) (fuel : ℕ) (paths : List Bytes)
      → b.closed ≡ false
      → All IsRelative paths
      → flatten (H.pages (C.new_paginator b.bucket (full_key b prefix)))
        ≡ map (λ p. some (key_below b.prefix p)) paths
      → length (H.pages (C.new_paginator b.bucket (full_key b prefix))) < fuel
      → list C b (λ n. none) none fuel prefix w ≡ (ok paths, w)
  unfolding list
  listed_exact w H prefix fuel paths unclosed relatives keys h =
      let pager = C.new_paginator b.bucket (full_key b prefix) in
      let run = pages_loop_lem w H fuel pager (H.pages pager) refl h in
      let shown = ap (page_loop b) keys ∙ page_loop-eq b paths relatives in
      ground (arith, unclosed, run, shown)

-- A key of a list is there once.
abbrev pub Distinct : List Bytes → Type 0
Distinct [] = Unit
Distinct (k ∷ keys) = All (λ j. k ≢ j) keys × Distinct keys

others_there :
    (m : Bytes) (keys : List Bytes)
    → Distinct keys
    → ¬ All (λ k. k ≡ m) keys
    → 0 < count_others m (map some (take 2 keys))
unfolding count_others
others_there m [] d h = absurd (h tt)
others_there m (k ∷ []) d h = ground (arith, λ (e : k ≡ m). h (e, tt))
others_there m (k ∷ j ∷ keys) ((ne, _), d) h = ground arith

no_others :
    (m : Bytes) (n : ℕ) (keys : List Bytes)
    → All (λ k. k ≡ m) keys
    → count_others m (map some (take n keys)) ≡ 0
unfolding count_others
no_others m zero keys h = refl
no_others m (suc n) [] h = refl
no_others m (suc n) (k ∷ keys) (e, h) = ground (arith, no_others m n keys h)

module _ {W : Type 0} (C : Client W) (b : Backend) where
  -- With an open backend, a context that lives, and a client that lists the first keys of those, all
  -- different, that it holds for a prefix: `Rmdir` deletes the marker if the client holds no other key
  -- for it, and otherwise fails and changes nothing. Two keys are enough to tell.
  pub rmdir_exact :
      (keys_below : Bytes → List Bytes) (w : W) (p : Bytes)
      → ((key : Bytes) → Distinct (keys_below key))
      → ((key : Bytes) (n : ℕ)
          → C.list_objects b.bucket key n w ≡ (ok (map some (take n (keys_below key))), w))
      → b.closed ≡ false
      → (All (λ k. k ≡ marker (full_key b p)) (keys_below (marker (full_key b p)))
          → rmdir C b none p w
            ≡ translated C b p (C.delete_object b.bucket (marker (full_key b p))) w)
        × (¬ All (λ k. k ≡ marker (full_key b p)) (keys_below (marker (full_key b p)))
            → rmdir C b none p w ≡ (err (message "s3: directory not empty" p), w))
  unfolding rmdir
  rmdir_exact keys_below w p distinct lists unclosed =
      let key = marker (full_key b p) in
      let found = lists key 2 in
      (
        (λ alone. ground (arith, found, unclosed, no_others key 2 (keys_below key) alone)),
        (λ others.
            ground
              (arith, found, unclosed, others_there key (keys_below key) (distinct key) others)),
      )
