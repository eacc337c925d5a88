-- ===== src/File/SelfCopy.antt =====
-- A copy of a file onto itself.
use omnistorage.Base.{
  ℕ, Bytes, ◌≡◌, sym, ap, ◌∙◌, [], Option, some, ok, arith, Context, Result-cases, inl, inr,
}
use omnistorage.File.System.{System}
use omnistorage.File.Backend.{Backend, full, os_error, make_parents}
use omnistorage.File.Extended.{copy_file, copy}

-- What is documented of the calls: a file that is opened for writing is emptied, a copy into an
-- empty file leaves there what the other has, and a closing changes no content.
pub record IsFileSystem {W : Type 0} (S : System W) (content : Bytes → W → Option Bytes)
    (file_of : S.Handle → Bytes) : Type 0 where
  pub opens : (p : Bytes) (w : W) (h : S.Handle) → (S.open_file p w).0 ≡ ok h → file_of h ≡ p
  pub empties :
      (p : Bytes) (perm : ℕ) (w : W) (h : S.Handle)
      → (S.create p perm w).0 ≡ ok h
      → (file_of h ≡ p) × (content p (S.create p perm w).1 ≡ some [])
  pub copies :
      (to from : S.Handle) (bytes : Bytes) (w : W)
      → content (file_of to) w ≡ some []
      → content (file_of from) w ≡ some bytes
      → (S.copy_data to from w).0 ≡ ok tt
      → content (file_of to) (S.copy_data to from w).1 ≡ some bytes
  pub closes : (p : Bytes) (h : S.Handle) (w : W) → content p (S.close h w).1 ≡ content p w

module _ {W : Type 0} (S : System W) (b : Backend) (content : Bytes → W → Option Bytes)
    (file_of : S.Handle → Bytes) (laws : IsFileSystem S content file_of) where
  copy_file_itself :
      (p : Bytes) (w : W)
      → (copy_file S b p p w).0 ≡ ok tt
      → content p (copy_file S b p p w).1 ≡ some []
  unfolding copy_file
  copy_file_itself p w done =
      let o = S.open_file p w in
      elim (Result-cases o.0) [
        | inl (from, e) ↦
            let c = S.create p b.config.file_permissions o.1 in
            elim (Result-cases c.0) [
              | inl (to, k) ↦
                  let d = S.copy_data to from c.1 in
                  let (same, empty) = laws.empties p b.config.file_permissions o.1 to k in
                  let at_from = laws.opens p w from e in
                  elim (Result-cases d.0) [
                    | inl (_, l) ↦
                        let copied : content p d.1 ≡ some [] =
                          ground (arith, laws.copies to from [] c.1, same, empty, at_from) in
                        ground (
                          arith,
                          copied,
                          laws.closes p to d.1,
                          laws.closes p to (S.close to d.1).1,
                          laws.closes p from (S.close to (S.close to d.1).1).1,
                        )
                    | inr (inl (x, l)) ↦ absurd (ground arith)
                    | inr (inr l) ↦ absurd (ground arith)
                  ]
              | inr (inl (x, k)) ↦ absurd (ground arith)
              | inr (inr k) ↦ absurd (ground arith)
            ]
        | inr (inl (x, e)) ↦ absurd (ground arith)
        | inr (inr e) ↦ absurd (ground arith)
      ]

  copy_ends :
      (ctx : Context) (src dst : Bytes) (w : W)
      → (copy S b ctx src dst w).0 ≡ ok tt
      → (w' : W) × (copy S b ctx src dst w ≡ copy_file S b (full S b src) (full S b dst) w')
  unfolding copy os_error
  copy_ends ctx src dst w done =
      let looked = S.stat (full S b src) w in
      let made = make_parents S b (full S b dst) looked.1 in
      elim (Result-cases looked.0) [
        | inl (info, e) ↦ elim (Result-cases made.0) [
          | inl (_, k) ↦ (made.1, ground arith)
          | inr (inl (x, k)) ↦ absurd (ground arith)
          | inr (inr k) ↦ absurd (ground arith)
        ]
        | inr (inl (x, e)) ↦ absurd (ground arith)
        | inr (inr e) ↦ absurd (ground arith)
      ]

  -- On a file system where a file that is opened for writing is emptied, a copy leaves what is
  -- copied, and a closing changes nothing: a `Copy` onto a path that is at the same place on the disk
  -- and reports success has emptied the file.
  pub copy_onto_itself :
      (ctx : Context) (src dst : Bytes) (w : W)
      → full S b dst ≡ full S b src
      → (copy S b ctx src dst w).0 ≡ ok tt
      → content (full S b src) (copy S b ctx src dst w).1 ≡ some []
  copy_onto_itself ctx src dst w same done =
      let (w', eq) = copy_ends ctx src dst w done in
      let once : copy S b ctx src dst w ≡ copy_file S b (full S b src) (full S b src) w' =
        eq ∙ ap (λ p. copy_file S b (full S b src) p w') same in
      rw once (copy_file_itself (full S b src) w' (sym (ap (λ t. t.0) once) ∙ done))
