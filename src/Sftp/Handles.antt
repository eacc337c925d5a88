-- ===== src/Sftp/Handles.antt =====
-- Which files the methods of backend/sftp/backend.go leave open on the server.
use omnistorage.Base.{
  ℕ, suc, ◌-◌, Bytes, Context, panic, Result-cases, Bool-cases, arith, ◌≡◌, ◌∙◌, inl, inr,
}
use omnistorage.Base.Counting.{one_if_ok, one_if_ok-ok, one_if_ok-err, one_if_ok-panic}
use omnistorage.Base.Int.{ℤ}
use omnistorage.Base.Action.{Action, ◌>>=◌, ◌>>◌}
use omnistorage.File.Place.{dir}
use omnistorage.Options.{ReaderConfig}
use omnistorage.Sftp.Client.{Client}
use omnistorage.Sftp.Backend.{
  Backend, guards, full, make_parents, translated, seek_to, new_reader, copy_and_close, copy_from,
  copy, rename_or_copy, move, delete,
}

-- How many files are open in a world: one that is opened or created adds to them, and closing takes
-- one from them whatever it answers. The calls of the client that are made with a file open return.
pub record CountsHandles {W : Type 0} (C : Client W) : Type 0 where
  pub opened : W → ℕ
  pub by_open :
      (p : Bytes) (w : W) → opened (C.open_file p w).1 ≡ one_if_ok (C.open_file p w).0 (opened w)
  pub by_create :
      (p : Bytes) (w : W) → opened (C.create p w).1 ≡ one_if_ok (C.create p w).0 (opened w)
  pub by_close : (f : C.Handle) (w : W) → opened (C.close_file f w).1 ≡ opened w - 1
  pub by_seek : (f : C.Handle) (i : ℤ) (w : W) → opened (C.seek f i w).1 ≡ opened w
  pub by_copy : (f g : C.Handle) (w : W) → opened (C.copy_data f g w).1 ≡ opened w
  pub by_mkdir : (p : Bytes) (w : W) → opened (C.mkdir_all p w).1 ≡ opened w
  pub by_remove : (p : Bytes) (w : W) → opened (C.remove p w).1 ≡ opened w
  pub by_rename : (p q : Bytes) (w : W) → opened (C.rename p q w).1 ≡ opened w
  pub create_returns : (p : Bytes) (w : W) → ¬ ((C.create p w).0 ≡ panic)
  pub seek_returns : (f : C.Handle) (i : ℤ) (w : W) → ¬ ((C.seek f i w).0 ≡ panic)
  pub copy_returns : (f g : C.Handle) (w : W) → ¬ ((C.copy_data f g w).0 ≡ panic)

module _ {W : Type 0} (C : Client W) (H : CountsHandles C) (b : Backend) where
  copy_and_close-opened :
      (from to : C.Handle) (w : W) → H.opened (copy_and_close C b from to w).1 ≡ H.opened w - 1 - 1
  unfolding copy_and_close
  copy_and_close-opened from to w =
      let w1 : W = (C.copy_data to from w).1 in
      let w2 : W = (C.close_file from w1).1 in
      let at1 : H.opened w1 ≡ H.opened w = H.by_copy to from w in
      let at2 : H.opened w2 ≡ H.opened w1 - 1 = H.by_close from w1 in
      let at3 : H.opened (C.close_file to w2).1 ≡ H.opened w2 - 1 = H.by_close to w2 in
      let returned : ¬ ((C.copy_data to from w).0 ≡ panic) = H.copy_returns to from w in
      ground (
        arith,
        Result-cases (C.copy_data to from w).0,
        Result-cases (C.close_file from w1).0,
        Result-cases (C.close_file to w2).0,
      )

  copy_from-opened :
      (from : C.Handle) (dst : Bytes) (w : W)
      → H.opened (copy_from C b from dst w).1 ≡ H.opened w - 1
  unfolding copy_from one_if_ok
  copy_from-opened from dst w =
      let w' : W = (C.create (full C b dst) w).1 in
      let at1 = H.by_create (full C b dst) w in
      let at2 : H.opened (C.close_file from w').1 ≡ H.opened w' - 1 = H.by_close from w' in
      elim (Result-cases (C.create (full C b dst) w).0) [
        | inl (to, e) ↦
            let at3 : H.opened w' ≡ suc (H.opened w) = one_if_ok-ok e at1 in
            let at4 = copy_and_close-opened from to w' in ground (arith, e, at3, at4)
        | inr (inl (f, e)) ↦
            let at3 : H.opened w' ≡ H.opened w = one_if_ok-err e at1 in ground (arith, e, at2, at3)
        | inr (inr e) ↦ absurd (H.create_returns (full C b dst) w e)
      ]

  make_parents-opened : (p : Bytes) (w : W) → H.opened (make_parents C b p w).1 ≡ H.opened w
  make_parents-opened p w =
      let at = H.by_mkdir (dir p) w in ground (arith, Result-cases (C.mkdir_all (dir p) w).0)

  -- A chain of two actions leaves as many files open as there were, if each does.
  >>=-opened :
      {A B : Type 0} (m : Action W A) (f : A → Action W B) (w : W)
      → H.opened (m w).1 ≡ H.opened w
      → ((a : A) (w' : W) → H.opened w' ≡ H.opened w → H.opened (f a w').1 ≡ H.opened w)
      → H.opened ((m >>= f) w).1 ≡ H.opened w
  >>=-opened m f w here then_ = elim (Result-cases (m w).0) [
    | inl (a, e) ↦
        let next : H.opened (f a (m w).1).1 ≡ H.opened w = then_ a (m w).1 here in
        ground (arith, e, next)
    | inr (inl (x, e)) ↦ ground (arith, e, here)
    | inr (inr e) ↦ ground (arith, e, here)
  ]

  guards-opened : (ctx : Context) (w : W) → H.opened (guards C b ctx w).1 ≡ H.opened w
  guards-opened ctx w = ground (arith, Bool-cases b.closed)

  open_and_copy-opened :
      (src dst : Bytes) (w : W)
      → H.opened
          ((translated C src (C.open_file (full C b src)) >>= (λ from. copy_from C b from dst)) w).1
        ≡ H.opened w
  open_and_copy-opened src dst w =
      let w' : W = (C.open_file (full C b src) w).1 in
      let at = H.by_open (full C b src) w in
      elim (Result-cases (C.open_file (full C b src) w).0) [
        | inl (from, e) ↦
            let one : H.opened w' ≡ suc (H.opened w) = one_if_ok-ok e at in
            let rest = copy_from-opened from dst w' in ground (arith, e, one, rest)
        | inr (inl (f, e)) ↦
            let same : H.opened w' ≡ H.opened w = one_if_ok-err e at in ground (arith, e, same)
        | inr (inr e) ↦
            let same : H.opened w' ≡ H.opened w = one_if_ok-panic e at in ground (arith, e, same)
      ]

  copy-opened :
      (ctx : Context) (src dst : Bytes) (w : W) → H.opened (copy C b ctx src dst w).1 ≡ H.opened w
  unfolding copy
  copy-opened ctx src dst w =
      let path = full C b dst in
      let rest : Action W (Unit {0}) =
        translated C src (C.open_file (full C b src)) >>= λ from. copy_from C b from dst in
      >>=-opened (guards C b ctx) (λ _. make_parents C b path >> rest) w (guards-opened ctx w)
        λ _ w1 e1.
          >>=-opened (make_parents C b path) (λ _. rest) w1 (make_parents-opened path w1)
            (λ _ w2 e2. open_and_copy-opened src dst w2 ∙ e2)
          ∙ e1

  delete-opened : (ctx : Context) (p : Bytes) (w : W) → H.opened (delete C b ctx p w).1 ≡ H.opened w
  unfolding delete
  delete-opened ctx p w =
      let at = H.by_remove (full C b p) w in
      ground (arith, Result-cases (C.remove (full C b p) w).0)

  rename_or_copy-opened :
      (ctx : Context) (src dst : Bytes) (w : W)
      → H.opened (rename_or_copy C b ctx src dst w).1 ≡ H.opened w
  unfolding rename_or_copy
  rename_or_copy-opened ctx src dst w =
      let from = full C b src in
      let to = full C b dst in
      let w' : W = (C.rename from to w).1 in
      let renamed : H.opened w' ≡ H.opened w = H.by_rename from to w in
      let slow =
        >>=-opened (copy C b ctx src dst) (λ _. delete C b ctx src) w' (copy-opened ctx src dst w')
          (λ _ w3 e3. delete-opened ctx src w3 ∙ e3) in
      ground (arith, slow, renamed, Result-cases (C.rename from to w).0)

  move-opened :
      (ctx : Context) (src dst : Bytes) (w : W) → H.opened (move C b ctx src dst w).1 ≡ H.opened w
  unfolding move
  move-opened ctx src dst w =
      let to = full C b dst in
      >>=-opened (guards C b ctx >> make_parents C b to) (λ _. rename_or_copy C b ctx src dst) w
        (>>=-opened (guards C b ctx) (λ _. make_parents C b to) w (guards-opened ctx w)
          λ _ w1 e1. make_parents-opened to w1 ∙ e1)
        λ _ w1 e1. rename_or_copy-opened ctx src dst w1 ∙ e1

  new_reader-opened :
      (ctx : Context) (p : Bytes) (config : ReaderConfig) (w : W)
      → H.opened (new_reader C b ctx p config w).1
        ≡ one_if_ok (new_reader C b ctx p config w).0 (H.opened w)
  unfolding new_reader one_if_ok seek_to
  new_reader-opened ctx p config w =
      let path = full C b p in
      let w' : W = (C.open_file path w).1 in
      let at = H.by_open path w in
      elim (Result-cases (C.open_file path w).0) [
        | inl (f, e) ↦
            let one : H.opened w' ≡ suc (H.opened w) = one_if_ok-ok e at in
            let w2 : W = (C.seek f config.offset w').1 in
            let moved : H.opened w2 ≡ H.opened w' = H.by_seek f config.offset w' in
            let shut : H.opened (C.close_file f w2).1 ≡ H.opened w2 - 1 = H.by_close f w2 in
            let returned = H.seek_returns f config.offset w' in
            ground
              (arith, e, one, moved, shut, returned, Result-cases (C.seek f config.offset w').0)
        | inr (inl (f, e)) ↦
            let same : H.opened w' ≡ H.opened w = one_if_ok-err e at in ground (arith, e, same)
        | inr (inr e) ↦
            let same : H.opened w' ≡ H.opened w = one_if_ok-panic e at in ground (arith, e, same)
      ]

  -- With a client that counts the files that are open on the server: whether they succeed or fail, and
  -- wherever they fail, `Copy` and `Move` leave as many files open as there were before; `NewReader`
  -- leaves one more open if it gives a reader, and none if it fails.
  pub none_leaked :
      (ctx : Context) (src dst : Bytes) (config : ReaderConfig) (w : W)
      → (H.opened (copy C b ctx src dst w).1 ≡ H.opened w)
        × (H.opened (move C b ctx src dst w).1 ≡ H.opened w)
        × (H.opened (new_reader C b ctx src config w).1
            ≡ one_if_ok (new_reader C b ctx src config w).0 (H.opened w))
  none_leaked ctx src dst config w =
      (copy-opened ctx src dst w, move-opened ctx src dst w, new_reader-opened ctx src config w)
