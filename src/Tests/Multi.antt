-- ===== src/Tests/Multi.antt =====
-- A writer to three places, one of which refuses.
use omnistorage.Base.{
  ℕ, suc, ◌-◌, ◌*◌, ◌<◌, Bytes, ◌≡◌, refl, true, false, [], ◌∷◌, ◌++◌, codes, ok, err, not_found,
  length,
}
use mathlib.Core.Path.{subst}
use omnistorage.Base.Counting.{one_if_ok}
use omnistorage.Multi.Openings.{ClosesOne, OpensOne, Left, new_multi_writer-Left}
use omnistorage.Multi.{
  Opener, new_multi_writer, check_opened, open_all, close_all, write_quorum, Sink, done,
  MultiWriter, is_write_all, is_quorum, write_loop, judge, multi_write,
}
use omnistorage.Multi.Laws.{Offered, multi_write_promise}

-- The state is all that was written.
abbrev working : Sink Bytes
working = record { write = λ p s. (ok (length p), s ++ p); close = λ s. (ok tt, s) }

abbrev refusing : Sink Bytes
refusing = record { write = λ p s. (err not_found, s); close = λ s. (ok tt, s) }

abbrev three : MultiWriter Bytes
three = record {
  writers = working ∷ refusing ∷ working ∷ [];
  mode = write_quorum;
  errs = [];
  closed = false;
}

written : (multi_write (codes "ab") three []).0 ≡ done 2
unfolding multi_write write_loop judge
written = refl

multi_write_promise_example :
    (three.closed ≡ false)
    × (k : ℕ) × Offered (codes "ab") three.writers [] k (multi_write (codes "ab") three []).1
    × (0 < k)
    × (is_write_all three.mode ≡ true → k ≡ length three.writers)
    × (is_quorum three.mode ≡ true → length three.writers < 2 * k)
multi_write_promise_example = multi_write_promise (codes "ab") three [] 2 written

-- The state is how many writers are open.
abbrev counted : Sink ℕ
counted = record { write = λ p n. (ok (length p), n); close = λ n. (ok tt, n - 1) }

abbrev opening : Opener ℕ
opening path opts n = (ok counted, suc n)

abbrev failing : Opener ℕ
failing path opts n = (err not_found, n)

abbrev still : ℕ → ℕ
still n = n

counted-ClosesOne : ClosesOne still counted
counted-ClosesOne = record { one_less = λ n. refl; returns = λ n e. cc }

opening-OpensOne : OpensOne still opening
unfolding one_if_ok
opening-OpensOne = record {
  one_more = λ path opts n. refl;
  returns = λ path opts n e. cc;
  gives = λ path opts n sink e.
      (let same : counted ≡ sink = cc in subst (ClosesOne still) same counted-ClosesOne);
}

failing-OpensOne : OpensOne still failing
unfolding one_if_ok
failing-OpensOne = record {
  one_more = λ path opts n. refl;
  returns = λ path opts n e. cc;
  gives = λ path opts n sink e. cc;
}

-- One of three writers is no majority, and it is closed.
no_majority :
    (new_multi_writer write_quorum (opening ∷ failing ∷ failing ∷ []) (codes "a") [] 4).1 ≡ 4
unfolding new_multi_writer check_opened open_all close_all
no_majority = refl

new_multi_writer-Left_example :
    Left still 4 (new_multi_writer write_quorum (opening ∷ failing ∷ failing ∷ []) (codes "a") [] 4)
new_multi_writer-Left_example =
    new_multi_writer-Left still write_quorum (opening ∷ failing ∷ failing ∷ []) (codes "a") [] 4
      (opening-OpensOne, (failing-OpensOne, (failing-OpensOne, tt)))
