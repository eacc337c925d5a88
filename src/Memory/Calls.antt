-- ===== src/Memory/Calls.antt =====
-- A client's calls in any order, one after the other. A writer is in the hands of the client: it
-- has a normalised path, and any buffer by the time when it is closed.
use omnistorage.Base.{ℕ, Bytes, ◌≢◌, Bool, List, [], ◌∷◌, Result, ok, panic, Context, All}
use omnistorage.Paths.Normal.{normalize_path}
use omnistorage.Paths.Confined.{normalize_idem}
use omnistorage.Memory.State.{Backend, new}
use omnistorage.Memory.Stream.{MemoryWriter, close_writer}
use omnistorage.Memory.Directory.{mkdir, rmdir}
use omnistorage.Memory.Transfer.{copy, move, delete, clear, close}
use omnistorage.Memory.Invariant.{
  IsValid, Keeps, copy-Keeps, delete-Keeps, rmdir-Keeps, clear-IsValid, close-Keeps,
  close_writer-Keeps, move-Keeps, mkdir-Keeps,
}

pub data Call : Type 0 where
  close_writer_of : ℕ → Bytes → Bytes → Bytes → Bool → Call
  make_directory : Context → Bytes → ℕ → Call
  remove_directory : Context → Bytes → Call
  copy_object move_object : Context → Bytes → Bytes → ℕ → Call
  delete_object : Context → Bytes → Call
  clear_all close_all : Call

abbrev pub writer_of : Bytes → Bytes → Bytes → Bool → MemoryWriter
writer_of p buffer content_type closed = record {
  path = normalize_path p;
  buffer = buffer;
  content_type = content_type;
  closed = closed;
}

unfoldable pub perform : Call → Backend → Result (Unit {0}) × Backend
perform (close_writer_of now p buffer content_type closed) b =
    let (r, s) = close_writer now (writer_of p buffer content_type closed, b) in (r, s.1)
perform (make_directory ctx p now) b = mkdir ctx p now b
perform (remove_directory ctx p) b = rmdir ctx p b
perform (copy_object ctx src dst now) b = copy ctx src dst now b
perform (move_object ctx src dst now) b = move ctx src dst now b
perform (delete_object ctx p) b = delete ctx p b
perform clear_all b = (ok tt, clear b)
perform close_all b = close b

-- Whatever it is called with, a method that may change the backend does not panic and keeps its
-- invariant: the map is there while the backend is open, no path is in it twice, and each path
-- in it is normalised.
pub perform-Keeps : (c : Call) (b : Backend) → IsValid b → Keeps (perform c b)
unfolding perform
perform-Keeps (close_writer_of now p buffer content_type closed) b v =
    close_writer-Keeps now (writer_of p buffer content_type closed) b (normalize_idem p) v
perform-Keeps (make_directory ctx p now) b v = mkdir-Keeps ctx p now b v
perform-Keeps (remove_directory ctx p) b v = rmdir-Keeps ctx p b v
perform-Keeps (copy_object ctx src dst now) b v = copy-Keeps ctx src dst now b v
perform-Keeps (move_object ctx src dst now) b v = move-Keeps ctx src dst now b v
perform-Keeps (delete_object ctx p) b v = delete-Keeps ctx p b v
perform-Keeps clear_all b v = ((λ e. cc), clear-IsValid b)
perform-Keeps close_all b v = close-Keeps b

-- The results of a sequence of calls, and the backend that it leaves.
unfoldable pub perform_all : List Call → Backend → List (Result (Unit {0})) × Backend
perform_all [] b = ([], b)
perform_all (c ∷ cs) b =
    let (r, b') = perform c b in let (rs, b'') = perform_all cs b' in (r ∷ rs, b'')

perform_all-IsValid :
    (cs : List Call) (b : Backend)
    → IsValid b
    → let (rs, b') = perform_all cs b in All (λ r. r ≢ panic) rs × IsValid b'
unfolding perform_all
perform_all-IsValid [] b v = (tt, v)
perform_all-IsValid (c ∷ cs) b v =
    let k = perform-Keeps c b v in
    let rest = perform_all-IsValid cs (perform c b).1 k.1 in ((k.0, rest.0), rest.1)

-- From a new backend no sequence of calls panics, and the backend that it leaves is valid.
pub calls_safe :
    (cs : List Call) → let (rs, b') = perform_all cs new in All (λ r. r ≢ panic) rs × IsValid b'
calls_safe cs = perform_all-IsValid cs new (record { live = λ _. λ e. cc; nodup = tt; normal = tt })
