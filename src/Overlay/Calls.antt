-- ===== src/Overlay/Calls.antt =====
-- The calls of src/overlay.rs that write, and what one that fails leaves.
use dbvm.Common.{ℕ, Bool, true, false, Text, Bytes, length, ◌==◌, if◌then◌else◌, ◌≡◌, refl, arith}
use dbvm.Extern.{Extern}
use dbvm.Db.{Db, Result, ok, err, Error}
use dbvm.Overlay.{Overlay, write, mkdir, make_symlink, remove, commit, checked}
use dbvm.Overlay.Ranged.{write_range, truncate_range}

pub data Call : Type 0 where
  write_call : Text → Bytes → ℕ → ℕ → Call
  mkdir_call remove_call : Text → Call
  symlink_call : Text → Text → Call
  write_range_call : Text → ℕ → Bytes → ℕ → Call
  truncate_call : Text → ℕ → ℕ → Call

unfoldable pub perform : Extern → Call → Overlay → Result (Unit {0}) × Overlay
unfolding write mkdir remove make_symlink write_range truncate_range
perform x (write_call p b mode mtime) o = write x o p b mode mtime
perform x (mkdir_call p) o = mkdir o p
perform x (remove_call p) o = remove o p
perform x (symlink_call p target) o = make_symlink o p target
perform x (write_range_call p off b mtime) o = write_range x o p off b mtime
perform x (truncate_call p size mtime) o = truncate_range x o p size mtime

-- A result that is an error leaves the overlay.
record IsSafe (o : Overlay) (r : Result (Unit {0}) × Overlay) : Type 0 where
  failed : (e : Error) → r.0 ≡ err e → r.1 ≡ o

commit-IsSafe : (o o' : Overlay) (r : Result (Unit {0}) × Db) → IsSafe o (commit o o' r)
unfolding commit
commit-IsSafe o o' (ok u, s) = record { failed = λ f t. absurd (ground (arith, t)) }
commit-IsSafe o o' (err f, s) = record { failed = λ _ _. refl }

checked-IsSafe :
    (o : Overlay) (r : Result (Unit {0})) (done : Result (Unit {0}) × Overlay)
    → IsSafe o done
    → IsSafe o (checked r done o)
unfolding checked
checked-IsSafe o (ok u) done h = h
checked-IsSafe o (err f) done h = record { failed = λ _ _. refl }

skip-IsSafe :
    (o : Overlay) (b : Bool) (done : Result (Unit {0}) × Overlay)
    → IsSafe o done
    → IsSafe o (if b then (ok tt, o) else done)
skip-IsSafe o true done h = record { failed = λ _ _. refl }
skip-IsSafe o false done h = h

perform-IsSafe : (x : Extern) (c : Call) (o : Overlay) → IsSafe o (perform x c o)
unfolding perform write mkdir remove make_symlink write_range truncate_range
perform-IsSafe x (write_call p b mode mtime) o = checked-IsSafe o _ _ (commit-IsSafe o _ _)
perform-IsSafe x (mkdir_call p) o = checked-IsSafe o _ _ (commit-IsSafe o _ _)
perform-IsSafe x (remove_call p) o = checked-IsSafe o _ _ (commit-IsSafe o _ _)
perform-IsSafe x (symlink_call p target) o = checked-IsSafe o _ _ (commit-IsSafe o _ _)
perform-IsSafe x (write_range_call p off b mtime) o = checked-IsSafe o _ _ (
    skip-IsSafe o (length b == 0) _
      (checked-IsSafe o _ _ (checked-IsSafe o _ _ (commit-IsSafe o _ _))))
perform-IsSafe x (truncate_call p size mtime) o = checked-IsSafe o _ _ (commit-IsSafe o _ _)

-- A call that writes to the overlay and returns an error leaves the Delta, the Base and the whiteouts
-- as they were.
pub perform_error :
    (x : Extern) (c : Call) (o : Overlay) (e : Error)
    → (perform x c o).0 ≡ err e
    → (perform x c o).1 ≡ o
perform_error x c o = (perform-IsSafe x c o).failed
