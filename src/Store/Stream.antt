-- ===== src/Store/Stream.antt =====
-- The streaming write of src/vm/store.rs: a reader is the list of what its reads give, a short read or
-- an error each, and nothing more at its end.
pub mod Rounds
pub mod Chunked
use dbvm.Common.{
  ℕ, zero, suc, ◌+◌, ◌-◌, Bool, not, ◌&&◌, ◌||◌, List, [], ◌∷◌, ◌++◌, Text, Bytes, ltb, leb, ◌==◌,
  if◌then◌else◌, length, take, drop,
}
use dbvm.Extern.{Extern}
use dbvm.Db.{Db, Tx, Result, ok, err, out_of_rounds, ◌>>=◌, ◌>>◌, pure, fail, lift, in_savepoint}
use dbvm.Db.Nodes.{upsert_row, update_row_quiet}
use dbvm.Db.Refs.{IsCounted}
use dbvm.Db.Keeps.{Keeps, then-Keeps, bind-Keeps, lift-Keeps, if-Keeps, in_savepoint-Keeps}
use dbvm.Db.Chunks.{of_path, delete_chunks}
use dbvm.Db.Counted.{delete_chunks-IsCounted, upsert_row-IsCounted, update_row_quiet-IsCounted}
use dbvm.Read.{chunk_size}
use dbvm.Store.{store_piece, file_row}
use dbvm.Store.Counted.{store_piece-IsCounted}
use dbvm.Db.{FsRow}

-- `fill one full chunk`: what is read, and the reads that are left. A read that gives nothing ends the
-- loop, one that gives more than there is room for leaves the rest.
unfoldable pub fill : List (Result Bytes) → ℕ → Result (Bytes × List (Result Bytes))
fill [] room = ok ([], [])
fill (err e ∷ rs) room = if room == 0 then ok ([], err e ∷ rs) else err e
fill (ok r ∷ rs) room =
    let full : Result (Bytes × List (Result Bytes)) =
      ok (take room r, if leb (length r) room then rs else ok (drop room r) ∷ rs) in
    let filled : Result (Bytes × List (Result Bytes)) = elim (fill rs (room - length r)) [
      | err e ↦ err e
      | ok more ↦ ok (r ++ more.0, more.1)
    ] in
    if room == 0
    then ok ([], ok r ∷ rs)
    else if length r == 0
    then ok ([], rs)
    else if leb room (length r)
    then full
    else filled

-- Two nanosecond stamps agree, or one of them is unknown.
abbrev pub ns_matches : ℕ → ℕ → Bool
ns_matches stored_ns host_ns = stored_ns == 0 || host_ns == 0 || stored_ns == host_ns

-- The columns that an upsert takes from the new row: all but the path, which is the same.
abbrev at_path : FsRow → FsRow → FsRow
at_path new old = record new { path = old.path }

-- The bytes and reads that are left, and one: more than the rounds of the loop.
abbrev pub rounds : List (Result Bytes) → ℕ
rounds [] = 1
rounds (err e ∷ rs) = rounds rs
rounds (ok r ∷ rs) = length r + rounds rs

module _ (x : Extern) where
  -- The loop over the chunks: the rounds left, the content that the hash has taken, the reads left.
  unfoldable pub stream_chunks : Text → ℕ → ℕ → Bytes → List (Result Bytes) → Tx Bytes
  unfolding fill store_piece
  stream_chunks p zero idx whole reads = fail out_of_rounds
  stream_chunks p (suc n) idx whole reads = do
    (piece, rest) ← lift (fill reads chunk_size)
    if length piece == 0 then pure whole else (do
      store_piece x p idx piece
      if ltb (length piece) chunk_size
          then pure (whole ++ piece)
          else stream_chunks p n (idx + 1) (whole ++ piece) rest)

  abbrev streamed : Text → ℕ → ℕ → ℕ → Bytes → FsRow
  streamed p mode mtime mtime_ns whole =
      file_row p mode mtime mtime_ns (length whole) (x.sha256 whole)

  -- Streaming file write, with the host's nanosecond stamp; the result is the size written.
  unfoldable pub fs_put_file_stream_ns : Text → ℕ → ℕ → ℕ → List (Result Bytes) → Tx ℕ
  unfolding in_savepoint delete_chunks stream_chunks upsert_row
  fs_put_file_stream_ns p mode mtime mtime_ns reads = in_savepoint (do
    delete_chunks (of_path p)
    whole ← stream_chunks p (rounds reads) 0 [] reads
    upsert_row (streamed p mode mtime mtime_ns whole)
        (at_path (streamed p mode mtime mtime_ns whole))
    pure (length whole))

  -- Write a host file that may change while it is read: `before_ns` and `after_ns` are its stamps.
  unfoldable pub write_file_checked : Text → ℕ → ℕ → ℕ → ℕ → List (Result Bytes) → Tx ℕ
  unfolding fs_put_file_stream_ns update_row_quiet
  write_file_checked p mode mtime before_ns after_ns reads = do
    n ← fs_put_file_stream_ns p mode mtime before_ns reads
    let steady = before_ns == after_ns && not (before_ns == 0)
    (if steady then pure tt else update_row_quiet p (λ r. record r { mtime_ns = 0 }))
    pure n

  stream_chunks-IsCounted :
      (p : Text) (n idx : ℕ) (whole : Bytes) (reads : List (Result Bytes))
      → Keeps IsCounted (stream_chunks p n idx whole reads)
  unfolding stream_chunks
  stream_chunks-IsCounted p zero idx whole reads s h = h
  stream_chunks-IsCounted p (suc n) idx whole reads s h =
      bind-Keeps IsCounted (lift (fill reads chunk_size)) _
        (lift-Keeps IsCounted (fill reads chunk_size))
        (λ (piece, rest).
          if-Keeps IsCounted (length piece == 0) (pure whole) _ (λ t q. q)
            (then-Keeps IsCounted (store_piece x p idx piece) _
              (store_piece-IsCounted x p idx piece)
              (if-Keeps IsCounted (ltb (length piece) chunk_size) (pure (whole ++ piece))
                (stream_chunks p n (idx + 1) (whole ++ piece) rest) (λ t q. q)
                (stream_chunks-IsCounted p n (idx + 1) (whole ++ piece) rest))))
        s h

  fs_put_file_stream_ns-IsCounted :
      (p : Text) (mode mtime mtime_ns : ℕ) (reads : List (Result Bytes))
      → Keeps IsCounted (fs_put_file_stream_ns p mode mtime mtime_ns reads)
  unfolding fs_put_file_stream_ns
  fs_put_file_stream_ns-IsCounted p mode mtime mtime_ns reads = in_savepoint-Keeps IsCounted _ (
      then-Keeps IsCounted (delete_chunks (of_path p)) _ (delete_chunks-IsCounted (of_path p)) (
        bind-Keeps IsCounted (stream_chunks p (rounds reads) 0 [] reads) _
          (stream_chunks-IsCounted p (rounds reads) 0 [] reads)
          (λ whole.
            let row = streamed p mode mtime mtime_ns whole in
            then-Keeps IsCounted (upsert_row row (at_path row)) (pure (length whole))
              (upsert_row-IsCounted row (at_path row)) (λ t q. q))))

  -- Writing a host file that is read piece by piece keeps the count of the references, also when a read
  -- fails on the way, and whether or not the file changed while it was read.
  pub write_file_checked-IsCounted :
      (p : Text) (mode mtime before_ns after_ns : ℕ) (reads : List (Result Bytes)) (s : Db)
      → IsCounted s
      → IsCounted (write_file_checked p mode mtime before_ns after_ns reads s).1
  unfolding write_file_checked
  write_file_checked-IsCounted p mode mtime before_ns after_ns reads =
      bind-Keeps IsCounted (fs_put_file_stream_ns p mode mtime before_ns reads) _
        (fs_put_file_stream_ns-IsCounted p mode mtime before_ns reads)
        (λ n.
          then-Keeps IsCounted _ (pure n)
            (if-Keeps IsCounted _ (pure tt) (update_row_quiet p _) (λ t q. q)
              (update_row_quiet-IsCounted p _))
            (λ t q. q))
