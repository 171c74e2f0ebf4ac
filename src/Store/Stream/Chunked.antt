-- ===== src/Store/Stream/Chunked.antt =====
-- The streaming write of src/vm/store.rs against the write of a whole content: short reads do not change
-- what is stored.
use dbvm.Common.{
  ℕ, zero, suc, ◌+◌, ◌-◌, ◌≤◌, ◌<◌, true, false, List, [], ◌∷◌, ◌++◌, map, All, Text, Bytes, ltb,
  leb, ◌==◌, length, take, drop, ◌≡◌, refl, ap, arith, Bool-cases, inl, inr, length-take,
  length-drop, length-append, append-nil, append_assoc, take-append-drop, ◌∙◌, sym,
}
use dbvm.Extern.{Extern}
use dbvm.Db.{Db, Result, ok, after, ◌>>=◌, ◌>>◌}
use dbvm.Read.{chunk_size}
use dbvm.Store.{store_piece, store_pieces, chunks_of, chunks}
use dbvm.Store.Stream.{fill, rounds, stream_chunks}
use dbvm.Store.Stream.Rounds.{stored_cases}

-- The content that reads give one after the other.
unfoldable pub joined : List Bytes → Bytes
joined [] = []
joined (r ∷ rs) = r ++ joined rs

-- A read that gives nothing is the end of the reader.
abbrev pub IsRead : Bytes → Type 0
IsRead r = 0 < length r

-- What a fill leaves: reads that make up the rest.
record Filled (room : ℕ) (rs : List Bytes) : Type 0 where
  left : List Bytes
  left_reads : All IsRead left
  rest : joined left ≡ drop room (joined rs)
  filled : fill (map ok rs) room ≡ ok (take room (joined rs), map ok left)

take-append_short :
    (n : ℕ) (a b : Bytes) → length a ≤ n → take n (a ++ b) ≡ a ++ take (n - length a) b
take-append_short n [] b le = let e : n - 0 ≡ n = omega arith in rw e refl
take-append_short zero (c ∷ a) b le = absurd (omega arith)
take-append_short (suc n) (c ∷ a) b le =
    let e : suc n - suc (length a) ≡ n - length a = omega arith in
    rw e (ap (λ t. c ∷ t) (take-append_short n a b (omega arith)))

drop-append_short : (n : ℕ) (a b : Bytes) → length a ≤ n → drop n (a ++ b) ≡ drop (n - length a) b
drop-append_short n [] b le = let e : n - 0 ≡ n = omega arith in rw e refl
drop-append_short zero (c ∷ a) b le = absurd (omega arith)
drop-append_short (suc n) (c ∷ a) b le =
    let e : suc n - suc (length a) ≡ n - length a = omega arith in
    rw e (drop-append_short n a b (omega arith))

take-append_long : (n : ℕ) (a b : Bytes) → n ≤ length a → take n (a ++ b) ≡ take n a
take-append_long zero a b le = refl
take-append_long (suc n) [] b le = absurd (omega arith)
take-append_long (suc n) (c ∷ a) b le = ap (λ t. c ∷ t) (take-append_long n a b (omega arith))

drop-append_long : (n : ℕ) (a b : Bytes) → n ≤ length a → drop n (a ++ b) ≡ drop n a ++ b
drop-append_long zero a b le = refl
drop-append_long (suc n) [] b le = absurd (omega arith)
drop-append_long (suc n) (c ∷ a) b le = drop-append_long n a b (omega arith)

drop-all : (n : ℕ) (a : Bytes) → length a ≤ n → drop n a ≡ []
drop-all zero [] le = refl
drop-all (suc n) [] le = refl
drop-all zero (c ∷ a) le = absurd (omega arith)
drop-all (suc n) (c ∷ a) le = drop-all n a (omega arith)

take-all : (n : ℕ) (a : Bytes) → length a ≤ n → take n a ≡ a
take-all zero [] le = refl
take-all (suc n) [] le = refl
take-all zero (c ∷ a) le = absurd (omega arith)
take-all (suc n) (c ∷ a) le = ap (λ t. c ∷ t) (take-all n a (omega arith))

take-empty : (n : ℕ) → take {A = ℕ} n [] ≡ []
take-empty zero = refl
take-empty (suc n) = refl

drop-empty : (n : ℕ) → drop {A = ℕ} n [] ≡ []
drop-empty zero = refl
drop-empty (suc n) = refl

fill-Filled : (room : ℕ) (rs : List Bytes) → All IsRead rs → Filled room rs
unfolding fill joined
fill-Filled room [] h = record {
  left = [];
  left_reads = tt;
  rest = sym (drop-empty room);
  filled = rw (take-empty room) refl;
}
fill-Filled room (r ∷ rs) h = elim (Bool-cases (room == 0)) [
  | inl z ↦
      let e : room ≡ 0 = ground (arith, z) in
      record { left = r ∷ rs; left_reads = h; rest = rw e refl; filled = rw e refl }
  | inr z ↦
      let some_bytes : (length r == 0) ≡ false = ground (arith, h.0) in
      elim (Bool-cases (leb room (length r))) [
        | inl f ↦
            let fits : room ≤ length r = ground (arith, f) in
            elim (Bool-cases (leb (length r) room)) [
              | inl g ↦
                  let back : length r ≤ room = ground (arith, g) in
                  record {
                    left = rs;
                    left_reads = h.1;
                    rest = rw (drop-append_long room r (joined rs) fits, drop-all room r back) refl;
                    filled =
                        rw (z, some_bytes, f, g, take-append_long room r (joined rs) fits) refl;
                  }
              | inr g ↦ record {
                left = drop room r ∷ rs;
                left_reads = (ground (arith, g, length-drop room r), h.1);
                rest = rw (drop-append_long room r (joined rs) fits) refl;
                filled = rw (z, some_bytes, f, g, take-append_long room r (joined rs) fits) refl;
              }
            ]
        | inr f ↦
            let short : length r ≤ room = ground (arith, f) in
            let more = fill-Filled (room - length r) rs h.1 in
            record {
              left = more.left;
              left_reads = more.left_reads;
              rest = rw (drop-append_short room r (joined rs) short) more.rest;
              filled =
                  rw (z, some_bytes, f, more.filled, take-append_short room r (joined rs) short)
                    refl;
            }
      ]
]

chunks_of-empty : (fuel : ℕ) → chunks_of fuel [] ≡ []
unfolding chunks_of
chunks_of-empty zero = refl
chunks_of-empty (suc fuel) = refl

rounds-joined : (rs : List Bytes) → rounds (map ok rs) ≡ length (joined rs) + 1
unfolding joined
rounds-joined [] = refl
rounds-joined (r ∷ rs) = omega (arith, rounds-joined rs, length-append r (joined rs))

-- The two parts of the content behind what was there.
parts : (n : ℕ) (whole b : Bytes) → (whole ++ take n b) ++ drop n b ≡ whole ++ b
parts n whole b =
    append_assoc whole (take n b) (drop n b) ∙ ap (λ t. whole ++ t) (take-append-drop n b)

not_zero : (k : ℕ) → 0 < k → (k == 0) ≡ false
not_zero k lt = ground arith

not_below : (k n : ℕ) → ltb k n ≡ false → n ≤ k
not_below k n e = ground (arith, e)

below : (k n : ℕ) → ltb k n ≡ true → k < n
below k n e = ground (arith, e)

taken-IsRead : (n c : ℕ) (b : Bytes) → 0 < n → 0 < length (take n (c ∷ b))
taken-IsRead n c b lt = omega (arith, lt, length-take n (c ∷ b))

short-fits : (n : ℕ) (b : Bytes) → length (take n b) < n → length b ≤ n
short-fits n b lt = omega (arith, lt, length-take n b)

-- A whole chunk leaves less.
full-leaves : (n : ℕ) (b : Bytes) → 0 < n → n ≤ length (take n b) → length (drop n b) < length b
full-leaves n b lt le = omega (arith, lt, le, length-take n b, length-drop n b)

module _ (x : Extern) (p : Text) where
  -- What storing the pieces of `b` leaves, with the content that the hash takes.
  abbrev Stored : ℕ → ℕ → Bytes → Bytes → Db → Result Bytes × Db
  Stored fuel idx whole b s =
      after (store_pieces x p idx (chunks_of fuel b) s) (λ _ t. (ok (whole ++ b), t))

  stream-Stored :
      (n fuel idx : ℕ) (whole : Bytes) (rs : List Bytes) (b : Bytes) (s : Db)
      → joined rs ≡ b
      → All IsRead rs
      → length b < n
      → length b ≤ fuel
      → stream_chunks x p n idx whole (map ok rs) s ≡ Stored fuel idx whole b s
  unfolding stream_chunks ◌>>=◌ ◌>>◌ store_pieces chunks_of
  stream-Stored zero fuel idx whole rs b s e h lt le = absurd (omega arith)
  stream-Stored (suc n) fuel idx whole rs [] s e h lt le =
      let f = fill-Filled chunk_size rs h in
      rw (f.filled, e, chunks_of-empty fuel, append-nil whole) refl
  stream-Stored (suc n) zero idx whole rs (c ∷ b) s e h lt le = absurd (omega arith)
  stream-Stored (suc n) (suc fuel) idx whole rs (c ∷ b) s e h lt le =
      let f = fill-Filled chunk_size rs h in
      let piece = take chunk_size (c ∷ b) in
      let behind = drop chunk_size (c ∷ b) in
      let some_bytes = not_zero (length piece) (taken-IsRead chunk_size c b (omega arith)) in
      elim (stored_cases (store_piece x p idx piece s)) [
        | inl (g, t, q) ↦ rw (f.filled, e, some_bytes, q) refl
        | inr (t, q) ↦ elim (Bool-cases (ltb (length piece) chunk_size)) [
          | inl short ↦
              let fits = short-fits chunk_size (c ∷ b) (below (length piece) chunk_size short) in
              let none_left : behind ≡ [] = drop-all chunk_size (c ∷ b) fits in
              let all_taken : piece ≡ c ∷ b = take-all chunk_size (c ∷ b) fits in
              rw (f.filled, e, some_bytes, q, short, none_left, chunks_of-empty fuel, all_taken)
                refl
          | inr full ↦
              let less =
                full-leaves chunk_size (c ∷ b) (omega arith)
                  (not_below (length piece) chunk_size full) in
              let next =
                stream-Stored n fuel (idx + 1) (whole ++ piece) f.left behind t
                  (f.rest ∙ ap (drop chunk_size) e) f.left_reads (omega (arith, less, lt))
                  (omega (arith, less, le)) in
              rw (f.filled, e, some_bytes, q, full, next, parts chunk_size whole (c ∷ b)) refl
        ]
      ]

  -- However a reader cuts the content into reads, none of them an error, the streaming write stores the
  -- chunks that the write of the whole content stores, with the same result when one of them cannot be
  -- stored, and returns the content for the hash.
  pub stream_chunks-store_pieces :
      (rs : List Bytes) (s : Db)
      → All IsRead rs
      → stream_chunks x p (rounds (map ok rs)) 0 [] (map ok rs) s
        ≡ after (store_pieces x p 0 (chunks (joined rs)) s) (λ _ t. (ok (joined rs), t))
  unfolding chunks
  stream_chunks-store_pieces rs s h =
      stream-Stored (rounds (map ok rs)) (length (joined rs)) 0 [] rs (joined rs) s refl h
        (omega (arith, rounds-joined rs)) (omega arith)
