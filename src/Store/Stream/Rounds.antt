-- ===== src/Store/Stream/Rounds.antt =====
-- The loop of the streaming write of src/vm/store.rs: its rounds.
use dbvm.Common.{
  ℕ, zero, suc, ◌+◌, ◌-◌, ◌≤◌, ◌<◌, List, [], ◌∷◌, ◌++◌, Text, Bytes, ltb, leb, ◌==◌, if◌then◌else◌,
  length, take, drop, ◌≡◌, refl, arith, true, ◌⊎◌, Bool-cases, inl, inr, length-take, length-drop,
  length-append,
}
use dbvm.Extern.{Extern}
use dbvm.Db.{Db, Error, Result, ok, err, ◌>>=◌, ◌>>◌}
use dbvm.Db.Keeps.{Result-cases}
use dbvm.Read.{chunk_size}
use dbvm.Store.{store_piece}
use dbvm.Store.Stream.{fill, rounds, stream_chunks}

abbrev Filled : Type 0
Filled = Result (Bytes × List (Result Bytes))

-- A piece and the reads behind it take no more than there was.
IsWithin : ℕ → Filled → Type 0
IsWithin n (err e) = Unit
IsWithin n (ok q) = rounds q.1 + length q.0 ≤ n

more-IsWithin :
    (r : Bytes) (n : ℕ) (q : Filled)
    → IsWithin n q
    → IsWithin
        (length r + n)
        (elim q as (λ _. Filled) [ err e ↦ err e | ok more ↦ ok (r ++ more.0, more.1) ])
unfolding IsWithin
more-IsWithin r n (err e) h = tt
more-IsWithin r n (ok q) h = omega (arith, h, length-append r q.0)

full-IsWithin :
    (r : Bytes) (rs : List (Result Bytes)) (room : ℕ)
    → IsWithin
        (length r + rounds rs)
        (ok (take room r, if leb (length r) room then rs else ok (drop room r) ∷ rs))
unfolding IsWithin
full-IsWithin r rs room = ground (arith, length-take room r, length-drop room r)

fill-IsWithin : (reads : List (Result Bytes)) (room : ℕ) → IsWithin (rounds reads) (fill reads room)
unfolding fill IsWithin
fill-IsWithin [] room = omega arith
fill-IsWithin (err f ∷ rs) room = elim (Bool-cases (room == 0)) [
  | inl e ↦ rw e (omega arith)
  | inr e ↦ rw e tt
]
fill-IsWithin (ok r ∷ rs) room = elim (Bool-cases (room == 0)) [
  | inl a ↦ rw a (omega arith)
  | inr a ↦ elim (Bool-cases (length r == 0)) [
    | inl b ↦ rw (a, b) (omega arith)
    | inr b ↦ elim (Bool-cases (leb room (length r))) [
      | inl c ↦ rw (a, b, c) (full-IsWithin r rs room)
      | inr c ↦
          rw (a, b, c)
            (more-IsWithin r (rounds rs) (fill rs (room - length r))
              (fill-IsWithin rs (room - length r)))
    ]
  ]
]

one_round : (reads : List (Result Bytes)) → 0 < rounds reads
one_round [] = omega arith
one_round (err e ∷ rs) = one_round rs
one_round (ok r ∷ rs) = omega (arith, one_round rs)

-- The loop of the code, which has no count of rounds: what it makes of the reads, started at chunk
-- `idx` with `whole` behind it. A derivation is a run that ends.
pub data Streams (x : Extern) (p : Text)
    : ℕ → Bytes → List (Result Bytes) → Db → Result Bytes × Db → Type 0 where
  read_fails :
      {idx : ℕ} {whole : Bytes} {reads : List (Result Bytes)} {s : Db} (e : Error)
      → fill reads chunk_size ≡ err e
      → Streams x p idx whole reads s (err e, s)
  at_end :
      {idx : ℕ} {whole : Bytes} {reads : List (Result Bytes)} {s : Db} (rest : List (Result Bytes))
      → fill reads chunk_size ≡ ok ([], rest)
      → Streams x p idx whole reads s (ok whole, s)
  store_fails :
      {idx : ℕ} {whole : Bytes} {reads : List (Result Bytes)} {s : Db} (piece : Bytes)
      (rest : List (Result Bytes)) (e : Error) (t : Db)
      → fill reads chunk_size ≡ ok (piece, rest)
      → 0 < length piece
      → store_piece x p idx piece s ≡ (err e, t)
      → Streams x p idx whole reads s (err e, t)
  short_chunk :
      {idx : ℕ} {whole : Bytes} {reads : List (Result Bytes)} {s : Db} (piece : Bytes)
      (rest : List (Result Bytes)) (t : Db)
      → fill reads chunk_size ≡ ok (piece, rest)
      → 0 < length piece
      → length piece < chunk_size
      → store_piece x p idx piece s ≡ (ok tt, t)
      → Streams x p idx whole reads s (ok (whole ++ piece), t)
  full_chunk :
      {idx : ℕ} {whole : Bytes} {reads : List (Result Bytes)} {s : Db} (piece : Bytes)
      (rest : List (Result Bytes)) (t : Db) (r : Result Bytes × Db)
      → fill reads chunk_size ≡ ok (piece, rest)
      → chunk_size ≤ length piece
      → store_piece x p idx piece s ≡ (ok tt, t)
      → Streams x p (idx + 1) (whole ++ piece) rest t r
      → Streams x p idx whole reads s r

empty_piece : (b : Bytes) → (length b == 0) ≡ true → b ≡ []
empty_piece [] e = refl
empty_piece (c ∷ b) e = absurd (ground (arith, e))

pub stored_cases :
    (r : Result (Unit {0}) × Db)
    → ((e : Error) × (t : Db) × (r ≡ (err e, t))) ⊎ ((t : Db) × (r ≡ (ok tt, t)))
stored_cases (err e, t) = inl (e, t, refl)
stored_cases (ok u, t) = inr (t, refl)

module _ (x : Extern) where
  -- Whatever the reads give, short reads and errors among them, and wherever it starts, the loop of the
  -- streaming write ends, and with as many rounds as `rounds` counts it has the result of that run.
  pub stream_chunks-rounds :
      (p : Text) (n idx : ℕ) (whole : Bytes) (reads : List (Result Bytes)) (s : Db)
      → rounds reads ≤ n
      → Streams x p idx whole reads s (stream_chunks x p n idx whole reads s)
  unfolding stream_chunks ◌>>=◌ ◌>>◌ IsWithin
  stream_chunks-rounds p zero idx whole reads s le = absurd (omega (arith, one_round reads))
  stream_chunks-rounds p (suc n) idx whole reads s le =
      elim (Result-cases (fill reads chunk_size)) [
        | inl (e, t) ↦ rw t (read_fails e t)
        | inr ((piece, rest), t) ↦ elim (Bool-cases (length piece == 0)) [
          | inl b ↦ rw (t, b) (at_end rest (rw (← empty_piece piece b) t))
          | inr b ↦
              let some_bytes : 0 < length piece = ground (arith, b) in
              elim (stored_cases (store_piece x p idx piece s)) [
                | inl (e, u, f) ↦ rw (t, b, f) (store_fails piece rest e u t some_bytes f)
                | inr (u, f) ↦ elim (Bool-cases (ltb (length piece) chunk_size)) [
                  | inl c ↦
                      rw (t, b, f, c) (short_chunk piece rest u t some_bytes (ground (arith, c)) f)
                  | inr c ↦
                      let taken : rounds rest + length piece ≤ rounds reads =
                        rw t at (fill-IsWithin reads chunk_size) in
                      let enough : rounds rest ≤ n = ground (arith, taken, le, c) in
                      rw (t, b, f, c)
                        (full_chunk piece rest u _ t (ground (arith, c)) f
                          (stream_chunks-rounds p n (idx + 1) (whole ++ piece) rest u enough))
                ]
              ]
        ]
      ]
