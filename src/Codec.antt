-- ===== src/Codec.antt =====
-- src/vm/codec.rs: the encoding of a block, and the one way back. Dictionaries are rows of vm_dicts;
-- the process-wide cache of decoded dictionaries is left out, since a row never changes.
pub mod RoundTrip
use dbvm.Common.{
  ℕ, zero, suc, ◌+◌, ◌-◌, ◌*◌, ◌^◌, Bool, true, false, ◌&&◌, Option, none, some, List, [], ◌∷◌,
  ◌++◌, Bytes, ltb, leb, ◌==◌, if◌then◌else◌, length, find, max,
}
use dbvm.Db.{DictRow, Db, Tx, Result, ok, err, Error, missing_dictionary, undecodable}
use dbvm.Extern.{Extern, FrameSize, not_a_frame, unknown_size, sized}

-- The next id of a table: one more than the largest.
unfoldable pub next_dict_id : List DictRow → ℕ
next_dict_id [] = 1
next_dict_id (d ∷ ds) = max (d.id + 1) (next_dict_id ds)

-- `SELECT ... FROM vm_dicts ORDER BY id DESC LIMIT 1`.
unfoldable pub latest_row : List DictRow → Option DictRow
latest_row [] = none
latest_row (d ∷ ds) = elim (latest_row ds) [
  | none ↦ some d
  | some e ↦ if ltb e.id d.id then some d else some e
]

unfoldable pub vm_get_dict : List DictRow → Option Bytes
unfolding latest_row
vm_get_dict ds = elim (latest_row ds) [ none ↦ none | some d ↦ some d.dict ]

unfoldable pub vm_latest_dict_id : List DictRow → Option ℕ
unfolding latest_row
vm_latest_dict_id ds = elim (latest_row ds) [ none ↦ none | some d ↦ some d.id ]

-- Append a new dictionary; no row is overwritten.
unfoldable pub vm_set_dict : Bytes → ℕ → Tx ℕ
unfolding next_dict_id
vm_set_dict dict samples s =
    let id = next_dict_id s.vm_dicts in
    (
      ok id,
      record s { vm_dicts = s.vm_dicts ++ record { id = id; dict = dict; samples = samples } ∷ [] },
    )

-- `SELECT dict FROM vm_dicts WHERE id=?1`.
unfoldable pub find_dict : ℕ → List DictRow → Option Bytes
find_dict id [] = none
find_dict id (d ∷ ds) = if d.id == id then some d.dict else find_dict id ds

unfoldable pub dict_by_id : List DictRow → ℕ → Result Bytes
unfolding find_dict
dict_by_id ds id = elim (find_dict id ds) [ none ↦ err (missing_dictionary id) | some d ↦ ok d ]

-- The dictionary that new writes use.
unfoldable pub latest_dict : List DictRow → Option (ℕ × Bytes)
unfolding vm_latest_dict_id dict_by_id
latest_dict ds = elim (vm_latest_dict_id ds) [
  | none ↦ none
  | some id ↦ elim (dict_by_id ds id) [ ok d ↦ some (id, d) | err e ↦ none ]
]

pub data Effort : Type 0 where
  archive interactive : Effort

-- A stored block: its bytes, its flag, and the dictionary of flag 3.
pub record Encoded : Type 0 where
  pub body : Bytes
  pub flag : ℕ
  pub dict_id : ℕ

abbrev pub level_for : ℕ → ℕ
level_for n = if ltb (100 * 1024) n then 19 else if ltb (16 * 1024) n then 6 else 3

module _ (x : Extern) where
  unfoldable pub compress_bytes : Bytes → Option Bytes
  compress_bytes b =
      if ltb (length b) 1024 then none else elim (x.zstd_compress (level_for (length b)) b) [
        | none ↦ none
        | some c ↦ if ltb (length c + 64) (length b) then some c else none
      ]

  -- A compressed form is taken if it saves `margin` bytes and beats the best one so far.
  abbrev pub better : Bytes → ℕ → Option Encoded → Option Bytes → ℕ → ℕ → Option Encoded
  better b margin best none flag id = best
  better b margin none (some c) flag id =
      if ltb (length c + margin) (length b)
      then some (record { body = c; flag = flag; dict_id = id })
      else none
  better b margin (some e) (some c) flag id =
      if ltb (length c + margin) (length b) && ltb (length c) (length e.body)
      then some (record { body = c; flag = flag; dict_id = id })
      else some e

  -- `dict.filter(|(_, d)| d.len() >= 512)`.
  abbrev pub usable : Option (ℕ × Bytes) → Option (ℕ × Bytes)
  usable none = none
  usable (some (id, d)) = if leb 512 (length d) then some (id, d) else none

  -- A block of less than 512 bytes: only a dictionary helps.
  unfoldable pub compress_tiny : Bytes → Option (ℕ × Bytes) → Option Encoded
  compress_tiny b none = none
  compress_tiny b (some (id, d)) = better b 32 none (x.zstd_compress_dict 3 d b) 3 id

  abbrev pub with_dict : ℕ → Bytes → Option (ℕ × Bytes) → Option Encoded
  with_dict level b none = none
  with_dict level b (some (id, d)) =
      if ltb (length b) 16384 then better b 32 none (x.zstd_compress_dict level d b) 3 id else none

  -- `compress(data, level).or_else(|_| compress(data, 3))`.
  abbrev pub plain : ℕ → Bytes → Option Bytes
  plain level b = elim (x.zstd_compress level b) [ none ↦ x.zstd_compress 3 b | some c ↦ some c ]

  abbrev pub again : Bytes → Effort → Option Encoded → Option Encoded
  again b interactive best = best
  again b archive best =
      if ltb 16384 (length b) then better b 64 best (x.zstd_compress 19 b) 2 0 else best

  abbrev pub level_of : Effort → ℕ → ℕ
  level_of interactive n = 3
  level_of archive n = level_for n

  unfoldable pub compress_large : Bytes → Option (ℕ × Bytes) → Effort → Option Encoded
  compress_large b dict effort =
      let level = level_of effort (length b) in
      again b effort (better b 64 (with_dict level b dict) (plain level b) 2 0)

  -- The encoding decision: `none` is to store the block as it is.
  unfoldable pub compress_with_effort : Bytes → Option (ℕ × Bytes) → Effort → Option Encoded
  unfolding compress_tiny compress_large
  compress_with_effort b dict effort =
      if ltb (length b) 512
      then compress_tiny b (usable dict)
      else compress_large b (usable dict) effort

  unfoldable pub compress_with_dict : Bytes → Option (ℕ × Bytes) → Option Encoded
  unfolding compress_with_effort
  compress_with_dict b dict = compress_with_effort b dict archive

  unfoldable pub zstd_frame_size : Bytes → Result ℕ
  zstd_frame_size b = elim (x.zstd_frame_size b) [
    | sized n ↦ ok n
    | unknown_size ↦ err undecodable
    | not_a_frame ↦ err undecodable
  ]

  -- The output is refused unless it has the declared size.
  abbrev pub exactly : ℕ → Option Bytes → Result Bytes
  exactly n none = err undecodable
  exactly n (some out) = if length out == n then ok out else err undecodable

  unfoldable pub decompress_bytes_zstd : Bytes → Result Bytes
  unfolding zstd_frame_size
  decompress_bytes_zstd b = elim (zstd_frame_size b) [
    | err e ↦ err e
    | ok n ↦ exactly n (x.zstd_decompress b n)
  ]

  unfoldable pub decompress_bytes_zstd_with_dict : Bytes → Bytes → Result Bytes
  unfolding zstd_frame_size
  decompress_bytes_zstd_with_dict b dict = elim (zstd_frame_size b) [
    | err e ↦ err e
    | ok n ↦ exactly n (x.zstd_decompress_dict dict b n)
  ]

  abbrev pub has_zstd_magic : Bytes → Bool
  has_zstd_magic (a ∷ b ∷ c ∷ d ∷ rest) = a == 0x28 && b == 0xb5 && c == 0x2f && d == 0xfd
  has_zstd_magic _ = false

  abbrev pub has_gzip_magic : Bytes → Bool
  has_gzip_magic (a ∷ b ∷ rest) = a == 0x1f && b == 0x8b
  has_gzip_magic _ = false

  abbrev ungzip : Bytes → Result Bytes
  ungzip b = elim (x.gunzip b) [ none ↦ err undecodable | some out ↦ ok out ]

  abbrev pub detect_gzip : Bytes → Bytes
  detect_gzip b = if has_gzip_magic b then elim (x.gunzip b) [ none ↦ b | some out ↦ out ] else b

  -- Flag 0: the format is looked for in the bytes.
  unfoldable pub auto_detect : Bytes → Bytes
  unfolding decompress_bytes_zstd
  auto_detect b =
      if has_zstd_magic b
      then elim (decompress_bytes_zstd b) [ ok v ↦ v | err e ↦ detect_gzip b ]
      else detect_gzip b

  -- Decode without a database; flag 3 is refused.
  unfoldable pub decompress_bytes_raw : Bytes → ℕ → Result Bytes
  unfolding auto_detect decompress_bytes_zstd
  decompress_bytes_raw b compressed =
      if compressed == 3
      then err undecodable
      else if compressed == 2
      then decompress_bytes_zstd b
      else if compressed == 1
      then ungzip b
      else ok (auto_detect b)

  -- Decode one stored block, with the dictionary that it was written with.
  unfoldable pub decode_block : List DictRow → Bytes → ℕ → ℕ → Result Bytes
  unfolding dict_by_id decompress_bytes_zstd_with_dict decompress_bytes_raw
  decode_block ds body flag dict_id =
      if flag == 3
      then elim (dict_by_id ds dict_id) [
        | err e ↦ err e
        | ok d ↦ decompress_bytes_zstd_with_dict body d
      ]
      else decompress_bytes_raw body flag
