-- ===== src/Codec/RoundTrip.antt =====
-- What the encoder stores, the decoder gives back.
use dbvm.Common.{
  ℕ, ◌+◌, ◌<◌, true, false, ◌&&◌, Option, none, some, List, Bytes, ltb, leb, length, ◌≡◌, refl,
  subst, arith, Bool-cases, Option-cases, inl, inr,
}
use dbvm.Db.{DictRow, ok}
use dbvm.Extern.{Extern, IsLossless}
use dbvm.Codec.{
  Effort, archive, interactive, Encoded, find_dict, dict_by_id, better, usable, compress_tiny,
  with_dict, plain, again, level_of, compress_large, compress_with_effort, zstd_frame_size,
  decompress_bytes_zstd, decompress_bytes_zstd_with_dict, has_zstd_magic, has_gzip_magic,
  auto_detect, decompress_bytes_raw, decode_block,
}

-- What holds of every block that a step of the encoder can choose.
abbrev AllOf {ℓ} : (Encoded → Type ℓ) → Option Encoded → Type ℓ
AllOf P none = Unit
AllOf P (some e) = P e

module _ (x : Extern) (law : IsLossless x) (ds : List DictRow) (b : Bytes) where
  -- A good block: it is decoded to `b`, and it is shorter.
  record IsGood (e : Encoded) : Type 0 where
    back : decode_block x ds e.body e.flag e.dict_id ≡ ok b
    shorter : length e.body + 32 < length b

  better-AllOf :
      (margin : ℕ) (best : Option Encoded) (c : Option Bytes) (flag id : ℕ)
      → AllOf IsGood best
      → ((body : Bytes) → c ≡ some body → decode_block x ds body flag id ≡ ok b)
      → leb 32 margin ≡ true
      → AllOf IsGood (better x b margin best c flag id)
  better-AllOf margin best none flag id h back m = h
  better-AllOf margin none (some c) flag id h back m =
      elim (Bool-cases (ltb (length c + margin) (length b))) [
        | inl e ↦ rw e (record { back = back c refl; shorter = ground (arith, e, m) })
        | inr e ↦ rw e tt
      ]
  better-AllOf margin (some d) (some c) flag id h back m =
      elim (Bool-cases (ltb (length c + margin) (length b) && ltb (length c) (length d.body))) [
        | inl e ↦ rw e (record { back = back c refl; shorter = ground (arith, e, m) })
        | inr e ↦ rw e h
      ]

  decode-plain :
      (level : ℕ) (c : Bytes) → x.zstd_compress level b ≡ some c → decode_block x ds c 2 0 ≡ ok b
  unfolding decode_block decompress_bytes_raw decompress_bytes_zstd zstd_frame_size
  decode-plain level c h = ground (arith, law.plain_size level b c h, law.plain_back level b c h)

  decode-dict :
      (level id : ℕ) (d c : Bytes)
      → find_dict id ds ≡ some d
      → x.zstd_compress_dict level d b ≡ some c
      → decode_block x ds c 3 id ≡ ok b
  unfolding decode_block dict_by_id decompress_bytes_zstd_with_dict zstd_frame_size
  decode-dict level id d c f h =
      ground (arith, f, law.dict_size level d b c h, law.dict_back level d b c h)

  abbrev Known : Option (ℕ × Bytes) → Type 0
  Known none = Unit
  Known (some (id, d)) = find_dict id ds ≡ some d

  usable-Known : (dict : Option (ℕ × Bytes)) → Known dict → Known (usable x dict)
  usable-Known none h = tt
  usable-Known (some (id, d)) h = elim (Bool-cases (leb 512 (length d))) [
    | inl e ↦ rw e h
    | inr e ↦ rw e tt
  ]

  tiny-AllOf : (dict : Option (ℕ × Bytes)) → Known dict → AllOf IsGood (compress_tiny x b dict)
  unfolding compress_tiny
  tiny-AllOf none h = tt
  tiny-AllOf (some (id, d)) h =
      better-AllOf 32 none (x.zstd_compress_dict 3 d b) 3 id tt (λ c e. decode-dict 3 id d c h e)
        refl

  with_dict-AllOf :
      (level : ℕ) (dict : Option (ℕ × Bytes)) → Known dict → AllOf IsGood (with_dict x level b dict)
  with_dict-AllOf level none h = tt
  with_dict-AllOf level (some (id, d)) h = elim (Bool-cases (ltb (length b) 16384)) [
    | inl e ↦ rw e (
        better-AllOf 32 none (x.zstd_compress_dict level d b) 3 id tt
          (λ c f. decode-dict level id d c h f) refl)
    | inr e ↦ rw e tt
  ]

  decode-plain_or :
      (level : ℕ) (c : Bytes) → plain x level b ≡ some c → decode_block x ds c 2 0 ≡ ok b
  decode-plain_or level c h = elim (Option-cases (x.zstd_compress level b)) [
    | inl n ↦ decode-plain 3 c (ground (arith, n, h))
    | inr (d, s) ↦ decode-plain level c (ground (arith, s, h))
  ]

  again-AllOf :
      (effort : Effort) (best : Option Encoded)
      → AllOf IsGood best
      → AllOf IsGood (again x b effort best)
  again-AllOf interactive best h = h
  again-AllOf archive best h = elim (Bool-cases (ltb 16384 (length b))) [
    | inl e ↦
        rw e (better-AllOf 64 best (x.zstd_compress 19 b) 2 0 h (λ c f. decode-plain 19 c f) refl)
    | inr e ↦ rw e h
  ]

  encoder-AllOf :
      (dict : Option (ℕ × Bytes)) (effort : Effort)
      → Known dict
      → AllOf IsGood (compress_with_effort x b dict effort)
  unfolding compress_with_effort compress_large
  encoder-AllOf dict effort h = elim (Bool-cases (ltb (length b) 512)) [
    | inl e ↦ rw e (tiny-AllOf (usable x dict) (usable-Known dict h))
    | inr e ↦
        let level = level_of x effort (length b) in
        rw e (
          again-AllOf effort _ (
            better-AllOf 64 _ (plain x level b) 2 0
              (with_dict-AllOf level (usable x dict) (usable-Known dict h))
              (λ c f. decode-plain_or level c f) refl))
  ]

-- A block that the encoder compressed is decoded to the bytes it was made from, by a database whose
-- vm_dicts holds the dictionary that was offered, if one was; and it is more than 32 bytes shorter.
pub decode-compress :
    (x : Extern)
    → IsLossless x
    → (ds : List DictRow) (b : Bytes) (dict : Option (ℕ × Bytes)) (effort : Effort) (e : Encoded)
    → ((id : ℕ) (d : Bytes) → dict ≡ some (id, d) → find_dict id ds ≡ some d)
    → compress_with_effort x b dict effort ≡ some e
    → (decode_block x ds e.body e.flag e.dict_id ≡ ok b) × (length e.body + 32 < length b)
decode-compress x law ds b dict effort e held h =
    let good : IsGood x law ds b e =
      subst (AllOf (IsGood x law ds b)) h
        (encoder-AllOf x law ds b dict effort (known dict held)) in
    (good.back, good.shorter)
  where
    known :
        (o : Option (ℕ × Bytes))
        → ((id : ℕ) (d : Bytes) → o ≡ some (id, d) → find_dict id ds ≡ some d)
        → Known x law ds b o
    known none k = tt
    known (some (id, d)) k = k id d refl

-- A block that is stored as it is comes back as it is, unless its first bytes are those of a zstd
-- frame or of a gzip file.
pub decode-stored :
    (x : Extern) (ds : List DictRow) (b : Bytes)
    → has_zstd_magic x b ≡ false
    → has_gzip_magic x b ≡ false
    → decode_block x ds b 0 0 ≡ ok b
unfolding decode_block decompress_bytes_raw auto_detect
decode-stored x ds b z g = rw (z, g)
