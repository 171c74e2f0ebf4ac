-- ===== src/Extern.antt =====
-- What src/ calls and does not implement: SHA-256 (crate sha2), zstd and gzip (crates zstd, flate2).
-- The functions are a parameter of the model; `none` is an error of the library. What their
-- documentation promises is in `IsLossless` and `IsInjective`, the hypotheses of the theorems.
use dbvm.Common.{ℕ, Option, some, Bytes, length, ◌≡◌}

-- `get_frame_content_size`: not a frame, a frame that does not say, or a frame of that size.
pub data FrameSize : Type 0 where
  not_a_frame unknown_size : FrameSize
  sized : ℕ → FrameSize

pub record Extern : Type 0 where
  pub sha256 : Bytes → Bytes
  pub zstd_compress : ℕ → Bytes → Option Bytes
  pub zstd_compress_dict : ℕ → Bytes → Bytes → Option Bytes
  pub zstd_frame_size : Bytes → FrameSize
  pub zstd_decompress : Bytes → ℕ → Option Bytes
  pub zstd_decompress_dict : Bytes → Bytes → ℕ → Option Bytes
  pub gunzip : Bytes → Option Bytes

-- What was compressed is a frame that says its content's size, and decompresses to that content.
pub record IsLossless (x : Extern) : Type 0 where
  pub plain_size :
      (level : ℕ) (b c : Bytes)
      → x.zstd_compress level b ≡ some c
      → x.zstd_frame_size c ≡ sized (length b)
  pub plain_back :
      (level : ℕ) (b c : Bytes)
      → x.zstd_compress level b ≡ some c
      → x.zstd_decompress c (length b) ≡ some b
  pub dict_size :
      (level : ℕ) (d b c : Bytes)
      → x.zstd_compress_dict level d b ≡ some c
      → x.zstd_frame_size c ≡ sized (length b)
  pub dict_back :
      (level : ℕ) (d b c : Bytes)
      → x.zstd_compress_dict level d b ≡ some c
      → x.zstd_decompress_dict d c (length b) ≡ some b

-- No two contents have one key.
pub record IsInjective (x : Extern) : Type 0 where
  pub same_content : (a b : Bytes) → x.sha256 a ≡ x.sha256 b → a ≡ b
