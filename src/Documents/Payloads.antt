-- ===== src/Documents/Payloads.antt =====
-- What `PartProperties.decompress` hands on, and the bound on its size.
use as_lib.Base.{
  ℕ, ◌+◌, ◌≤◌, ◌≡◌, true, false, some, ◌⊎◌, length, arith, option_eq, string_eq, ◌==◌,
}
use as_lib.Platform.{Bytes, Crypto}
use as_lib.Outcome.{ok}
use as_lib.Models.UserMessage.{PartProperties}
use as_lib.Documents.{compression_type, decompress}

-- The part says that its content is gzip.
abbrev pub Zipped : PartProperties → Type 0
Zipped ps = (compression_type ps.properties == some "application/gzip") ≡ true

-- When the content of a part is handed on, then either the part declares no gzip and the content
-- is handed on as it is, or gzip gives the result for the content, asked for one byte more than
-- the allowed size, and the result has at most the allowed size.
pub decompress_lem :
    (c : Crypto) (ps : PartProperties) (content : Bytes) (maximum_size : ℕ) (out : Bytes)
    → decompress c ps content maximum_size ≡ ok out
    → (((compression_type ps.properties == some "application/gzip") ≡ false) × (out ≡ content))
      ⊎ (Zipped ps
          × (c.gzip_read content (maximum_size + 1) ≡ some out)
          × (length out ≤ maximum_size))
unfolding decompress
decompress_lem c ps content maximum_size out h = ground arith
