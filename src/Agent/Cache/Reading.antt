-- ===== src/Agent/Cache/Reading.antt =====
-- What `ByteReader` of crates/dlp-agent-core/src/config_cache.rs reads where the field that it looks
-- for stands.
use wdlp.Base.{
  ◌+◌, ◌≡◌, refl, true, false, [], ◌++◌, append_assoc, length, length-append, take-append,
  drop-append, ltb, ◌==◌, arith,
}
use wdlp.Base.Bytes.{Bytes}
use wdlp.Base.Reader.{Parses, reject_if}
use wdlp.Base.Results.{ok}
use wdlp.Agent.Cache.{ByteReader, remaining, read_fixed_bytes, expect_empty}

-- The reader after `before`, in front of `after`.
abbrev pub at : Bytes → Bytes → ByteReader
at before after = record { bytes = before ++ after; position = length before }

at-append :
    (before field after : Bytes)
    → record { bytes = before ++ (field ++ after); position = length before + length field }
      ≡ at (before ++ field) after
at-append before field after = rw (append_assoc, length-append) refl

pub read_fixed_bytes-Parses :
    (field : Bytes) → Parses at (read_fixed_bytes (length field)) field field
unfolding read_fixed_bytes
read_fixed_bytes-Parses field = record {
  run = λ before after h.
      let enough : ltb (remaining (at before (field ++ after))) (length field) ≡ false =
        ground (arith, length-append before (field ++ after), length-append field after) in
      rw (enough, drop-append, take-append, at-append);
}

-- At the end nothing remains.
pub expect_empty-ends : (before : Bytes) → expect_empty (at before []) ≡ ok (tt, at before [])
unfolding reject_if
expect_empty-ends before =
    let nothing : (remaining (at before []) == 0) ≡ true =
      ground (arith, length-append before []) in
    rw nothing refl
