-- ===== src/Storage/Format/Commit/RoundTrip.antt =====
-- A commit record that is encoded is decoded to itself.
use wdlp.Base.{◌≡◌, ◌<◌, ◌^◌, false, not, [], ap, arith, length-append, ◌==◌}
use wdlp.Base.Bytes.{Bytes, length-to_le_bytes}
use wdlp.Base.Results.{ok}
use wdlp.Base.Reader.{reject_if, finish, Fits, Ends, Ends-bind, Ends-last, Ends-check, Ends-pure}
use wdlp.Storage.Errors.{integrity_failure}
use wdlp.Storage.Cursor.{remaining, bad_text}
use wdlp.Storage.Cursor.Laws.{at, integer-Parses, sized_text-Parses, bad_text-length}
use wdlp.Storage.Format.{CommitRecordV1}
use wdlp.Storage.Format.Commit.{encode, decode, read_commit, wire}

pub at_end-check :
    (before : Bytes)
    → reject_if integrity_failure (λ c. not (remaining c == 0)) (at before [])
      ≡ ok (tt, at before [])
unfolding reject_if
at_end-check before = ground (arith, length-append before [])

module _ (commit : CommitRecordV1) (fits : commit.generation < 2 ^ 64)
    (good : bad_text commit.file_id ≡ false) where
  read_commit-Ends : Ends at read_commit (wire commit) commit
  unfolding read_commit
  read_commit-Ends = Ends-bind _ (integer-Parses 8 commit.generation fits) (
      Ends-last _ (sized_text-Parses commit.file_id good)
        (Ends-check _ _ at_end-check (Ends-pure commit)))

  wire-Fits : Fits [] (wire commit)
  wire-Fits =
      let a = bad_text-length commit.file_id good in
      simp (length-append, length-to_le_bytes) (omega arith)

  -- A commit record with a generation of eight bytes and a well-formed file identifier is encoded,
  -- and decoding the bytes returns it.
  pub commit_decode-encode :
      (bytes : Bytes) × (encode commit ≡ ok bytes) × (decode bytes ≡ ok commit)
  unfolding encode decode
  commit_decode-encode =
      let a = bad_text-length commit.file_id good in
      (wire commit, ground arith, ap finish (read_commit-Ends.run [] wire-Fits))
