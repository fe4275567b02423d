-- ===== src/Storage/Format/Commit.antt =====
-- `CommitRecordV1` of crates/dlp-storage/src/format.rs.
pub mod RoundTrip
use wdlp.Base.{ℕ, Bool, not, ◌++◌, length, ltb, ◌==◌, if◌then◌else◌}
use wdlp.Base.Bytes.{Bytes, to_le_bytes}
use wdlp.Base.Results.{ok, err}
use wdlp.Base.Reader.{◌>>=◌, ◌>>◌, pure, reject_if, finish}
use wdlp.Crypto.Aead.{sized}
use wdlp.Storage.Errors.{integrity_failure, Outcome}
use wdlp.Storage.Cursor.{CursorRead, new, remaining, integer, sized_text}
use wdlp.Storage.Format.{CommitRecordV1, u16_max}

abbrev pub wire : CommitRecordV1 → Bytes
wire commit = to_le_bytes 8 commit.generation ++ sized commit.file_id

unfoldable pub encode : CommitRecordV1 → Outcome Bytes
encode commit =
    if ltb u16_max (length commit.file_id) then err integrity_failure else ok (wire commit)

read_commit : CursorRead CommitRecordV1
read_commit = do
  generation ← integer 8
  file_id ← sized_text
  reject_if integrity_failure (λ c. not (remaining c == 0))
  pure (record { generation = generation; file_id = file_id })

unfoldable pub decode : Bytes → Outcome CommitRecordV1
unfolding read_commit
decode bytes = finish (read_commit (new bytes))
