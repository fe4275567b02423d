-- ===== src/Tests/Transfers.antt =====
-- Runs of `write_handle` of crates/dlp-storage/src/store.rs.
use wdlp.Base.{◌≡◌, refl, true, false, some}
use wdlp.Base.Bytes.{Bytes, codes, bytes_eq}
use wdlp.Base.Maps.{text_key, get}
use wdlp.Base.Results.{ok}
use wdlp.Storage.Store.Entries.Listing.{handle_file}
use wdlp.Storage.Store.Content.{read, StartsFrom, Overlaid}
use wdlp.Storage.Store.Transfer.{write_handle, write_handle-staged}
use wdlp.Tests.Values.{tagging, broken, a_store}

a_handle_on : handle_file 1 (a_store false true) ≡ ok (codes "file-1")
unfolding handle_file get bytes_eq
a_handle_on = refl

write_handle-staged_example :
    ((write_handle tagging broken 1 1 (codes "zz") (a_store false true)).0 ≡ ok tt)
    × (base : Bytes) × StartsFrom
        (get (codes "file-1") (a_store false true).staged)
        (read tagging broken (codes "file-1") (a_store false true)).0
        base
    × (content : Bytes) × (get
          (codes "file-1")
          (write_handle tagging broken 1 1 (codes "zz") (a_store false true)).1.staged
        ≡ some content)
    × Overlaid 1 (codes "zz") base content
write_handle-staged_example =
    write_handle-staged tagging broken 1 1 (codes "zz") (a_store false true) a_handle_on refl
