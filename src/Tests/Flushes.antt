-- ===== src/Tests/Flushes.antt =====
-- Runs of `flush_file` and `write_at` of crates/dlp-storage/src/store.rs.
use wdlp.Base.{ℕ, ◌≡◌, refl, false, [], ◌∷◌, replicate, some, none, arith, ltb, if◌then◌else◌}
use wdlp.Base.Bytes.{Bytes, codes, bytes_eq, to_le_bytes}
use wdlp.Base.Maps.{text_key, get, remove}
use wdlp.Base.Results.{ok, err}
use wdlp.Crypto.Aead.{encrypt, canonical_bytes, insert as insert_nonce}
use wdlp.Storage.Errors.{io_failure}
use wdlp.Storage.Format.Record
use wdlp.Storage.Format.Manifest
use wdlp.Storage.Format.Commit
use wdlp.Storage.Format.Record.Sealing.{seal}
use wdlp.Storage.Store.{Environment, Store, system_call}
use wdlp.Storage.Store.Disk.{
  same_path, put, write_record, write_bytes, rename_file, flush_directory_marker,
}
use wdlp.Storage.Store.Flush.{
  hit, fresh_generation, write_chunk, write_chunks, write_generation, publish_pointer, flush_marker,
  finish_flush, keep_prior, drop_selected, replace_pointer, copy_file, remove_file, seal_record,
  fill_chunks, flush_file, CommitOutcome,
}
use wdlp.Storage.Store.Content.{read}
use wdlp.Storage.Store.Content.ReadBack.{read-flush_file, flush_file-GenerationAt}
use wdlp.Storage.Store.Content.Crash.{Recoverable, flush_file-Recoverable}
use wdlp.Storage.Store.Flush.Staged.{flush_file-err}
use wdlp.Tests.Values.{tagging, calm, broken, a_store}

abbrev a_name : Bytes
a_name = codes "file-1"

abbrev staging : Store
staging = record (a_store false false) { staged = (a_name, codes "abc") ∷ [] }

abbrev numbered_nonce : ℕ → Bytes
numbered_nonce n = n ∷ replicate 11 0

abbrev an_outcome : CommitOutcome
an_outcome = record {
  generation = 1;
  chunk_count = 1;
  nonces = numbered_nonce 1 ∷ numbered_nonce 5 ∷ numbered_nonce 9 ∷ [];
  trace =
      codes "chunk-flush"
      ∷ codes "manifest-flush"
      ∷ codes "commit-flush"
      ∷ codes "pointer-publish"
      ∷ codes "directory-flush"
      ∷ [];
}

flushes : (flush_file tagging calm a_name staging).0 ≡ ok an_outcome
unfolding flush_file hit fresh_generation write_chunk write_chunks write_generation publish_pointer
    flush_marker finish_flush keep_prior drop_selected replace_pointer copy_file remove_file
    seal_record fill_chunks seal encrypt insert_nonce Record.encode Manifest.encode
    Manifest.chunk_bytes Commit.encode write_record write_bytes rename_file flush_directory_marker
    same_path put bytes_eq get remove to_le_bytes canonical_bytes
flushes = refl

flushes_not : (flush_file tagging broken a_name staging).0 ≡ err io_failure
unfolding flush_file write_generation system_call get bytes_eq fresh_generation
flushes_not = refl

flush_file-err_example : (flush_file tagging broken a_name staging).1.staged ≡ staging.staged
flush_file-err_example = flush_file-err tagging broken a_name staging flushes_not

read-flush_file_example :
    (read tagging calm a_name (flush_file tagging calm a_name staging).1).0 ≡ ok (codes "abc")
unfolding get bytes_eq
read-flush_file_example =
    read-flush_file tagging calm calm (λ n. refl) (λ n. refl) a_name refl staging refl (omega arith)
      {content = codes "abc"} refl flushes

-- A host whose calls fail from the sixtieth on
abbrev fading : Environment
fading = record {
  time = λ n. n;
  nonce = numbered_nonce;
  fault = λ n. if ltb n 60 then none else some io_failure;
  torn = λ n. 1;
  unseen = λ n. false;
}

-- The store after `flushes`, with another content staged
abbrev flushing_again : Store
flushing_again = record staging {
  staged = (a_name, codes "xyz") ∷ [];
  world = record (staging.world) {
    disk = (flush_file tagging calm a_name staging).1.world.disk;
    calls = 40;
    next_generation = 2;
  };
}

flush_file-Recoverable_example :
    Recoverable tagging fading calm
      (λ n. refl)
      (λ n. refl)
      a_name
      refl
      (codes "abc")
      (codes "xyz")
      (flush_file tagging fading a_name flushing_again).1
unfolding get bytes_eq
flush_file-Recoverable_example =
    flush_file-Recoverable tagging fading calm (λ n. refl) (λ n. refl) a_name refl flushing_again
      refl (omega arith) 1 (omega arith) (codes "abc")
      (flush_file-GenerationAt tagging calm (λ n. refl) a_name staging {content = codes "abc"} refl
        flushes).2
      (codes "xyz") (λ n. refl) refl
