-- ===== src/Tests/Values.antt =====
-- The values that the runs share: a cipher that appends a tag, a host on which nothing fails and one
-- on which everything does, and a small store.
use wdlp.Base.{
  ◌+◌, ◌-◌, ◌≡◌, ap, ◌∙◌, Bool, true, false, [], ◌∷◌, ◌++◌, length, take, replicate, some, none,
  arith, take-append, length-append,
}
use wdlp.Base.Bytes.{Bytes, codes}
use wdlp.Crypto.Aead.{AeadCipher, RecordAad, chunk}
use wdlp.Storage.Errors.{io_failure}
use wdlp.Storage.Path.{VirtualPath}
use wdlp.Storage.Store.{FileEntry, DirectoryEntry, HandleState, Environment, World, Store}
use wdlp.Storage.Store.Entries.{stamped}

abbrev pub tag : Bytes
tag = replicate 16 0

abbrev pub chop : Bytes → Bytes
chop cipher = take (length cipher - 16) cipher

pub chop-tag :
    (plain cipher : Bytes) → some (plain ++ tag) ≡ some cipher → some (chop cipher) ≡ some plain
chop-tag plain cipher e =
    let made : plain ++ tag ≡ cipher = cc in
    let size : length (plain ++ tag) - 16 ≡ length plain = omega (arith, length-append plain tag) in
    rw (← made) (ap some (ap (λ n. take n (plain ++ tag)) size ∙ take-append plain tag))

pub tag-length :
    (plain cipher : Bytes) → some (plain ++ tag) ≡ some cipher → length cipher ≡ length plain + 16
tag-length plain cipher e =
    let made : plain ++ tag ≡ cipher = cc in rw (← made) (length-append plain tag)

abbrev pub tagging : AeadCipher
tagging = record {
  seal = λ key nonce aad plain. some (plain ++ tag);
  open_sealed = λ key nonce aad cipher. some (chop cipher);
  open_sealed-seal = λ key nonce aad. chop-tag;
  length-seal = λ key nonce aad. tag-length;
}

abbrev pub a_nonce : Bytes
a_nonce = replicate 12 7

abbrev pub calm : Environment
calm = record {
  time = λ n. n;
  nonce = λ n. n ∷ replicate 11 0;
  fault = λ n. none;
  torn = λ n. 0;
  unseen = λ n. false;
}

abbrev pub broken : Environment
broken = record {
  time = λ n. n;
  nonce = λ n. a_nonce;
  fault = λ n. some io_failure;
  torn = λ n. 0;
  unseen = λ n. false;
}

abbrev pub a_chunk : RecordAad
a_chunk = record {
  format_version = 1;
  store_id = codes "store";
  file_id = codes "file";
  generation = 2;
  record_kind = chunk;
  chunk_index = 0;
  plaintext_length = 3;
}

abbrev pub a_file : Bool → FileEntry
a_file pending = record {
  file_id = codes "file-1";
  display = codes "A";
  delete_pending = pending;
  metadata = stamped 5;
}

abbrev pub docs : DirectoryEntry
docs = record { display = codes "Docs"; metadata = stamped 4 }

abbrev pub on_a : HandleState
on_a = record { path_key = codes "docs/a"; allow_delete = true }

abbrev pub empty_world : World
empty_world = record {
  disk = λ path. none;
  calls = 0;
  next_file = 2;
  next_handle = 2;
  next_generation = 1;
}

-- The directory "docs" with the file "a", and a handle on the file if there is one.
abbrev pub a_store : Bool → Bool → Store
a_store pending held = record {
  store_id = codes "store";
  key = codes "key";
  staged = [];
  forced_duplicate = [];
  directories = (codes "docs", docs) ∷ [];
  files = (codes "docs/a", a_file pending) ∷ [];
  handles = elim held [ true ↦ (1, on_a) ∷ [] | false ↦ [] ];
  namespace_generation = 1;
  fail_next_write = false;
  fault_io = record { fault = none; error = io_failure };
  world = empty_world;
}

abbrev pub path_to : Bytes → Bytes → VirtualPath
path_to name key = record { display = codes "Docs" ∷ name ∷ []; lookup = codes "docs/" ++ key }

abbrev pub path_a : VirtualPath
path_a = path_to (codes "A") (codes "a")

abbrev pub path_b : VirtualPath
path_b = path_to (codes "B") (codes "b")

abbrev pub path_docs : VirtualPath
path_docs = record { display = codes "Docs" ∷ []; lookup = codes "docs" }
