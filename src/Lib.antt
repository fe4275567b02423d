-- ===== src/Lib.antt =====
-- A verification library for the DLP drive (crates/): an encrypted per-user store under a virtual
-- drive, with a policy evaluator that decides what may be done with a file.
--
-- Base: the types and lemmas that the other modules share. Text is a list of its UTF-8 bytes, a
-- `BTreeMap` an association list, a reader of bytes a function into a result, and an unsigned integer
-- a natural number with its range or its wrap-around written out.
-- Crypto: crates/dlp-crypto/src/aead.rs, the associated data of a record, encryption and the nonces
-- seen. AES-256-GCM is the parameter `AeadCipher`, whose two laws say that opening undoes sealing and
-- that a ciphertext is sixteen bytes longer than its plaintext; a nonce is an argument.
-- `Verifier` is the configuration verifier of crates/dlp-crypto/src/lib.rs, with Ed25519 as the
-- parameter `Ed25519`.
-- Domain: crates/dlp-domain/src/lib.rs, identifiers, policy inputs, actions and decisions.
-- Policy: crates/dlp-policy/src/lib.rs, `PolicyEvaluator::evaluate`. The unstable sort is a stable one:
-- rules of one extension that compare equal are the same rule.
-- Storage.Format: crates/dlp-storage/src/format.rs, the three persisted records (`Record`, `Manifest`,
-- `Commit`) with `encode` and `decode`, and `seal` and `open` in `Record.Sealing`. Storage.Cursor is
-- the byte cursor that they read by.
-- Storage.Path: crates/dlp-storage/src/path.rs, virtual paths and their lookup keys.
-- Storage.Store: crates/dlp-storage/src/store.rs. A method of `LocalEncryptedStore` is a `Run`: from a
-- store it answers a result and the store it leaves, also where it fails. `Store` has the fields of
-- the struct, with the identity's store identifier in place of the identity, and beside them the
-- `World` outside: the disk, as a function from names to contents, the global counters, and a count
-- of the calls made to the host. `Environment` answers each call by that count: the clock's reading,
-- the nonce drawn, whether a system call fails, whether the query of `Path::exists` fails, in which case
-- it answers false, and how much of a failed write reaches the disk.
-- A theorem holds for every environment that it does not restrict, so for every sequence of failures.
-- `Disk` writes records, `Namespace` persists the namespace, `Entries` creates, opens, closes, deletes,
-- renames and lists, and `Flush` writes what is staged for a file as a new generation and moves the
-- file's pointer to it. `Ensures` is what a method that succeeds has done to the disk, `Keeps` what a
-- method leaves alone whether it succeeds or not. `Content` reads what a file's pointer selects and
-- stages bytes at an offset, and `Transfer` reads, writes, truncates and flushes through open handles.
-- Storage.Store calls Storage.Format to seal and
-- encode, and Storage.Path for keys and names.
-- Protocol: crates/dlp-protocol/src/lib.rs, the contracts with their checks; `Envelope` is the
-- configuration envelope, its signed bytes and their decoder.
-- Agent: crates/dlp-agent-core/src/config_cache.rs, the cache of signed configurations. `Wire` and
-- `Pointers` are its file formats, `Hex` the names of its files. In `Activation`, a `Cache` is the
-- directory (a function from names to contents), the generation that the mutex guards and the count of
-- calls made to the `Host`, which answers each: whether it fails, how much of a failed write is left,
-- whether `Path::exists` sees the file, and what a directory lists. `Trust` is what a cache is given:
-- SHA-256 as a function to 32 bytes, Ed25519, the verifier and the device. The cache calls Protocol to
-- build an envelope and Crypto.Verifier to accept its signature. `Health` is
-- crates/dlp-agent-core/src/health.rs, a report of the agent's state made from the cache.
-- Drive: crates/dlp-windows-drive/src/wildmatch.rs and status.rs. `char::to_lowercase` is a parameter.
-- Tests: runs of the definitions on concrete values.
--
-- Recursion is structural, but for the loop of `Drive.Wildmatch`, which takes as fuel the product of
-- the lengths of name and pattern, each plus one: every round moves the name's restart or the pattern's
-- index. Lengths are those of a 64-bit target, and memory is taken to suffice.
--
-- Not modelled: recovery and loading the namespace in the store, the agent's client and
-- enrollment, the server, the driver's callbacks, the Windows services and the command line.
pub mod Agent
pub mod Base
pub mod Crypto
pub mod Domain
pub mod Drive
pub mod Policy
pub mod Protocol
pub mod Storage
pub mod Tests
