-- ===== src/Agent/Cache/Pointers/RoundTrip.antt =====
-- The pointers are read back from what is written of them.
use wdlp.Base.{
  ℕ, ◌<◌, ◌≤◌, ◌^◌, ◌≡◌, refl, false, not, [], append-nil, length, length-append, Option, none,
  some, arith,
}
use wdlp.Base.Bytes.{Bytes, bytes_eq, bytes_eq_refl, to_be_bytes, length-to_be_bytes}
use wdlp.Base.Results.{ok}
use wdlp.Base.Reader.{
  Fits, Parses, Ends, Parses-bind, Parses-last, Parses-pure, Ends-bind, Ends-check, Ends-pure,
  Ends-last, reject_if,
}
use wdlp.Base.Wire.{integer_be-Parses}
use wdlp.Agent.Cache.{CachePointers, read_fixed_bytes}
use wdlp.Agent.Cache.Reading.{at, read_fixed_bytes-Parses, expect_empty-ends}
use wdlp.Agent.Cache.Pointers.{
  pointer_magic, append_optional_digest, append_version, serialize_pointers, read_optional_digest,
  read_version, read_pointers_record, deserialize_pointers,
}

-- A version stands beside each digest, and beside nothing else.
abbrev pub Paired : Option Bytes → Option ℕ → Type 0
Paired none none = Unit
Paired (some digest) (some version) = (length digest ≡ 32) × (version < 2 ^ 64)
Paired _ _ = ⊥

pub record IsPointers (p : CachePointers) : Type 0 where
  pub current : Paired p.current_digest p.current_version
  pub lkg : Paired p.lkg_digest p.lkg_version

optional_digest-Parses :
    (digest : Option Bytes) (version : Option ℕ)
    → Paired digest version
    → Parses at read_optional_digest (append_optional_digest digest) digest
unfolding read_optional_digest to_be_bytes
optional_digest-Parses none none h =
    Parses-last _ (integer_be-Parses read_fixed_bytes read_fixed_bytes-Parses 1 0 (omega arith))
      (Parses-pure none)
optional_digest-Parses (some digest) (some version) (size, _) =
    let take_digest : Parses at (read_fixed_bytes 32) digest digest =
      (rw size at (read_fixed_bytes-Parses digest)) in
    Parses-bind _ (integer_be-Parses read_fixed_bytes read_fixed_bytes-Parses 1 1 (omega arith))
      (Parses-last _ take_digest (Parses-pure (some digest)))
optional_digest-Parses none (some version) h = absurd h
optional_digest-Parses (some digest) none h = absurd h

version-Parses :
    (digest : Option Bytes) (version : Option ℕ)
    → Paired digest version
    → Parses at (read_version digest) (append_version digest version) version
unfolding read_version
version-Parses none none h = record { run = λ before after k. rw append-nil refl }
version-Parses (some digest) (some version) (_, small) =
    let reads = integer_be-Parses read_fixed_bytes read_fixed_bytes-Parses 8 version small in
    record { run = λ before after k. rw (reads.run before after k) refl }
version-Parses none (some version) h = absurd h
version-Parses (some digest) none h = absurd h

module _ (p : CachePointers) (is : IsPointers p) (generation : ℕ)
    (small : generation < 2 ^ 64) where
  read_pointers-Ends : Ends at read_pointers_record (serialize_pointers p generation) p
  unfolding read_pointers_record serialize_pointers
  read_pointers-Ends =
      let takes = read_fixed_bytes-Parses in
      let number = integer_be-Parses read_fixed_bytes takes in
      let magic_known : (not (bytes_eq pointer_magic pointer_magic)) ≡ false =
        rw (bytes_eq_refl pointer_magic) refl in
      Ends-bind _ (takes pointer_magic) (
        Ends-check _ _ {a = tt} (λ before. unfold reject_if in rw magic_known refl)
          (Ends-bind _ (number 8 1 (omega arith)) (
            Ends-check _ _ {a = tt} (λ before. unfold reject_if in refl)
              (Ends-bind _ (number 8 generation small) (
                Ends-bind _ (optional_digest-Parses p.current_digest p.current_version is.current) (
                  Ends-bind _ (version-Parses p.current_digest p.current_version is.current) (
                    Ends-bind _ (optional_digest-Parses p.lkg_digest p.lkg_version is.lkg) (
                      Ends-last _ (version-Parses p.lkg_digest p.lkg_version is.lkg)
                        (Ends-check _ _ {a = tt} expect_empty-ends (Ends-pure p))))))))))

  digest-short :
      (digest : Option Bytes) (version : Option ℕ)
      → Paired digest version
      → (length (append_optional_digest digest) ≤ 33) × (length (append_version digest version) ≤ 8)
  digest-short none none h = omega arith
  digest-short (some digest) (some version) (size, _) =
      (omega arith, omega (arith, length-to_be_bytes 8 version))
  digest-short none (some version) h = absurd h
  digest-short (some digest) none h = absurd h

  serialized-Fits : Fits [] (serialize_pointers p generation)
  unfolding serialize_pointers
  serialized-Fits =
      let (d, v) = digest-short p.current_digest p.current_version is.current in
      let (d', v') = digest-short p.lkg_digest p.lkg_version is.lkg in
      simp (length-append, length-to_be_bytes) (omega arith)

  -- Pointers in which a version stands beside each digest are read back from what is written of
  -- them, whatever the generation number written with them.
  pub deserialize_pointers-serialize : deserialize_pointers (serialize_pointers p generation) ≡ ok p
  unfolding deserialize_pointers
  deserialize_pointers-serialize = rw (read_pointers-Ends.run [] serialized-Fits) refl
