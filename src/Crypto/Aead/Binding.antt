-- ===== src/Crypto/Aead/Binding.antt =====
-- The associated data of a record determine its header.
use wdlp.Base.{
  ℕ, ◌%◌, ◌^◌, ◌≡◌, ◌<◌, refl, sym, ap, ◌∙◌, [], ◌∷◌, ◌++◌, append_assoc, append-nil, length, arith,
}
use wdlp.Base.Bytes.{
  Bytes, to_le_bytes, from_le_bytes, length-to_le_bytes, from_le_bytes-to_le_bytes,
}
use wdlp.Crypto.Aead.{RecordKind, as_byte, RecordAad, sized, canonical_bytes, format_id_v1}

-- The ranges of the Rust types; an identifier has at most 128 bytes.
pub record InRange (a : RecordAad) : Type 0 where
  pub version_fits : a.format_version < 2 ^ 16
  pub store_fits : length a.store_id < 2 ^ 16
  pub file_fits : length a.file_id < 2 ^ 16
  pub generation_fits : a.generation < 2 ^ 64
  pub index_fits : a.chunk_index < 2 ^ 64
  pub length_fits : a.plaintext_length < 2 ^ 64

-- Two lists with a first part of one length agree in both parts.
split_append :
    (xs xs' ys ys' : Bytes)
    → length xs ≡ length xs'
    → xs ++ ys ≡ xs' ++ ys'
    → (xs ≡ xs') × (ys ≡ ys')
split_append [] [] ys ys' n e = (refl, e)
split_append [] (x ∷ xs') ys ys' n e = absurd (omega arith)
split_append (x ∷ xs) [] ys ys' n e = absurd (omega arith)
split_append (x ∷ xs) (x' ∷ xs') ys ys' n e =
    let (h, t) = split_append xs xs' ys ys' (omega arith) (cc) in (cc, t)

split_integer :
    (k x x' : ℕ) (ys ys' : Bytes)
    → x < 256 ^ k
    → x' < 256 ^ k
    → to_le_bytes k x ++ ys ≡ to_le_bytes k x' ++ ys'
    → (x ≡ x') × (ys ≡ ys')
split_integer k x x' ys ys' fits fits' e =
    let n = length-to_le_bytes k x in
    let n' = length-to_le_bytes k x' in
    let (h, t) = split_append (to_le_bytes k x) (to_le_bytes k x') ys ys' (omega arith) e in
    (
      sym (from_le_bytes-to_le_bytes k x fits)
          ∙ ap from_le_bytes h
          ∙ from_le_bytes-to_le_bytes k x' fits',
      t,
    )

split_sized :
    (v v' ys ys' : Bytes)
    → length v < 2 ^ 16
    → length v' < 2 ^ 16
    → sized v ++ ys ≡ sized v' ++ ys'
    → (v ≡ v') × (ys ≡ ys')
split_sized v v' ys ys' fits fits' e =
    let e' = (rw (append_assoc, append_assoc) at e) in
    let (n, rest) =
      split_integer 2 (length v % 2 ^ 16) (length v' % 2 ^ 16) (v ++ ys) (v' ++ ys') (omega arith)
        (omega arith) e' in
    split_append v v' ys ys' (omega arith) rest

as_byte-injective : (k k' : RecordKind) → as_byte k ≡ as_byte k' → k ≡ k'
as_byte-injective k k' h = ground arith

split_byte : (b b' : ℕ) (ys ys' : Bytes) → b ∷ ys ≡ b' ∷ ys' → (b ≡ b') × (ys ≡ ys')
split_byte b b' ys ys' e = (cc, cc)

-- Two headers with the same associated data are the same header: no field can be changed, and no
-- byte moved between the identifiers, without changing what the record's tag covers.
pub canonical_bytes-injective :
    (a b : RecordAad) → InRange a → InRange b → canonical_bytes a ≡ canonical_bytes b → a ≡ b
unfolding canonical_bytes
canonical_bytes-injective a b h k e =
    let (_, e₁) = split_append format_id_v1 format_id_v1 _ _ refl e in
    let (version, e₂) =
      split_integer 2 a.format_version b.format_version _ _ (h.version_fits) (k.version_fits) e₁ in
    let (store, e₃) = split_sized a.store_id b.store_id _ _ h.store_fits k.store_fits e₂ in
    let (file, e₄) = split_sized a.file_id b.file_id _ _ h.file_fits k.file_fits e₃ in
    let (generation, e₅) =
      split_integer 8 a.generation b.generation _ _ h.generation_fits k.generation_fits e₄ in
    let (kind, e₆) = split_byte (as_byte a.record_kind) (as_byte b.record_kind) _ _ e₅ in
    let (index, e₇) =
      split_integer 8 a.chunk_index b.chunk_index _ _ h.index_fits k.index_fits e₆ in
    let same = as_byte-injective a.record_kind b.record_kind kind in
    let (amount, _) =
      split_integer 8 a.plaintext_length b.plaintext_length [] [] h.length_fits k.length_fits
        (rw (append-nil, append-nil) e₇) in
    λ i. record {
      format_version = version i;
      store_id = store i;
      file_id = file i;
      generation = generation i;
      record_kind = same i;
      chunk_index = index i;
      plaintext_length = amount i;
    }
