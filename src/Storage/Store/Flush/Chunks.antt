-- ===== src/Storage/Store/Flush/Chunks.antt =====
-- The chunks of a content (`chunks` in `flush_file` of crates/dlp-storage/src/store.rs).
use wdlp.Base.{
  ℕ, suc, ◌≡◌, ◌≤◌, refl, sym, ap, ◌∙◌, inl, inr, List, [], ◌∷◌, ◌++◌, length, All, Bool-cases,
  ◌==◌, arith, reverse, append-nil, append_assoc,
}
use wdlp.Base.Bytes.{Bytes, length-reverse}
use wdlp.Storage.Store.Flush.{fill_chunks, chunk_size, chunks}
use mathlib.Core.List.{reverse-append}

-- The bytes of the chunks, in order
abbrev pub joined : List Bytes → Bytes
joined [] = []
joined (c ∷ cs) = c ++ joined cs

reverse-cons : (b : ℕ) (held : Bytes) → reverse (b ∷ held) ≡ reverse held ++ (b ∷ [])
reverse-cons b held = reverse-append (b ∷ []) held

abbrev pub Fits : ℕ → Bytes → Type 0
Fits size c = length c ≤ size

module _ (size : ℕ) (positive : 1 ≤ size) where
  last_chunk : (held : Bytes) → joined (fill_chunks size held 0 []) ≡ reverse held
  unfolding fill_chunks
  last_chunk [] = refl
  last_chunk (b ∷ held) = append-nil (reverse (b ∷ held))

  fill_chunks-joined :
      (bs held : Bytes) (n : ℕ) → joined (fill_chunks size held n bs) ≡ reverse held ++ bs
  unfolding fill_chunks
  fill_chunks-joined [] held n = last_chunk held ∙ sym (append-nil (reverse held))
  fill_chunks-joined (b ∷ bs) held n = elim (Bool-cases (n == size)) [
    | inl full ↦ rw full (ap (λ t. reverse held ++ t) (fill_chunks-joined bs (b ∷ []) 1))
    | inr room ↦ rw room (
        fill_chunks-joined bs (b ∷ held) (suc n)
        ∙ (ap (λ t. t ++ bs) (reverse-cons b held) ∙ append_assoc (reverse held) (b ∷ []) bs))
  ]

  fill_chunks-Fits :
      (bs held : Bytes) (n : ℕ)
      → length held ≡ n
      → n ≤ size
      → All (Fits size) (fill_chunks size held n bs)
  unfolding fill_chunks
  fill_chunks-Fits [] [] n same fits = tt
  fill_chunks-Fits [] (b ∷ held) n same fits = (omega (arith, length-reverse (b ∷ held)), tt)
  fill_chunks-Fits (b ∷ bs) held n same fits = elim (Bool-cases (n == size)) [
    | inl full ↦
        rw full (omega (arith, length-reverse held), fill_chunks-Fits bs (b ∷ []) 1 refl positive)
    | inr room ↦ rw room (fill_chunks-Fits bs (b ∷ held) (suc n) (omega arith) (ground arith))
  ]

-- The chunks of a content, one after the other, are the content.
pub joined-chunks : (content : Bytes) → joined (chunks content) ≡ content
joined-chunks content = fill_chunks-joined chunk_size (omega arith) content [] 0

-- No chunk is longer than the size of a chunk.
pub chunks-Fits : (content : Bytes) → All (Fits chunk_size) (chunks content)
chunks-Fits content = fill_chunks-Fits chunk_size (omega arith) content [] 0 refl (omega arith)
