-- ===== src/Tests/Drives.antt =====
-- Runs of `matches` of crates/dlp-windows-drive/src/wildmatch.rs.
use wdlp.Base.{
  ℕ, ◌+◌, ◌≡◌, ◌≢◌, ◌↔◌, refl, Bool, true, false, ◌&&◌, List, [], ◌∷◌, All, leb, if◌then◌else◌,
  some, arith,
}
use wdlp.Base.Bytes.{codes}
use wdlp.Drive.Wildmatch.{matches, lowered}
use wdlp.Drive.Wildmatch.Meaning.{Matches}
use wdlp.Drive.Wildmatch.Search.{matches_iff}

-- `to_lowercase` of an ASCII character
abbrev ascii_lower : ℕ → List ℕ
ascii_lower c = if leb b'A' c && leb c b'Z' then (c + 32) ∷ [] else c ∷ []

ascii_lower-plain : (x : ℕ) → x ≢ b'*' → All (λ y. y ≢ b'*') (ascii_lower x)
ascii_lower-plain x h = ground arith

matches_iff_example :
    (b : Bool) × (matches ascii_lower (codes "*.TXT") (codes "report.txt") ≡ some b)
    × ((b ≡ true)
        ↔ Matches (lowered ascii_lower (codes "*.TXT")) (lowered ascii_lower (codes "report.txt")))
matches_iff_example =
    matches_iff ascii_lower (codes "*.TXT") (codes "report.txt") ascii_lower-plain (omega arith)

a_match : matches ascii_lower (codes "*report*.txt") (codes "Quarterly report v2.txt") ≡ some true
unfolding matches
a_match = refl

no_match : matches ascii_lower (codes "file?.txt") (codes "file10.txt") ≡ some false
unfolding matches
no_match = refl

-- A star in the name is read as the star of the pattern.
starred_name : matches ascii_lower (codes "*") (codes "*a") ≡ some false
unfolding matches
starred_name = refl
