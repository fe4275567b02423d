-- ===== src/Drive/Wildmatch/Meaning.antt =====
-- What it means for a name to match a pattern, with no search in it.
use wdlp.Base.{ℕ, ◌≡◌, ◌≢◌, ◌⊎◌, inl, inr, refl, List, [], ◌∷◌, arith}

-- A question mark stands for any character, another character than a star for itself.
abbrev pub OneChar : ℕ → ℕ → Type 0
OneChar c x = (c ≡ b'?') ⊎ ((c ≢ b'*') × (c ≡ x))

-- A star stands for any text.
pub data Matches : List ℕ → List ℕ → Type 0 where
  nothing : Matches [] []
  one : {c x : ℕ} {p n : List ℕ} → OneChar c x → Matches p n → Matches (c ∷ p) (x ∷ n)
  leave_star : {c : ℕ} {p n : List ℕ} → c ≡ b'*' → Matches p n → Matches (c ∷ p) n
  under_star : {c x : ℕ} {p n : List ℕ} → c ≡ b'*' → Matches (c ∷ p) n → Matches (c ∷ p) (x ∷ n)

-- `Starred p n`: a star and then `p` match `n`.
abbrev pub Starred : List ℕ → List ℕ → Type 0
Starred p n = Matches (b'*' ∷ p) n

pub one_inverse :
    {c x : ℕ} {p n : List ℕ} → c ≢ b'*' → Matches (c ∷ p) (x ∷ n) → OneChar c x × Matches p n
one_inverse other (one h d) = (h, d)
one_inverse other (leave_star e d) = absurd (other e)
one_inverse other (under_star e d) = absurd (other e)

pub ends_after : {c : ℕ} {p : List ℕ} → Matches (c ∷ p) [] → (c ≡ b'*') × Matches p []
ends_after (leave_star e d) = (e, d)

pub Starred-leave : {p n : List ℕ} → Matches p n → Starred p n
Starred-leave d = leave_star refl d

pub Starred-end : {p : List ℕ} → Starred p [] → Matches p []
Starred-end (leave_star _ d) = d

-- A second star adds nothing.
pub Starred-Starred : {c : ℕ} {p m : List ℕ} → c ≡ b'*' → Starred (c ∷ p) m → Matches (c ∷ p) m
Starred-Starred e (one (inl q) d) = absurd (omega arith)
Starred-Starred e (one (inr (k, _)) d) = absurd (k refl)
Starred-Starred e (leave_star _ d) = d
Starred-Starred e (under_star _ d) = under_star e (Starred-Starred e d)

-- A star that does not end in front of a character takes it.
pub Starred-must_take :
    {p n : List ℕ} {x : ℕ} → Starred p (x ∷ n) → ¬ Matches p (x ∷ n) → Starred p n
Starred-must_take (one (inl q) d) other = absurd (omega arith)
Starred-must_take (one (inr (k, _)) d) other = absurd (k refl)
Starred-must_take (leave_star _ d) other = absurd (other d)
Starred-must_take (under_star _ d) other = d

-- Wherever the rest of the pattern stands, it stands after the first character.
pub Starred-drop_one : {c x : ℕ} {p n : List ℕ} → c ≢ b'*' → Starred (c ∷ p) (x ∷ n) → Starred p n
Starred-drop_one other (one (inl q) d) = absurd (omega arith)
Starred-drop_one other (one (inr (k, _)) d) = absurd (k refl)
Starred-drop_one other (leave_star _ d) = leave_star refl ((one_inverse other d).1)
Starred-drop_one {n = []} other (under_star _ (leave_star _ d)) = absurd (other (ends_after d).0)
Starred-drop_one {n = y ∷ n} other (under_star e d) = under_star refl (Starred-drop_one other d)
