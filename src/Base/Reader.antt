-- ===== src/Base/Reader.antt =====
-- Readers of a byte string that move a state of their own, with `do`, and the two laws by which a
-- round trip is composed: a reader that finds its field wherever the field stands, and one that
-- finds it at the end.
use wdlp.Base.Tests.{if◌then◌else◌}
use wdlp.Base.Lists.{length, length-append}
use wdlp.Base.Bytes.{Bytes}
use wdlp.Base.Results.{Result, ok, err}
use Prim.Native.Nat.{ℕ, ◌+◌, ◌^◌, ◌<◌}
use mathlib.Core.Path.{◌≡◌, refl}
use mathlib.Core.Bool.{Bool, false}
use mathlib.Core.Option.{Option, none, some}
use mathlib.Core.List.{[], ◌++◌, append_assoc, append-nil}
use native.Mathlib.Omega.{arith}

-- usize::MAX + 1
abbrev pub usize_limit : ℕ
usize_limit = 2 ^ 64

-- A reading step returns its value and the moved state, or an error.
abbrev pub Read : Type 0 → Type 0 → Type 0 → Type 0
Read S E A = S → Result E (A × S)

module _ {S E A B : Type 0} where
  infixl 5 ◌>>=◌ ◌>>◌
  unfoldable pub ◌>>=◌ : Read S E A → (A → Read S E B) → Read S E B
  ◌>>=◌ m f s = elim (m s) [ ok (a, s') ↦ f a s' | err e ↦ err e ]

  abbrev pub ◌>>◌ : Read S E A → Read S E B → Read S E B
  m >> k = m >>= λ _. k

module _ {S E A : Type 0} where
  unfoldable pub pure : A → Read S E A
  pure a s = ok (a, s)

  unfoldable pub fail : E → Read S E A
  fail e s = err e

  -- `ok_or`
  unfoldable pub from_option : E → Option A → Read S E A
  from_option e none s = err e
  from_option e (some a) s = ok (a, s)

  -- The value that a run returns, without the state.
  abbrev pub finish : Result E (A × S) → Result E A
  finish (ok (a, s)) = ok a
  finish (err e) = err e

module _ {S E : Type 0} where
  -- `if bad { return Err(e); }`, where the test may look at the reader
  unfoldable pub reject_if : E → (S → Bool) → Read S E (Unit {0})
  reject_if e bad s = if bad s then err e else ok (tt, s)

-- A slice is never longer than `usize::MAX`.
abbrev pub Fits : Bytes → Bytes → Type 0
Fits before after = length before + length after < usize_limit

Fits-append :
    (before field after : Bytes) → Fits before (field ++ after) → Fits (before ++ field) after
Fits-append before field after h =
    omega (arith, length-append before field, length-append field after)

-- `at before after` is the reader's state after `before` and in front of `after`.
module _ {S E : Type 0} (at : Bytes → Bytes → S) where
  pub record Parses {A : Type 0} (m : Read S E A) (field : Bytes) (a : A) : Type 0 where
    pub run :
        (before after : Bytes)
        → Fits before (field ++ after)
        → m (at before (field ++ after)) ≡ ok (a, at (before ++ field) after)

  pub record Ends {A : Type 0} (m : Read S E A) (field : Bytes) (a : A) : Type 0 where
    pub run :
        (before : Bytes) → Fits before field → m (at before field) ≡ ok (a, at (before ++ field) [])

module _ {S E A B : Type 0} {at : Bytes → Bytes → S} {m : Read S E A} (k : A → Read S E B) where
  pub Parses-bind :
      {first second : Bytes} {a : A} {b : B}
      → Parses at m first a
      → Parses at (k a) second b
      → Parses at (m >>= k) (first ++ second) b
  unfolding ◌>>=◌
  Parses-bind {first} {second} {a} {b} p q = record {
    run = λ before after h.
        let h' = (rw append_assoc at h) in
        rw (append_assoc first second after, ◌>>=◌, p.run before (second ++ after) h')
          (rw (q.run (before ++ first) after (Fits-append before first (second ++ after) h'))
            (rw append_assoc refl));
  }

  pub Ends-bind :
      {first second : Bytes} {a : A} {b : B}
      → Parses at m first a
      → Ends at (k a) second b
      → Ends at (m >>= k) (first ++ second) b
  unfolding ◌>>=◌
  Ends-bind {first} {second} {a} {b} p q = record {
    run = λ before h.
        rw (◌>>=◌, p.run before second h)
          (rw (q.run (before ++ first) (Fits-append before first second h)) (rw append_assoc refl));
  }

  -- The last step that reads.
  pub Parses-last :
      {field : Bytes} {a : A} {b : B}
      → Parses at m field a
      → Parses at (k a) [] b
      → Parses at (m >>= k) field b
  Parses-last p q = rw append-nil at (Parses-bind p q)

  pub Ends-last :
      {field : Bytes} {a : A} {b : B}
      → Parses at m field a
      → Ends at (k a) [] b
      → Ends at (m >>= k) field b
  Ends-last p q = rw append-nil at (Ends-bind p q)

module _ {S E A B : Type 0} {at : Bytes → Bytes → S} (m : Read S E A) (k : A → Read S E B) where
  -- A step that looks at the state and reads nothing.
  pub Ends-check :
      {field : Bytes} {a : A} {b : B}
      → ((before : Bytes) → m (at before field) ≡ ok (a, at before field))
      → Ends at (k a) field b
      → Ends at (m >>= k) field b
  unfolding ◌>>=◌
  Ends-check c q = record { run = λ before h. rw (◌>>=◌, c before) (q.run before h) }

module _ {S E A : Type 0} {at : Bytes → Bytes → S} where
  pub Parses-pure : (a : A) → Parses at (pure {S = S} {E = E} a) [] a
  unfolding pure
  Parses-pure a = record { run = λ before after h. rw append-nil refl }

  pub Ends-pure : (a : A) → Ends at (pure {S = S} {E = E} a) [] a
  unfolding pure
  Ends-pure a = record { run = λ before h. rw append-nil refl }

  -- What is found wherever it stands is found at the end.
  pub Ends-Parses :
      {m : Read S E A} {field : Bytes} {a : A} → Parses at m field a → Ends at m field a
  Ends-Parses {field} p = record {
    run = λ before h. (rw append-nil at (p.run before [] (rw append-nil h)));
  }

  pub Parses-from_option :
      (e : E) {o : Option A} {a : A} → o ≡ some a → Parses at (from_option {S = S} e o) [] a
  unfolding from_option
  Parses-from_option e h = record { run = λ before after k. rw (h, append-nil) refl }

module _ {S E : Type 0} {at : Bytes → Bytes → S} where
  pub Parses-reject_if :
      (e : E) {bad : Bool} → bad ≡ false → Parses at (reject_if e (λ (s : S). bad)) [] tt
  unfolding reject_if
  Parses-reject_if e h = record { run = λ before after k. rw (h, append-nil) refl }
