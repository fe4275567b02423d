-- ===== src/Base/Wire.antt =====
-- Big-endian fields with lengths, read by any reader that can take a number of bytes, and where
-- such a reader finds them.
use wdlp.Base.Lists.{length, length-append}
use wdlp.Base.Bytes.{
  Bytes, to_be_bytes, from_be_bytes, length-to_be_bytes, from_be_bytes-to_be_bytes,
}
use wdlp.Base.Results.{Result, ok, err}
use wdlp.Base.Reader.{
  Read, ◌>>=◌, ◌>>◌, pure, reject_if, Parses, Parses-bind, Parses-last, Parses-pure,
  Parses-reject_if,
}
use wdlp.Base.Utf8.{utf8_valid}
use Prim.Native.Nat.{ℕ, ◌+◌, ◌^◌, ◌<◌}
use mathlib.Core.Path.{◌≡◌, refl}
use mathlib.Core.Bool.{true, not}
use mathlib.Core.List.{[], ◌++◌, append-nil}
use native.Mathlib.Omega.{arith}

-- `append_bytes`: the length in four bytes, and the value. Its `expect` is on a length below 2^32.
unfoldable pub append_bytes : Bytes → Bytes
append_bytes value = to_be_bytes 4 (length value) ++ value

pub length-append_bytes : (value : Bytes) → length (append_bytes value) ≡ 4 + length value
unfolding append_bytes
length-append_bytes value =
    omega (
      arith,
      length-append (to_be_bytes 4 (length value)) value,
      length-to_be_bytes 4 (length value),
    )

module _ {S E : Type 0} where
  -- A result in a chain of readings.
  unfoldable pub lift : {A : Type 0} → Result E A → Read S E A
  lift (ok a) s = ok (a, s)
  lift (err e) s = err e

  module _ (take : ℕ → Read S E Bytes) where
    unfoldable pub integer_be : ℕ → Read S E ℕ
    integer_be width = do raw ← take width; pure (from_be_bytes raw)

    unfoldable pub sized_be : Read S E Bytes
    unfolding integer_be
    sized_be = do count ← integer_be 4; take count

    -- A text, with the error for bytes that are not UTF-8.
    unfoldable pub text_be : E → Read S E Bytes
    unfolding sized_be
    text_be e = do value ← sized_be; reject_if e (λ _. not (utf8_valid value)); pure value

module _ {S E : Type 0} {at : Bytes → Bytes → S} where
  pub Parses-lift :
      {A : Type 0} {r : Result E A} {a : A} → r ≡ ok a → Parses at (lift {S = S} r) [] a
  unfolding lift
  Parses-lift h = record { run = λ before after k. rw (h, append-nil) refl }

  module _ (take : ℕ → Read S E Bytes)
      (takes : (field : Bytes) → Parses at (take (length field)) field field) where
    pub integer_be-Parses :
        (width x : ℕ) → x < 256 ^ width → Parses at (integer_be take width) (to_be_bytes width x) x
    unfolding integer_be
    integer_be-Parses width x fits =
        let raw : Parses at (take width) (to_be_bytes width x) (to_be_bytes width x) =
          (rw (length-to_be_bytes width x) at (takes (to_be_bytes width x))) in
        Parses-last _ raw (rw (from_be_bytes-to_be_bytes width x fits) (Parses-pure x))

    pub sized_be-Parses :
        (field : Bytes)
        → length field < 2 ^ 32
        → Parses at (sized_be take) (append_bytes field) field
    unfolding sized_be append_bytes
    sized_be-Parses field fits =
        Parses-bind _ (integer_be-Parses 4 (length field) (omega arith)) (takes field)

    pub text_be-Parses :
        (e : E) (field : Bytes)
        → length field < 2 ^ 32
        → utf8_valid field ≡ true
        → Parses at (text_be take e) (append_bytes field) field
    unfolding text_be
    text_be-Parses e field fits valid =
        Parses-last _ (sized_be-Parses field fits)
          (Parses-bind _ (Parses-reject_if e (rw valid refl)) (Parses-pure field))
