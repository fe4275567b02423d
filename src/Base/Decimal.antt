-- ===== src/Base/Decimal.antt =====
-- Decimal numerals, as `format!("{}")` prints a `u64`: twenty digits are enough.
use wdlp.Base.Tests.{ltb, if◌then◌else◌}
use wdlp.Base.Bytes.{Bytes}
use Prim.Native.Nat.{ℕ, zero, suc, ◌+◌, ◌/◌, ◌%◌}
use mathlib.Core.List.{[], ◌∷◌, ◌++◌}

digits_of : ℕ → ℕ → Bytes
digits_of zero n = []
digits_of (suc fuel) n =
    let more = digits_of fuel (n / 10) ++ (n % 10 + b'0') ∷ [] in
    if ltb n 10 then (n + b'0') ∷ [] else more

unfoldable pub to_decimal : ℕ → Bytes
unfolding digits_of
to_decimal n = digits_of 20 n
