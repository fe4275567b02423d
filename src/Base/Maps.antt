-- ===== src/Base/Maps.antt =====
-- `BTreeMap`: an association list in key order. The laws of lookup need no order, so that they hold
-- of every list.
use wdlp.Base.Tests.{ltb, ◌==◌, ==_iff, if◌then◌else◌}
use wdlp.Base.Bytes.{Bytes, bytes_eq, bytes_eq_iff}
use wdlp.Base.BytesOrder.{before}
use Prim.Native.Nat.{ℕ}
use mathlib.Core.Path.{◌≡◌, refl}
use mathlib.Core.Logic.{◌↔◌}
use mathlib.Core.Bool.{Bool, true, false, ◌||◌}
use mathlib.Core.Option.{Option, none, some}
use mathlib.Core.List.{List, [], ◌∷◌}
use native.Mathlib.Omega.{arith}

pub record Key (K : Type 0) : Type 0 where
  pub same : K → K → Bool
  pub earlier : K → K → Bool
  pub same_iff : (a b : K) → (same a b ≡ true) ↔ (a ≡ b)

instance abbrev pub text_key : Key Bytes
text_key = record { same = bytes_eq; earlier = before; same_iff = bytes_eq_iff }

instance abbrev pub number_key : Key ℕ
number_key = record { same = ◌==◌; earlier = ltb; same_iff = ==_iff }

abbrev pub Map : Type 0 → Type 0 → Type 0
Map K V = List (K × V)

abbrev pub is_some {ℓ} : {V : Type ℓ} → Option V → Bool
is_some none = false
is_some (some v) = true

pub same_refl : {K : Type 0} ⦃k : Key K⦄ (a : K) → k.same a a ≡ true
same_refl ⦃k⦄ a = (k.same_iff a a).1 refl

is_some_absent : {V : Type 0} (o : Option V) → is_some o ≡ false → o ≡ none
is_some_absent none h = refl
is_some_absent (some v) h = cc

pub same_flip : {K : Type 0} ⦃k : Key K⦄ (a b : K) → k.same a b ≡ false → k.same b a ≡ false
same_flip ⦃k⦄ a b h = ground (arith, k.same_iff a b, k.same_iff b a)

module _ {K V : Type 0} ⦃k : Key K⦄ where
  unfoldable pub get : K → Map K V → Option V
  get a [] = none
  get a ((b, v) ∷ m) = if k.same b a then some v else get a m

  unfoldable pub insert : K → V → Map K V → Map K V
  insert a v [] = (a, v) ∷ []
  insert a v ((b, w) ∷ m) =
      if k.same b a
      then (a, v) ∷ m
      else if k.earlier a b
      then (a, v) ∷ (b, w) ∷ m
      else (b, w) ∷ insert a v m

  unfoldable pub remove : K → Map K V → Map K V
  remove a [] = []
  remove a ((b, w) ∷ m) = let rest = remove a m in if k.same b a then rest else (b, w) ∷ rest

  unfoldable pub contains : K → Map K V → Bool
  unfolding get
  contains a m = is_some (get a m)

  -- `values().any(..)` and `keys().any(..)`
  unfoldable pub any_value : (V → Bool) → Map K V → Bool
  any_value p [] = false
  any_value p ((b, w) ∷ m) = p w || any_value p m

  unfoldable pub any_key : (K → Bool) → Map K V → Bool
  any_key p [] = false
  any_key p ((b, w) ∷ m) = p b || any_key p m

  pub get-insert :
      (a b : K) (v : V) (m : Map K V)
      → get b (insert a v m) ≡ (if k.same a b then some v else get b m)
  unfolding get insert
  get-insert a b v [] = refl
  get-insert a b v ((c, w) ∷ m) =
      ground (arith, k.same_iff a b, k.same_iff c a, k.same_iff c b, get-insert a b v m)

  pub get-remove :
      (a b : K) (m : Map K V) → get b (remove a m) ≡ (if k.same a b then none else get b m)
  unfolding get remove
  get-remove a b [] = ground arith
  get-remove a b ((c, w) ∷ m) =
      ground (arith, k.same_iff a b, k.same_iff c a, k.same_iff c b, get-remove a b m)

  -- Removing a key that is not there changes nothing; so does removing one that was just inserted.
  pub remove_absent : (a : K) (m : Map K V) → get a m ≡ none → remove a m ≡ m
  unfolding get remove
  remove_absent a [] h = refl
  remove_absent a ((b, w) ∷ m) h = ground (arith, remove_absent a m)

  pub remove-insert : (a : K) (v : V) (m : Map K V) → get a m ≡ none → remove a (insert a v m) ≡ m
  unfolding get remove insert
  remove-insert a v [] h = ground (arith, same_refl a)
  remove-insert a v ((b, w) ∷ m) h =
      ground (arith, same_refl a, remove-insert a v m, remove_absent a m)

  -- A value found passes a test only if some value does.
  pub any_value-get :
      (p : V → Bool) (a : K) (m : Map K V) {v : V}
      → get a m ≡ some v
      → any_value p m ≡ false
      → p v ≡ false
  unfolding get any_value
  any_value-get p a [] h e = cc
  any_value-get p a ((b, w) ∷ m) {v} h e = ground (arith, any_value-get p a m {v = v})

  pub contains-get : (a : K) (m : Map K V) → contains a m ≡ false → get a m ≡ none
  unfolding contains
  contains-get a m = is_some_absent (get a m)

  pub get-insert_same : (a : K) (v : V) (m : Map K V) → get a (insert a v m) ≡ some v
  get-insert_same a v m = rw (get-insert a a v m, same_refl a) refl

  -- A key stays in a map when another is inserted or removed.
  pub contains-insert :
      (a b : K) (v : V) (m : Map K V) → contains b m ≡ true → contains b (insert a v m) ≡ true
  unfolding contains
  contains-insert a b v m h = rw (get-insert a b v m) (ground arith)

  pub contains-insert_same : (a : K) (v : V) (m : Map K V) → contains a (insert a v m) ≡ true
  unfolding contains
  contains-insert_same a v m = rw (get-insert_same a v m) refl

  pub contains-remove :
      (a b : K) (m : Map K V)
      → k.same a b ≡ false
      → contains b m ≡ true
      → contains b (remove a m) ≡ true
  unfolding contains
  contains-remove a b m differ h = rw (get-remove a b m, differ) h

  pub get-remove-some :
      (a b : K) (m : Map K V) {v : V} → get b (remove a m) ≡ some v → get b m ≡ some v
  get-remove-some a b m h = ground (arith, get-remove a b m)

  pub contains_of_get : (a : K) (m : Map K V) {v : V} → get a m ≡ some v → contains a m ≡ true
  unfolding contains
  contains_of_get a m h = rw h refl

  pub contains_agree :
      (a : K) (m m' : Map K V) → get a m' ≡ get a m → contains a m ≡ true → contains a m' ≡ true
  unfolding contains
  contains_agree a m m' same h = rw same h

  pub contains_of_none : (a : K) (m : Map K V) → get a m ≡ none → contains a m ≡ false
  unfolding contains
  contains_of_none a m h = rw h refl

  pub get-remove_same : (a : K) (m : Map K V) → get a (remove a m) ≡ none
  get-remove_same a m = rw (get-remove a a m, same_refl a) refl
