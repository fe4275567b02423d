-- ===== src/Storage/Store/Keeps.antt =====
-- Methods of the store, and calls of its host, of crates/dlp-storage/src/store.rs that leave a part of it as it was, on
-- success and on failure.
use wdlp.Base.{◌≡◌, refl, ◌∙◌}
use wdlp.Base.Results.{ok, err}
use wdlp.Storage.Errors.{Outcome}
use wdlp.Storage.Store.{Run, ◌>>=◌, continue, pure, lift}

module _ {S X : Type 0} (part : S → X) where
  pub record Keeps {A : Type 0} (m : Run S A) : Type 0 where
    pub keep : (s : S) → part (m s).1 ≡ part s

  Keeps-continue :
      {A B : Type 0} (r : Outcome A) (k : A → Run S B)
      → ((a : A) → Keeps (k a))
      → (s : S) → part (continue r k s).1 ≡ part s
  Keeps-continue (ok a) k h s = (h a).keep s
  Keeps-continue (err e) k h s = refl

  pub Keeps-bind :
      {A B : Type 0} (m : Run S A) (k : A → Run S B)
      → Keeps m
      → ((a : A) → Keeps (k a))
      → Keeps (m >>= k)
  Keeps-bind m k h h' = record { keep = λ s. Keeps-continue (m s).0 k h' (m s).1 ∙ h.keep s }

  pub Keeps-pure : {A : Type 0} (a : A) → Keeps (pure a)
  Keeps-pure a = record { keep = λ s. refl }

  pub Keeps-lift : {A : Type 0} (r : Outcome A) → Keeps (lift r)
  Keeps-lift r = record { keep = λ s. refl }
