-- ===== src/Storage/Store/Ensures.antt =====
-- What a method of the store of crates/dlp-storage/src/store.rs that succeeds has done to the disk,
-- where the store keeps its identifier and its key.
use wdlp.Base.{◌≡◌, refl, ◌∙◌, Option, ap, subst, sym, arith}
use wdlp.Base.Bytes.{Bytes}
use wdlp.Base.Results.{ok, err}
use wdlp.Storage.Errors.{Outcome}
use wdlp.Storage.Store.{
  DurabilityFaultPoint, DiskPath, World, Store, Run, ◌>>=◌, continue, pure, lift, outside,
}
use wdlp.Storage.Store.Flush.{hit}
use wdlp.Storage.Store.Flush.Frames.{hit-world}

abbrev pub Disk : Type 0
Disk = DiskPath → Option Bytes

continue-ok :
    {A B : Type 0} (r : Outcome A) (k : A → Run Store B) (s : Store) {b : B}
    → (continue r k s).0 ≡ ok b
    → (a : A) × (r ≡ ok a) × (continue r k s ≡ k a s)
continue-ok (ok a) k s h = (a, refl, refl)
continue-ok (err e) k s h = cc

-- What a part of the store is not, stays where the part was given another value.
pub hit-id : (point : DurabilityFaultPoint) (s : Store) → (hit point s).1.store_id ≡ s.store_id
unfolding hit
hit-id point s = ground arith

pub hit-key : (point : DurabilityFaultPoint) (s : Store) → (hit point s).1.key ≡ s.key
unfolding hit
hit-key point s = ground arith

module _ (store_id key : Bytes) where
  -- A store with this identifier and key, and a disk of which P holds.
  abbrev pub Holds : (Disk → Type 0) → Store → Type 0
  Holds P s = (s.store_id ≡ store_id) × (s.key ≡ key) × P s.world.disk

  pub record Ensures (P : Disk → Type 0) {A : Type 0} (m : Run Store A) (Q : A → Disk → Type 0)
      : Type 0 where
    pub run : (s : Store) {a : A} → Holds P s → (m s).0 ≡ ok a → Holds (Q a) (m s).1

  pub Ensures-bind :
      {P : Disk → Type 0} {A B : Type 0} {m : Run Store A} {k : A → Run Store B}
      (Q : A → Disk → Type 0) {R : B → Disk → Type 0}
      → Ensures P m Q
      → ((a : A) → Ensures (Q a) (k a) R)
      → Ensures P (m >>= k) R
  Ensures-bind {m = m} {k = k} Q {R = R} h h' = record {
    run = λ s {a = b} holds works.
        let (a, first, same) = continue-ok (m s).0 k (m s).1 works in
        subst (λ (x : Outcome _ × Store). Holds (R b) x.1) (sym same)
          ((h' a).run (m s).1 (h.run s holds first) (sym (ap (λ x. x.0) same) ∙ works));
  }

  pub Ensures-pure :
      {P : Disk → Type 0} {A : Type 0} {Q : A → Disk → Type 0} (a : A)
      → ((d : Disk) → P d → Q a d)
      → Ensures P (pure a) Q
  Ensures-pure {Q = Q} a h = record {
    run = λ s {a = b} holds works.
        (holds.0, holds.1, subst (λ x. Q x s.world.disk) (cc works) (h s.world.disk holds.2));
  }

  pub Ensures-lift :
      {P : Disk → Type 0} {A : Type 0} (r : Outcome A)
      → Ensures P (lift r) (λ a d. (r ≡ ok a) × P d)
  Ensures-lift r = record { run = λ s holds works. (holds.0, holds.1, (works, holds.2)) }

  pub Ensures-hit :
      {P : Disk → Type 0} (point : DurabilityFaultPoint) → Ensures P (hit point) (λ _. P)
  Ensures-hit {P} point = record {
    run = λ s holds works. (
      hit-id point s ∙ holds.0,
      hit-key point s ∙ holds.1,
      subst (λ (w : World). P w.disk) (sym (hit-world point s)) holds.2,
    );
  }

  pub Ensures-outside :
      {P : Disk → Type 0} {A : Type 0} {Q : A → Disk → Type 0} (m : Run World A)
      → ((w : World) (a : A) → P w.disk → (m w).0 ≡ ok a → Q a (m w).1.disk)
      → Ensures P (outside m) Q
  Ensures-outside m h = record {
    run = λ s {a} holds works. (holds.0, holds.1, h s.world a holds.2 works);
  }

  -- What a weaker condition ensures, a stronger one does; and what is ensured, all it implies is.
  pub Ensures-weaken :
      {P : Disk → Type 0} {A : Type 0} {m : Run Store A} (Q : A → Disk → Type 0)
      {R : A → Disk → Type 0}
      → Ensures P m Q
      → ((a : A) (d : Disk) → Q a d → R a d)
      → Ensures P m R
  Ensures-weaken Q h imp = record {
    run = λ s {a} holds works. let (i, k, q) = h.run s holds works in (i, k, imp a _ q);
  }
