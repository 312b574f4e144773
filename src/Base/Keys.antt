-- ===== src/Base/Keys.antt =====
-- The keys of a `Map` are distinct, and its entries written out and set one by one give it back.
use mathlib.Core.Path.{◌≡◌, refl}
use mathlib.Core.Bool.{false}
use mathlib.Core.List.{[], ◌∷◌, ◌++◌}
use native.Mathlib.Omega.{arith}
use giroledger.Base.Text.{Text, text_eq_iff}
use giroledger.Base.Dict.{Dict, has, set, has-set}

module _ {ℓ} {V : Type ℓ} where
  abbrev pub Distinct : Dict V → Type 0
  Distinct [] = Unit
  Distinct ((k, v) ∷ m) = (has k m ≡ false) × Distinct m

  pub Distinct-set : (k : Text) (v : V) (m : Dict V) → Distinct m → Distinct (set k v m)
  Distinct-set k v [] d = (refl, tt)
  Distinct-set k v ((j, w) ∷ m) d =
      ground (arith, Distinct-set k v m, has-set k j v m, text_eq_iff j k, text_eq_iff k j)

  pub has-append :
      (k : Text) (m n : Dict V) → has k m ≡ false → has k n ≡ false → has k (m ++ n) ≡ false
  has-append k [] n h g = g
  has-append k ((j, w) ∷ m) n h g = ground (arith, has-append k m n)
