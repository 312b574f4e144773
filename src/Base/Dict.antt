-- ===== src/Base/Dict.antt =====
-- A JavaScript `Map` with text keys, in insertion order: `set` on a key that is there keeps its place.
use Prim.Native.Nat.{suc, ◌≤◌}
use mathlib.Core.Path.{◌≡◌, refl, subst}
use mathlib.Core.Logic.{inl, inr}
use mathlib.Core.Bool.{Bool, true, false}
use mathlib.Core.Option.{Option, none, some}
use mathlib.Core.List.{List, [], ◌∷◌, ◌++◌}
use native.Mathlib.Omega.{arith}
use giroledger.Base.Tests.{Bool-cases, if◌then◌else◌}
use giroledger.Base.Lists.{length, All}
use giroledger.Base.Text.{Text, text_eq, text_eq_iff, text_eq_sound}

abbrev pub Dict {ℓ} : Type ℓ → Type ℓ
Dict V = List (Text × V)

module _ {ℓ} {V : Type ℓ} where
  abbrev pub get : Text → Dict V → Option V
  get k [] = none
  get k ((j, v) ∷ m) = if text_eq j k then some v else get k m

  abbrev pub has : Text → Dict V → Bool
  has k [] = false
  has k ((j, v) ∷ m) = if text_eq j k then true else has k m

  abbrev pub set : Text → V → Dict V → Dict V
  set k v [] = (k, v) ∷ []
  set k v ((j, w) ∷ m) = if text_eq j k then (k, v) ∷ m else (j, w) ∷ set k v m

  abbrev pub delete : Text → Dict V → Dict V
  delete k [] = []
  delete k ((j, v) ∷ m) = if text_eq j k then delete k m else (j, v) ∷ delete k m

  abbrev pub values : Dict V → List V
  values [] = []
  values ((k, v) ∷ m) = v ∷ values m

  pub get-set :
      (k j : Text) (v : V) (m : Dict V)
      → get j (set k v m) ≡ (if text_eq k j then some v else get j m)
  get-set k j v [] = refl
  get-set k j v ((i, w) ∷ m) =
      ground (arith, text_eq_iff k j, text_eq_iff i k, text_eq_iff i j, get-set k j v m)

  pub get-delete :
      (k j : Text) (m : Dict V) → get j (delete k m) ≡ (if text_eq k j then none else get j m)
  get-delete k j [] = ground arith
  get-delete k j ((i, w) ∷ m) =
      ground (arith, text_eq_iff k j, text_eq_iff i k, text_eq_iff i j, get-delete k j m)

  pub has-get : (k : Text) (m : Dict V) → get k m ≡ none → has k m ≡ false
  has-get k [] h = refl
  has-get k ((j, v) ∷ m) h = ground (arith, has-get k m)

  pub get-has : (k : Text) (m : Dict V) → has k m ≡ false → get k m ≡ none
  get-has k [] h = refl
  get-has k ((j, v) ∷ m) h = ground (arith, get-has k m)

  pub length-set : (k : Text) (v : V) (m : Dict V) → length (set k v m) ≤ suc (length m)
  length-set k v [] = omega arith
  length-set k v ((j, w) ∷ m) = ground (arith, length-set k v m)

  pub length-delete : (k : Text) (m : Dict V) → length (delete k m) ≤ length m
  length-delete k [] = omega arith
  length-delete k ((j, w) ∷ m) = ground (arith, length-delete k m)

  -- A new key goes to the end.
  pub set_fresh : (k : Text) (v : V) (m : Dict V) → has k m ≡ false → set k v m ≡ m ++ (k, v) ∷ []
  set_fresh k v [] h = refl
  set_fresh k v ((j, w) ∷ m) h = ground (arith, set_fresh k v m)

  pub All-set {κ} :
      (P : Text × V → Type κ) (k : Text) (v : V) (m : Dict V)
      → P (k, v)
      → All P m
      → All P (set k v m)
  All-set P k v [] p h = (p, tt)
  All-set P k v ((j, w) ∷ m) p h = ground (arith, All-set P k v m p)

  pub All-delete {κ} :
      (P : Text × V → Type κ) (k : Text) (m : Dict V) → All P m → All P (delete k m)
  All-delete P k [] h = tt
  All-delete P k ((j, w) ∷ m) h = ground (arith, All-delete P k m)

  -- What holds of every entry holds of what a look-up finds.
  pub All-get {κ} :
      (P : Text × V → Type κ) (k : Text) (m : Dict V) {v : V}
      → All P m
      → get k m ≡ some v
      → P (k, v)
  All-get P k [] h e = cc
  All-get P k ((j, w) ∷ m) {v} h e = elim (Bool-cases (text_eq j k)) [
    | inl same ↦
        let hit : some w ≡ some v = rw same at e in
        let found : w ≡ v = cc in
        let key : j ≡ k = text_eq_sound j k same in
        subst (λ i. P (i, v)) key (subst (λ u. P (j, u)) found h.0)
    | inr other ↦ All-get P k m h.1 (rw other at e)
  ]

  pub has-set :
      (k j : Text) (v : V) (m : Dict V)
      → has j (set k v m) ≡ (if text_eq k j then true else has j m)
  has-set k j v [] = refl
  has-set k j v ((i, w) ∷ m) =
      ground (arith, text_eq_iff k j, text_eq_iff i k, text_eq_iff i j, has-set k j v m)
