-- ===== src/Store/Distinct.antt =====
-- The keys of the held payments of store.ts stay distinct in the sort and in what is kept.
use giroledger.Base.{◌≡◌, refl, ◌∙◌, ◌||◌, Bool, false, List, [], ◌∷◌, ◌++◌, arith, keep, All}
use giroledger.Base.Text.{Text, text_eq, text_eq_iff}
use giroledger.Base.Dict.{has}
use giroledger.Base.Keys.{Distinct}
use giroledger.Store.{Entry, insert_by_seen, sort_by_seen}
use giroledger.Store.Orphans.{listed}

has-insert :
    (k : Text) (e : Entry) (m : List Entry)
    → has k (insert_by_seen e m) ≡ (text_eq e.0 k || has k m)
has-insert k e [] = ground arith
has-insert k e (f ∷ m) = ground (arith, has-insert k e m)

Distinct-insert :
    (e : Entry) (m : List Entry) → has e.0 m ≡ false → Distinct m → Distinct (insert_by_seen e m)
Distinct-insert e [] n d = (refl, tt)
Distinct-insert e (f ∷ m) n d =
    ground
      (arith, Distinct-insert e m, has-insert f.0 e m, text_eq_iff f.0 e.0, text_eq_iff e.0 f.0)

pub has-sort : (k : Text) (m : List Entry) → has k (sort_by_seen m) ≡ has k m
has-sort k [] = refl
has-sort k (e ∷ m) = ground (arith, has-insert k e (sort_by_seen m), has-sort k m)

pub Distinct-sort : (m : List Entry) → Distinct m → Distinct (sort_by_seen m)
Distinct-sort [] d = tt
Distinct-sort (e ∷ m) d =
    Distinct-insert e (sort_by_seen m) (has-sort e.0 m ∙ d.0) (Distinct-sort m d.1)

absent-keep :
    (k : Text) (p : Entry → Bool) (m : List Entry) → has k m ≡ false → has k (keep p m) ≡ false
absent-keep k p [] h = refl
absent-keep k p (e ∷ m) h = ground (arith, absent-keep k p m)

pub Distinct-keep : (p : Entry → Bool) (m : List Entry) → Distinct m → Distinct (keep p m)
Distinct-keep p [] d = tt
Distinct-keep p (e ∷ m) d = ground (arith, absent-keep e.0 p m d.0, Distinct-keep p m d.1)

-- Behind a prefix of distinct keys, no key is among those of the prefix.
pub unlisted : (xs ys : List Entry) → Distinct (xs ++ ys) → All (λ y. listed xs y.0 ≡ false) ys
unlisted xs [] d = tt
unlisted xs (y ∷ ys) d = (ahead xs d, unlisted xs ys (without xs d))
  where
    ahead : (xs : List Entry) → Distinct (xs ++ y ∷ ys) → listed xs y.0 ≡ false
    ahead [] d = refl
    ahead (x ∷ xs) d =
        ground (arith, ahead xs d.1, not_there xs x.0 d.0, text_eq_iff y.0 x.0, text_eq_iff x.0 y.0)
      where
        not_there :
            (xs : List Entry) (k : Text) → has k (xs ++ y ∷ ys) ≡ false → text_eq y.0 k ≡ false
        not_there [] k h = ground arith
        not_there (x ∷ xs) k h = ground (arith, not_there xs k)

    less : (xs : List Entry) (k : Text) → has k (xs ++ y ∷ ys) ≡ false → has k (xs ++ ys) ≡ false
    less [] k h = ground arith
    less (x ∷ xs) k h = ground (arith, less xs k)

    without : (xs : List Entry) → Distinct (xs ++ y ∷ ys) → Distinct (xs ++ ys)
    without [] d = d.1
    without (x ∷ xs) d = (less xs x.0 d.0, without xs d.1)
