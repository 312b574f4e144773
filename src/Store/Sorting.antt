-- ===== src/Store/Sorting.antt =====
-- The sort of the held payments by the time they were seen: sorted, and with the same entries.
use giroledger.Base.{◌≤◌, ◌++◌, inl, inr, List, [], ◌∷◌, arith, ltb, All, Bool-cases}
use giroledger.Store.{Entry, insert_by_seen, sort_by_seen}

-- Sorted: each entry was seen no later than those behind it.
abbrev Sorted : List Entry → Type 0
Sorted [] = Unit
Sorted (e ∷ m) = All (λ f. e.1.seen_at ≤ f.1.seen_at) m × Sorted m

All-insert {κ} :
    (P : Entry → Type κ) (e : Entry) (m : List Entry) → P e → All P m → All P (insert_by_seen e m)
All-insert P e [] p h = (p, tt)
All-insert P e (f ∷ m) p h = ground (arith, All-insert P e m p)

pub All-weaken {κ ι} :
    {A : Type 0} (P : A → Type κ) (Q : A → Type ι)
    → ((a : A) → P a → Q a)
    → (m : List A) → All P m
    → All Q m
All-weaken P Q f [] h = tt
All-weaken P Q f (a ∷ m) h = (f a h.0, All-weaken P Q f m h.1)

insert-Sorted : (e : Entry) (m : List Entry) → Sorted m → Sorted (insert_by_seen e m)
insert-Sorted e [] s = (tt, tt)
insert-Sorted e (f ∷ m) s = elim (Bool-cases (ltb f.1.seen_at e.1.seen_at)) [
  | inl later ↦
      rw later
        (All-insert (λ g. f.1.seen_at ≤ g.1.seen_at) e m (ground arith) s.0, insert-Sorted e m s.1)
  | inr first ↦
      let le : e.1.seen_at ≤ f.1.seen_at = ground arith in
      rw first (
        (
          le,
          All-weaken (λ g. f.1.seen_at ≤ g.1.seen_at) (λ g. e.1.seen_at ≤ g.1.seen_at)
              (λ g q. omega arith) m s.0,
        ),
        s,
      )
]

pub sort-Sorted : (m : List Entry) → Sorted (sort_by_seen m)
sort-Sorted [] = tt
sort-Sorted (e ∷ m) = insert-Sorted e (sort_by_seen m) (sort-Sorted m)

pub All-unit : (ys : List Entry) → All (λ b. Unit {0}) ys
All-unit [] = tt
All-unit (y ∷ ys) = (tt, All-unit ys)

pub split-Sorted :
    (xs ys : List Entry) → Sorted (xs ++ ys) → All (λ b. All (λ a. a.1.seen_at ≤ b.1.seen_at) xs) ys
split-Sorted [] ys s = All-unit ys
split-Sorted (x ∷ xs) ys s = All-both xs ys (All-tail xs ys s.0) (split-Sorted xs ys s.1)
  where
    All-tail :
        (zs ys : List Entry)
        → All (λ f. x.1.seen_at ≤ f.1.seen_at) (zs ++ ys)
        → All (λ f. x.1.seen_at ≤ f.1.seen_at) ys
    All-tail [] ys h = h
    All-tail (z ∷ zs) ys h = All-tail zs ys h.1

    All-both :
        (xs ys : List Entry)
        → All (λ f. x.1.seen_at ≤ f.1.seen_at) ys
        → All (λ b. All (λ a. a.1.seen_at ≤ b.1.seen_at) xs) ys
        → All (λ b. All (λ a. a.1.seen_at ≤ b.1.seen_at) (x ∷ xs)) ys
    All-both xs [] h k = tt
    All-both xs (y ∷ ys) h k = ((h.0, k.0), All-both xs ys h.1 k.1)

All-insert_inv {κ} :
    (P : Entry → Type κ) (e : Entry) (m : List Entry) → All P (insert_by_seen e m) → All P (e ∷ m)
All-insert_inv P e [] h = h
All-insert_inv P e (f ∷ m) h = elim (Bool-cases (ltb f.1.seen_at e.1.seen_at)) [
  | inl later ↦
      let h' : All P (f ∷ insert_by_seen e m) = rw later at h in
      let (p, r) = All-insert_inv P e m h'.1 in (p, (h'.0, r))
  | inr first ↦ let h' : All P (e ∷ f ∷ m) = rw first at h in h'
]

pub All-sort_inv {κ} : (P : Entry → Type κ) (m : List Entry) → All P (sort_by_seen m) → All P m
All-sort_inv P [] h = tt
All-sort_inv P (e ∷ m) h =
    let (p, r) = All-insert_inv P e (sort_by_seen m) h in (p, All-sort_inv P m r)
