-- ===== src/Store/Orphans.antt =====
-- The bounds on the payments that store.ts holds: their age, their number, and which of them go.
use mathlib.Core.List.{append_assoc}
use giroledger.Base.{
  ℕ, ◌+◌, ◌-◌, ◌≤◌, ◌≡◌, refl, sym, ap, subst, ◌∙◌, ◌||◌, ◌⊎◌, inl, inr, Bool, true, false, not,
  List, [], ◌∷◌, ◌++◌, arith, ltb, leb, length, take, drop, keep, any, All, All-keep, All-append,
  length-drop, length-keep, take-append-drop, leb→le, Bool-cases,
}
use giroledger.Base.Text.{Text, text_eq, text_eq_refl}
use giroledger.Base.Dict.{Dict, delete, All-delete}
use giroledger.Store.Sorting.{All-weaken, All-unit, All-sort_inv, sort-Sorted, split-Sorted}
use giroledger.Store.{
  OrphanPayment, Entry, orphan_max, orphan_ttl_ms, insert_by_seen, sort_by_seen, delete_keys,
  unexpired, prune_orphans,
}

-- A key is among those of the listed entries.
abbrev pub listed : List Entry → Text → Bool
listed ks k = any (λ e. text_eq k e.0) ks

keep-delete :
    (ks : List Entry) (k : Text) (m : Dict OrphanPayment)
    → keep (λ e. not (listed ks e.0)) (delete k m)
      ≡ keep (λ e. not (text_eq e.0 k || listed ks e.0)) m
keep-delete ks k [] = refl
keep-delete ks k ((j, o) ∷ m) = ground (arith, keep-delete ks k m)

keep_all : (m : Dict OrphanPayment) → keep (λ e. true) m ≡ m
keep_all [] = refl
keep_all (e ∷ m) = ap (◌∷◌ e) (keep_all m)

pub delete_keys-keep :
    (ks : List Entry) (m : Dict OrphanPayment)
    → delete_keys ks m ≡ keep (λ e. not (listed ks e.0)) m
delete_keys-keep [] m = sym (keep_all m)
delete_keys-keep ((k, o) ∷ ks) m = delete_keys-keep ks (delete k m) ∙ keep-delete ks k m

length-insert :
    (p : Entry → Bool) (e : Entry) (m : List Entry)
    → length (keep p (insert_by_seen e m)) ≡ length (keep p (e ∷ m))
length-insert p e [] = refl
length-insert p e (f ∷ m) = ground (arith, length-insert p e m)

pub length-sort :
    (p : Entry → Bool) (m : List Entry) → length (keep p (sort_by_seen m)) ≡ length (keep p m)
length-sort p [] = refl
length-sort p (e ∷ m) = ground (arith, length-insert p e (sort_by_seen m), length-sort p m)

-- What is deleted by the keys of a prefix lies at least in that prefix.
keep_suffix :
    (ks xs ys : List Entry)
    → All (λ e. listed ks e.0 ≡ true) xs
    → length (keep (λ e. not (listed ks e.0)) (xs ++ ys)) ≤ length ys
keep_suffix ks [] ys h = length-keep _ ys
keep_suffix ks (x ∷ xs) ys h = ground (arith, keep_suffix ks xs ys h.1)

pub listed_prefix : (ks xs : List Entry) → All (λ e. listed (ks ++ xs) e.0 ≡ true) xs
listed_prefix ks [] = tt
listed_prefix ks (x ∷ xs) =
    (listed_mid ks x xs, rw (append_assoc ks (x ∷ []) xs) at (listed_prefix (ks ++ x ∷ []) xs))
  where
    listed_mid : (ks : List Entry) (x : Entry) (xs : List Entry) → listed (ks ++ x ∷ xs) x.0 ≡ true
    listed_mid [] x xs = ground (arith, text_eq_refl x.0)
    listed_mid (k ∷ ks) x xs = ground (arith, listed_mid ks x xs)

-- The entries that trimming leaves are those of the sorted list behind the cut, at most.
length_trim :
    (m xs ys : List Entry) → sort_by_seen m ≡ xs ++ ys → length (delete_keys xs m) ≤ length ys
length_trim m xs ys e =
    rw (delete_keys-keep xs m, ← length-sort (λ e. not (listed xs e.0)) m)
      (rw e (keep_suffix xs xs ys (listed_prefix [] xs)))

pub size-sort : (m : List Entry) → length (sort_by_seen m) ≡ length m
size-sort m = rw (← keep_all (sort_by_seen m)) (length-sort (λ e. true) m ∙ ap length (keep_all m))

module _ (now : ℕ) (m : Dict OrphanPayment) where
  abbrev pub fresh : Dict OrphanPayment
  fresh = unexpired now m

  abbrev pub over : ℕ
  over = length fresh - orphan_max

  -- The entries that trimming takes away: the first of those that the age limit leaves, by time.
  abbrev pub cut : List Entry
  cut = take over (sort_by_seen fresh)

  length_cut : length (delete_keys (take over (sort_by_seen fresh)) fresh) ≤ length fresh - over
  length_cut =
      let bound =
        length_trim fresh (take over (sort_by_seen fresh)) (drop over (sort_by_seen fresh))
          (sym (take-append-drop over (sort_by_seen fresh))) in
      omega (arith, bound, length-drop over (sort_by_seen fresh), size-sort fresh)

  -- Pruning leaves at most 500 payments.
  pub length-prune_orphans : length (prune_orphans now m) ≤ orphan_max
  unfolding prune_orphans
  length-prune_orphans = elim (Bool-cases (leb (length fresh) orphan_max)) [
    | inl few ↦ rw few (omega (arith, leb→le (length fresh) orphan_max few))
    | inr many ↦ rw many (ground (arith, length_cut))
  ]

All-delete_keys {κ} :
    (P : Entry → Type κ) (ks : List Entry) (m : Dict OrphanPayment)
    → All P m
    → All P (delete_keys ks m)
All-delete_keys P [] m h = h
All-delete_keys P ((k, o) ∷ ks) m h = All-delete_keys P ks (delete k m) (All-delete P k m h)

-- Pruning adds nothing.
pub All-prune_orphans {κ} :
    (P : Entry → Type κ) (now : ℕ) (m : Dict OrphanPayment) → All P m → All P (prune_orphans now m)
unfolding prune_orphans
All-prune_orphans P now m h = elim (Bool-cases (leb (length (fresh now m)) orphan_max)) [
  | inl few ↦ rw few (All-keep P young m h)
  | inr many ↦ rw many (All-delete_keys P (cut now m) (fresh now m) (All-keep P young m h))
]
  where
    young : Entry → Bool
    young e = not (ltb e.1.seen_at (now - orphan_ttl_ms))

-- The age limit holds of all that is left.
keep_young :
    (now : ℕ) (m : Dict OrphanPayment)
    → All (λ e. now ≤ e.1.seen_at + orphan_ttl_ms) (unexpired now m)
keep_young now [] = tt
keep_young now (e ∷ m) = ground (arith, keep_young now m)

-- No payment that pruning leaves was seen more than an hour ago.
pub prune_orphans-young :
    (now : ℕ) (m : Dict OrphanPayment)
    → All (λ e. now ≤ e.1.seen_at + orphan_ttl_ms) (prune_orphans now m)
unfolding prune_orphans
prune_orphans-young now m = elim (Bool-cases (leb (length (fresh now m)) orphan_max)) [
  | inl few ↦ rw few (keep_young now m)
  | inr many ↦ rw many (All-delete_keys _ (cut now m) (fresh now m) (keep_young now m))
]

-- Either deleted by its key, or no older than what was deleted.
abbrev Settled : List Entry → Entry → Type 0
Settled xs b = (listed xs b.0 ≡ true) ⊎ All (λ a. a.1.seen_at ≤ b.1.seen_at) xs

newest_left : (m xs ys : List Entry) → sort_by_seen m ≡ xs ++ ys → All (Settled xs) m
newest_left m xs ys e = All-sort_inv (Settled xs) m (
    rw e (
      All-append (Settled xs) xs ys
        (All-weaken (λ a. listed xs a.0 ≡ true) (Settled xs) (λ a q. inl q) xs
          (listed_prefix [] xs))
        (All-weaken (λ b. All (λ a. a.1.seen_at ≤ b.1.seen_at) xs) (Settled xs) (λ b q. inr q) ys
          (split-Sorted xs ys (rw (← e) (sort-Sorted m))))))

keep_unsettled :
    (xs m : List Entry)
    → All (Settled xs) m
    → All (λ b. All (λ a. a.1.seen_at ≤ b.1.seen_at) xs) (keep (λ e. not (listed xs e.0)) m)
keep_unsettled xs [] h = tt
keep_unsettled xs (b ∷ m) (s, h) = elim (Bool-cases (listed xs b.0)) [
  | inl gone ↦ rw gone (keep_unsettled xs m h)
  | inr stays ↦ rw stays (newer s stays, keep_unsettled xs m h)
]
  where
    newer : Settled xs b → listed xs b.0 ≡ false → All (λ a. a.1.seen_at ≤ b.1.seen_at) xs
    newer (inl gone) stays = absurd (cc)
    newer (inr q) stays = q

-- Pruning takes the oldest of the payments within the age limit: no payment that stays was seen
-- before one that was cut for their number.
pub prune_orphans-newest :
    (now : ℕ) (m : Dict OrphanPayment)
    → All (λ b. All (λ a. a.1.seen_at ≤ b.1.seen_at) (cut now m)) (prune_orphans now m)
unfolding prune_orphans
prune_orphans-newest now m = elim (Bool-cases (leb (length (fresh now m)) orphan_max)) [
  | inl few ↦
      let nothing : over now m ≡ 0 = omega (arith, leb→le (length (fresh now m)) orphan_max few) in
      rw few (
        subst
          (λ k.
            All (λ b. All (λ a. a.1.seen_at ≤ b.1.seen_at) (take k (sort_by_seen (fresh now m))))
              (fresh now m))
          (sym nothing) (All-unit (fresh now m)))
  | inr many ↦
      rw (many, delete_keys-keep (cut now m) (fresh now m))
        (keep_unsettled (cut now m) (fresh now m) (
          newest_left (fresh now m) (cut now m) (drop (over now m) (sort_by_seen (fresh now m)))
            (sym (take-append-drop (over now m) (sort_by_seen (fresh now m))))))
]
