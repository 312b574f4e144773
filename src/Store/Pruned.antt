-- ===== src/Store/Pruned.antt =====
-- What `pruneOrphans` of store.ts leaves of the payments that are held, and which it takes away.
use giroledger.Base.{
  ℕ, ◌+◌, ◌≤◌, ◌≡◌, refl, sym, ap, subst, ◌∙◌, ◌⊎◌, inl, inr, Bool, true, false, not, some, List,
  [], ◌∷◌, ◌++◌, arith, leb, min, length, take, drop, keep, All, All-append, keep-append,
  length-drop, take-append-drop, leb→le, leb→gt, Bool-cases,
}
use giroledger.Base.Text.{Text, text_eq_refl, text_eq_iff}
use giroledger.Base.Dict.{Dict, get, has}
use giroledger.Base.Keys.{Distinct}
use giroledger.Store.{
  OrphanPayment, Entry, orphan_max, orphan_ttl_ms, sort_by_seen, unexpired, prune_orphans,
  delete_keys,
}
use giroledger.Store.Sorting.{All-weaken, All-sort_inv}
use giroledger.Store.Orphans.{
  listed, delete_keys-keep, length-sort, listed_prefix, size-sort, fresh, over, cut,
  All-prune_orphans, prune_orphans-young, prune_orphans-newest,
}
use giroledger.Store.Distinct.{has-sort, Distinct-sort, Distinct-keep, unlisted}

abbrev is_young : ℕ → Entry → Bool
is_young now e = leb now (e.1.seen_at + orphan_ttl_ms)

unexpired-is_young : (now : ℕ) (m : Dict OrphanPayment) → unexpired now m ≡ keep (is_young now) m
unexpired-is_young now [] = refl
unexpired-is_young now (e ∷ m) = ground (arith, unexpired-is_young now m)

keep_none :
    (p : Entry → Bool) (m : List Entry) → All (λ e. p e ≡ true) m → keep (λ e. not (p e)) m ≡ []
keep_none p [] h = refl
keep_none p (e ∷ m) h = ground (arith, keep_none p m h.1, h.0)

keep_every :
    (p : Entry → Bool) (m : List Entry) → All (λ e. p e ≡ false) m → keep (λ e. not (p e)) m ≡ m
keep_every p [] h = refl
keep_every p (e ∷ m) h = ground (arith, keep_every p m h.1, h.0)

-- With distinct keys, deleting the keys of the first entries by time takes away as many entries.
length-delete_keys :
    (m xs ys : List Entry)
    → Distinct m
    → sort_by_seen m ≡ xs ++ ys
    → length (delete_keys xs m) ≡ length ys
length-delete_keys m xs ys d e =
    let apart : Distinct (xs ++ ys) = subst (λ s. Distinct s) e (Distinct-sort m d) in
    let gone : Entry → Bool = λ b. listed xs b.0 in
    let left : keep (λ b. not (listed xs b.0)) (xs ++ ys) ≡ ys =
      rw
        (
          keep-append (λ b. not (listed xs b.0)) xs ys,
          keep_none gone xs (listed_prefix [] xs),
          keep_every gone ys (unlisted xs ys apart),
        )
        refl in
    rw (delete_keys-keep xs m, ← length-sort (λ b. not (listed xs b.0)) m, e, left) refl

has-keep :
    (xs : List Entry) (k : Text) (m : List Entry)
    → has k m ≡ true
    → listed xs k ≡ false
    → has k (keep (λ e. not (listed xs e.0)) m) ≡ true
has-keep xs k [] h n = absurd (cc)
has-keep xs k (e ∷ m) h n = ground (arith, has-keep xs k m, ap (listed xs), text_eq_iff e.0 k)

All-has : (m : List Entry) → All (λ e. has e.0 m ≡ true) m
All-has [] = tt
All-has (e ∷ m) = (
  rw (text_eq_refl e.0) refl,
  All-weaken (λ b. has b.0 m ≡ true) (λ b. has b.0 (e ∷ m) ≡ true) (λ b h. ground arith) m
      (All-has m),
)

-- Each entry of two lists against each of the other, the other way around.
All-swap {κ} :
    (R : Entry → Entry → Type κ) (xs ys : List Entry)
    → All (λ b. All (λ a. R a b) xs) ys
    → All (λ a. All (λ b. R a b) ys) xs
All-swap R [] ys h = tt
All-swap R (x ∷ xs) ys h = (
  All-weaken (λ b. All (λ a. R a b) (x ∷ xs)) (λ b. R x b) (λ b k. k.0) ys h,
  All-swap R xs ys
      (All-weaken (λ b. All (λ a. R a b) (x ∷ xs)) (λ b. All (λ a. R a b) xs) (λ b k. k.1) ys h),
)

-- The entries with the keys left, or those no newer than any that is left.
abbrev SortedOut : List Entry → Entry → Type 0
SortedOut r e = (has e.0 r ≡ true) ⊎ All (λ b. e.1.seen_at ≤ b.1.seen_at) r

has-suffix : (xs ys : List Entry) (k : Text) → has k ys ≡ true → has k (xs ++ ys) ≡ true
has-suffix [] ys k h = h
has-suffix (x ∷ xs) ys k h = ground (arith, has-suffix xs ys k)

All-both {κ ι} :
    {A : Type 0} (P : A → Type κ) (Q : A → Type ι) (m : List A)
    → All P m
    → All Q m
    → All (λ a. P a × Q a) m
All-both P Q [] h k = tt
All-both P Q (a ∷ m) h k = ((h.0, k.0), All-both P Q m h.1 k.1)

-- What stands behind the cut is left.
has-delete_keys :
    (m xs ys : List Entry)
    → Distinct m
    → sort_by_seen m ≡ xs ++ ys
    → All (λ y. has y.0 (delete_keys xs m) ≡ true) ys
has-delete_keys m xs ys d e =
    let apart : Distinct (xs ++ ys) = subst (λ s. Distinct s) e (Distinct-sort m d) in
    rw (delete_keys-keep xs m) (
      All-weaken (λ y. (has y.0 ys ≡ true) × (listed xs y.0 ≡ false)) _
        (λ y (there, free).
          let sorted : has y.0 (sort_by_seen m) ≡ true = rw e (has-suffix xs ys y.0 there) in
          has-keep xs y.0 m (sym (has-sort y.0 m) ∙ sorted) free)
        ys
        (All-both (λ y. has y.0 ys ≡ true) (λ y. listed xs y.0 ≡ false) ys (All-has ys)
          (unlisted xs ys apart)))

get-known : (m : Dict OrphanPayment) → Distinct m → All (λ b. get b.0 m ≡ some b.1) m
get-known [] d = tt
get-known (e ∷ m) d = (
  rw (text_eq_refl e.0) refl,
  All-weaken (λ b. (get b.0 m ≡ some b.1) × (has b.0 m ≡ true)) (λ b. get b.0 (e ∷ m) ≡ some b.1)
      (λ b (found, there). ground (arith, found, there, d.0, text_eq_iff e.0 b.0)) m
      (All-both (λ b. get b.0 m ≡ some b.1) (λ b. has b.0 m ≡ true) m (get-known m d.1)
        (All-has m)),
)

-- What is left of the payments held: entries that were held, none of which is older than an hour; as
-- many of those within the hour as there are, but at most 500; and one of those that is not left was
-- seen no later than any that is.
pub record IsPruned (now : ℕ) (m r : Dict OrphanPayment) : Type 0 where
  pub known : All (λ b. get b.0 m ≡ some b.1) r
  pub young : All (λ b. now ≤ b.1.seen_at + orphan_ttl_ms) r
  pub size : length r ≡ min (length (keep (is_young now) m)) orphan_max
  pub newest : All (SortedOut r) (keep (is_young now) m)

module _ (now : ℕ) (m : Dict OrphanPayment) (d : Distinct m) where
  size-prune_orphans : length (prune_orphans now m) ≡ min (length (fresh now m)) orphan_max
  unfolding prune_orphans
  size-prune_orphans = elim (Bool-cases (leb (length (fresh now m)) orphan_max)) [
    | inl few ↦ let within = leb→le (length (fresh now m)) orphan_max few in rw few (ground arith)
    | inr many ↦
        let beyond = leb→gt (length (fresh now m)) orphan_max many in
        let sorted = sort_by_seen (fresh now m) in
        let left =
          length-delete_keys (fresh now m) (take (over now m) sorted) (drop (over now m) sorted)
            (Distinct-keep _ m d) (sym (take-append-drop (over now m) sorted)) in
        rw (many, left, length-drop (over now m) sorted, size-sort (fresh now m)) (ground arith)
  ]

  newest-prune_orphans : All (SortedOut (prune_orphans now m)) (fresh now m)
  newest-prune_orphans = elim (Bool-cases (leb (length (fresh now m)) orphan_max)) [
    | inl few ↦
        All-weaken (λ e. has e.0 (fresh now m) ≡ true) (SortedOut (prune_orphans now m))
          (λ e h. inl (unfold prune_orphans in rw few h)) (fresh now m) (All-has (fresh now m))
    | inr many ↦
        let sorted = sort_by_seen (fresh now m) in
        let split : sorted ≡ cut now m ++ drop (over now m) sorted =
          sym (take-append-drop (over now m) sorted) in
        let left : prune_orphans now m ≡ delete_keys (cut now m) (fresh now m) =
          unfold prune_orphans in rw many refl in
        All-sort_inv (SortedOut (prune_orphans now m)) (fresh now m) (
          rw split (
            All-append (SortedOut (prune_orphans now m)) (cut now m) (drop (over now m) sorted)
              (All-weaken _ (SortedOut (prune_orphans now m)) (λ e h. inr h) (cut now m)
                (All-swap (λ a b. a.1.seen_at ≤ b.1.seen_at) (cut now m) (prune_orphans now m)
                  (prune_orphans-newest now m)))
              (All-weaken _ (SortedOut (prune_orphans now m)) (λ e h. inl (rw left h))
                (drop (over now m) sorted)
                (has-delete_keys (fresh now m) (cut now m) (drop (over now m) sorted)
                  (Distinct-keep _ m d) split))))
  ]

  -- Of payments held under distinct hashes, pruning leaves only some that were held, and none that
  -- was seen more than an hour ago; it leaves as many of those within the hour as there are, but at
  -- most 500, and any of those within the hour that it takes away was seen no later than every one
  -- that it leaves.
  pub prune_orphans-IsPruned : IsPruned now m (prune_orphans now m)
  prune_orphans-IsPruned = record {
    known = All-prune_orphans (λ b. get b.0 m ≡ some b.1) now m (get-known m d);
    young = prune_orphans-young now m;
    size = rw (← unexpired-is_young now m) size-prune_orphans;
    newest = rw (← unexpired-is_young now m) newest-prune_orphans;
  }
