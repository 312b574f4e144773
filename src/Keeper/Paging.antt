-- ===== src/Keeper/Paging.antt =====
-- `collectDue` of apps/keeper/src/index.ts against the list that it pages through.
use native.Mathlib.Decide.{dec_lt}
use mathlib.Core.List.{append_assoc, append-nil}
use giroledger.Base.{
  ℕ, zero, suc, ◌+◌, ◌<◌, ◌≡◌, refl, sym, ap, ◌∙◌, Bool, true, false, not, some, List, [], ◌∷◌,
  ◌++◌, arith, ltb, leb, length, take, drop, keep, length-append, length-take, length-drop,
  drop-append, take-append-drop, take_all, take_within, keep-append, leb→le, le→leb, leb→gt, lt→leb,
  min, Bool-cases, if◌then◌else◌, inl, inr,
}
use giroledger.Base.Text.{Text}
use giroledger.Base.Dict.{has}
use giroledger.Base.Result.{ok}
use giroledger.Registry.{Registry, is_due, due_rules}
use giroledger.Keeper.Monad.{Keeper}
use giroledger.Keeper.{Node, Config, full, more, take_page, collect_due}

abbrev pub is_free : Keeper → Text → Bool
is_free k id = not (has id k.quarantine)

-- One page: the free ids of it join those taken, up to the size of a batch.
take_page_lem :
    (k : Keeper) (most : ℕ) (out ids : List Text)
    → length out < most
    → take_page k most out ids ≡ (
        if leb most (length (out ++ keep (is_free k) ids))
        then full (take most (out ++ keep (is_free k) ids))
        else more (out ++ keep (is_free k) ids))
unfolding take_page
take_page_lem k most out [] h = ground (arith, append-nil out)
take_page_lem k most out (id ∷ ids) h = elim (Bool-cases (has id k.quarantine)) [
  | inl kept_out ↦ rw (kept_out, take_page) (take_page_lem k most out ids h)
  | inr free ↦
      let rest = keep (is_free k) ids in
      let one_more = length-append out (id ∷ []) in
      elim (Bool-cases (leb most (length (out ++ id ∷ [])))) [
        | inl fills ↦
            let enough = leb→le most (length (out ++ id ∷ [])) fills in
            let whole : take most (out ++ id ∷ rest) ≡ out ++ id ∷ [] =
              ap (take most) (sym (append_assoc out (id ∷ []) rest))
              ∙ take_within most (out ++ id ∷ []) rest enough
              ∙ take_all most (out ++ id ∷ []) (omega arith) in
            let test : leb most (length (out ++ id ∷ rest)) ≡ true =
              le→leb most (length (out ++ id ∷ rest))
                (omega (arith, length-append out (id ∷ rest))) in
            rw (free, take_page, fills, test, whole) refl
        | inr room ↦
            rw (free, take_page, room)
              (rw (append_assoc out (id ∷ []) rest) at
                (take_page_lem k most (out ++ id ∷ []) ids (omega (arith, leb→gt most _ room))))
      ]
]

-- The node answers as the registry does, at one time.
pub record Serves (node : Node) (s : Registry) (now : ℕ) : Type 0 where
  pub pages :
      (offset limit : ℕ) (ids : List Text) (next : ℕ)
      → due_rules s now offset limit ≡ ok (ids, next)
      → node.due_rules offset limit ≡ ok (ids, next)
  pub total : (offset : ℕ) → node.total_rules offset ≡ ok (length s.all_rule_ids)

-- The due rules that are not quarantined, in the registry's order.
abbrev pub free_due : Registry → ℕ → Keeper → List Text → List Text
free_due s now k ids = keep (is_free k) (keep (is_due s now) ids)

free_due-append :
    (s : Registry) (now : ℕ) (k : Keeper) (xs ys : List Text)
    → free_due s now k (xs ++ ys) ≡ free_due s now k xs ++ free_due s now k ys
free_due-append s now k xs ys =
    ap (keep (is_free k)) (keep-append (is_due s now) xs ys)
    ∙ keep-append (is_free k) (keep (is_due s now) xs) (keep (is_due s now) ys)

window_end : (t o : ℕ) → (if ltb t o then t else o) ≡ min o t
window_end t o = ground arith

nil_of_length : {A : Type 0} (xs : List A) → length xs ≡ 0 → xs ≡ []
nil_of_length [] h = refl
nil_of_length (x ∷ xs) h = absurd (omega arith)

module _ (s : Registry) (done rest : List Text) (e : s.all_rule_ids ≡ done ++ rest) where
  total_ids : length s.all_rule_ids ≡ length done + length rest
  total_ids = ap length e ∙ length-append done rest

  behind : drop (length done) s.all_rule_ids ≡ rest
  behind = ap (drop (length done)) e ∙ drop-append done rest

  -- The page at an offset, where the ids before and behind it are known.
  page :
      (now : ℕ)
      → 0 < length rest
      → due_rules s now (length done) 100
        ≡ ok (
          keep (is_due s now) (take 100 rest),
          min (length done + 100) (length done + length rest),
        )
  unfolding due_rules
  page now h =
      let not_past : leb (length s.all_rule_ids) (length done) ≡ false =
        ground (arith, total_ids) in
      rw (not_past, behind, window_end (length s.all_rule_ids) (length done + 100), total_ids) refl

  last_page : (now : ℕ) → length rest ≡ 0 → due_rules s now (length done) 100 ≡ ok ([], length done)
  unfolding due_rules
  last_page now h = ground (arith, total_ids)

module _ (node : Node) (s : Registry) (now : ℕ) (config : Config) (k : Keeper)
    (serves : Serves node s now) where
  abbrev most : ℕ
  most = config.max_batch_size

  abbrev wanted : List Text → List Text
  wanted = free_due s now k

  -- One round that reads a page, where the rounds behind it are right.
  full_page :
      (fuel : ℕ) (done rest out : List Text)
      → s.all_rule_ids ≡ done ++ rest
      → length out < most
      → 0 < length rest
      → (length (out ++ wanted (take 100 rest)) < most
          → collect_due fuel node config k
              (out ++ wanted (take 100 rest))
              (length (done ++ take 100 rest))
            ≡ ok (some (take most ((out ++ wanted (take 100 rest)) ++ wanted (drop 100 rest)))))
      → collect_due (suc fuel) node config k out (length done)
        ≡ ok (some (take most (out ++ wanted rest)))
  unfolding collect_due
  full_page fuel done rest out e h left ih =
      let here = keep (is_due s now) (take 100 rest) in
      let next = min (length done + 100) (length done + length rest) in
      let read = serves.pages (length done) 100 here next (page s done rest e now left) in
      let parts : wanted rest ≡ wanted (take 100 rest) ++ wanted (drop 100 rest) =
        ap wanted (sym (take-append-drop 100 rest))
        ∙ free_due-append s now k (take 100 rest) (drop 100 rest) in
      let whole : (out ++ wanted (take 100 rest)) ++ wanted (drop 100 rest) ≡ out ++ wanted rest =
        append_assoc out (wanted (take 100 rest)) (wanted (drop 100 rest))
        ∙ ap (◌++◌ out) (sym parts) in
      elim (Bool-cases (leb most (length (out ++ wanted (take 100 rest))))) [
        | inl fills ↦
            rw (read, collect_due, take_page_lem k most out here h, fills)
              (ap (λ t. ok (some t))
                (sym (
                    take_within most (out ++ wanted (take 100 rest)) (wanted (drop 100 rest))
                      (leb→le most _ fills))
                  ∙ ap (take most) whole))
        | inr room ↦
            let on : leb next (length done) ≡ false = lt→leb _ _ (omega arith) in
            elim (Bool-cases (leb (length s.all_rule_ids) next)) [
              | inl over ↦
                  let all : take 100 rest ≡ rest =
                    take_all 100 rest
                      (omega (arith, leb→le _ next over, total_ids s done rest e)) in
                  let same = ap (λ r. length (out ++ wanted r)) all in
                  rw
                    (
                      read,
                      collect_due,
                      take_page_lem k most out here h,
                      room,
                      on,
                      serves.total next,
                      over,
                    )
                    (ap (λ t. ok (some t))
                      (ap (λ r. out ++ wanted r) all
                        ∙ sym (
                            take_all most (out ++ wanted rest)
                              (omega (arith, same, leb→gt most _ room)))))
              | inr again ↦
                  let start : next ≡ length (done ++ take 100 rest) =
                    omega (arith, length-append done (take 100 rest), length-take 100 rest) in
                  rw
                    (
                      read,
                      collect_due,
                      take_page_lem k most out here h,
                      room,
                      on,
                      serves.total next,
                      again,
                      start,
                    )
                    (ih (leb→gt most _ room) ∙ ap (λ t. ok (some (take most t))) whole)
            ]
      ]

  paging :
      (fuel : ℕ) (done rest out : List Text)
      → s.all_rule_ids ≡ done ++ rest
      → length rest < fuel
      → length out < most
      → collect_due fuel node config k out (length done)
        ≡ ok (some (take most (out ++ wanted rest)))
  unfolding collect_due
  paging zero done rest out e f h = absurd (omega arith)
  paging (suc fuel) done rest out e f h = elim (dec_lt 0 (length rest)) [
    | no none_left ↦
        let read =
          serves.pages (length done) 100 [] (length done)
            (last_page s done rest e now (omega arith)) in
        let nothing : rest ≡ [] = nil_of_length rest (omega arith) in
        let small : leb most (length (out ++ [])) ≡ false =
          lt→leb most _ (omega (arith, length-append out [])) in
        let stop : leb (length done) (length done) ≡ true = le→leb _ _ (omega arith) in
        rw (read, collect_due, take_page_lem k most out [] h, small, stop, nothing, append-nil out)
          (rw (take_all most out (omega arith)) refl)
    | yes some_left ↦ full_page fuel done rest out e h some_left (λ bound.
        paging fuel (done ++ take 100 rest) (drop 100 rest) (out ++ wanted (take 100 rest))
          (e
            ∙ ap (◌++◌ done) (sym (take-append-drop 100 rest))
            ∙ sym (append_assoc done (take 100 rest) (drop 100 rest)))
          (omega (arith, length-drop 100 rest)) bound)
  ]

  -- Where the node answers as the registry does and the batch size is positive, collecting the due
  -- rules ends within one page more than there are rules, and gives the due rules that are not in
  -- quarantine, in the order of the registry and cut at the batch size: paging misses none and
  -- repeats none.
  pub collect_due_lem :
      (fuel : ℕ)
      → 0 < config.max_batch_size
      → length s.all_rule_ids < fuel
      → collect_due fuel node config k [] 0
        ≡ ok (some (take config.max_batch_size (free_due s now k s.all_rule_ids)))
  collect_due_lem fuel h f = paging fuel [] s.all_rule_ids [] refl f h
