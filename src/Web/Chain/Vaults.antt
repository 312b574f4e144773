-- ===== src/Web/Chain/Vaults.antt =====
-- The vault that the page starts with, and the cache of contract addresses.
use giroledger.Base.{
  ℕ, zero, suc, subst, ◌≡◌, refl, ap, sym, ◌∙◌, true, false, Option, none, some, List, [], ◌∷◌,
  arith, get_elem?, Option-cases, inl, inr, Bool-cases,
}
use giroledger.Base.Text.{Text, codes, text_eq, text_eq_sound}
use giroledger.Base.Dict.{Dict, get, set, get-set}
use giroledger.Base.Result.{Result, ◌>>=◌, ok, bind-ok}
use giroledger.Web.Chain.{
  Node, Listed, VaultInfo, cached, check_allowed, mark_allowed, merge_configured, get_vaults,
  first_allowed,
}

-- What a vault is marked with is what the registry answered.
check_allowed-true :
    (node : Node) (registry address : Text)
    → check_allowed node (some registry) address ≡ some true
    → node.vault_allowed registry address ≡ ok true
unfolding check_allowed
check_allowed-true node registry address h = ground arith

later :
    (v : VaultInfo) (vs : List VaultInfo) (n : ℕ)
    → ((m : ℕ)
        → first_allowed vs ≡ some m
        → (w : VaultInfo) × (get_elem? vs m ≡ some w) × (w.allowed ≡ some true))
    → (m : ℕ) × (first_allowed vs ≡ some m) × (n ≡ suc m)
    → (w : VaultInfo) × (get_elem? (v ∷ vs) n ≡ some w) × (w.allowed ≡ some true)
later v vs n found (m, first, is) =
    let (w, there, allowed) = found m first in (w, ground arith, allowed)

shifted :
    (o : Option ℕ) (n : ℕ)
    → (elim o as (λ x. Option ℕ) [ none ↦ none | some m ↦ some (suc m) ]) ≡ some n
    → (m : ℕ) × (o ≡ some m) × (n ≡ suc m)
shifted none n h = absurd (cc)
shifted (some m) n h = (m, refl, ground arith)

first_allowed-some :
    (vs : List VaultInfo) (n : ℕ)
    → first_allowed vs ≡ some n
    → (v : VaultInfo) × (get_elem? vs n ≡ some v) × (v.allowed ≡ some true)
first_allowed-some [] n h = absurd (cc)
first_allowed-some (v ∷ vs) n h = elim (Option-cases v.allowed) [
  | inl unknown ↦
      later v vs n (first_allowed-some vs) (shifted (first_allowed vs) n (rw unknown at h))
  | inr (true, is) ↦ (v, ground arith, is)
  | inr (false, is) ↦
      later v vs n (first_allowed-some vs) (shifted (first_allowed vs) n (rw is at h))
]

-- Each vault carries the answer for its address.
mark_allowed-answer :
    (node : Node) (registry : Option Text) (vs : List Listed) (n : ℕ) (v : VaultInfo)
    → get_elem? (mark_allowed node registry vs) n ≡ some v
    → v.allowed ≡ check_allowed node registry v.address
mark_allowed-answer node registry [] n v h = absurd (cc)
mark_allowed-answer node registry (w ∷ vs) zero v h = ground arith
mark_allowed-answer node registry (w ∷ vs) (suc n) v h = mark_allowed-answer node registry vs n v h

-- The vault that the page selects when it has loaded, as the first that is marked allowed, is one
-- that the registry said it allows.
pub first_allowed-get_vaults :
    (node : Node) (registry : Text) (configured : Option Text) (vs : List VaultInfo) (n : ℕ)
    → get_vaults node (some registry) configured ≡ ok vs
    → first_allowed vs ≡ some n
    → (v : VaultInfo) × (get_elem? vs n ≡ some v)
      × (node.vault_allowed registry v.address ≡ ok true)
unfolding get_vaults
first_allowed-get_vaults node registry configured vs n done first =
    let (mac, named, rest) =
      bind-ok (node.contract_address_by_name (codes "MasterAccountController")) _ vs done in
    let (listed, given, last) = bind-ok (node.listed_vaults mac) _ vs rest in
    let marked : mark_allowed node (some registry) (merge_configured node configured listed) ≡ vs =
      cc in
    let (v, there, allowed) = first_allowed-some vs n first in
    (
      v,
      there,
      check_allowed-true node registry v.address (
          sym (
            mark_allowed-answer node (some registry) (merge_configured node configured listed) n v
              (subst (λ x. get_elem? x n ≡ some v) (sym marked) there))
          ∙ allowed),
    )

-- A cache that holds what the contract registry answers.
abbrev pub IsFaithful : Node → Dict Text → Type 0
IsFaithful node cache =
    (k : Text) (c : ℕ) (t : Text)
    → get k cache ≡ some (c ∷ t)
    → node.contract_address_by_name k ≡ ok (c ∷ t)

IsFaithful-set :
    (node : Node) (cache : Dict Text) (name address : Text)
    → IsFaithful node cache
    → node.contract_address_by_name name ≡ ok address
    → IsFaithful node (set name address cache)
IsFaithful-set node cache name address v asked k c t found = elim (Bool-cases (text_eq name k)) [
  | inl same ↦
      let held : address ≡ c ∷ t = cc (rw (get-set name k address cache, same) at found) in
      subst (λ j. node.contract_address_by_name j ≡ ok (c ∷ t)) (text_eq_sound name k same)
        (asked ∙ ap ok held)
  | inr other ↦ v k c t (rw (get-set name k address cache, other) at found)
]

asked_now :
    (node : Node) (cache next : Dict Text) (name address : Text)
    → IsFaithful node cache
    → ◌>>=◌ {B = Text × Dict Text}
        (node.contract_address_by_name name)
        (λ a. ok (a, set name a cache))
      ≡ ok (address, next)
    → (node.contract_address_by_name name ≡ ok address) × IsFaithful node next
asked_now node cache next name address v done =
    let (a, asked, last) = bind-ok (node.contract_address_by_name name) _ (address, next) done in
    let same : a ≡ address = cc in
    let stored : set name a cache ≡ next = cc in
    (asked ∙ ap ok same, subst (IsFaithful node) stored (IsFaithful-set node cache name a v asked))

held_before :
    (node : Node) (cache next : Dict Text) (address : Text) (c : ℕ) (t : Text) {name : Text}
    → IsFaithful node cache
    → node.contract_address_by_name name ≡ ok (c ∷ t)
    → ◌≡◌ {A = Result Text (Text × Dict Text)} (ok (c ∷ t, cache)) (ok (address, next))
    → (node.contract_address_by_name name ≡ ok address) × IsFaithful node next
held_before node cache next address c t v asked done =
    let same : c ∷ t ≡ address = cc in
    let kept : cache ≡ next = cc in (asked ∙ ap ok same, subst (IsFaithful node) kept v)

-- Cache.
pub cached-IsFaithful :
    (node : Node) (cache next : Dict Text) (name address : Text)
    → IsFaithful node cache
    → cached node cache name ≡ ok (address, next)
    → (node.contract_address_by_name name ≡ ok address) × IsFaithful node next
unfolding cached
cached-IsFaithful node cache next name address v done = elim (Option-cases (get name cache)) [
  | inl missing ↦ asked_now node cache next name address v (rw (missing, cached) at done)
  | inr ([], empty) ↦ asked_now node cache next name address v (rw (empty, cached) at done)
  | inr (c ∷ t, hit) ↦
      held_before node cache next address c t v (v name c t hit) (rw (hit, cached) at done)
]
