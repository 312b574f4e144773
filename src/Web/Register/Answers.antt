-- ===== src/Web/Register/Answers.antt =====
-- What `registered` says on the page is the operator's answer for the instruction on screen.
use giroledger.Base.{
  ℕ, zero, suc, ◌≡◌, refl, Bool, true, false, Option, none, some, List, [], ◌∷◌, All, Option-cases,
  inl, inr,
}
use giroledger.Web.Register.{
  Request, Effect, Event, changes, answers, clean_up, on_change, on_answer, effect_step, effect_run,
  idle,
}

module _ {I : Type 0} where
  abbrev pub AllDead : List (Request I) → Type 0
  AllDead rs = All (λ r. r.live ≡ false) rs

  -- The latest request is the only one that can be live, and it is about what is on screen.
  abbrev pub IsCurrent : Option I → Option Bool → List (Request I) → Type 0
  IsCurrent none shown rs = (shown ≡ none) × AllDead rs
  IsCurrent (some i) shown [] = ⊥
  IsCurrent (some i) shown (r ∷ rs) =
      (r.about ≡ i) × (r.live ≡ true) × (shown ≡ r.answer) × AllDead rs

  clean_up-AllDead : (rs : List (Request I)) → AllDead (clean_up rs)
  clean_up-AllDead [] = tt
  clean_up-AllDead (r ∷ rs) = (refl, clean_up-AllDead rs)

  -- Dead requests change nothing on screen.
  on_answer-AllDead :
      (shown : Option Bool) (rs : List (Request I)) (n : ℕ) (accepted : Bool)
      → AllDead rs
      → ((on_answer shown rs n accepted).0 ≡ shown) × AllDead (on_answer shown rs n accepted).1
  unfolding on_answer
  on_answer-AllDead shown [] n accepted d = (refl, tt)
  on_answer-AllDead shown (r ∷ rs) (suc n) accepted d =
      let (same, dead) = on_answer-AllDead shown rs n accepted d.1 in (same, (d.0, dead))
  on_answer-AllDead shown (r ∷ rs) zero accepted d = elim (Option-cases r.answer) [
    | inl waits ↦ rw (waits, on_answer) (rw (d.0) (refl, (refl, d.1)))
    | inr (b, given) ↦ rw (given, on_answer) (refl, d)
  ]

  on_answer-IsCurrent :
      (a : Option I) (shown : Option Bool) (rs : List (Request I)) (n : ℕ) (accepted : Bool)
      → IsCurrent a shown rs
      → IsCurrent a (on_answer shown rs n accepted).0 (on_answer shown rs n accepted).1
  unfolding on_answer
  on_answer-IsCurrent none shown rs n accepted v =
      let (same, dead) = on_answer-AllDead shown rs n accepted v.1 in (rw same v.0, dead)
  on_answer-IsCurrent (some i) shown [] n accepted v = absurd v
  on_answer-IsCurrent (some i) shown (r ∷ rs) (suc n) accepted v =
      let (same, dead) = on_answer-AllDead shown rs n accepted v.3 in (v.0, v.1, rw same v.2, dead)
  on_answer-IsCurrent (some i) shown (r ∷ rs) zero accepted v = elim (Option-cases r.answer) [
    | inl waits ↦ rw (waits, on_answer) (v.0, v.1, rw (v.1) refl, v.3)
    | inr (b, given) ↦ rw (given, on_answer) v
  ]

  effect_step-IsCurrent :
      (e : Effect I) (x : Event I)
      → IsCurrent e.active e.registered e.requests
      → (let f = effect_step e x in IsCurrent f.active f.registered f.requests)
  unfolding effect_step on_change
  effect_step-IsCurrent e (changes none) v = (refl, clean_up-AllDead e.requests)
  effect_step-IsCurrent e (changes (some i)) v = (refl, refl, refl, clean_up-AllDead e.requests)
  effect_step-IsCurrent e (answers n accepted) v =
      on_answer-IsCurrent e.active e.registered e.requests n accepted v

  effect_run-IsCurrent :
      (e : Effect I) (xs : List (Event I))
      → IsCurrent e.active e.registered e.requests
      → (let f = effect_run e xs in IsCurrent f.active f.registered f.requests)
  effect_run-IsCurrent e [] v = v
  effect_run-IsCurrent e (x ∷ xs) v =
      effect_run-IsCurrent (effect_step e x) xs (effect_step-IsCurrent e x v)

  current-registered :
      (a : Option I) (shown : Option Bool) (rs : List (Request I)) (b : Bool)
      → IsCurrent a shown rs
      → shown ≡ some b
      → (i : I) × (r : Request I) × (older : List (Request I)) × (a ≡ some i)
        × (rs ≡ r ∷ older)
        × (r.about ≡ i)
        × (r.answer ≡ some b)
  current-registered none shown rs b v h = absurd (cc (v.0))
  current-registered (some i) shown [] b v h = absurd v
  current-registered (some i) shown (r ∷ rs) b v h = (i, r, rs, refl, refl, v.0, cc (v.2))

  -- Whatever instructions the page displays one after the other and in whatever order the requests
  -- are answered: where the page shows an answer of the operator, an instruction is on screen, the
  -- latest request is about that instruction, and the answer is the one to that request.
  pub effect_run-registered :
      (xs : List (Event I)) (b : Bool)
      → (effect_run idle xs).registered ≡ some b
      → (i : I) × (r : Request I) × (older : List (Request I)) × ((effect_run idle xs).active
          ≡ some i)
        × ((effect_run idle xs).requests ≡ r ∷ older)
        × (r.about ≡ i)
        × (r.answer ≡ some b)
  effect_run-registered xs b h =
      let e = effect_run idle xs in
      current-registered e.active e.registered e.requests b
        (effect_run-IsCurrent idle xs (refl, tt)) h
