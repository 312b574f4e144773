-- ===== src/Web/Register.antt =====
-- The effect of apps/web/src/routes/app.tsx that hands the displayed instruction to the operator, with
-- its `live` flag. Requests are answered at any later time, in any order.
pub mod Answers
use giroledger.Base.{
  ℕ, zero, suc, Bool, true, false, Option, none, some, List, [], ◌∷◌, if◌then◌else◌,
}

-- One request: what it hands over, whether its effect was not cleaned up, and its answer. The source
-- keeps no answer; it is recorded for the statements.
pub record Request (I : Type 0) : Type 0 where
  pub about : I
  pub live : Bool
  pub answer : Option Bool

-- `active`, `registered` and the requests so far, latest first.
pub record Effect (I : Type 0) : Type 0 where
  pub active : Option I
  pub registered : Option Bool
  pub requests : List (Request I)

pub data Event (I : Type 0) : Type 0 where
  changes : Option I → Event I
  answers : ℕ → Bool → Event I

module _ {I : Type 0} where
  -- The clean-up of the effect that ran before.
  abbrev pub clean_up : List (Request I) → List (Request I)
  clean_up [] = []
  clean_up (r ∷ rs) = record r { live = false } ∷ clean_up rs

  -- The effect on a new value of `active`.
  unfoldable pub on_change : Effect I → Option I → Effect I
  on_change e none = record { active = none; registered = none; requests = clean_up e.requests }
  on_change e (some i) = record {
    active = some i;
    registered = none;
    requests = record { about = i; live = true; answer = none } ∷ clean_up e.requests;
  }

  -- The answer of request number `n`; a request is answered once.
  unfoldable pub on_answer :
      Option Bool → List (Request I) → ℕ → Bool → Option Bool × List (Request I)
  on_answer shown [] n accepted = (shown, [])
  on_answer shown (r ∷ rs) (suc n) accepted =
      let (next, rest) = on_answer shown rs n accepted in (next, r ∷ rest)
  on_answer shown (r ∷ rs) zero accepted = elim r.answer [
    | some b ↦ (shown, r ∷ rs)
    | none ↦ (if r.live then some accepted else shown, record r { answer = some accepted } ∷ rs)
  ]

  unfoldable pub effect_step : Effect I → Event I → Effect I
  unfolding on_change on_answer
  effect_step e (changes next) = on_change e next
  effect_step e (answers n accepted) =
      let (shown, rest) = on_answer e.registered e.requests n accepted in
      record e { registered = shown; requests = rest }

  abbrev pub effect_run : Effect I → List (Event I) → Effect I
  effect_run e [] = e
  effect_run e (x ∷ xs) = effect_run (effect_step e x) xs

  abbrev pub idle : Effect I
  idle = record { active = none; registered = none; requests = [] }
