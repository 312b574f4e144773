-- ===== src/Attest/Finalization.antt =====
-- The loop of `waitForFinalization`: it ends, and by a final round only on the relay's word.
use native.Mathlib.Decide.{dec_lt}
use giroledger.Base.{
  ℕ, zero, suc, ◌+◌, ◌*◌, ◌≤◌, ◌<◌, ◌≡◌, ◌≢◌, refl, ap, subst, Bool, true, false, arith, ltb,
  Bool-cases, inl, inr,
}
use giroledger.Base.Text.{Text, codes}
use giroledger.Base.Result.{Result, ok, Result-cases, bind-ok}
use giroledger.Attest.{
  Waited, finalized, timed_out, running, threw, wait_from, waited_result, timeout_ms, poll_ms,
  poll_fuel, wait_for_finalization,
}
use giroledger.Attest.Services.{Remote, contract_by_name}

not_yet :
    (deadline : ℕ) (time : ℕ → ℕ) (n last : ℕ)
    → deadline < time last
    → n ≤ last
    → ltb deadline (time n) ≡ false
    → suc n ≤ last
not_yet deadline time n last late le more = elim (dec_lt n last) [
  | yes before ↦ omega arith
  | no not_before ↦
      let same : n ≡ last = omega arith in
      let early : time n ≤ deadline = ground arith in absurd (omega (arith, ap time same))
]

here : (n m : ℕ) → finalized n ≡ finalized m → n ≡ m
here n m h = cc

waited_result-ok :
    (x : Waited) (u : Unit {0}) → waited_result x ≡ ok u → (n : ℕ) × (x ≡ finalized n)
waited_result-ok (finalized n) u h = (n, refl)
waited_result-ok timed_out u h = absurd (cc)
waited_result-ok running u h = absurd (cc)
waited_result-ok (threw e) u h = absurd (cc)

module _ (deadline : ℕ) (time : ℕ → ℕ) (answer : ℕ → Result Text Bool) where
  wait_from-ends :
      (fuel n last : ℕ)
      → deadline < time last
      → n ≤ last
      → last < n + fuel
      → wait_from fuel deadline time answer n ≢ running
  unfolding wait_from
  wait_from-ends zero n last late le lt e = absurd (omega arith)
  wait_from-ends (suc fuel) n last late le lt e = elim (Result-cases (answer n)) [
    | inr (m, failed) ↦ absurd (cc (rw (failed, wait_from) at e))
    | inl (true, final) ↦ absurd (cc (rw (final, wait_from) at e))
    | inl (false, open_yet) ↦ elim (Bool-cases (ltb deadline (time n))) [
      | inl over ↦ absurd (cc (rw (open_yet, over, wait_from) at e))
      | inr more ↦
          wait_from-ends fuel (suc n) last late (not_yet deadline time n last late le more)
            (omega arith) (rw (open_yet, more, wait_from) at e)
    ]
  ]

  wait_from-finalized :
      (fuel n m : ℕ) → wait_from fuel deadline time answer n ≡ finalized m → answer m ≡ ok true
  unfolding wait_from
  wait_from-finalized zero n m h = absurd (cc)
  wait_from-finalized (suc fuel) n m h = elim (Result-cases (answer n)) [
    | inr (e, failed) ↦ absurd (cc (rw (failed, wait_from) at h))
    | inl (true, final) ↦
        subst (λ k. answer k ≡ ok true) (here n m (rw (final, wait_from) at h)) final
    | inl (false, open_yet) ↦ elim (Bool-cases (ltb deadline (time n))) [
      | inl over ↦ absurd (cc (rw (open_yet, over, wait_from) at h))
      | inr more ↦ wait_from-finalized fuel (suc n) m (rw (open_yet, more, wait_from) at h)
    ]
  ]

-- Polls that each wait ten seconds more.
abbrev pub IsPaced : (time : ℕ → ℕ) → Type 0
IsPaced time = (k : ℕ) → time k + poll_ms ≤ time (suc k)

time-le : (time : ℕ → ℕ) (k : ℕ) → IsPaced time → time 0 + k * poll_ms ≤ time k
time-le time zero paced = omega arith
time-le time (suc k) paced = omega (arith, time-le time k paced, paced k)

-- Ends.
pub wait_from-poll_fuel :
    (started : ℕ) (time : ℕ → ℕ) (answer : ℕ → Result Text Bool)
    → IsPaced time
    → started ≤ time 0
    → wait_from poll_fuel (started + timeout_ms) time answer 0 ≢ running
wait_from-poll_fuel started time answer paced begins =
    wait_from-ends (started + timeout_ms) time answer poll_fuel 0 31
      (omega (arith, time-le time 31 paced)) (omega arith) (omega arith)

pub wait_for_finalization-ok :
    (w : Remote) (started round : ℕ) (u : Unit {0})
    → wait_for_finalization w started round ≡ ok u
    → (relay : Text) × (poll : ℕ) × (w.is_finalized relay round poll ≡ ok true)
unfolding wait_for_finalization
wait_for_finalization-ok w started round u h =
    let (relay, named, rest) = bind-ok (contract_by_name w (codes "Relay")) _ u h in
    let waited = wait_from poll_fuel (started + timeout_ms) w.time (w.is_finalized relay round) 0 in
    let (poll, ends) = waited_result-ok waited u rest in
    (
      relay,
      poll,
      wait_from-finalized (started + timeout_ms) w.time (w.is_finalized relay round) poll_fuel 0
          poll ends,
    )
