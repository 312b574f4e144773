-- ===== src/Flow/Waits.antt =====
-- The waits of apps/operator/src/createRule.ts: for the ledger, for the proof, and the voting round that
-- the proof is looked up by. The answers of the successive polls are a function of their number.
use native.Mathlib.Nat.{lt-div-mul-add, div-mul-le_self}
use native.Mathlib.Decide.{dec_lt}
use giroledger.Base.{
  ap, ℕ, zero, suc, ◌+◌, ◌-◌, ◌*◌, ◌/◌, ◌≤◌, ◌<◌, ◌≡◌, refl, true, false, Option, none, some, arith,
  leb, inl, inr, Bool-cases, leb→le, leb→gt,
}
use giroledger.Base.Text.{Text, codes}
use giroledger.Base.Result.{Result, ok, err}

abbrev pub confirmations : ℕ
confirmations = 3

-- The loop of `waitForXrplFinality`, from poll `n` on; it ends with the number of the last poll, and
-- `none` is a loop that is not over within the fuel.
unfoldable pub wait_for_xrpl_finality : ℕ → ℕ → (ℕ → Result Text ℕ) → ℕ → Result Text (Option ℕ)
wait_for_xrpl_finality zero tx_ledger validated n = ok none
wait_for_xrpl_finality (suc fuel) tx_ledger validated n = elim (validated n) [
  | err e ↦ err e
  | ok ledger ↦ elim (leb (tx_ledger + confirmations) ledger) [
    | true ↦ ok (some n)
    | false ↦ wait_for_xrpl_finality fuel tx_ledger validated (suc n)
  ]
]

-- The polling loop of `fetchXrpPaymentProof`: so many attempts, and the first answer with a proof. A
-- request that throws, or an answer that is no JSON, ends it; one that is not ok, or has no proof,
-- does not.
unfoldable pub poll_proof : ℕ → (ℕ → Result Text (Option Text)) → ℕ → Result Text (Text × ℕ)
poll_proof zero answer attempt = err (codes "proof did not appear within 5 minutes")
poll_proof (suc left) answer attempt = elim (answer attempt) [
  | err e ↦ err e
  | ok (some proof) ↦ ok (proof, attempt)
  | ok none ↦ poll_proof left answer (suc attempt)
]

-- `computeRoundId`, for a block behind the first round.
unfoldable pub compute_round_id : (block_timestamp first_start duration : ℕ) → ℕ
compute_round_id block_timestamp first_start duration = (block_timestamp - first_start) / duration

waits_from :
    (fuel tx_ledger : ℕ) (validated : ℕ → Result Text ℕ) (ledger : ℕ → ℕ) (n poll : ℕ)
    → ((k : ℕ) → validated k ≡ ok (ledger k))
    → tx_ledger + confirmations ≤ ledger poll
    → n ≤ poll
    → poll < n + fuel
    → (m : ℕ) × (wait_for_xrpl_finality fuel tx_ledger validated n ≡ ok (some m))
      × (m ≤ poll)
      × (tx_ledger + confirmations ≤ ledger m)
unfolding wait_for_xrpl_finality
waits_from zero t validated ledger n poll reads final l h = absurd (omega arith)
waits_from (suc fuel) t validated ledger n poll reads final l h =
    elim (Bool-cases (leb (t + confirmations) (ledger n))) [
      | inl now ↦ (
        n,
        rw (reads n, wait_for_xrpl_finality, now) refl,
        l,
        leb→le (t + confirmations) (ledger n) now,
      )
      | inr later ↦ elim (dec_lt n poll) [
        | yes before ↦
            let (m, ends, bound, enough) =
              waits_from fuel t validated ledger (suc n) poll reads final (omega arith)
                (omega arith) in
            (m, rw (reads n, wait_for_xrpl_finality, later) ends, bound, enough)
        | no reached ↦
            let same : n ≡ poll = omega arith in
            absurd (omega (arith, leb→gt (t + confirmations) (ledger n) later, ap ledger same))
      ]
    ]

-- Where the ledger answers every poll and some poll, within the fuel, sees it three ledgers past
-- the transaction, the wait for finality ends at that poll or an earlier one, and the poll at which
-- it ends has seen the ledger that far.
pub wait_for_xrpl_finality-ends :
    (fuel tx_ledger : ℕ) (validated : ℕ → Result Text ℕ) (ledger : ℕ → ℕ) (poll : ℕ)
    → ((k : ℕ) → validated k ≡ ok (ledger k))
    → tx_ledger + confirmations ≤ ledger poll
    → poll < fuel
    → (m : ℕ) × (wait_for_xrpl_finality fuel tx_ledger validated 0 ≡ ok (some m))
      × (m ≤ poll)
      × (tx_ledger + confirmations ≤ ledger m)
wait_for_xrpl_finality-ends fuel t validated ledger poll reads final h =
    waits_from fuel t validated ledger 0 poll reads final (omega arith) (omega arith)

-- For a block not before the first voting round and rounds of positive length, the block lies
-- within the round that is computed for it.
pub compute_round_id_bounds :
    (block_timestamp first_start duration : ℕ)
    → 0 < duration
    → first_start ≤ block_timestamp
    → let round = compute_round_id block_timestamp first_start duration in
      (first_start + round * duration ≤ block_timestamp)
      × (block_timestamp < first_start + (round + 1) * duration)
unfolding compute_round_id
compute_round_id_bounds t first duration pos h =
    let low = div-mul-le_self (t - first) duration in
    let high : t - first < (t - first) / duration * duration + duration = lt-div-mul-add pos in
    (omega arith, grind arith)
