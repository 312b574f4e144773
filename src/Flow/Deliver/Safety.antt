-- ===== src/Flow/Deliver/Safety.antt =====
-- What the flows of createRule.ts and cancelRule.ts send, in which order, and why.
use giroledger.Base.{
  ℕ, ◌*◌, ◌≤◌, ◌≡◌, refl, ap, ◌∙◌, Bool, true, false, not, Option, none, some, List, [], ◌∷◌, ◌++◌,
  arith, length,
}
use giroledger.Base.Text.{Text, codes, text_eq, text_eq_sound}
use giroledger.Base.Result.{Result, ok, err, throw_if, or_throw, bind-ok, throw_if-ok}
use giroledger.Base.Calls.{Run, call_rule}
use giroledger.Memo.{HashInstructionMemo, normalise_tx_id}
use giroledger.Flow.{World, Payment}
use giroledger.Flow.Waits.{poll_proof, compute_round_id}
use giroledger.Flow.Deliver.{
  Sent, paid, asked, minted, Receipt, Rest, result_text, doubled_gas, finality, prepare_request,
  poll_round, submit_proof, prove, deliver,
}

pub doubled_gas-enough : (n : ℕ) → (2 * n ≤ doubled_gas n) × (1_500_000 ≤ doubled_gas n)
unfolding doubled_gas
doubled_gas-enough n = ground arith

-- Why an attestation is asked for: the payment succeeded on the ledger, and is final.
pub record Settled (rest : Rest) (fuel : ℕ) (payment : Payment) (hash : Text) : Type 0 where
  pub success : rest.submit payment ≡ ok (hash, some (codes "tesSUCCESS"))
  pub final : finality rest fuel hash ≡ ok tt

-- Why the proof is submitted, and with how much gas.
pub record Supported (rest : Rest) (manager proof payload : Text) (value gas : ℕ) : Type 0 where
  pub round : ℕ
  pub request : Text
  pub attempt : ℕ
  pub estimated : ℕ
  pub found : poll_proof 60 (rest.proof_at round request) 0 ≡ ok (proof, attempt)
  pub estimate : rest.estimate manager proof payload value ≡ ok estimated
  pub twice : 2 * estimated ≤ gas
  pub least : 1_500_000 ≤ gas

-- What may have been sent for one payment, earliest first.
pub data Trace (rest : Rest) (fuel : ℕ) (manager : Text) (payment : Payment)
    (memo : HashInstructionMemo) : List Sent → Type 0 where
  pays : Trace rest fuel manager payment memo (paid payment ∷ [])
  asks :
      (hash hub request : Text) (fee : ℕ)
      → Settled rest fuel payment hash
      → Trace rest fuel manager payment memo (paid payment ∷ asked hub request fee ∷ [])
  mints :
      (hash hub request proof : Text) (fee gas : ℕ)
      → Settled rest fuel payment hash
      → Supported rest manager proof memo.payload memo.total_call_value gas
      → Trace rest fuel manager payment memo (
          paid payment
          ∷ asked hub request fee
          ∷ minted manager proof memo.payload memo.total_call_value gas
          ∷ [])

-- A result comes only behind all three, from a receipt that was not reverted.
abbrev pub Ends : (rest : Rest) (r : Result Text Receipt) (sent : ℕ) → Type 0
Ends rest (ok receipt) sent =
    (sent ≡ 3) × (receipt.reverted ≡ false) × ((hash : Text) × (rest.receipt hash ≡ ok receipt))
Ends rest (err e) sent = Unit

pub record IsSafe (rest : Rest) (fuel : ℕ) (manager : Text) (payment : Payment)
    (memo : HashInstructionMemo) (r : Run Sent Receipt) : Type 0 where
  pub trace : Trace rest fuel manager payment memo r.0
  pub ends : Ends rest r.1 (length r.0)

poll_round-ok :
    (rest : Rest) (request hash proof : Text)
    → poll_round rest request hash ≡ ok proof
    → (round : ℕ) × (attempt : ℕ) × (poll_proof 60 (rest.proof_at round request) 0
        ≡ ok (proof, attempt))
unfolding poll_round
poll_round-ok rest request hash proof h =
    let (timestamp, h1, r1) = bind-ok (rest.timestamp hash) _ proof h in
    let (start, h2, r2) = bind-ok rest.first_round_start _ proof r1 in
    let (duration, h3, r3) = bind-ok rest.round_duration _ proof r2 in
    let (da, h4, r4) = bind-ok (or_throw rest.da_layer _) _ proof r3 in
    let round = compute_round_id timestamp start duration in
    let ((got, attempt), found, is) =
      bind-ok (poll_proof 60 (rest.proof_at round request) 0) _ proof r4 in
    let same : got ≡ proof = cc in (round, attempt, found ∙ ap (λ x. ok (x, attempt)) same)

success-text :
    (o : Option Text)
    → text_eq (result_text o) (codes "tesSUCCESS") ≡ true
    → o ≡ some (codes "tesSUCCESS")
success-text none h = absurd (cc)
success-text (some t) h = ap some (text_eq_sound t (codes "tesSUCCESS") h)

not-false : (b : Bool) → not b ≡ false → b ≡ true
not-false true h = refl
not-false false h = absurd (cc)

module _ (w : World) (rest : Rest) (fuel : ℕ) (manager : Text) (payment : Payment)
    (memo : HashInstructionMemo) where
  stop :
      (sent : List Sent) (e : Text)
      → Trace rest fuel manager payment memo sent
      → IsSafe rest fuel manager payment memo (sent, err e)
  stop sent e t = record { trace = t; ends = tt }

  submit_proof-IsSafe :
      (hash hub request proof : Text) (fee round attempt : ℕ)
      → Settled rest fuel payment hash
      → poll_proof 60 (rest.proof_at round request) 0 ≡ ok (proof, attempt)
      → IsSafe rest fuel manager payment memo
          (submit_proof rest (paid payment ∷ asked hub request fee ∷ []) manager memo proof)
  unfolding submit_proof
  submit_proof-IsSafe hash hub request proof fee round attempt s found =
      let before = paid payment ∷ asked hub request fee ∷ [] in
      call_rule (IsSafe rest fuel manager payment memo) before
        (rest.estimate manager proof memo.payload memo.total_call_value) _
        (λ e. stop before e (asks hash hub request fee s))
        λ estimated h1.
          let mint =
            minted manager proof memo.payload memo.total_call_value (doubled_gas estimated) in
          let (twice, least) = doubled_gas-enough estimated in
          let all : Trace rest fuel manager payment memo (before ++ mint ∷ []) =
            mints hash hub request proof fee (doubled_gas estimated) s (record {
              round = round;
              request = request;
              attempt = attempt;
              estimated = estimated;
              found = found;
              estimate = h1;
              twice = twice;
              least = least;
            }) in
          call_rule (IsSafe rest fuel manager payment memo) (before ++ mint ∷ []) (rest.send mint) _
            (λ e. stop _ e all)
            λ sent h2.
              call_rule (IsSafe rest fuel manager payment memo) (before ++ mint ∷ [])
                (rest.receipt sent) _ (λ e. stop _ e all)
                λ receipt h3.
                  call_rule (IsSafe rest fuel manager payment memo) (before ++ mint ∷ [])
                    (throw_if receipt.reverted _) _ (λ e. stop _ e all)
                    λ u h4. record {
                      trace = all;
                      ends = (refl, throw_if-ok receipt.reverted _ u h4, (sent, h3));
                    }

  prove-IsSafe :
      (hash : Text)
      → Settled rest fuel payment hash
      → IsSafe rest fuel manager payment memo
          (prove w rest fuel (paid payment ∷ []) manager memo hash)
  unfolding prove
  prove-IsSafe hash s =
      let P = IsSafe rest fuel manager payment memo in
      let first = paid payment ∷ [] in
      let stops = λ (e : Text). stop first e pays in
      call_rule P first (prepare_request rest (normalise_tx_id hash)) _ stops λ request h1.
        call_rule P first (w.contract_by_name (codes "FdcHub")) _ stops λ hub h2.
          call_rule P first (w.contract_by_name (codes "FdcRequestFeeConfigurations")) _ stops
            λ fee_config h3.
              call_rule P first (rest.request_fee fee_config request) _ stops λ fee h4.
                let second = first ++ asked hub request fee ∷ [] in
                let stops_later = λ (e : Text). stop second e (asks hash hub request fee s) in
                call_rule P second (rest.send (asked hub request fee)) _ stops_later λ attested h5.
                  call_rule P second (poll_round rest request attested) _ stops_later λ proof h6.
                    let (round, attempt, found) = poll_round-ok rest request attested proof h6 in
                    submit_proof-IsSafe hash hub request proof fee round attempt s found

  pub deliver-IsSafe :
      IsSafe rest fuel manager payment memo (deliver w rest fuel manager payment memo)
  unfolding deliver
  deliver-IsSafe =
      let P = IsSafe rest fuel manager payment memo in
      let first = paid payment ∷ [] in
      let stops = λ (e : Text). stop first e pays in
      call_rule P first (rest.submit payment) _ stops λ submitted h1.
        call_rule P first
          (throw_if (not (text_eq (result_text submitted.1) (codes "tesSUCCESS"))) _) _ stops
          λ u h2. call_rule P first (finality rest fuel submitted.0) _ stops λ u h3.
            let well = success-text submitted.1 (not-false _ (throw_if-ok _ _ u h2)) in
            prove-IsSafe submitted.0
              (record { success = h1 ∙ ap (λ x. ok (submitted.0, x)) well; final = h3 })
