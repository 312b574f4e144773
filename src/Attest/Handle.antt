-- ===== src/Attest/Handle.antt =====
-- What `handleIncomingPayment` sends, and why.
use giroledger.Base.{
  Option, none, [], ◌∷◌, ℕ, ◌≡◌, refl, ap, sym, ◌∙◌, subst, true, false, some, List, ◌++◌, length,
  Option-cases, if_cases, inl, inr,
}
use giroledger.Base.Text.{Text, codes}
use giroledger.Base.Result.{Result, ok, err, or_throw}
use giroledger.Base.Calls.{Run, call_rule}
use giroledger.Memo.{XrplTx, extract_memo, normalise_tx_id}
use giroledger.Attest.{
  non_empty, source_of, Handled, executed, wait_for_finalization, submit_instruction, attested,
  attest, unless_used, handle_incoming_payment,
}
use giroledger.Attest.Services.{
  Remote, FdcConfig, PaymentProof, ProofBody, Tx, request_attestation, execute_instruction,
  attestation_type_payment, source_test_xrp, contract_by_name, prepare_xrp_payment_request,
  read_request_fee, not_success, fetch_proof,
}
use giroledger.Flow.Waits.{compute_round_id}
use giroledger.Attest.Finalization.{wait_for_finalization-ok}
use giroledger.Attest.Answers.{prepare-ok, fetch_proof-ok}

-- Why an attestation is asked for: the payment carries a memo and an account, its id is not used, and
-- the verifier found the request for it valid.
pub record Attested (w : Remote) (tx : XrplTx) (hash source request : Text) : Type 0 where
  pub memo : Text
  pub controller : Text
  pub has_memo : extract_memo tx ≡ some memo
  pub has_account : tx.account ≡ some source
  pub unused : w.is_transaction_id_used controller (normalise_tx_id hash) ≡ ok false
  pub valid :
      w.prepare (record {
        attestation_type = attestation_type_payment;
        source_id = source_test_xrp;
        transaction_id = normalise_tx_id hash;
      })
      ≡ ok (true, record { status = codes "VALID"; abi_encoded_request = request })

-- Why an instruction is submitted: a round is final, and the data layer's proof of that round is for
-- the same request, of a payment that succeeded.
pub record Proven (w : Remote) (request : Text) (proof : PaymentProof) : Type 0 where
  pub round : ℕ
  pub relay : Text
  pub poll : ℕ
  pub body : ProofBody
  pub final : w.is_finalized relay round poll ≡ ok true
  pub served : w.proof_of round request ≡ ok (true, body)
  pub path : body.proof ≡ some proof.merkle_proof
  pub response : body.response ≡ some proof.content
  pub successful : not_success proof.content.status ≡ false

-- What may have been sent, earliest first, with the reasons.
pub data Trace (w : Remote) (tx : XrplTx) (hash : Text) : List Tx → Type 0 where
  nothing : Trace w tx hash []
  asked :
      (hub source request : Text) (fee : ℕ)
      → Attested w tx hash source request
      → Trace w tx hash (request_attestation hub request fee ∷ [])
  submitted :
      (hub source request controller : Text) (fee instruction_fee : ℕ) (proof : PaymentProof)
      → Attested w tx hash source request
      → Proven w request proof
      → Trace w tx hash (
          request_attestation hub request fee
          ∷ execute_instruction controller proof source instruction_fee
          ∷ [])

-- A payment counts as executed only behind both transactions.
abbrev pub Ends : Result Text Handled → ℕ → Type 0
Ends (ok (executed h)) n = n ≡ 2
Ends _ n = Unit

pub record IsSafe (w : Remote) (tx : XrplTx) (hash : Text) (r : Run Tx Handled) : Type 0 where
  pub trace : Trace w tx hash r.0
  pub ends : Ends r.1 (length r.0)

non_empty-some : (o : Option Text) (t : Text) → non_empty o ≡ some t → o ≡ some t
non_empty-some none t h = absurd (cc)
non_empty-some (some []) t h = absurd (cc)
non_empty-some (some (c ∷ s)) t h = h

module _ (w : Remote) (config : FdcConfig) (started : ℕ) (tx : XrplTx) (hash : Text) where
  stop : (sent : List Tx) (e : Text) → Trace w tx hash sent → IsSafe w tx hash (sent, err e)
  stop sent e t = record { trace = t; ends = tt }

  submit_instruction-IsSafe :
      (hub source request : Text) (fee : ℕ) (proof : PaymentProof)
      → Attested w tx hash source request
      → Proven w request proof
      → IsSafe w tx hash (
          submit_instruction w config started
            (request_attestation hub request fee ∷ [])
            proof
            source)
  unfolding submit_instruction
  submit_instruction-IsSafe hub source request fee proof a p =
      let first = request_attestation hub request fee ∷ [] in
      let stops = λ (e : Text). stop first e (asked hub source request fee a) in
      call_rule (IsSafe w tx hash) first (contract_by_name w (codes "MasterAccountController")) _
        stops
        λ mac h1. call_rule (IsSafe w tx hash) first (or_throw w.account _) _ stops λ account h2.
          call_rule (IsSafe w tx hash) first (w.default_instruction_fee mac) _ stops
            λ instruction_fee h3.
              let last = execute_instruction mac proof source instruction_fee in
              let whole : Trace w tx hash (first ++ last ∷ []) =
                submitted hub source request mac fee instruction_fee proof a p in
              call_rule (IsSafe w tx hash) (first ++ last ∷ []) (w.send last) _
                (λ e. stop _ e whole)
                λ sent h4.
                  call_rule (IsSafe w tx hash) (first ++ last ∷ []) (w.receipt sent) _
                    (λ e. stop _ e whole) λ u h5. record { trace = whole; ends = refl }

  attested-IsSafe :
      (hub source request sent : Text) (fee : ℕ)
      → Attested w tx hash source request
      → IsSafe w tx hash
          (attested w config started (request_attestation hub request fee ∷ []) source request sent)
  unfolding attested
  attested-IsSafe hub source request sent fee a =
      let first = request_attestation hub request fee ∷ [] in
      let stops = λ (e : Text). stop first e (asked hub source request fee a) in
      call_rule (IsSafe w tx hash) first (w.receipt_timestamp sent) _ stops λ timestamp h1.
        let round =
          compute_round_id timestamp config.first_voting_round_start_ts
            config.voting_epoch_duration_seconds in
        call_rule (IsSafe w tx hash) first (wait_for_finalization w started round) _ stops
          λ u waited.
            call_rule (IsSafe w tx hash) first (fetch_proof w round request) _ stops
              λ proof fetched.
                let (relay, poll, final) = wait_for_finalization-ok w started round u waited in
                let (body, served, path, response, good) =
                  fetch_proof-ok w round request proof fetched in
                submit_instruction-IsSafe hub source request fee proof a (record {
                  round = round;
                  relay = relay;
                  poll = poll;
                  body = body;
                  final = final;
                  served = served;
                  path = path;
                  response = response;
                  successful = good;
                })

  attest-IsSafe :
      (memo source controller : Text)
      → extract_memo tx ≡ some memo
      → tx.account ≡ some source
      → w.is_transaction_id_used controller (normalise_tx_id hash) ≡ ok false
      → IsSafe w tx hash (attest w config started source (normalise_tx_id hash))
  unfolding attest
  attest-IsSafe memo source controller has_memo has_account unused =
      let stops = λ (e : Text). stop [] e nothing in
      let id = normalise_tx_id hash in
      call_rule (IsSafe w tx hash) [] (prepare_xrp_payment_request w id) _ stops λ prepared h1.
        call_rule (IsSafe w tx hash) [] (contract_by_name w (codes "FdcHub")) _ stops λ hub h2.
          call_rule (IsSafe w tx hash) [] (read_request_fee w prepared.abi_encoded_request) _ stops
            λ fee h3. call_rule (IsSafe w tx hash) [] (or_throw w.account _) _ stops λ account h4.
              let first = request_attestation hub prepared.abi_encoded_request fee in
              let (answered, valid) = prepare-ok w id prepared h1 in
              let a : Attested w tx hash source prepared.abi_encoded_request = record {
                memo = memo;
                controller = controller;
                has_memo = has_memo;
                has_account = has_account;
                unused = unused;
                valid =
                    answered
                    ∙ ap ok (
                        ap
                          (λ s. (
                            true,
                            record {
                              status = s;
                              abi_encoded_request = prepared.abi_encoded_request;
                            },
                          ))
                          valid);
              } in
              call_rule (IsSafe w tx hash) (first ∷ []) (w.send first) _
                (λ e. stop (first ∷ []) e (asked hub source prepared.abi_encoded_request fee a))
                λ sent h5. attested-IsSafe hub source prepared.abi_encoded_request sent fee a

  unless_used-IsSafe :
      (memo source : Text)
      → extract_memo tx ≡ some memo
      → tx.account ≡ some source
      → IsSafe w tx hash (unless_used w config started source (normalise_tx_id hash))
  unfolding unless_used
  unless_used-IsSafe memo source has_memo has_account =
      let stops = λ (e : Text). stop [] e nothing in
      let id = normalise_tx_id hash in
      call_rule (IsSafe w tx hash) [] (contract_by_name w (codes "MasterAccountController")) _ stops
        λ mac h1.
          call_rule (IsSafe w tx hash) [] (w.is_transaction_id_used mac id) _ stops λ used h2.
            if_cases (IsSafe w tx hash) used ([], ok Handled.already_used)
              (attest w config started source id) (λ e. record { trace = nothing; ends = tt })
              (λ e. attest-IsSafe memo source mac has_memo has_account (h2 ∙ ap ok e))

  -- Handling a payment sends nothing, or one attestation request, or that and one instruction. The
  -- request is sent only for a payment with a memo and an account whose id the chain does not know
  -- as used, and is what the verifier found valid for that id; the instruction only with the
  -- account as its source and a proof of the same request, from a round that the relay called
  -- final, whose status, where one is given, is success. A payment counts as executed only where
  -- both were sent.
  pub handle_incoming_payment-IsSafe :
      IsSafe w tx hash (handle_incoming_payment w config started tx hash)
  unfolding handle_incoming_payment
  handle_incoming_payment-IsSafe = elim (Option-cases (extract_memo tx)) [
    | inl none_there ↦
        rw (none_there, handle_incoming_payment) (record { trace = nothing; ends = tt })
    | inr (memo, has_memo) ↦ elim (Option-cases (source_of tx)) [
      | inl nobody ↦
          rw (has_memo, nobody, handle_incoming_payment) (record { trace = nothing; ends = tt })
      | inr (source, has_account) ↦
          let is : handle_incoming_payment w config started tx hash
              ≡ unless_used w config started source (normalise_tx_id hash) =
            rw (has_memo, has_account, handle_incoming_payment) refl in
          subst (IsSafe w tx hash) (sym is)
            (unless_used-IsSafe memo source has_memo (non_empty-some tx.account source has_account))
    ]
  ]
