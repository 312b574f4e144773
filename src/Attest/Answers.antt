-- ===== src/Attest/Answers.antt =====
-- What the verifier and the data layer answered, where the steps of apps/operator/src/fdc.ts go on.
use giroledger.Base.{
  ℕ, ◌≡◌, refl, ap, sym, ◌∙◌, subst, Bool, true, false, not, Option, none, some, List, Bool-cases,
  inl, inr,
}
use giroledger.Base.Text.{Text, codes, text_eq, text_eq_sound}
use giroledger.Base.Result.{Result, ok, ◌>>=◌, ◌>>◌, throw_if, or_throw, bind-ok}
use giroledger.Attest.Services.{
  Remote, PreparedRequest, PaymentProof, ProofBody, Response, attestation_type_payment,
  source_test_xrp, prepare_xrp_payment_request, not_success, fetch_proof,
}

-- Two guards in front of a result.
two_guards :
    (b c : Bool) (e f : Text) (q r : PreparedRequest)
    → (throw_if (not b) e >> (throw_if (not c) f >> ok q)) ≡ ok r
    → (b ≡ true) × (c ≡ true) × (q ≡ r)
two_guards true true e f q r h = (refl, refl, cc)
two_guards true false e f q r h = absurd (cc)
two_guards false c e f q r h = absurd (cc)

same :
    (ps : List Text) (response : Response) (proof : PaymentProof)
    → ◌≡◌ {A = Result Text PaymentProof}
        (ok (record { merkle_proof = ps; content = response }))
        (ok proof)
    → ◌≡◌ {A = PaymentProof} (record { merkle_proof = ps; content = response }) proof
same ps response proof h = cc

-- The guards of the proof.
proof_guards :
    (b : Bool) (e f g : Text) (ms : Option (List Text)) (m : Option Response) (proof : PaymentProof)
    → ◌≡◌ {A = Result Text PaymentProof}
        (throw_if (not b) f
          >> (or_throw ms e >>= λ ps. or_throw m e >>= λ response.
              throw_if (not_success response.status) g
              >> ok (record { merkle_proof = ps; content = response })))
        (ok proof)
    → (b ≡ true)
      × (ms ≡ some proof.merkle_proof)
      × (m ≡ some proof.content)
      × (not_success proof.content.status ≡ false)
proof_guards false e f g ms m proof h = absurd (cc)
proof_guards true e f g none m proof h = absurd (cc)
proof_guards true e f g (some ps) none proof h = absurd (cc)
proof_guards true e f g (some ps) (some response) proof h =
    elim (Bool-cases (not_success response.status)) [
      | inl bad ↦ absurd (cc (rw bad at h))
      | inr good ↦ (
        refl,
        ap (λ x. some x.merkle_proof) (same ps response proof (rw good at h)),
        ap (λ x. some x.content) (same ps response proof (rw good at h)),
        ap (λ x. not_success x.content.status) (sym (same ps response proof (rw good at h))) ∙ good,
      )
    ]

module _ (w : Remote) where
  pub prepare-ok :
      (id : Text) (r : PreparedRequest)
      → prepare_xrp_payment_request w id ≡ ok r
      → (w.prepare (record {
        attestation_type = attestation_type_payment;
        source_id = source_test_xrp;
        transaction_id = id;
      })
          ≡ ok (true, r))
        × (r.status ≡ codes "VALID")
  unfolding prepare_xrp_payment_request
  prepare-ok id r h =
      let ((b, q), asked, rest) = bind-ok (w.prepare _) _ r h in
      let (fine, valid, same) = two_guards b (text_eq q.status (codes "VALID")) _ _ q r rest in
      (
        asked ∙ ap ok (ap (λ x. (x, q)) fine ∙ ap (λ x. (true, x)) same),
        subst (λ x. x.status ≡ codes "VALID") same (text_eq_sound q.status (codes "VALID") valid),
      )

  pub fetch_proof-ok :
      (round : ℕ) (request : Text) (proof : PaymentProof)
      → fetch_proof w round request ≡ ok proof
      → (body : ProofBody) × (w.proof_of round request ≡ ok (true, body))
        × (body.proof ≡ some proof.merkle_proof)
        × (body.response ≡ some proof.content)
        × (not_success proof.content.status ≡ false)
  unfolding fetch_proof
  fetch_proof-ok round request proof h =
      let ((b, body), asked, rest) = bind-ok (w.proof_of round request) _ proof h in
      let (fine, path, response, good) = proof_guards b _ _ _ body.proof body.response proof rest in
      (body, asked ∙ ap ok (ap (λ x. (x, body)) fine), path, response, good)
