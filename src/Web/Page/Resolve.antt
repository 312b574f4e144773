-- ===== src/Web/Page/Resolve.antt =====
-- What `resolve` leaves on the page: everything about one account, or no account and an error.
use giroledger.Base.{ℕ, ◌≡◌, ◌⊎◌, refl, true, false, Option, none, some, List, inl, inr}
use giroledger.Base.Text.{Text}
use giroledger.Base.Result.{ok, err, Result-cases}
use giroledger.Rules.{Rule}
use giroledger.Web.Numbers.{trim}
use giroledger.Web.History.{Logs, ExecutionHistory, get_executions}
use giroledger.Web.Chain.{Node, Resolved, resolve_personal_account, get_rules_for}
use giroledger.Web.Page.{Env, Page, valid, read_balance, resolve, failed}

module _ (env : Env) (node : Node) (logs : Logs) where
  -- The page holds what was read for one account.
  pub record IsAbout (before p : Page) (r : Resolved) : Type 0 where
    pub account : resolve_personal_account node (trim before.xrpl) ≡ ok r
    pub resolved : p.resolved ≡ some r
    pub balance : read_balance env node logs before r ≡ ok p.balance
    pub rules : get_rules_for node env.registry r.account ≡ ok p.rules
    pub history :
        (h : ExecutionHistory) × (p.history ≡ some h)
        × (get_executions logs env.executor r.account 60 ≡ ok h)
    pub error : p.error ≡ none

  -- What is left where the reads behind the account succeed.
  abbrev pub about : Page → Resolved → Option ℕ → List Rule → ExecutionHistory → Page
  about p r b rs h = record p {
    resolving = false;
    error = none;
    resolved = some r;
    balance = b;
    rules = rs;
    history = some h;
  }

  -- The first read that failed, and its error.
  pub data Cause (before : Page) (e : Text) : Type 0 where
    no_account : resolve_personal_account node (trim before.xrpl) ≡ err e → Cause before e
    no_balance :
        (r : Resolved)
        → resolve_personal_account node (trim before.xrpl) ≡ ok r
        → read_balance env node logs before r ≡ err e
        → Cause before e
    no_rules :
        (r : Resolved) (b : Option ℕ)
        → resolve_personal_account node (trim before.xrpl) ≡ ok r
        → read_balance env node logs before r ≡ ok b
        → get_rules_for node env.registry r.account ≡ err e
        → Cause before e
    no_history :
        (r : Resolved) (b : Option ℕ) (rs : List Rule)
        → resolve_personal_account node (trim before.xrpl) ≡ ok r
        → read_balance env node logs before r ≡ ok b
        → get_rules_for node env.registry r.account ≡ ok rs
        → get_executions logs env.executor r.account 60 ≡ err e
        → Cause before e

  -- There is no account, and the error of the read that failed is shown.
  pub record IsFailed (before p : Page) : Type 0 where
    pub error_text : Text
    pub cause : Cause before error_text
    pub blank : p.resolved ≡ none
    pub shown : p.error ≡ some error_text

  resolve-failed :
      (p q : Page) (e : Text)
      → Cause p e
      → resolve env node logs p ≡ failed q e
      → IsFailed p (resolve env node logs p)
  resolve-failed p q e c is =
      rw is (record { error_text = e; cause = c; blank = refl; shown = refl })

  -- Resolving a well-formed address, with no other event in between, ends in one of two ways: the
  -- account, its rules and its history on the page are those that were read for this address, with
  -- the balance of the account where the token is known and as it was otherwise, and with no error;
  -- or the account, the balance, the rules or the history could not be read, and then, also where
  -- only the history could not, there is no account and the error of that read is shown.
  pub resolve-IsAbout :
      (p : Page)
      → valid p ≡ true
      → ((r : Resolved) × IsAbout p (resolve env node logs p) r)
        ⊎ IsFailed p (resolve env node logs p)
  resolve-IsAbout p ready =
      let p1 : Page = record p { resolving = true; error = none } in
      elim (Result-cases (resolve_personal_account node (trim p.xrpl))) [
        | inr (e, failed) ↦
            inr (
              resolve-failed p p1 e (no_account failed) (unfold resolve in rw (ready, failed) refl))
        | inl (r, found) ↦
            let p2 : Page = record p1 { resolved = some r } in
            elim (Result-cases (read_balance env node logs p r)) [
              | inr (e, failed) ↦ inr (
                  resolve-failed p p2 e (no_balance r found failed)
                    (unfold resolve in rw (ready, found, failed) refl))
              | inl (b, held) ↦
                  let p3 : Page = record p2 { balance = b } in
                  elim (Result-cases (get_rules_for node env.registry r.account)) [
                    | inr (e, failed) ↦ inr (
                        resolve-failed p p3 e (no_rules r b found held failed)
                          (unfold resolve in rw (ready, found, held, failed) refl))
                    | inl (rs, read) ↦
                        let p4 : Page = record p3 { rules = rs } in
                        elim (Result-cases (get_executions logs env.executor r.account 60)) [
                          | inr (e, failed) ↦ inr (
                              resolve-failed p p4 e (no_history r b rs found held read failed)
                                (unfold resolve in rw (ready, found, held, read, failed) refl))
                          | inl (h, past) ↦
                              let is : resolve env node logs p ≡ about p r b rs h =
                                unfold resolve in rw (ready, found, held, read, past) refl in
                              inl (
                                r,
                                rw is (record {
                                  account = found;
                                  resolved = refl;
                                  balance = held;
                                  rules = read;
                                  history = (h, refl, past);
                                  error = refl;
                                }),
                              )
                        ]
                  ]
            ]
      ]
