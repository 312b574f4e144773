-- ===== src/Web/Wallet/Sends.antt =====
-- What the button of SendWithGemWallet.tsx has sent, and what it shows about it.
use giroledger.Base.{
  ℕ, zero, suc, ◌+◌, ◌≤◌, ◌≡◌, false, ◌||◌, Option, some, List, [], ◌∷◌, ◌++◌, arith, All,
  All-append, length, length-append, Bool-cases, inl, inr,
}
use giroledger.Base.Text.{Text, codes, text_eq}
use giroledger.Web.Wallet.{
  Phase, Props, Asked, Stage, Send, Button, Reply, Event, busy, is_sent, asked_by, on_props,
  on_click, advance, reply_to, button_step, button_run, mounted,
}

abbrev pub Offers : (Asked → Type 0) → Props → Type 0
Offers P p = p.disabled ≡ false → P (asked_by p)

-- What holds of each payment that is put on the button while it is not disabled.
abbrev pub AllOffers : (Asked → Type 0) → List Event → Type 0
AllOffers P [] = Unit
AllOffers P (Event.changes p ∷ es) = Offers P p × AllOffers P es
AllOffers P (Event.clicks ∷ es) = AllOffers P es
AllOffers P (Event.replies k r ∷ es) = AllOffers P es

module _ (P : Asked → Type 0) where
  pub record Inv (b : Button) : Type 0 where
    pub offers : Offers P b.props
    pub sends : All (λ s. P s.asks) b.sends
    pub asked : All P b.asked

  advance-asks :
      (p : Phase) (n : Option Text) (s : Send) (r : Reply)
      → P s.asks
      → P (advance p n s r).1.0.asks × All P (advance p n s r).1.1
  unfolding advance
  advance-asks p n s (Reply.threw m) h = ground arith
  advance-asks p n s (Reply.installed there) h = ground arith
  advance-asks p n s (Reply.network_name name) h = ground arith
  advance-asks p n s (Reply.paid type hash) h = ground arith

  reply_to-asks :
      (p : Phase) (n : Option Text) (ss : List Send) (k : ℕ) (r : Reply)
      → All (λ s. P s.asks) ss
      → All (λ s. P s.asks) (reply_to p n ss k r).1.0 × All P (reply_to p n ss k r).1.1
  reply_to-asks p n [] k r h = (tt, tt)
  reply_to-asks p n (s ∷ ss) zero r h =
      let (kept, asks) = advance-asks p n s r h.0 in ((kept, h.1), asks)
  reply_to-asks p n (s ∷ ss) (suc k) r h =
      let (kept, asks) = reply_to-asks p n ss k r h.1 in ((h.0, kept), asks)

  on_click-Inv : (b : Button) → Inv b → Inv (on_click b)
  unfolding on_click
  on_click-Inv b v = elim (Bool-cases (is_sent b.phase || (busy b.phase || b.props.disabled))) [
    | inl off ↦ rw off v
    | inr on ↦
        let enabled : b.props.disabled ≡ false = ground arith in
        rw on (record {
          offers = v.offers;
          sends = All-append _ b.sends _ v.sends (v.offers enabled, tt);
          asked = v.asked;
        })
  ]

  button_run-Inv : (b : Button) (es : List Event) → AllOffers P es → Inv b → Inv (button_run b es)
  unfolding button_step on_props
  button_run-Inv b [] a v = v
  button_run-Inv b (Event.changes p ∷ es) a v =
      button_run-Inv (button_step b (Event.changes p)) es a.1
        (record { offers = a.0; sends = v.sends; asked = v.asked })
  button_run-Inv b (Event.clicks ∷ es) a v = button_run-Inv (on_click b) es a (on_click-Inv b v)
  button_run-Inv b (Event.replies k r ∷ es) a v =
      let (kept, asks) = reply_to-asks b.phase b.network b.sends k r v.sends in
      button_run-Inv (button_step b (Event.replies k r)) es a
        (record { offers = v.offers; sends = kept; asked = All-append P _ b.asked asks v.asked })

  -- Whatever the visitor clicks, however the payment on the button changes and whatever the
  -- extension answers, a property of every payment that is put on the button while it is enabled
  -- holds of each payment that the extension is asked for.
  pub button_run-asked :
      (p : Props) (es : List Event)
      → Offers P p
      → AllOffers P es
      → All P (button_run (mounted p) es).asked
  button_run-asked p es first a =
      (button_run-Inv (mounted p) es a (record { offers = first; sends = tt; asked = tt })).asked

-- A send that may still ask for its payment.
abbrev pub may_ask : Stage → ℕ
may_ask Stage.installing = 1
may_ask Stage.naming = 1
may_ask _ = 0

abbrev pub waiting : List Send → ℕ
waiting [] = 0
waiting (s ∷ ss) = may_ask s.stage + waiting ss

abbrev pub clicks_in : List Event → ℕ
clicks_in [] = 0
clicks_in (Event.clicks ∷ es) = suc (clicks_in es)
clicks_in (Event.changes p ∷ es) = clicks_in es
clicks_in (Event.replies k r ∷ es) = clicks_in es

stage-cases : (t : Stage) → (may_ask t ≤ 1)
stage-cases Stage.installing = omega arith
stage-cases Stage.naming = omega arith
stage-cases Stage.paying = omega arith
stage-cases Stage.over = omega arith

advance-once :
    (p : Phase) (n : Option Text) (s : Send) (r : Reply)
    → length (advance p n s r).1.1 + may_ask (advance p n s r).1.0.stage ≤ may_ask s.stage
unfolding advance
advance-once p n s (Reply.threw m) = ground arith
advance-once p n s (Reply.installed there) = ground arith
advance-once p n s (Reply.network_name name) = ground arith
advance-once p n s (Reply.paid type hash) = ground arith

reply_to-once :
    (p : Phase) (n : Option Text) (ss : List Send) (k : ℕ) (r : Reply)
    → length (reply_to p n ss k r).1.1 + waiting (reply_to p n ss k r).1.0 ≤ waiting ss
reply_to-once p n [] k r = omega arith
reply_to-once p n (s ∷ ss) zero r = omega (arith, advance-once p n s r)
reply_to-once p n (s ∷ ss) (suc k) r = omega (arith, reply_to-once p n ss k r)

waiting-append : (ss ts : List Send) → waiting (ss ++ ts) ≡ waiting ss + waiting ts
waiting-append [] ts = omega arith
waiting-append (s ∷ ss) ts = omega (arith, waiting-append ss ts)

on_click-once :
    (b : Button)
    → length (on_click b).asked + waiting (on_click b).sends
      ≤ suc (length b.asked + waiting b.sends)
unfolding on_click
on_click-once b = elim (Bool-cases (is_sent b.phase || (busy b.phase || b.props.disabled))) [
  | inl off ↦ rw off (omega arith)
  | inr on ↦ rw on (
      omega (
        arith,
        waiting-append b.sends (record { asks = asked_by b.props; stage = Stage.installing } ∷ []),
      ))
]

button_run-once :
    (b : Button) (es : List Event)
    → length (button_run b es).asked + waiting (button_run b es).sends
      ≤ length b.asked + waiting b.sends + clicks_in es
unfolding button_step on_props
button_run-once b [] = omega arith
button_run-once b (Event.changes p ∷ es) = button_run-once (button_step b (Event.changes p)) es
button_run-once b (Event.clicks ∷ es) =
    omega (arith, button_run-once (on_click b) es, on_click-once b)
button_run-once b (Event.replies k r ∷ es) =
    let asks = (reply_to b.phase b.network b.sends k r).1.1 in
    omega (
      arith,
      button_run-once (button_step b (Event.replies k r)) es,
      reply_to-once b.phase b.network b.sends k r,
      length-append asks b.asked,
    )

-- Once.
pub button_run-clicks :
    (p : Props) (es : List Event) → length (button_run (mounted p) es).asked ≤ clicks_in es
button_run-clicks p es = omega (arith, button_run-once (mounted p) es)

-- Stale.
pub paid-changes :
    (b : Button) (s : Send) (ss : List Send) (p : Props) (type : Text) (c : ℕ) (t : Text)
    → b.sends ≡ s ∷ ss
    → s.stage ≡ Stage.paying
    → text_eq type (codes "reject") ≡ false
    → (let b' =
          button_step
            (button_step b (Event.changes p))
            (Event.replies 0 (Reply.paid type (some (c ∷ t)))) in
        (b'.phase ≡ Phase.sent (c ∷ t)) × (b'.props ≡ p))
unfolding button_step on_props advance
paid-changes b s ss p type c t first waits accepted = ground arith
