-- ===== src/Web/Wallet.antt =====
-- apps/web/src/components/SendWithGemWallet.tsx: the button that hands the payment to the wallet
-- extension. A click runs through three waits; each may be answered at any later time, also after the
-- payment on screen has changed.
pub mod Sends
use giroledger.Base.{
  ℕ, zero, suc, ◌+◌, Bool, true, false, not, ◌&&◌, ◌||◌, Option, none, some, List, [], ◌∷◌, ◌++◌,
  if◌then◌else◌,
}
use giroledger.Base.Text.{Text, codes, text_eq}
use giroledger.Base.Result.{Result, ok, err}

pub data Phase : Type 0 where
  idle checking sending rejected : Phase
  sent : (hash : Text) → Phase
  error : (message : Text) → Phase

pub record Props : Type 0 where
  pub destination : Text
  pub amount_drops : Text
  pub memo_hex : Text
  pub disabled : Bool

-- What `sendPayment` is asked for: no destination tag.
pub record Asked : Type 0 where
  pub amount : Text
  pub destination : Text
  pub memo_data : Text

-- Where a click waits: for `isInstalled`, for `getNetwork`, for `sendPayment`, or for nothing any more.
pub data Stage : Type 0 where
  installing naming paying over : Stage

-- A running `send`, with the payment of the click.
pub record Send : Type 0 where
  pub asks : Asked
  pub stage : Stage

-- The button, with its sends in the order of the clicks, and the payments the extension was asked for,
-- latest first.
pub record Button : Type 0 where
  pub props : Props
  pub phase : Phase
  pub network : Option Text
  pub sends : List Send
  pub asked : List Asked

-- What the extension answers: `isInstalled`; the network's name; the type and the hash of a payment.
pub data Reply : Type 0 where
  installed : Bool → Reply
  network_name : Option Text → Reply
  paid : (type : Text) (hash : Option Text) → Reply
  threw : Text → Reply

pub data Event : Type 0 where
  changes : Props → Event
  clicks : Event
  replies : ℕ → Reply → Event

abbrev pub busy : Phase → Bool
busy checking = true
busy sending = true
busy _ = false

abbrev pub is_sent : Phase → Bool
is_sent (sent h) = true
is_sent _ = false

abbrev pub asked_by : Props → Asked
asked_by p = record { amount = p.amount_drops; destination = p.destination; memo_data = p.memo_hex }

-- The effect that resets the button: it looks at the memo and the amount only.
unfoldable pub on_props : Button → Props → Button
on_props b p =
    let same = text_eq b.props.memo_hex p.memo_hex && text_eq b.props.amount_drops p.amount_drops in
    record b { props = p; phase = if same then b.phase else idle }

-- A click counts where the button is shown and is not disabled.
unfoldable pub on_click : Button → Button
on_click b = if is_sent b.phase || (busy b.phase || b.props.disabled) then b else record b {
  phase = checking;
  sends = b.sends ++ record { asks = asked_by b.props; stage = installing } ∷ [];
}

abbrev pub wrong_network : Option Text → Bool
wrong_network none = false
wrong_network (some []) = false
wrong_network (some (c ∷ t)) = not (text_eq (c ∷ t) (codes "Testnet"))

-- What a payment's answer leads to: a rejection, or no hash, is `rejected`.
abbrev pub after_payment : Text → Option Text → Phase
after_payment type none = rejected
after_payment type (some []) = rejected
after_payment type (some (c ∷ t)) = if text_eq type (codes "reject") then rejected else sent (c ∷ t)

-- One answer to one send: the phase that is set, the stage that follows and whether the payment is
-- asked for. An answer that does not fit the stage does nothing.
unfoldable pub advance :
    Phase → Option Text → Send → Reply → (Phase × Option Text) × (Send × List Asked)
advance p n s (threw message) = elim s.stage [
  | over ↦ ((p, n), (s, []))
  | _ ↦ ((error message, n), (record s { stage = over }, []))
]
advance p n s (installed there) = elim s.stage [
  | installing ↦
      if there
      then ((p, n), (record s { stage = naming }, []))
      else ((error (codes "GemWallet is not installed"), n), (record s { stage = over }, []))
  | _ ↦ ((p, n), (s, []))
]
advance p n s (network_name name) = elim s.stage [
  | naming ↦
      if wrong_network name
      then (
        (error (codes "GemWallet is on another network"), name),
        (record s { stage = over }, []),
      )
      else ((sending, name), (record s { stage = paying }, s.asks ∷ []))
  | _ ↦ ((p, n), (s, []))
]
advance p n s (paid type hash) = elim s.stage [
  | paying ↦ ((after_payment type hash, n), (record s { stage = over }, []))
  | _ ↦ ((p, n), (s, []))
]

abbrev pub reply_to :
    Phase → Option Text → List Send → ℕ → Reply → (Phase × Option Text) × (List Send × List Asked)
reply_to p n [] k r = ((p, n), ([], []))
reply_to p n (s ∷ ss) zero r = let (set, (t, asks)) = advance p n s r in (set, (t ∷ ss, asks))
reply_to p n (s ∷ ss) (suc k) r =
    let (set, (rest, asks)) = reply_to p n ss k r in (set, (s ∷ rest, asks))

unfoldable pub button_step : Button → Event → Button
unfolding on_props on_click
button_step b (changes p) = on_props b p
button_step b clicks = on_click b
button_step b (replies k r) =
    let (set, (ss, asks)) = reply_to b.phase b.network b.sends k r in
    record b { phase = set.0; network = set.1; sends = ss; asked = asks ++ b.asked }

abbrev pub button_run : Button → List Event → Button
button_run b [] = b
button_run b (e ∷ es) = button_run (button_step b e) es

abbrev pub mounted : Props → Button
mounted p = record { props = p; phase = idle; network = none; sends = []; asked = [] }
