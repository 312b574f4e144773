-- ===== src/Keeper/Strikes.antt =====
-- The strikes and the quarantine of apps/keeper/src/index.ts.
use giroledger.Base.{
  ℕ, zero, suc, ◌+◌, ◌≤◌, ◌<◌, ◌≡◌, refl, ◌⊎◌, inl, inr, true, false, not, none, some, [], ◌∷◌,
  arith, ltb, length, All, Bool-cases, ◌&&◌, ltb→lt,
}
use giroledger.Base.Text.{Text, text_eq_refl}
use giroledger.Base.Dict.{Dict, get, has, set, All-set, All-delete, get-set, has-set}
use giroledger.Base.Result.{Result-cases}
use giroledger.Keeper.Monad.{Keeper, Reason, Submission}
use giroledger.Keeper.Keeps.{Calm}
use giroledger.Keeper.Tick.{finish}
use giroledger.Keeper.Sends.{run_due_moves}
use giroledger.Keeper.{
  Config, Node, strike, run_due, tick, send, trim, collect_due, set_pending_due, quarantined_with,
  strikes_of,
}

-- The health counter is the size of the quarantine, and a rule with the strikes that the
-- configuration allows is in it.
pub record Inv (config : Config) (k : Keeper) : Type 0 where
  pub counted : k.health.quarantined ≡ length k.quarantine
  pub struck :
      All (λ e. (e.1 < config.max_noop_strikes) ⊎ (has e.0 k.quarantine ≡ true)) k.noop_strikes

weaken_struck :
    (limit : ℕ) (id : Text) (reason : Reason) (q : Dict Reason) (m : Dict ℕ)
    → All (λ e. (e.1 < limit) ⊎ (has e.0 q ≡ true)) m
    → All (λ e. (e.1 < limit) ⊎ (has e.0 (set id reason q) ≡ true)) m
weaken_struck limit id reason q [] h = tt
weaken_struck limit id reason q ((j, n) ∷ m) h =
    (ground (arith, h.0, has-set id j reason q), weaken_struck limit id reason q m h.1)

quarantined_with-Inv :
    (config : Config) (id : Text) (reason : Reason) (k : Keeper)
    → Inv config k
    → Inv config (quarantined_with id reason k)
quarantined_with-Inv config id reason k v = record {
  counted = refl;
  struck = weaken_struck config.max_noop_strikes id reason k.quarantine k.noop_strikes v.struck;
}

strike-Inv :
    (config : Config) (id reason : Text) (k : Keeper)
    → Inv config k
    → Inv config (strike config id reason k)
unfolding strike
strike-Inv config id reason k v =
    let n = strikes_of (get id k.noop_strikes) + 1 in
    let r = Reason.repeated reason n in
    elim (Bool-cases (ltb n config.max_noop_strikes)) [
      | inl below ↦ rw below (record {
        counted = v.counted;
        struck =
            All-set _ id n k.noop_strikes (inl (ltb→lt n config.max_noop_strikes below)) v.struck;
      })
      | inr reached ↦ rw reached (record {
        counted = refl;
        struck =
            All-set _ id n k.noop_strikes
              (inr (ground (arith, has-set id id r k.quarantine, text_eq_refl id)))
              (weaken_struck config.max_noop_strikes id r k.quarantine k.noop_strikes v.struck);
      })
    ]

Inv-Calm : (config : Config) → Calm config (Inv config)
Inv-Calm config = record {
  strikes = strike-Inv config;
  quarantines = quarantined_with-Inv config;
  clears =
      λ id k v. record { counted = v.counted; struck = All-delete _ id k.noop_strikes v.struck };
  executes = λ n k v. record { counted = v.counted; struck = v.struck };
  counts = λ n k v. record { counted = v.counted; struck = v.struck };
}

abbrev Held : Text → Keeper → Type 0
Held id k = has id k.quarantine ≡ true

Held-Calm : (config : Config) (id : Text) → Calm config (Held id)
unfolding strike
Held-Calm config id = record {
  strikes = λ j reason k h. ground (
    arith,
    has-set j id (Reason.repeated reason (strikes_of (get j k.noop_strikes) + 1)) k.quarantine,
  );
  quarantines = λ j reason k h. ground (arith, has-set j id reason k.quarantine);
  clears = λ j k h. h;
  executes = λ n k h. h;
  counts = λ n k h. h;
}

tick_keeps :
    (P : Keeper → Type 0) (fuel : ℕ) (node : Node) (config : Config) (k : Keeper)
    → Calm config P
    → ((tx : Submission) (k' : Keeper) → P k' → P (send tx k'))
    → P k
    → P (tick fuel node config k).0
unfolding tick
tick_keeps P fuel node config k calm sends p =
    elim (Result-cases (collect_due fuel node config k [] 0)) [
      | inr (e, threw) ↦ rw (threw, tick) p
      | inl (none, long) ↦ rw (long, tick) p
      | inl (some ids, read) ↦
          let k1 = set_pending_due (length ids) k in
          let moved =
            run_due_moves config P P calm calm node (trim config ids) k1 (λ tx _ q. sends tx k1 q)
              (calm.counts (length ids) k p) in
          rw (read, tick, finish (run_due node config (trim config ids) k1)) (either moved)
    ]
  where
    either : {A : Type 0} → A ⊎ A → A
    either (inl a) = a
    either (inr a) = a

-- A tick keeps, whatever the node answers and also where it throws: the health counter is the size
-- of the quarantine, and a rule with as many strikes as the configuration allows is in it. It takes
-- no rule out of the quarantine.
pub tick-Inv :
    (fuel : ℕ) (node : Node) (config : Config) (k : Keeper) (id : Text)
    → Inv config k
    → Inv config (tick fuel node config k).0
      × ((has id k.quarantine && not (has id (tick fuel node config k).0.quarantine)) ≡ false)
tick-Inv fuel node config k id v = (
  tick_keeps (Inv config) fuel node config k (Inv-Calm config)
      (λ tx k' v. record { counted = v.counted; struck = v.struck }) v,
  elim (Bool-cases (has id k.quarantine)) [
    | inl there ↦
        let still =
          tick_keeps (Held id) fuel node config k (Held-Calm config id) (λ tx k' h. h) there in
        rw (there, still) refl
    | inr absent ↦ rw absent refl
  ],
)

abbrev pub strike_times : ℕ → Config → Text → Text → Keeper → Keeper
strike_times zero config id reason k = k
strike_times (suc n) config id reason k =
    strike_times n config id reason (strike config id reason k)

strike_times-Held :
    (n : ℕ) (config : Config) (id reason : Text) (k : Keeper)
    → Held id k
    → Held id (strike_times n config id reason k)
strike_times-Held zero config id reason k h = h
strike_times-Held (suc n) config id reason k h =
    strike_times-Held n config id reason _ ((Held-Calm config id).strikes id reason k h)

-- A positive number of strikes in a row that reaches the configured limit together with the strikes
-- that the rule has puts the rule into quarantine.
pub strike_times-quarantine :
    (n : ℕ) (config : Config) (id reason : Text) (k : Keeper)
    → 0 < n
    → config.max_noop_strikes ≤ strikes_of (get id k.noop_strikes) + n
    → has id (strike_times n config id reason k).quarantine ≡ true
unfolding strike
strike_times-quarantine zero config id reason k h e = absurd (omega arith)
strike_times-quarantine (suc n) config id reason k h e =
    let m = strikes_of (get id k.noop_strikes) + 1 in
    elim (Bool-cases (ltb m config.max_noop_strikes)) [
      | inr reached ↦ strike_times-Held n config id reason _ (
          rw reached (
            ground (arith, has-set id id (Reason.repeated reason m) k.quarantine, text_eq_refl id)))
      | inl below ↦
          let next = strike config id reason k in
          let more : strikes_of (get id next.noop_strikes) ≡ m =
            ground (arith, get-set id id m k.noop_strikes, text_eq_refl id) in
          strike_times-quarantine n config id reason next
            (omega (arith, ltb→lt m config.max_noop_strikes below)) (rw more (omega arith))
    ]
