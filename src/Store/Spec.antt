-- ===== src/Store/Spec.antt =====
-- What apps/operator/src/store.ts promises of its instructions, without its map, its file and the held
-- payments: a table from hashes to instructions, which a restart leaves as it is.
use giroledger.Base.{
  ℕ, ◌≡◌, refl, ap, ◌∙◌, true, false, Bool, List, [], ◌∷◌, arith, Option, none, some, Option-cases,
  Bool-cases, inl, inr, if◌then◌else◌,
}
use giroledger.Base.Text.{Text, lower, text_eq, text_eq_iff}
use giroledger.Base.Dict.{get, get-set, has}
use giroledger.Base.Result.{Result, ok, err, Result-cases}
use giroledger.Store.{
  PendingInstruction, InstructionStore, Input, find, load, add, check_input, new_record,
  record_orphan, take_orphan, mark_completed, get_or,
}
use giroledger.Store.Invariant.{Op, adds, records, takes, completes, restarts, step, run, after_add}
use giroledger.Store.Restart.{Synced, by_hash-load, step-Synced, new-Synced}

abbrev pub View : Type 0
View = Text → Option PendingInstruction

-- A look-up of any hash, in letters of either case.
abbrev pub view : InstructionStore → View
view s h = find s h

abbrev pub is_ok {ℓ} : {E : Type 0} {A : Type ℓ} → Result E A → Bool
is_ok (ok a) = true
is_ok (err e) = false

abbrev pub completed : Text → Text → Option PendingInstruction → Option PendingInstruction
completed c x none = none
completed c x (some i) = some (record i { completed_tx = some c; xrpl_tx = some x })

module _ (keccak256 : Text → Text) where
  -- The table after one operation.
  abbrev pub spec_step : View → Op → View
  spec_step v (adds now i) h =
      if is_ok (check_input keccak256 i)
      then (if text_eq (lower (keccak256 i.payload)) (lower h)
          then some (get_or (new_record keccak256 now i) (v (keccak256 i.payload)))
          else v h)
      else v h
  spec_step v (completes hash c x) h =
      if text_eq (lower hash) (lower h) then completed c x (v hash) else v h
  spec_step v _ h = v h

  abbrev pub spec_run : View → List Op → View
  spec_run v [] = v
  spec_run v (o ∷ os) = spec_run (spec_step v o) os

  view-add :
      (s : InstructionStore) (now : ℕ) (i : Input) (h : Text)
      → view (after_add keccak256 s (add keccak256 s now i)) h ≡ spec_step (view s) (adds now i) h
  unfolding add find
  view-add s now i h = elim (Result-cases (check_input keccak256 i)) [
    | inr (e, failed) ↦ rw failed refl
    | inl (u, passed) ↦ elim (Option-cases (get (lower (keccak256 i.payload)) s.by_hash)) [
      | inl fresh ↦
          rw (passed, fresh)
            (get-set (lower (keccak256 i.payload)) (lower h) (new_record keccak256 now i) s.by_hash)
      | inr (old, held) ↦
          rw (passed, held)
            (ground (arith, held, text_eq_iff (lower (keccak256 i.payload)) (lower h)))
    ]
  ]

  view-record_orphan :
      (s : InstructionStore) (now : ℕ) (hash x h : Text)
      → view (record_orphan s now hash x) h ≡ view s h
  unfolding record_orphan find
  view-record_orphan s now hash x h = elim (Bool-cases (has (lower hash) s.orphans)) [
    | inl there ↦ rw there refl
    | inr fresh ↦ rw fresh refl
  ]

  view-take_orphan :
      (s : InstructionStore) (hash h : Text) → view (take_orphan s hash).1 h ≡ view s h
  unfolding take_orphan find
  view-take_orphan s hash h = elim (Option-cases (get (lower hash) s.orphans)) [
    | inl absent ↦ rw (absent, take_orphan) refl
    | inr (o, found) ↦ rw (found, take_orphan) refl
  ]

  view-mark_completed :
      (s : InstructionStore) (hash c x h : Text)
      → view (mark_completed s hash c x) h ≡ spec_step (view s) (completes hash c x) h
  unfolding mark_completed find
  view-mark_completed s hash c x h = elim (Option-cases (get (lower hash) s.by_hash)) [
    | inl absent ↦
        rw (absent, mark_completed) (ground (arith, absent, text_eq_iff (lower hash) (lower h)))
    | inr (i, found) ↦
        rw (found, mark_completed)
          (get-set (lower hash) (lower h) (record i { completed_tx = some c; xrpl_tx = some x })
            s.by_hash)
  ]

  view-load :
      (now : ℕ) (s : InstructionStore) (h : Text) → Synced s → view (load now s.file) h ≡ view s h
  unfolding find
  view-load now s h v = ap (get (lower h)) (by_hash-load now s.file ∙ v.same)

  view-step :
      (s : InstructionStore) (o : Op) (h : Text)
      → Synced s
      → view (step keccak256 s o) h ≡ spec_step (view s) o h
  unfolding step
  view-step s (adds now i) h v = view-add s now i h
  view-step s (records now hash x) h v = view-record_orphan s now hash x h
  view-step s (takes hash) h v = view-take_orphan s hash h
  view-step s (completes hash c x) h v = view-mark_completed s hash c x h
  view-step s (restarts now) h v = view-load now s h v

  spec_step_same :
      (v w : View) (o : Op) (h : Text)
      → ((k : Text) → v k ≡ w k)
      → spec_step v o h ≡ spec_step w o h
  spec_step_same v w (adds now i) h e = rw (e (keccak256 i.payload), e h) refl
  spec_step_same v w (completes hash c x) h e = rw (e hash, e h) refl
  spec_step_same v w (records now hash x) h e = e h
  spec_step_same v w (takes hash) h e = e h
  spec_step_same v w (restarts now) h e = e h

  spec_run_same :
      (v w : View) (os : List Op) (h : Text)
      → ((k : Text) → v k ≡ w k)
      → spec_run v os h ≡ spec_run w os h
  spec_run_same v w [] h e = e h
  spec_run_same v w (o ∷ os) h e =
      spec_run_same (spec_step v o) (spec_step w o) os h (λ k. spec_step_same v w o k e)

  view-run_from :
      (s : InstructionStore) (os : List Op) (h : Text)
      → Synced s
      → view (run keccak256 s os) h ≡ spec_run (view s) os h
  unfolding run
  view-run_from s [] h v = refl
  view-run_from s (o ∷ os) h v =
      view-run_from (step keccak256 s o) os h (step-Synced keccak256 s o v)
      ∙ spec_run_same (view (step keccak256 s o)) (spec_step (view s) o) os h
          (λ k. view-step s o k v)

  nothing_found : (now : ℕ) (h : Text) → view (load now none) h ≡ none
  unfolding load find
  nothing_found now h = refl

  -- From an empty store, after any calls of the store with any arguments and any restarts on the
  -- file that it left, a look-up of any hash finds what a plain table finds that each added and
  -- accepted instruction is entered in once, that a completion marks, and that held payments and
  -- restarts do not touch.
  pub view-run :
      (now : ℕ) (os : List Op) (h : Text)
      → find (run keccak256 (load now none) os) h ≡ spec_run (λ k. none) os h
  view-run now os h =
      view-run_from (load now none) os h (new-Synced keccak256 now)
      ∙ spec_run_same (view (load now none)) (λ k. none) os h (nothing_found now)
