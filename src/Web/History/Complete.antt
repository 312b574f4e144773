-- ===== src/Web/History/Complete.antt =====
-- The history of `getExecutions` against the events of the chain.
use mathlib.Core.List.{append-nil}
use giroledger.Base.{
  ℕ, zero, suc, ◌+◌, ◌-◌, ◌*◌, ◌≤◌, ◌<◌, ◌≡◌, refl, sym, ap, ◌∙◌, subst, true, false, ◌&&◌, some,
  List, [], ◌∷◌, ◌++◌, map, arith, keep, leb, ltb, ◌==◌, if◌then◌else◌, keep-append, inl, inr,
  Bool-cases, Option, none,
}
use giroledger.Base.Text.{Text}
use giroledger.Base.Result.{Result, ok, bind-ok, Result-cases}
use giroledger.Web.History.{
  Log, ExecutionHistory, Logs, max_log_span, earliest_block, window_start, ranges, read_windows,
  to_execution, history_of, get_executions,
}
use giroledger.Web.History.Order.{
  Descending, at_block, logs_at, sort_by_block-Descending, at_block-sort, at_block-map,
}

-- What a node answers for a span within its limit: the events of the chain there, in their order.
abbrev pub Answers : List Log → (ℕ → ℕ → Result Text (List Log)) → Type 0
Answers chain ask =
    (f t : ℕ) (ls : List Log)
    → f ≤ t
    → t < f + max_log_span
    → ask f t ≡ ok ls
    → ls ≡ keep (λ l. leb f l.block_number && leb l.block_number t) chain

logs_at-keep :
    (b f t : ℕ) (chain : List Log)
    → logs_at b (keep (λ l. leb f l.block_number && leb l.block_number t) chain)
      ≡ (if leb f b && leb b t then logs_at b chain else [])
logs_at-keep b f t [] = ground arith
logs_at-keep b f t (l ∷ ls) = ground (arith, logs_at-keep b f t ls)

logs_at-append : (b : ℕ) (ls ms : List Log) → logs_at b (ls ++ ms) ≡ logs_at b ls ++ logs_at b ms
logs_at-append b ls ms = keep-append (λ l. l.block_number == b) ls ms

ranges-more :
    (fuel earliest to : ℕ)
    → ltb earliest to ≡ true
    → ranges (suc fuel) earliest to
      ≡ (window_start earliest to, to) ∷ ranges fuel earliest (to - max_log_span)
unfolding ranges
ranges-more fuel earliest to h = rw h refl

ranges-over : (fuel earliest to : ℕ) → ltb earliest to ≡ false → ranges (suc fuel) earliest to ≡ []
unfolding ranges
ranges-over fuel earliest to h = rw h refl

-- What one window does not have, the earlier ones have.
halves :
    (all : List Log) (earliest to b : ℕ)
    → earliest < b
    → (if leb (window_start earliest to) b && leb b to then all else [])
        ++ (if leb b (to - max_log_span) then all else [])
      ≡ (if leb b to then all else [])
halves all earliest to b late = ground (arith, append-nil all)

module _ (chain : List Log) (ask : ℕ → ℕ → Result Text (List Log))
    (honest : Answers chain ask) where
  -- One answered window and those behind it.
  read_windows-step :
      (f t : ℕ) (rs : List (ℕ × ℕ)) (b : ℕ)
      → f ≤ t
      → t < f + max_log_span
      → (read_windows ask ((f, t) ∷ rs)).1 ≡ false
      → ((read_windows ask rs).1 ≡ false)
        × (logs_at b (read_windows ask ((f, t) ∷ rs)).0
            ≡ (if leb f b && leb b t then logs_at b chain else [])
              ++ logs_at b (read_windows ask rs).0)
  unfolding read_windows
  read_windows-step f t rs b le narrow whole = elim (Result-cases (ask f t)) [
    | inr (e, failed) ↦ absurd (ground arith)
    | inl (ls, answered) ↦
        let rest = (read_windows ask rs).0 in
        let here : logs_at b ls ≡ (if leb f b && leb b t then logs_at b chain else []) =
          rw (honest f t ls le narrow answered) (logs_at-keep b f t chain) in
        (
          rw (answered, read_windows) at whole,
          rw (answered, read_windows)
              (logs_at-append b ls rest ∙ ap (λ x. x ++ logs_at b rest) here),
        )
  ]

  -- A block above the earliest one stands in exactly one window.
  read_windows-ranges :
      (fuel earliest to b : ℕ)
      → to ≤ earliest + max_log_span * fuel
      → earliest < b
      → (read_windows ask (ranges fuel earliest to)).1 ≡ false
      → logs_at b (read_windows ask (ranges fuel earliest to)).0
        ≡ (if leb b to then logs_at b chain else [])
  read_windows-ranges zero earliest to b fits late whole =
      unfold ranges read_windows in ground arith
  read_windows-ranges (suc fuel) earliest to b fits late whole =
      elim (Bool-cases (ltb earliest to)) [
        | inr over ↦ rw (ranges-over fuel earliest to over) (unfold read_windows in ground arith)
        | inl more ↦
            let f = window_start earliest to in
            let rest = ranges fuel earliest (to - max_log_span) in
            let (whole_rest, split) =
              read_windows-step f to rest b (ground arith) (ground arith)
                (rw (ranges-more fuel earliest to more) at whole) in
            let later =
              read_windows-ranges fuel earliest (to - max_log_span) b (omega arith) late
                whole_rest in
            rw (ranges-more fuel earliest to more)
              (split ∙ rw later (halves (logs_at b chain) earliest to b late))
      ]

  pub read_windows_complete :
      (head windows b : ℕ)
      → earliest_block head windows < b
      → b ≤ head
      → (read_windows ask (ranges windows (earliest_block head windows) head)).1 ≡ false
      → logs_at b (read_windows ask (ranges windows (earliest_block head windows) head)).0
        ≡ logs_at b chain
  read_windows_complete head windows b late known whole =
      read_windows-ranges windows (earliest_block head windows) head b (ground arith) late whole
      ∙ ground arith

-- What `get_executions` gives.
get_executions-ok :
    (node : Logs) (address account : Text) (windows : ℕ) (h : ExecutionHistory)
    → get_executions node (some address) account windows ≡ ok h
    → (head : ℕ) × (h
        ≡ history_of head windows (
            read_windows
              (node.get_logs address account)
              (ranges windows (earliest_block head windows) head)))
unfolding get_executions
get_executions-ok node address account windows h done =
    let (head, known, rest) = bind-ok node.get_block_number _ h done in (head, cc)

-- Where the node answers each span of at most 30 blocks, if it answers it, with the events of the
-- chain there, and the history is not marked partial, the executions of each block behind the first
-- and up to the last that the history names are exactly the events of the chain in that block, in
-- their order.
pub get_executions_complete :
    (node : Logs) (address account : Text) (windows b : ℕ) (chain : List Log) (h : ExecutionHistory)
    → Answers chain (node.get_logs address account)
    → get_executions node (some address) account windows ≡ ok h
    → h.partial ≡ false
    → h.from_block < b
    → b ≤ h.to_block
    → at_block b h.executions ≡ map to_execution (logs_at b chain)
get_executions_complete node address account windows b chain h honest done whole late known =
    let (head, is) = get_executions-ok node address account windows h done in
    let read =
      read_windows (node.get_logs address account)
        (ranges windows (earliest_block head windows) head) in
    let found : at_block b (history_of head windows read).executions
        ≡ map to_execution (logs_at b chain) =
      at_block-sort b (map to_execution read.0)
      ∙ at_block-map b read.0
      ∙ ap (map to_execution) (
          read_windows_complete chain (node.get_logs address account) honest head windows b
            (subst (λ x. x.from_block < b) is late) (subst (λ x. b ≤ x.to_block) is known)
            (subst (λ x. x.partial ≡ false) is whole)) in
    subst (λ x. at_block b x.executions ≡ map to_execution (logs_at b chain)) (sym is) found

pub get_executions-Descending :
    (node : Logs) (executor : Option Text) (account : Text) (windows : ℕ) (h : ExecutionHistory)
    → get_executions node executor account windows ≡ ok h
    → Descending h.executions
unfolding get_executions
get_executions-Descending node none account windows h done =
    let (head, known, rest) = bind-ok node.get_block_number _ h done in
    let is : history_of head windows ([], false) ≡ h = cc in
    subst (λ x. Descending x.executions) is (sort_by_block-Descending [])
get_executions-Descending node (some address) account windows h done =
    let (head, is) = get_executions-ok node address account windows h done in
    let read =
      read_windows (node.get_logs address account)
        (ranges windows (earliest_block head windows) head) in
    subst (λ x. Descending x.executions) (sym is)
      (sort_by_block-Descending (map to_execution read.0))
