-- ===== src/Limits/Slide.antt =====
-- The replay of a window at once against the slide from one window to the next.
use native.Mathlib.Nat.{lt-div-mul-add, div-mul-le_self, suc-mul, div-le_self}
use giroledger.Base.{
  ℕ, zero, suc, ◌+◌, ◌-◌, ◌*◌, ◌/◌, ◌≤◌, ◌<◌, ◌≡◌, refl, ap, ◌∙◌, true, arith, leb, if◌then◌else◌,
  Bool-cases, inl, inr, le→leb, leb→gt, lt→ltb, leb→le,
}
use giroledger.Limits.{window_state, drained}

-- As long as a window has passed, it starts anew and a limit's worth drains.
unfoldable pub slide : (fuel now limit size start used : ℕ) → ℕ × ℕ
slide zero now limit size start used = (start, used)
slide (suc fuel) now limit size start used =
    let rest = slide fuel now limit size (start + size) (used - limit) in
    if leb (start + size) now then rest else (start, used)

slide-elapsed :
    (e fuel now limit size start used : ℕ)
    → e ≤ fuel
    → start + e * size ≤ now
    → now < start + e * size + size
    → slide fuel now limit size start used ≡ (start + e * size, used - e * limit)
unfolding slide
slide-elapsed zero zero now limit size start used h low high = ground arith
slide-elapsed zero (suc fuel) now limit size start used h low high = ground arith
slide-elapsed (suc e) zero now limit size start used h low high = absurd (omega arith)
slide-elapsed (suc e) (suc fuel) now limit size start used h low high =
    let sizes : suc e * size ≡ e * size + size = suc-mul e size in
    let limits : suc e * limit ≡ e * limit + limit = suc-mul e limit in
    let passes : leb (start + size) now ≡ true =
      le→leb (start + size) now (omega (arith, sizes, low)) in
    let rest =
      slide-elapsed e fuel now limit size (start + size) (used - limit) (omega arith)
        (omega (arith, sizes)) (omega (arith, sizes)) in
    let starts : start + size + e * size ≡ start + suc e * size = omega (arith, sizes) in
    let drains : used - limit - e * limit ≡ used - suc e * limit = omega (arith, limits) in
    rw passes (
      rest
      ∙ ap (λ a. (a, used - limit - e * limit)) starts
      ∙ ap (λ b. (start + suc e * size, b)) drains)

slide-fresh :
    (fuel now limit size start used : ℕ)
    → now < start + size
    → slide fuel now limit size start used ≡ (start, used)
unfolding slide
slide-fresh zero now limit size start used early = refl
slide-fresh (suc fuel) now limit size start used early = ground arith

drained-monus : (used gone : ℕ) → drained used gone ≡ used - gone
unfolding drained
drained-monus used gone = ground arith

-- For a window that has begun and has a positive size, the replay has the start and the usage that
-- come of passing from one window to the next as long as one has passed, if the steps allowed are
-- at least as many as the seconds of the clock.
pub window_state-slide :
    (fuel now start used limit size : ℕ)
    → 0 < start
    → 0 < size
    → now ≤ fuel
    → slide fuel now limit size start used ≡ (
      (window_state now start used limit size).start,
      (window_state now start used limit size).used,
    )
unfolding window_state
window_state-slide fuel now start used limit size begun sized enough =
    elim (Bool-cases (leb (start + size) now)) [
      | inr fresh ↦
          rw (lt→ltb 0 start begun, fresh)
            (slide-fresh fuel now limit size start used (leb→gt (start + size) now fresh))
      | inl passed ↦
          let late = leb→le (start + size) now passed in
          let e : ℕ = (now - start) / size in
          let low : e * size ≤ now - start = div-mul-le_self (now - start) size in
          let high : now - start < e * size + size = lt-div-mul-add sized in
          let few : e ≤ now - start = div-le_self (now - start) size in
          rw (lt→ltb 0 start begun, passed, drained-monus used (e * limit))
            (slide-elapsed e fuel now limit size start used (omega arith) (omega arith)
              (omega arith))
    ]
