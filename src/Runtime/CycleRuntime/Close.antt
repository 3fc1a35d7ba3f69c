-- ===== src/Runtime/CycleRuntime/Close.antt =====
-- The close of a cycle.
use ns3_bellhop_platform.Prelude.{◌≡◌, ◌≢◌, refl, ◌⊎◌, inl, inr, true, false, arith, All, [], ◌∷◌}
use ns3_bellhop_platform.Prelude.Int.{◌≤ℤ◌, eqb_ℤ_iff}
use ns3_bellhop_platform.Contracts.Errors.{ok, err, Result-cases, reject_if-eq-ok}
use ns3_bellhop_platform.Contracts.Time.{SimTime, time_lt}
use ns3_bellhop_platform.Contracts.Doubles.{Double}
use ns3_bellhop_platform.Contracts.State.{DeltaSet}
use ns3_bellhop_platform.Contracts.ReceivedSignal.{last_effect_end_at}
use ns3_bellhop_platform.Runtime.Commit.{commit_cycle}
use ns3_bellhop_platform.Runtime.Commit.Cycle.{
  IsValid, IsAcceptable, next_store, commit_cycle_iff, commit_cycle_effect,
}
use ns3_bellhop_platform.Runtime.WorkingState.{finalize_delta_set}
use ns3_bellhop_platform.Runtime.Ledger.{
  InFlightSignalLedger, validate_ready_for_cycle_close, outlives_cycle,
}
use ns3_bellhop_platform.Runtime.CycleRuntime.{
  CycleSignalRuntime, closing_delta, handle_cycle_close, already_committed,
}

module _ {W : Type 0} where
  ready-All :
      (ledger : InFlightSignalLedger W) (t : SimTime)
      → validate_ready_for_cycle_close ledger t ≡ ok tt
      → All (λ s. (last_effect_end_at s).nanoseconds ≤ℤ t.nanoseconds) ledger
  unfolding validate_ready_for_cycle_close
  ready-All [] t h = tt
  ready-All (s ∷ ss) t h =
      let (late, h₁) = reject_if-eq-ok (time_lt t (last_effect_end_at s)) outlives_cycle h in
      (ground arith, ready-All ss t h₁)

module _ {W : Type 0} ⦃d : Double W⦄ where
  -- What a successful close was, and what it left.
  pub record IsClosed (s : CycleSignalRuntime W) (t : SimTime) (s' : CycleSignalRuntime W)
      : Type 0 where
    pub delta : DeltaSet W
    pub first : s.committed ≡ false
    pub on_time : t.nanoseconds ≡ s.cycle_close_time.nanoseconds
    pub ended : All (λ x. (last_effect_end_at x).nanoseconds ≤ℤ t.nanoseconds) s.ledger
    pub finalized : finalize_delta_set s.working_state t ≡ ok delta
    pub accepted : IsAcceptable s.store s.expected_version delta
    pub left : s' ≡ record s { store = next_store s.store delta; ledger = []; committed = true }

  closing :
      (s : CycleSignalRuntime W) (t : SimTime) (delta : DeltaSet W)
      → closing_delta s t ≡ ok delta
      → (s.committed ≡ false)
        × (t.nanoseconds ≡ s.cycle_close_time.nanoseconds)
        × (validate_ready_for_cycle_close s.ledger t ≡ ok tt)
        × (finalize_delta_set s.working_state t ≡ ok delta)
  unfolding closing_delta
  closing s t delta h = ground (arith, eqb_ℤ_iff t.nanoseconds s.cycle_close_time.nanoseconds)

  -- Over a valid store `HandleCycleClose` either fails and changes nothing, or it succeeds: the
  -- cycle was not committed yet, the time is that of the policy, every signal in flight has ended,
  -- the finalized delta set is acceptable to the store, and exactly the store, the ledger, which is
  -- now empty, and the committed mark have changed.
  pub handle_cycle_close_atomic :
      (s : CycleSignalRuntime W) (t : SimTime)
      → IsValid s.store
      → ((handle_cycle_close s t).1 ≢ ok tt) × ((handle_cycle_close s t).0 ≡ s)
        ⊎ ((handle_cycle_close s t).1 ≡ ok tt) × IsClosed s t (handle_cycle_close s t).0
  unfolding handle_cycle_close
  handle_cycle_close_atomic s t v = elim (Result-cases (closing_delta s t)) [
    | inr (e, f) ↦
        inl (rw (f, handle_cycle_close) (λ h. ground arith), rw (f, handle_cycle_close) refl)
    | inl (delta, f) ↦
        let (first, on_time, ready, finalized) = closing s t delta f in
        elim (commit_cycle_effect v s.expected_version delta) [
          | inl (done, e) ↦ inr (
            rw (f, handle_cycle_close, done) refl,
            record {
              delta = delta;
              first = first;
              on_time = on_time;
              ended = ready-All s.ledger t ready;
              finalized = finalized;
              accepted = (commit_cycle_iff v s.expected_version delta).0 done;
              left = rw (f, handle_cycle_close, done, e) refl;
            },
          )
          | inr (failed, e) ↦
              elim (Result-cases (commit_cycle s.store s.expected_version delta).1) [
                | inl (u, done) ↦ absurd (failed done)
                | inr (r, refused) ↦ inl (
                  rw (f, handle_cycle_close, refused) (λ h. ground arith),
                  rw (f, handle_cycle_close, refused, e) refl,
                )
              ]
        ]
  ]

  closing_again :
      (s : CycleSignalRuntime W) (u : SimTime)
      → s.committed ≡ true
      → closing_delta s u ≡ err already_committed
  unfolding closing_delta
  closing_again s u e = ground arith

  closed_refuses :
      (s : CycleSignalRuntime W) (u : SimTime)
      → s.committed ≡ true
      → handle_cycle_close s u ≡ (s, err already_committed)
  unfolding handle_cycle_close
  closed_refuses s u e = rw (closing_again s u e, handle_cycle_close) refl

  -- Once a close has succeeded every later close is refused and changes nothing.
  pub handle_cycle_close_twice :
      (s : CycleSignalRuntime W) (t u : SimTime)
      → IsValid s.store
      → (handle_cycle_close s t).1 ≡ ok tt
      → handle_cycle_close (handle_cycle_close s t).0 u
        ≡ ((handle_cycle_close s t).0, err already_committed)
  handle_cycle_close_twice s t u v h = elim (handle_cycle_close_atomic s t v) [
    | inl (failed, _) ↦ absurd (failed h)
    | inr (_, c) ↦ closed_refuses (handle_cycle_close s t).0 u (rw c.left refl)
  ]
