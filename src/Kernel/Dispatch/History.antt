-- ===== src/Kernel/Dispatch/History.antt =====
-- A dispatcher from its creation on: events are scheduled and it runs, in any order.
use mathlib.Core.Option
use ns3_bellhop_platform.Prelude.{
  ℕ, ◌^◌, ◌<◌, ◌≡◌, refl, sym, ap, subst, ◌∙◌, inl, inr, Bool, Bool-cases, false, arith, Option,
  Option-cases, none, some, List, [], ◌∷◌,
}
use ns3_bellhop_platform.Contracts.Errors.{Error, Status}
use ns3_bellhop_platform.Contracts.Time.{SimTime}
use ns3_bellhop_platform.Kernel.Gateway.{Ns3}
use ns3_bellhop_platform.Kernel.Dispatcher.{
  EventPhase, session_finalize, signal_arrival, tx_start, cycle_close, EventDispatcher, schedule_at,
}
use ns3_bellhop_platform.Kernel.Dispatcher.Schedule.{IsQueue, schedule_at-IsQueue}
use ns3_bellhop_platform.Kernel.Dispatcher.Events.{
  create, Event, tx_start_event, signal_arrival_event, session_finalize_event, cycle_close_event,
}
use ns3_bellhop_platform.Kernel.Dispatcher.Events
use ns3_bellhop_platform.Kernel.Dispatch.{
  EventCallback, Outcome, dispatch_time, and_first, run_calls, error_status, run,
}
use ns3_bellhop_platform.Kernel.Dispatch.Rounds.{dispatch_time-IsQueue, dispatch_time-Runs}
use ns3_bellhop_platform.Kernel.Dispatch.Calls.{schedule_at_effect}
use ns3_bellhop_platform.Kernel.Dispatch.Whole.{run_calls_next, run_calls-stopped}

module _ {S C : Type 0} where
  -- Well formed, and not dispatching.
  pub record IsIdle (d : EventDispatcher S C) : Type 0 where
    pub queue : IsQueue d
    pub not_dispatching : d.dispatching ≡ false
    pub no_time : d.dispatch_time ≡ none
    pub no_phase : d.current_phase ≡ none

  with_error :
      (d : EventDispatcher S C) (e : Option Error) (s : S)
      → IsIdle d
      → IsIdle (record d { execution_error = e; simulator = s })
  with_error d e s h = record {
    queue = record {
      number_fits = h.queue.number_fits;
      ascending = h.queue.ascending;
      each = h.queue.each;
    };
    not_dispatching = h.not_dispatching;
    no_time = h.no_time;
    no_phase = h.no_phase;
  }

module _ {T S C A : Type 0} (ns3 : Ns3 T S SimTime) (body : C → EventCallback C A) (stop : S → S)
    (stopped : S → Bool) where
  -- The dispatchers, with the shared state, that calls from outside lead to.
  pub data Reached : EventDispatcher S C → A → Type 0 where
    created :
        (simulator : S) (first_sequence : ℕ) (a : A)
        → first_sequence < 2 ^ 64
        → Reached (create simulator first_sequence) a
    scheduled :
        (d : EventDispatcher S C) (a : A) (event : Event C)
        → Reached d a
        → Reached (Events.schedule ns3 d event).0 a
    has_run :
        (d : EventDispatcher S C) (a : A) (fuel : ℕ) (calls : List (SimTime × (S → S)))
        (o : Outcome S C A) (status : Status)
        → run ns3 body stop stopped fuel calls d a ≡ some (o, status)
        → Reached d a
        → Reached o.dispatcher o.shared

  dispatch_time-IsIdle :
      (fuel : ℕ) (t : SimTime) (d : EventDispatcher S C) (a : A) (o : Outcome S C A)
      → IsIdle d
      → dispatch_time ns3 body stop fuel t d a ≡ some o
      → IsIdle o.dispatcher
  dispatch_time-IsIdle fuel t d a o h e =
      let (o', _, same) = dispatch_time-Runs ns3 body stop t fuel d a o e in
      record {
        queue = dispatch_time-IsQueue ns3 body stop t fuel d a o h.queue e;
        not_dispatching = ap (λ x. x.dispatcher.dispatching) (sym same);
        no_time = ap (λ x. x.dispatcher.dispatch_time) (sym same);
        no_phase = ap (λ x. x.dispatcher.current_phase) (sym same);
      }

  run_calls-IsIdle :
      (fuel : ℕ) (calls : List (SimTime × (S → S))) (d : EventDispatcher S C) (a : A)
      (o : Outcome S C A)
      → IsIdle d
      → run_calls ns3 body stop stopped fuel calls d a ≡ some o
      → IsIdle o.dispatcher
  unfolding run_calls
  run_calls-IsIdle fuel [] d a o h e = subst (λ x. IsIdle x.dispatcher) (Option.some_inj.0 e) h
  run_calls-IsIdle fuel ((t, advance) ∷ calls) d a o h e = elim (Bool-cases (stopped d.simulator)) [
    | inl f ↦
        subst (λ x. IsIdle x.dispatcher)
          (Option.some_inj.0
            (sym (run_calls-stopped ns3 body stop stopped fuel ((t, advance) ∷ calls) d a f) ∙ e))
          h
    | inr f ↦
        let d' = record d { simulator = advance d.simulator } in
        elim (Option-cases (dispatch_time ns3 body stop fuel t d' a)) [
          | inl g ↦ absurd (ground arith)
          | inr (o₁, g) ↦
              let (o₂, k, same) =
                (Option.map-eq-some_iff (and_first o₁) _).0 (
                  sym (run_calls_next ns3 body stop stopped fuel t advance calls d a o₁ f g) ∙ e) in
              let idle =
                dispatch_time-IsIdle fuel t d' a o₁
                  (with_error d d.execution_error (advance d.simulator) h) g in
              subst (λ x. IsIdle x.dispatcher) same
                (run_calls-IsIdle fuel calls o₁.dispatcher o₁.shared o₂ idle k)
        ]
  ]

  schedule_at-IsIdle :
      (d : EventDispatcher S C) (t : SimTime) (phase : EventPhase) (callback : Option C)
      → IsIdle d
      → IsIdle (schedule_at ns3 d t phase callback).0
  schedule_at-IsIdle d t phase callback h =
      let same = (schedule_at_effect ns3 d t phase callback).0 in
      record {
        queue = schedule_at-IsQueue ns3 d t phase callback h.queue;
        not_dispatching = same.dispatching ∙ h.not_dispatching;
        no_time = same.dispatch_time ∙ h.no_time;
        no_phase = same.current_phase ∙ h.no_phase;
      }

  schedule-IsIdle :
      (d : EventDispatcher S C) (event : Event C)
      → IsIdle d
      → IsIdle (Events.schedule ns3 d event).0
  schedule-IsIdle d (tx_start_event t callback) = schedule_at-IsIdle d t tx_start callback
  schedule-IsIdle d (signal_arrival_event t callback) =
      schedule_at-IsIdle d t signal_arrival callback
  schedule-IsIdle d (session_finalize_event t callback) =
      schedule_at-IsIdle d t session_finalize callback
  schedule-IsIdle d (cycle_close_event t callback) = schedule_at-IsIdle d t cycle_close callback

  -- A dispatcher made with a 64-bit first sequence number, whatever is scheduled and however often it
  -- runs, is not dispatching, has its buckets in strictly ascending order of their times, and in each
  -- bucket the records of its time in the order of their sequence numbers, all of them given out.
  pub Reached-IsIdle : {d : EventDispatcher S C} {a : A} → Reached d a → IsIdle d
  unfolding run
  Reached-IsIdle (created simulator first a h) = record {
    queue = record { number_fits = omega arith; ascending = tt; each = tt };
    not_dispatching = refl;
    no_time = refl;
    no_phase = refl;
  }
  Reached-IsIdle (scheduled d a event h) = schedule-IsIdle d event (Reached-IsIdle h)
  Reached-IsIdle (has_run d a fuel calls o status e h) =
      let (o', k, same) =
        (Option.map-eq-some_iff
            (λ (o : Outcome S C A). (o, error_status o.dispatcher.execution_error)) _).0
          e in
      let before = with_error d none (ns3.begin_run d.simulator) (Reached-IsIdle h) in
      subst (λ x. IsIdle x.0.dispatcher) same
        (run_calls-IsIdle fuel calls
          (record d { execution_error = none; simulator = ns3.begin_run d.simulator }) a o' before
          k)
