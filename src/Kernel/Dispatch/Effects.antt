-- ===== src/Kernel/Dispatch/Effects.antt =====
-- What a whole callback does to the dispatcher, and what one round of `DispatchTime` does.
use ns3_bellhop_platform.Prelude.{
  ◌<◌, ◌≡◌, refl, sym, ap, ◌∙◌, true, Option, some, List, ◌∷◌, ◌++◌, All, All-append, Pairwise,
}
use mathlib.Core.List.{append_assoc}
use ns3_bellhop_platform.Contracts.Errors.{ok, err, Status}
use ns3_bellhop_platform.Contracts.Time.{SimTime}
use ns3_bellhop_platform.Kernel.Gateway.{Ns3, platform_now}
use ns3_bellhop_platform.Kernel.Dispatcher.{
  EventPhase, phase_value, EventRecord, TimeBucket, EventDispatcher, schedule_at,
}
use ns3_bellhop_platform.Kernel.Dispatcher.Buckets.{IsBucket}
use ns3_bellhop_platform.Kernel.Dispatcher.Schedule.{IsQueue, schedule_at-IsQueue, used}
use ns3_bellhop_platform.Kernel.Dispatch.{
  EventCallback, finish, work, ask_now, schedule, call, least, take_next, started, settle,
}
use ns3_bellhop_platform.Kernel.Dispatch.Pending.{pending}
use ns3_bellhop_platform.Kernel.Dispatch.Take.{
  Fits-some, IsTaken, take_next-IsTaken, take_next-IsBucket, take_next-ascending,
}
use ns3_bellhop_platform.Kernel.Dispatch.Calls.{
  Extends, SameDispatch, same_trans, same_refl, nothing_added, IsDispatching, schedule_at_effect,
  schedule_at-Extends,
}

Extends-trans :
    {C : Type 0} (t : SimTime) (p : EventPhase) (xs bs cs : List (TimeBucket C))
    → Extends t p xs bs
    → Extends t p bs cs
    → Extends t p xs cs
Extends-trans t p xs bs cs h k = record {
  added = h.added ++ k.added;
  extended =
      k.extended ∙ ap (λ x. x ++ k.added) h.extended ∙ append_assoc (pending t xs) h.added k.added;
  later = All-append (λ r. phase_value p < phase_value r.key.phase) h.added k.added h.later k.later;
}

module _ {S C : Type 0} (t : SimTime) where
  -- What a callback keeps and adds.
  pub record Effect (p : EventPhase) (d d' : EventDispatcher S C) : Type 0 where
    pub same : SameDispatch d d'
    pub extends : Extends t p d.buckets d'.buckets
    pub queue : IsQueue d → IsQueue d'

  -- `DispatchTime` is in its loop.
  pub record IsActive (d : EventDispatcher S C) : Type 0 where
    pub dispatching : d.dispatching ≡ true
    pub at_time : d.dispatch_time ≡ some t

  -- What one round does: it takes the least record and adds later ones.
  pub record Round (r : EventRecord C) (d d' : EventDispatcher S C) : Type 0 where
    pub first : EventRecord C
    pub others : List (EventRecord C)
    pub waited : pending t d.buckets ≡ first ∷ others
    pub taken : (least first others).0 ≡ r
    pub added : List (EventRecord C)
    pub left_over : pending t d'.buckets ≡ (least first others).1 ++ added
    pub later : All (λ s. phase_value r.key.phase < phase_value s.key.phase) added
    pub active : IsActive d'
    pub queue : IsQueue d → IsQueue d'

module _ {T S C : Type 0} (ns3 : Ns3 T S SimTime) (t : SimTime) where
  still-IsDispatching :
      (p : EventPhase) (d d' : EventDispatcher S C)
      → SameDispatch d d'
      → IsDispatching t p d
      → IsDispatching t p d'
  still-IsDispatching p d d' s h = record {
    dispatching = s.dispatching ∙ h.dispatching;
    at_time = s.dispatch_time ∙ h.at_time;
    in_phase = s.current_phase ∙ h.in_phase;
  }

  schedule_at-Effect :
      (p : EventPhase) (d : EventDispatcher S C) (u : SimTime) (phase : EventPhase)
      (callback : Option C)
      → IsDispatching t p d
      → Effect t p d (schedule_at ns3 d u phase callback).0
  schedule_at-Effect p d u phase callback h = record {
    same = (schedule_at_effect ns3 d u phase callback).0;
    extends = schedule_at-Extends ns3 t p d u phase callback h;
    queue = schedule_at-IsQueue ns3 d u phase callback;
  }

  Effect-trans :
      (p : EventPhase) (d e f : EventDispatcher S C)
      → Effect t p d e
      → Effect t p e f
      → Effect t p d f
  Effect-trans p d e f h k = record {
    same = same_trans d e f h.same k.same;
    extends = Extends-trans t p d.buckets e.buckets f.buckets h.extends k.extends;
    queue = λ q. k.queue (h.queue q);
  }

module _ {S C : Type 0} where
  pub settle_same :
      (stop : S → S) (status : Status) (d : EventDispatcher S C)
      → ((settle stop status d).buckets ≡ d.buckets)
        × ((settle stop status d).dispatching ≡ d.dispatching)
        × ((settle stop status d).dispatch_time ≡ d.dispatch_time)
        × (IsQueue d → IsQueue (settle stop status d))
  settle_same stop (ok u) d = (refl, refl, refl, λ q. q)
  settle_same stop (err e) d = (
    refl,
    refl,
    refl,
    λ q. record { number_fits = q.number_fits; ascending = q.ascending; each = q.each },
  )

  started-IsQueue :
      (t : SimTime) (r : EventRecord C) (rest : List (TimeBucket C)) (d : EventDispatcher S C)
      → take_next t d.buckets ≡ some (r, rest)
      → IsQueue d
      → IsQueue (started t r rest d)
  started-IsQueue t r rest d e q = record {
    number_fits = q.number_fits;
    ascending =
        Fits-some (λ r rest. Pairwise _ rest) (take_next t d.buckets) r rest e
          (take_next-ascending t d.buckets q.ascending);
    each =
        Fits-some (λ r rest. All (IsBucket (used d)) rest) (take_next t d.buckets) r rest e
          (take_next-IsBucket (used d) t d.buckets q.each);
  }

module _ {T S C A : Type 0} (ns3 : Ns3 T S SimTime) (t : SimTime) where
  pub call-Effect :
      (p : EventPhase) (c : EventCallback C A) (d : EventDispatcher S C) (a : A)
      → IsDispatching t p d
      → Effect t p d (call ns3 c d a).0
  unfolding call
  call-Effect p (finish status) d a h = record {
    same = same_refl d;
    extends = nothing_added t p d.buckets;
    queue = λ q. q;
  }
  call-Effect p (work f rest) d a h = call-Effect p (rest a) d (f a) h
  call-Effect p (ask_now rest) d a h = call-Effect p (rest (platform_now ns3 d.simulator)) d a h
  call-Effect p (schedule u phase callback rest) d a h =
      let first = schedule_at-Effect ns3 t p d u phase callback h in
      Effect-trans ns3 t p d (schedule_at ns3 d u phase callback).0 _ first (
        call-Effect p (rest (schedule_at ns3 d u phase callback).1)
          (schedule_at ns3 d u phase callback).0 a (still-IsDispatching ns3 t p d _ first.same h))

  module _ (body : C → EventCallback C A) where
    -- What the callback of a round returns.
    abbrev pub returned_by : EventRecord C → List (TimeBucket C) → EventDispatcher S C → A → Status
    returned_by r rest d a = (call ns3 (body r.callback) (started t r rest d) a).2

    module _ (stop : S → S) where
      -- The dispatcher and the shared state after a round.
      abbrev pub after :
          EventRecord C → List (TimeBucket C) → EventDispatcher S C → A → EventDispatcher S C × A
      after r rest d a =
          let (d', a', status) = call ns3 (body r.callback) (started t r rest d) a in
          (settle stop status d', a')

      pub after-Round :
          (r : EventRecord C) (rest : List (TimeBucket C)) (d : EventDispatcher S C) (a : A)
          → take_next t d.buckets ≡ some (r, rest)
          → IsActive t d
          → Round t r d (after r rest d a).0
      after-Round r rest d a e h =
          let (p, ps, was, this, others) =
            Fits-some (IsTaken t d.buckets) (take_next t d.buckets) r rest e
              (take_next-IsTaken t d.buckets) in
          let effect =
            call-Effect r.key.phase (body r.callback) (started t r rest d) a
              (record { dispatching = h.dispatching; at_time = h.at_time; in_phase = refl }) in
          let d' = (call ns3 (body r.callback) (started t r rest d) a).0 in
          let (bs, busy, at, kept) =
            settle_same stop (call ns3 (body r.callback) (started t r rest d) a).2 d' in
          record {
            first = p;
            others = ps;
            waited = was;
            taken = this;
            added = effect.extends.added;
            left_over =
                ap (pending t) bs
                ∙ effect.extends.extended
                ∙ ap (λ x. x ++ effect.extends.added) (sym others);
            later = effect.extends.later;
            active = record {
              dispatching = busy ∙ effect.same.dispatching ∙ h.dispatching;
              at_time = at ∙ effect.same.dispatch_time ∙ h.at_time;
            };
            queue = λ q. kept (effect.queue (started-IsQueue t r rest d e q));
          }
