-- ===== src/Kernel/Dispatch/Elsewhere.antt =====
-- What a dispatch of one time does to the events of another: they keep waiting.

use mathlib.Core.List.{append_assoc, append-nil}
use ns3_bellhop_platform.Prelude.{
  ◌≡◌, refl, sym, ap, ◌∙◌, inl, inr, Bool-cases, true, false, arith, ℕ, subst, some, Option, List,
  [], ◌∷◌, ◌++◌, All, All-map, Pairwise,
}
use ns3_bellhop_platform.Prelude.Int.{◌<ℤ◌}
use ns3_bellhop_platform.Contracts.Time.{SimTime, time_lt, time_eq}
use ns3_bellhop_platform.Kernel.Gateway.{Ns3, platform_now}
use ns3_bellhop_platform.Kernel.Dispatcher.{
  EventPhase, EventRecord, TimeBucket, EventDispatcher, schedule_at, place,
}
use ns3_bellhop_platform.Kernel.Dispatcher.Buckets.{Before}
use ns3_bellhop_platform.Kernel.Dispatcher.Schedule.{IsQueue}
use ns3_bellhop_platform.Kernel.Dispatch.{
  EventCallback, Outcome, dispatch_time, finish, work, ask_now, schedule, take_from, take_next,
  drop_bucket, started, call,
}
use ns3_bellhop_platform.Kernel.Dispatch.Pending.{pending, pending-place_self, pending-place_ne}
use ns3_bellhop_platform.Kernel.Dispatch.Take.{Fits, Fits-map, Fits-mono, Fits-some}
use ns3_bellhop_platform.Kernel.Dispatch.Effects.{IsActive, after-Round, after, settle_same}
use ns3_bellhop_platform.Kernel.Dispatch.Loop.{Runs, failed, done, next}
use ns3_bellhop_platform.Kernel.Dispatch.Rounds.{
  dispatch_time-Runs, entered-IsActive, entered-IsQueue,
}
use ns3_bellhop_platform.Kernel.Dispatch.Calls.{schedule_at_effect, ≡_of_time_eq}

module _ {C : Type 0} (u : SimTime) where
  -- What waits for the time still waits, before what was added.
  pub record Grows (bs bs' : List (TimeBucket C)) : Type 0 where
    pub added : List (EventRecord C)
    pub grown : pending u bs' ≡ pending u bs ++ added

  pub Grows-same : (bs bs' : List (TimeBucket C)) → pending u bs' ≡ pending u bs → Grows bs bs'
  Grows-same bs bs' h = record { added = []; grown = h ∙ sym (append-nil (pending u bs)) }

  pub Grows-trans : (bs cs ds : List (TimeBucket C)) → Grows bs cs → Grows cs ds → Grows bs ds
  Grows-trans bs cs ds h k = record {
    added = h.added ++ k.added;
    grown = k.grown ∙ ap (λ x. x ++ k.added) h.grown ∙ append_assoc (pending u bs) h.added k.added;
  }

  place-Grows :
      (v : SimTime) (r : EventRecord C) (bs : List (TimeBucket C)) → Grows bs (place v r bs)
  place-Grows v r bs = elim (Bool-cases (time_eq v u)) [
    | inl e ↦ record {
      added = r ∷ [];
      grown = rw (← ≡_of_time_eq v u e) (pending-place_self v r bs);
    }
    | inr e ↦ Grows-same bs (place v r bs) (pending-place_ne v u r bs e)
  ]

  pending-cons :
      (b : TimeBucket C) (bs cs : List (TimeBucket C))
      → pending u bs ≡ pending u cs
      → pending u (b ∷ bs) ≡ pending u (b ∷ cs)
  unfolding pending
  pending-cons b bs cs h = rw h refl

  pending-none :
      (bs : List (TimeBucket C))
      → All (λ b. u.nanoseconds <ℤ b.time.nanoseconds) bs
      → pending u bs ≡ []
  unfolding pending
  pending-none [] h = refl
  pending-none (b ∷ bs) h =
      let e : time_lt b.time u ≡ false = ground arith in
      let f : time_eq b.time u ≡ false = ground arith in rw (e, f) refl

  -- Nothing waits in a bucket of another time that is before the others.
  pending-passed :
      (b : TimeBucket C) (bs : List (TimeBucket C))
      → time_eq b.time u ≡ false
      → All (Before b) bs
      → pending u (b ∷ bs) ≡ pending u bs
  unfolding pending
  pending-passed b bs n h = elim (Bool-cases (time_lt b.time u)) [
    | inl e ↦ rw e refl
    | inr e ↦ rw (e, n) (sym (pending-none bs (All-map bs (λ c k. ground arith) h)))
  ]

  -- Taking a record of another time.
  module _ (t : SimTime) (n : time_eq t u ≡ false) where
    take_from-elsewhere :
        (b : TimeBucket C) (bs : List (TimeBucket C)) (rs : List (EventRecord C))
        → time_eq b.time t ≡ true
        → Fits (λ r rest. pending u rest ≡ pending u (b ∷ bs)) (take_from b bs rs)
    unfolding take_from pending
    take_from-elsewhere b bs [] e = tt
    take_from-elsewhere b bs (r ∷ rs) e =
        let other : time_eq b.time u ≡ false = ground arith in rw other refl

    pub take_next-elsewhere :
        (bs : List (TimeBucket C)) → Fits (λ r rest. pending u rest ≡ pending u bs) (take_next t bs)
    unfolding take_next pending
    take_next-elsewhere [] = tt
    take_next-elsewhere (b ∷ bs) = elim (Bool-cases (time_lt b.time t)) [
      | inl e ↦
          rw (e, take_next)
            (Fits-map (λ r rest. pending u rest ≡ pending u (b ∷ bs)) b (take_next t bs)
              (Fits-mono (λ r rest. pending u rest ≡ pending u bs)
                (λ r rest. pending u (b ∷ rest) ≡ pending u (b ∷ bs))
                (λ r rest h. pending-cons b rest bs h) (take_next t bs) (take_next-elsewhere bs)))
      | inr e ↦ elim (Bool-cases (time_eq b.time t)) [
        | inl f ↦ rw (e, f, take_next) (take_from-elsewhere b bs b.records f)
        | inr f ↦ rw (e, f, take_next) tt
      ]
    ]

    pub drop_bucket-elsewhere :
        (bs : List (TimeBucket C))
        → Pairwise Before bs
        → pending u (drop_bucket t bs) ≡ pending u bs
    unfolding drop_bucket pending
    drop_bucket-elsewhere [] h = refl
    drop_bucket-elsewhere (b ∷ bs) h = elim (Bool-cases (time_lt b.time t)) [
      | inl e ↦ rw e (pending-cons b (drop_bucket t bs) bs (drop_bucket-elsewhere bs h.1))
      | inr e ↦ elim (Bool-cases (time_eq b.time t)) [
        | inl f ↦ rw (e, f) (sym (pending-passed b bs (ground arith) h.0))
        | inr f ↦ rw (e, f) refl
      ]
    ]

module _ {T S C : Type 0} (ns3 : Ns3 T S SimTime) (u : SimTime) where
  schedule_at-Grows :
      (d : EventDispatcher S C) (v : SimTime) (phase : EventPhase) (callback : Option C)
      → Grows u d.buckets (schedule_at ns3 d v phase callback).0.buckets
  schedule_at-Grows d v phase callback = elim (schedule_at_effect ns3 d v phase callback).1 [
    | inl e ↦ Grows-same u _ _ (ap (pending u) e)
    | inr (r, _, _, _, e) ↦ rw e (place-Grows u v r d.buckets)
  ]

module _ {T S C A : Type 0} (ns3 : Ns3 T S SimTime) (u : SimTime) where
  -- A callback takes nothing out of the queue.
  pub call-Grows :
      (c : EventCallback C A) (d : EventDispatcher S C) (a : A)
      → Grows u d.buckets (call ns3 c d a).0.buckets
  unfolding call
  call-Grows (finish status) d a = Grows-same u d.buckets d.buckets refl
  call-Grows (work f rest) d a = call-Grows (rest a) d (f a)
  call-Grows (ask_now rest) d a = call-Grows (rest (platform_now ns3 d.simulator)) d a
  call-Grows (schedule v phase callback rest) d a =
      Grows-trans u d.buckets (schedule_at ns3 d v phase callback).0.buckets _
        (schedule_at-Grows ns3 u d v phase callback)
        (call-Grows (rest (schedule_at ns3 d v phase callback).1)
          (schedule_at ns3 d v phase callback).0 a)

module _ {T S C A : Type 0} (ns3 : Ns3 T S SimTime) (body : C → EventCallback C A) (stop : S → S)
    (t u : SimTime) (n : time_eq t u ≡ false) where
  after-Grows :
      (r : EventRecord C) (rest : List (TimeBucket C)) (d : EventDispatcher S C) (a : A)
      → take_next t d.buckets ≡ some (r, rest)
      → Grows u d.buckets (after ns3 t body stop r rest d a).0.buckets
  after-Grows r rest d a e =
      let kept =
        Fits-some (λ r rest. pending u rest ≡ pending u d.buckets) (take_next t d.buckets) r rest e
          (take_next-elsewhere u t n d.buckets) in
      let called = call-Grows ns3 u (body r.callback) (started t r rest d) a in
      let (same, _, _, _) =
        settle_same stop (call ns3 (body r.callback) (started t r rest d) a).2
          (call ns3 (body r.callback) (started t r rest d) a).0 in
      Grows-trans u d.buckets rest _ (Grows-same u d.buckets rest kept)
        (subst (Grows u rest) (sym same) called)

  Runs-Grows :
      {d : EventDispatcher S C} {a : A} {o : Outcome S C A}
      → Runs ns3 body stop t d a o
      → IsActive t d
      → IsQueue d
      → Grows u d.buckets o.dispatcher.buckets
  Runs-Grows (failed d a e h) active q = Grows-same u d.buckets d.buckets refl
  Runs-Grows (done d a h k) active q =
      Grows-same u d.buckets _ (drop_bucket-elsewhere u t n d.buckets q.ascending)
  Runs-Grows (next d a r rest o h k run) active q =
      let round = after-Round ns3 t body stop r rest d a k active in
      Grows-trans u d.buckets (after ns3 t body stop r rest d a).0.buckets _
        (after-Grows r rest d a k) (Runs-Grows run round.active (round.queue q))

  -- What waits for another time still waits after a dispatch.
  pub dispatch_time-Grows :
      (fuel : ℕ) (d : EventDispatcher S C) (a : A) (o : Outcome S C A)
      → IsQueue d
      → dispatch_time ns3 body stop fuel t d a ≡ some o
      → Grows u d.buckets o.dispatcher.buckets
  dispatch_time-Grows fuel d a o q h =
      let (o', run, same) = dispatch_time-Runs ns3 body stop t fuel d a o h in
      subst (λ x. Grows u d.buckets x.dispatcher.buckets) same
        (Runs-Grows run (entered-IsActive ns3 body stop t d) (entered-IsQueue t d q))
