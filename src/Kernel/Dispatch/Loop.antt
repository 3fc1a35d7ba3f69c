-- ===== src/Kernel/Dispatch/Loop.antt =====
-- The loop of `DispatchTime` round by round: its equations, and the runs that end as a relation.
use mathlib.Core.Option
use ns3_bellhop_platform.Prelude.{
  ℕ, zero, suc, ◌≡◌, arith, sym, ◌∙◌, inl, inr, subst, Option-cases, none, some, List, [],
}
use ns3_bellhop_platform.Contracts.Errors.{Error}
use ns3_bellhop_platform.Contracts.Time.{SimTime}
use ns3_bellhop_platform.Kernel.Gateway.{Ns3}
use ns3_bellhop_platform.Kernel.Dispatcher.{EventRecord, TimeBucket, EventDispatcher}
use ns3_bellhop_platform.Kernel.Dispatch.{
  EventCallback, take_next, drop_bucket, Outcome, and_before, dispatch_loop,
}
use ns3_bellhop_platform.Kernel.Dispatch.Effects.{after, returned_by}

module _ {S C A : Type 0} where
  abbrev pub nothing_more : EventDispatcher S C → A → Outcome S C A
  nothing_more d a = record { dispatcher = d; shared = a; dispatched = []; returned = [] }

module _ {S C : Type 0} where
  abbrev pub emptied : SimTime → EventDispatcher S C → EventDispatcher S C
  emptied t d = record d { buckets = drop_bucket t d.buckets }

module _ {T S C A : Type 0} (ns3 : Ns3 T S SimTime) (body : C → EventCallback C A) (stop : S → S)
    (t : SimTime) where
  pub loop_failed :
      (fuel : ℕ) (d : EventDispatcher S C) (a : A) (e : Error)
      → d.execution_error ≡ some e
      → dispatch_loop ns3 body stop (suc fuel) t d a ≡ some (nothing_more d a)
  unfolding dispatch_loop
  loop_failed fuel d a e h = ground arith

  pub loop_emptied :
      (fuel : ℕ) (d : EventDispatcher S C) (a : A)
      → d.execution_error ≡ none
      → take_next t d.buckets ≡ none
      → dispatch_loop ns3 body stop (suc fuel) t d a ≡ some (nothing_more (emptied t d) a)
  unfolding dispatch_loop
  loop_emptied fuel d a h k = ground arith

  pub loop_next :
      (fuel : ℕ) (d : EventDispatcher S C) (a : A) (r : EventRecord C) (rest : List (TimeBucket C))
      → d.execution_error ≡ none
      → take_next t d.buckets ≡ some (r, rest)
      → dispatch_loop ns3 body stop (suc fuel) t d a
        ≡ Option.map (and_before r.key (returned_by ns3 t body r rest d a)) (
            dispatch_loop ns3 body stop fuel t
              (after ns3 t body stop r rest d a).0
              (after ns3 t body stop r rest d a).1)
  unfolding dispatch_loop
  loop_next fuel d a r rest h k = ground arith

  -- A run of the loop that ends.
  pub data Runs : EventDispatcher S C → A → Outcome S C A → Type 0 where
    failed :
        (d : EventDispatcher S C) (a : A) (e : Error)
        → d.execution_error ≡ some e
        → Runs d a (nothing_more d a)
    done :
        (d : EventDispatcher S C) (a : A)
        → d.execution_error ≡ none
        → take_next t d.buckets ≡ none
        → Runs d a (nothing_more (emptied t d) a)
    next :
        (d : EventDispatcher S C) (a : A) (r : EventRecord C) (rest : List (TimeBucket C))
        (o : Outcome S C A)
        → d.execution_error ≡ none
        → take_next t d.buckets ≡ some (r, rest)
        → Runs (after ns3 t body stop r rest d a).0 (after ns3 t body stop r rest d a).1 o
        → Runs d a (and_before r.key (returned_by ns3 t body r rest d a) o)

  pub loop-Runs :
      (fuel : ℕ) (d : EventDispatcher S C) (a : A) (o : Outcome S C A)
      → dispatch_loop ns3 body stop fuel t d a ≡ some o
      → Runs d a o
  unfolding dispatch_loop
  loop-Runs zero d a o h = cc
  loop-Runs (suc fuel) d a o h = elim (Option-cases d.execution_error) [
    | inr (e, f) ↦
        subst (Runs d a) (Option.some_inj.0 (sym (loop_failed fuel d a e f) ∙ h)) (failed d a e f)
    | inl f ↦ elim (Option-cases (take_next t d.buckets)) [
      | inr ((r, rest), g) ↦
          let (o', k, same) =
            (Option.map-eq-some_iff (and_before r.key (returned_by ns3 t body r rest d a)) _).0
              (sym (loop_next fuel d a r rest f g) ∙ h) in
          subst (Runs d a) same (next d a r rest o' f g (loop-Runs fuel _ _ o' k))
      | inl g ↦
          subst (Runs d a) (Option.some_inj.0 (sym (loop_emptied fuel d a f g) ∙ h)) (done d a f g)
    ]
  ]
