-- ===== src/Kernel/Dispatch/Rounds.antt =====
-- What a whole `DispatchTime` does: the order of the events it dispatches, which ones, and the
-- queue it leaves.
use mathlib.Core.Option
use ns3_bellhop_platform.Prelude.{
  ℕ, ◌≡◌, refl, sym, subst, true, false, none, some, List, [], ◌∷◌, All, All-map, All-front,
  Pairwise, Among, here, there,
}
use ns3_bellhop_platform.Contracts.Time.{SimTime}
use ns3_bellhop_platform.Kernel.Gateway.{Ns3}
use ns3_bellhop_platform.Kernel.Dispatcher.{EventKey, EventRecord, EventDispatcher, has_bucket}
use ns3_bellhop_platform.Kernel.Dispatcher.Buckets.{IsBucket}
use ns3_bellhop_platform.Kernel.Dispatcher.Schedule.{IsQueue, used}
use ns3_bellhop_platform.Kernel.Dispatch.{
  EventCallback, key_less, least, Outcome, dispatch_time, entered, left, finished,
}
use ns3_bellhop_platform.Kernel.Dispatch.Pending.{pending}
use ns3_bellhop_platform.Kernel.Dispatch.Least.{Later, least-All}
use ns3_bellhop_platform.Kernel.Dispatch.Take.{
  take_next-none, drop_bucket-All, drop_bucket-ascending, has_bucket-drop_bucket,
}
use ns3_bellhop_platform.Kernel.Dispatch.Effects.{IsActive, Round, after, after-Round}
use ns3_bellhop_platform.Kernel.Dispatch.Loop.{Runs, failed, done, next, loop-Runs, emptied}
use ns3_bellhop_platform.Kernel.Dispatch.Ordered.{SameTime, Later-key, Later-trans, Round-order}

module _ {S C : Type 0} where
  pub entered-IsQueue : (t : SimTime) (d : EventDispatcher S C) → IsQueue d → IsQueue (entered t d)
  entered-IsQueue t d q = record {
    number_fits = q.number_fits;
    ascending = q.ascending;
    each = q.each;
  }

  left-IsQueue : (d : EventDispatcher S C) → IsQueue d → IsQueue (left d)
  left-IsQueue d q = record { number_fits = q.number_fits; ascending = q.ascending; each = q.each }

  emptied-IsQueue : (t : SimTime) (d : EventDispatcher S C) → IsQueue d → IsQueue (emptied t d)
  emptied-IsQueue t d q = record {
    number_fits = q.number_fits;
    ascending = drop_bucket-ascending t d.buckets q.ascending;
    each = drop_bucket-All (IsBucket (used d)) t d.buckets q.each;
  }

  -- What one round took is among the keys when what waits after it is.
  round_dispatched :
      (t : SimTime) (P : EventRecord C → Type 0) (r : EventRecord C) (d d' : EventDispatcher S C)
      → Round t r d d'
      → P r
      → All P (pending t d'.buckets)
      → All P (pending t d.buckets)
  round_dispatched t P r d d' h p ps =
      let others = All-front P (least h.first h.others).1 h.added (subst (All P) h.left_over ps) in
      subst (All P) (sym h.waited)
        ((least-All P h.first h.others).1 (subst P (sym h.taken) p, others))

module _ {T S C A : Type 0} (ns3 : Ns3 T S SimTime) (body : C → EventCallback C A) (stop : S → S)
    (t : SimTime) where
  runs-IsQueue :
      {d : EventDispatcher S C} {a : A} {o : Outcome S C A}
      → Runs ns3 body stop t d a o
      → IsActive t d
      → IsQueue d
      → IsQueue o.dispatcher
  runs-IsQueue (failed d a e h) active q = q
  runs-IsQueue (done d a h k) active q = emptied-IsQueue t d q
  runs-IsQueue (next d a r rest o h k run) active q =
      let round = after-Round ns3 t body stop r rest d a k active in
      runs-IsQueue run round.active (round.queue q)

  -- What is before everything that waits is before everything that is dispatched.
  Runs-after :
      {d : EventDispatcher S C} {a : A} {o : Outcome S C A} (key : EventKey)
      → Runs ns3 body stop t d a o
      → IsActive t d
      → IsQueue d
      → All (λ r. Later key r.key) (pending t d.buckets)
      → All (Later key) o.dispatched
  Runs-after key (failed d a e h) active q l = tt
  Runs-after key (done d a h k) active q l = tt
  Runs-after key (next d a r rest o h k run) active q l =
      let round = after-Round ns3 t body stop r rest d a k active in
      let first =
        ((least-All (λ r. Later key r.key) round.first round.others).0
          (subst (All (λ r. Later key r.key)) round.waited l)).0 in
      let this = subst (λ r. Later key r.key) round.taken first in
      let (_, rest_later) = Round-order t r d (after ns3 t body stop r rest d a).0 q round in
      (
        this,
        All-map o.dispatched (λ key' l'. Later-trans key r.key key' this l')
            (Runs-after r.key run round.active (round.queue q) rest_later),
      )

  Runs-ordered :
      {d : EventDispatcher S C} {a : A} {o : Outcome S C A}
      → Runs ns3 body stop t d a o
      → IsActive t d
      → IsQueue d
      → All (SameTime t) o.dispatched × Pairwise (λ x y. key_less x y ≡ true) o.dispatched
  Runs-ordered (failed d a e h) active q = (tt, tt)
  Runs-ordered (done d a h k) active q = (tt, tt)
  Runs-ordered (next d a r rest o h k run) active q =
      let round = after-Round ns3 t body stop r rest d a k active in
      let (now, later) = Round-order t r d (after ns3 t body stop r rest d a).0 q round in
      let (same, ordered) = Runs-ordered run round.active (round.queue q) in
      let before = Runs-after r.key run round.active (round.queue q) later in
      ((now, same), (All-later o.dispatched r.key now same before, ordered))
    where
      All-later :
          (keys : List EventKey) (key : EventKey)
          → SameTime t key
          → All (SameTime t) keys
          → All (Later key) keys
          → All (λ y. key_less key y ≡ true) keys
      All-later [] key s ss l = tt
      All-later (y ∷ ys) key s ss l = (Later-key t key y s ss.0 l.0, All-later ys key s ss.1 l.1)

  Runs-complete :
      {d : EventDispatcher S C} {a : A} {o : Outcome S C A}
      → Runs ns3 body stop t d a o
      → IsActive t d
      → IsQueue d
      → o.dispatcher.execution_error ≡ none
      → All (λ r. Among r.key o.dispatched) (pending t d.buckets)
        × (has_bucket t o.dispatcher.buckets ≡ false)
  Runs-complete (failed d a e h) active q n = cc
  Runs-complete (done d a h k) active q n = (
    subst (All (λ r. Among r.key [])) (sym (take_next-none t d.buckets k)) tt,
    has_bucket-drop_bucket t d.buckets q.ascending,
  )
  Runs-complete (next d a r rest o h k run) active q n =
      let round = after-Round ns3 t body stop r rest d a k active in
      let d' = (after ns3 t body stop r rest d a).0 in
      let (all, empty) = Runs-complete run round.active (round.queue q) n in
      (
        round_dispatched t (λ s. Among s.key (r.key ∷ o.dispatched)) r d d' round (here refl)
            (All-map (pending t d'.buckets) (λ s m. there m) all),
        empty,
      )

  -- A call of `DispatchTime` that returns is a run of the loop.
  pub dispatch_time-Runs :
      (fuel : ℕ) (d : EventDispatcher S C) (a : A) (o : Outcome S C A)
      → dispatch_time ns3 body stop fuel t d a ≡ some o
      → (o' : Outcome S C A) × Runs ns3 body stop t (entered t d) a o' × (finished o' ≡ o)
  unfolding dispatch_time
  dispatch_time-Runs fuel d a o h =
      let (o', k, same) = (Option.map-eq-some_iff finished _).0 h in
      (o', loop-Runs ns3 body stop t fuel (entered t d) a o' k, same)

  pub entered-IsActive : (d : EventDispatcher S C) → IsActive t (entered t d)
  entered-IsActive d = record { dispatching = refl; at_time = refl }

  -- When `DispatchTime` returns from a well-formed queue, the queue is well formed again, whatever the
  -- callbacks schedule and whether or not one fails.
  pub dispatch_time-IsQueue :
      (fuel : ℕ) (d : EventDispatcher S C) (a : A) (o : Outcome S C A)
      → IsQueue d
      → dispatch_time ns3 body stop fuel t d a ≡ some o
      → IsQueue o.dispatcher
  dispatch_time-IsQueue fuel d a o q h =
      let (o', run, same) = dispatch_time-Runs fuel d a o h in
      subst (λ x. IsQueue x.dispatcher) same
        (left-IsQueue o'.dispatcher (runs-IsQueue run (entered-IsActive d) (entered-IsQueue t d q)))

  -- When `DispatchTime` returns from a well-formed queue, the events that it dispatched, those
  -- scheduled meanwhile included, are of its time, and each comes before all later ones in the order
  -- of the event keys.
  pub dispatch_time-ordered :
      (fuel : ℕ) (d : EventDispatcher S C) (a : A) (o : Outcome S C A)
      → IsQueue d
      → dispatch_time ns3 body stop fuel t d a ≡ some o
      → All (SameTime t) o.dispatched × Pairwise (λ x y. key_less x y ≡ true) o.dispatched
  dispatch_time-ordered fuel d a o q h =
      let (o', run, same) = dispatch_time-Runs fuel d a o h in
      subst
        (λ x. All (SameTime t) x.dispatched × Pairwise (λ y z. key_less y z ≡ true) x.dispatched)
        same (Runs-ordered run (entered-IsActive d) (entered-IsQueue t d q))

  -- When `DispatchTime` returns from a well-formed queue without an execution error, every event that
  -- waited for its time has been dispatched, and no bucket of that time is left.
  pub dispatch_time_complete :
      (fuel : ℕ) (d : EventDispatcher S C) (a : A) (o : Outcome S C A)
      → IsQueue d
      → dispatch_time ns3 body stop fuel t d a ≡ some o
      → o.dispatcher.execution_error ≡ none
      → All (λ r. Among r.key o.dispatched) (pending t d.buckets)
        × (has_bucket t o.dispatcher.buckets ≡ false)
  dispatch_time_complete fuel d a o q h n =
      let (o', run, same) = dispatch_time-Runs fuel d a o h in
      subst
        (λ x.
          All (λ r. Among r.key x.dispatched) (pending t d.buckets)
          × (has_bucket t x.dispatcher.buckets ≡ false))
        same
        (Runs-complete run (entered-IsActive d) (entered-IsQueue t d q)
          (subst (λ x. x.dispatcher.execution_error ≡ none) (sym same) n))
