-- ===== src/Kernel/Dispatch/Least.antt =====
-- The least record of a list by its key: `std::min_element`.
use ns3_bellhop_platform.Prelude.{
  ◌<◌, ◌≡◌, ◌⊎◌, ◌↔◌, inl, inr, Bool-cases, true, false, arith, List, [], ◌∷◌, All, All-map,
  Pairwise,
}
use ns3_bellhop_platform.Kernel.Dispatcher.{phase_value, EventKey, EventRecord}
use ns3_bellhop_platform.Kernel.Dispatch.{phase_less, key_less, least}

-- One key comes before the other in the order of phases, then of sequence numbers.
abbrev pub Later : EventKey → EventKey → Type 0
Later a b =
    (phase_value a.phase < phase_value b.phase)
    ⊎ ((phase_value a.phase ≡ phase_value b.phase) × (a.sequence < b.sequence))

phase_less_asym : (a b : EventKey) → phase_less a b ≡ true → phase_less b a ≡ false
unfolding phase_less
phase_less_asym a b h = ground arith

phase_less_negtrans :
    (a b c : EventKey) → phase_less a b ≡ false → phase_less b c ≡ false → phase_less a c ≡ false
unfolding phase_less
phase_less_negtrans a b c h k = ground arith

pub key_less_asym : (a b : EventKey) → key_less a b ≡ true → key_less b a ≡ false
unfolding key_less
key_less_asym a b h = ground (arith, phase_less_asym a b)

key_less_negtrans :
    (a b c : EventKey) → key_less a b ≡ false → key_less b c ≡ false → key_less a c ≡ false
unfolding key_less
key_less_negtrans a b c h k = ground (arith, phase_less_negtrans a b c)

module _ {C : Type 0} where
  -- The least record and the others hold what the list held.
  pub least-All :
      (P : EventRecord C → Type 0) (r : EventRecord C) (rs : List (EventRecord C))
      → All P (r ∷ rs) ↔ All P ((least r rs).0 ∷ (least r rs).1)
  unfolding least
  least-All P r [] = (λ h. h, λ h. h)
  least-All P r (s ∷ ss) =
      let (forth, back) = least-All P s ss in
      elim (Bool-cases (key_less (least s ss).0.key r.key)) [
        | inl e ↦
            rw (e, least)
              (λ h. let k = forth h.1 in (k.0, (h.0, k.1)), λ h. (h.1.0, back (h.0, h.1.1)))
        | inr e ↦ rw (e, least) (λ h. h, λ h. h)
      ]

  -- Relations that hold of a list pairwise, and that are symmetric, are kept.
  pub least-Pairwise :
      (R : EventRecord C → EventRecord C → Type 0)
      → ((r s : EventRecord C) → R r s → R s r)
      → (r : EventRecord C) (rs : List (EventRecord C)) → Pairwise R (r ∷ rs)
      → Pairwise R ((least r rs).0 ∷ (least r rs).1)
  unfolding least
  least-Pairwise R symm r [] h = h
  least-Pairwise R symm r (s ∷ ss) h =
      let ih = least-Pairwise R symm s ss h.1 in
      let k = (least-All (R r) s ss).0 h.0 in
      elim (Bool-cases (key_less (least s ss).0.key r.key)) [
        | inl e ↦ rw (e, least) ((symm r (least s ss).0 k.0, ih.0), (k.1, ih.1))
        | inr e ↦ rw (e, least) h
      ]

  pub least-rest :
      (R : EventRecord C → EventRecord C → Type 0) (r : EventRecord C) (rs : List (EventRecord C))
      → Pairwise R (r ∷ rs)
      → Pairwise R (least r rs).1
  unfolding least
  least-rest R r [] h = tt
  least-rest R r (s ∷ ss) h = elim (Bool-cases (key_less (least s ss).0.key r.key)) [
    | inl e ↦ rw (e, least) (((least-All (R r) s ss).0 h.0).1, least-rest R s ss h.1)
    | inr e ↦ rw (e, least) h.1
  ]

  abbrev pub NotLess : EventRecord C → EventRecord C → Type 0
  NotLess m s = key_less s.key m.key ≡ false

  pub least-NotLess :
      (r : EventRecord C) (rs : List (EventRecord C)) → All (NotLess (least r rs).0) (least r rs).1
  unfolding least
  least-NotLess r [] = tt
  least-NotLess r (s ∷ ss) =
      let m = (least s ss).0 in
      let ih = least-NotLess s ss in
      elim (Bool-cases (key_less m.key r.key)) [
        | inl e ↦ rw (e, least) (key_less_asym m.key r.key e, ih)
        | inr e ↦
            rw (e, least)
              ((least-All (NotLess r) s ss).1
                (e, All-map (least s ss).1 (λ x h. key_less_negtrans x.key m.key r.key h e) ih))
      ]
