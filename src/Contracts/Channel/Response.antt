-- ===== src/Contracts/Channel/Response.antt =====
-- What `ChannelFieldResponse::Create` accepts and returns.
use mathlib.Core.List.Permᴰ
use ns3_bellhop_platform.Prelude.{
  ◌≡◌, ◌↔◌, ◌⊎◌, refl, subst, inl, inr, true, false, arith, List, [], ◌∷◌, All, Pairwise, Among,
  here, there, All-Among, Permᴰ, Among-permᴰ, sort_by, sort_by-permᴰ, sort_by-arranges,
  sort_by-sorted, sort_by-All, IsComparable,
}
use ns3_bellhop_platform.Prelude.Int.{pos, ◌≤ℤ◌}
use ns3_bellhop_platform.Contracts.Errors.{ok}
use ns3_bellhop_platform.Contracts.Time.{zero_duration, duration_eq}
use ns3_bellhop_platform.Contracts.Doubles.{Double, IsIeee}
use ns3_bellhop_platform.Contracts.Channel.{
  PropagationPath, ChannelFieldResponse, path_less, path_eq, starts_late, create_response,
}
use ns3_bellhop_platform.Contracts.Channel.Order.{IsPath, path_less-IsOrder, path-IsComparable}

module _ {W : Type 0} ⦃d : Double W⦄ where
  -- There are no paths, or the signal comes first by one without excess delay.
  abbrev pub HasFirst : List (PropagationPath W) → Type 0
  HasFirst ps =
      (ps ≡ [])
      ⊎ (p : PropagationPath W) × Among p ps × (duration_eq p.excess_delay zero_duration ≡ true)

  -- A path without excess delay is not preceded by one with.
  first_is_zero :
      (p q : PropagationPath W)
      → IsPath q
      → duration_eq p.excess_delay zero_duration ≡ true
      → path_less p q ≡ false
      → duration_eq q.excess_delay zero_duration ≡ true
  unfolding path_less
  first_is_zero p q w e h = ground arith

  starts_late-sorted :
      (ps : List (PropagationPath W))
      → All IsPath ps
      → Pairwise (λ p q. path_less q p ≡ false) ps
      → (starts_late ps ≡ false) ↔ HasFirst ps
  starts_late-sorted [] v s = (λ h. inl refl, λ h. refl)
  starts_late-sorted (q ∷ qs) v s = (
    λ h. inr (q, here refl, ground arith),
    λ h. elim h [
      | inl e ↦ cc e
      | inr (p, here e, z) ↦ subst (λ p. starts_late (p ∷ qs) ≡ false) e (ground arith)
      | inr (p, there m, z) ↦
          ground (arith, first_is_zero p q v.0 z (All-Among (λ x. path_less x q ≡ false) m s.0))
    ],
  )

  HasFirst-permᴰ : {ps qs : List (PropagationPath W)} → Permᴰ ps qs → HasFirst ps → HasFirst qs
  HasFirst-permᴰ {qs = []} p h = inl refl
  HasFirst-permᴰ {ps = ps} {qs = q ∷ qs} p (inl e) =
      elim (subst (Among q) e (Among-permᴰ (Permᴰ.symm p) (here refl))) [ ]
  HasFirst-permᴰ {qs = q ∷ qs} p (inr (a, m, z)) = inr (a, Among-permᴰ p m, z)

  module _ (laws : IsIeee W) where
    comparable :
        (ps : List (PropagationPath W))
        → All IsPath ps
        → Pairwise (λ p q. path_eq p q ≡ true → p ≡ q) ps
        → Pairwise (IsComparable path_less) ps
    comparable [] v u = tt
    comparable (p ∷ ps) v u = (to ps v.1 u.0, comparable ps v.1 u.1)
      where
        to :
            (qs : List (PropagationPath W))
            → All IsPath qs
            → All (λ q. path_eq p q ≡ true → p ≡ q) qs
            → All (IsComparable path_less p) qs
        to [] w u = tt
        to (q ∷ qs) w u = (path-IsComparable laws p q v.0 w.0 u.0, to qs w.1 u.1)

  -- What `Create` returns.
  abbrev arranged : ChannelFieldResponse W → ChannelFieldResponse W
  arranged r = record r { paths = sort_by path_less r.paths }

  create_response-arranged :
      (r r' : ChannelFieldResponse W) → create_response r ≡ ok r' → r' ≡ arranged r
  unfolding create_response
  create_response-arranged r r' h = ground arith

  checks_iff :
      (r : ChannelFieldResponse W)
      → ((r' : ChannelFieldResponse W) × (create_response r ≡ ok r'))
        ↔ (d.is_finite r.aggregate_transmission_loss_db ≡ true)
          × (pos 0 ≤ℤ r.first_arrival_delay.nanoseconds)
          × (starts_late (sort_by path_less r.paths) ≡ false)
  unfolding create_response
  checks_iff r = (λ (r', h). ground arith, λ (a, b, c). (arranged r, ground arith))

  module _ (laws : IsIeee W) where
    sorted_HasFirst :
        (ps : List (PropagationPath W))
        → All IsPath ps
        → (starts_late (sort_by path_less ps) ≡ false) ↔ HasFirst ps
    sorted_HasFirst ps v =
        let same = sort_by-arranges path_less ps in
        let (to, from) =
          starts_late-sorted (sort_by path_less ps) (sort_by-All path_less IsPath ps v)
            (sort_by-sorted path_less (path_less-IsOrder laws) ps v) in
        (λ h. HasFirst-permᴰ same (to h), λ h. from (HasFirst-permᴰ (Permᴰ.symm same) h))

    -- Of paths that `PropagationPath::Create` made, `Create` makes a response exactly when the loss
    -- is finite, the delay is not negative, and there are no paths or one of them has no excess
    -- delay.
    pub create_response_iff :
        (r : ChannelFieldResponse W)
        → All IsPath r.paths
        → ((r' : ChannelFieldResponse W) × (create_response r ≡ ok r'))
          ↔ (d.is_finite r.aggregate_transmission_loss_db ≡ true)
            × (pos 0 ≤ℤ r.first_arrival_delay.nanoseconds)
            × HasFirst r.paths
    create_response_iff r v =
        let (to, from) = checks_iff r in
        let (first, last) = sorted_HasFirst r.paths v in
        (λ h. let (a, b, c) = to h in (a, b, first c), λ (a, b, c). from (a, b, last c))

    -- Where `==` holds of no two different paths of a list, `Create` has the same result for them in
    -- every order: the same response, or the same error.
    pub create_response-permᴰ :
        (r : ChannelFieldResponse W) (ps : List (PropagationPath W))
        → All IsPath r.paths
        → Pairwise (λ p q. path_eq p q ≡ true → p ≡ q) r.paths
        → Permᴰ r.paths ps
        → create_response (record r { paths = ps }) ≡ create_response r
    unfolding create_response
    create_response-permᴰ r ps v u p =
        let same =
          sort_by-permᴰ path_less (path_less-IsOrder laws) p v (comparable laws r.paths v u) in
        rw (create_response, same) refl
