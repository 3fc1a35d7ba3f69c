-- ===== src/Contracts/State/Order.antt =====
-- The order in which `WorldSnapshot::Create` is given the nodes.
use mathlib.Core.List.Permᴰ
use ns3_bellhop_platform.Prelude.{
  All-Unit, ◌≡◌, refl, sym, ◌<◌, inl, inr, Bool-cases, true, false, arith, List, [], ◌∷◌, map, All,
  Pairwise, Permᴰ, Pairwise-permᴰ, sort_by, sort_by-permᴰ, sort_by-sorted, sort_by-arranges,
  IsComparable, IsComparable-sym, IsAscending, IsAscending-of_sorted, has_adjacent,
}
use ns3_bellhop_platform.Contracts.Errors.{err}
use ns3_bellhop_platform.Contracts.Time.{SimTime}
use ns3_bellhop_platform.Contracts.State.{
  NodeCommittedState, SnapshotVersion, id_of, node_less, same_node, create, duplicate_node,
}
use ns3_bellhop_platform.Contracts.State.Snapshot.{node_less-IsOrder}

module _ {ℓ} {W : Type ℓ} where
  below-IsComparable :
      (n : NodeCommittedState W) (ns : List (NodeCommittedState W))
      → All (λ k. n.node_id < k) (map id_of ns)
      → All (IsComparable node_less n) ns
  below-IsComparable n [] h = tt
  below-IsComparable n (m ∷ ms) h = (inl (ground arith), below-IsComparable n ms h.1)

  ascending-IsComparable :
      (ns : List (NodeCommittedState W))
      → IsAscending (map id_of ns)
      → Pairwise (IsComparable node_less) ns
  ascending-IsComparable [] h = tt
  ascending-IsComparable (n ∷ ns) h = (below-IsComparable n ns h.0, ascending-IsComparable ns h.1)

  -- Nodes without equal ids sort alike in every order.
  distinct-sort_by :
      {ns ms : List (NodeCommittedState W)}
      → Permᴰ ns ms
      → has_adjacent same_node (sort_by node_less ns) ≡ false
      → sort_by node_less ns ≡ sort_by node_less ms
  distinct-sort_by {ns = ns} p h =
      let sorted = sort_by-sorted node_less node_less-IsOrder ns (All-Unit ns) in
      let ascending = IsAscending-of_sorted id_of (sort_by node_less ns) sorted h in
      sort_by-permᴰ node_less node_less-IsOrder p (All-Unit ns) (
        Pairwise-permᴰ (IsComparable node_less) (IsComparable-sym node_less)
          (sort_by-arranges node_less ns) (ascending-IsComparable (sort_by node_less ns) ascending))

  create-duplicate :
      (version : SnapshotVersion) (at : SimTime) (ns : List (NodeCommittedState W))
      → has_adjacent same_node (sort_by node_less ns) ≡ true
      → create version at ns ≡ err duplicate_node
  unfolding create
  create-duplicate version at ns h = rw h refl

  create-same :
      (version : SnapshotVersion) (at : SimTime) (ns ms : List (NodeCommittedState W))
      → sort_by node_less ns ≡ sort_by node_less ms
      → create version at ns ≡ create version at ms
  unfolding create
  create-same version at ns ms h = rw (create, h) refl

  -- `Create` makes the same snapshot of the nodes, or reports the same error, in whatever order they
  -- are given.
  pub create_snapshot-permᴰ :
      (version : SnapshotVersion) (at : SimTime) {ns ms : List (NodeCommittedState W)}
      → Permᴰ ns ms
      → create version at ns ≡ create version at ms
  create_snapshot-permᴰ version at {ns = ns} {ms = ms} p =
      elim (Bool-cases (has_adjacent same_node (sort_by node_less ns))) [
        | inr h ↦ create-same version at ns ms (distinct-sort_by p h)
        | inl h ↦ elim (Bool-cases (has_adjacent same_node (sort_by node_less ms))) [
          | inr k ↦ create-same version at ns ms (sym (distinct-sort_by (Permᴰ.symm p) k))
          | inl k ↦ cc (create-duplicate version at ns h, create-duplicate version at ms k)
        ]
      ]
