-- ===== src/Contracts/State/Snapshot.antt =====
-- `WorldSnapshot::Create` and `FindNode`: the nodes of a snapshot ascend strictly by id.
use ns3_bellhop_platform.Prelude.{
  All-Unit, ◌≡◌, refl, ◌↔◌, false, some, subst, List, map, Perm, arith, Bool-cases, IsAscending,
  Among, has_adjacent, sort_by, sort_by-perm, sort_by-sorted, IsOrder, find_key_sound,
  find_key_complete, IsAscending-of_sorted, IsAscending-Nodup, has_adjacent-not_Nodup, sort_by_id,
  sorted_of_IsAscending, distinct_of_IsAscending, find_key, inl, inr,
}
use mathlib.Core.List.{Nodup}
use mathlib.Core.List.Perm
use ns3_bellhop_platform.Contracts.Errors.{ok, reject_if-eq-ok, ok-injective}
use ns3_bellhop_platform.Contracts.Time.{SimTime}
use ns3_bellhop_platform.Contracts.State.{
  NodeCommittedState, NodeId, WorldSnapshot, SnapshotVersion, id_of, node_less, same_node, create,
  find_node,
}

module _ {ℓ} {W : Type ℓ} where
  -- The ids of the nodes ascend strictly.
  abbrev pub IsCanonical : WorldSnapshot W → Type 0
  IsCanonical s = IsAscending (map id_of s.nodes)

  pub node_less-IsOrder : IsOrder node_less (λ (n : NodeCommittedState W). Unit {0})
  node_less-IsOrder = record {
    asym = λ x y _ _ h. ground arith;
    negtrans = λ x y z _ _ _ h k. ground arith;
  }

  -- A snapshot that `Create` accepts has the version and time given, and holds the nodes given,
  -- each as often, in strictly ascending order of their ids.
  pub create_snapshot-ok :
      (version : SnapshotVersion) (at : SimTime) (nodes : List (NodeCommittedState W))
      {s : WorldSnapshot W}
      → create version at nodes ≡ ok s
      → (s.version ≡ version) × (s.committed_at ≡ at) × IsCanonical s × Perm s.nodes nodes
  unfolding create
  create_snapshot-ok version at nodes h =
      ok_fields (reject_if-eq-ok _ _ h).0 (reject_if-eq-ok _ _ h).1
    where
      sorted : List (NodeCommittedState W)
      sorted = sort_by node_less nodes

      ok_fields :
          {s : WorldSnapshot W}
          → has_adjacent same_node sorted ≡ false
          → ok (record { version = version; committed_at = at; nodes = sorted }) ≡ ok s
          → (s.version ≡ version) × (s.committed_at ≡ at) × IsCanonical s × Perm s.nodes nodes
      ok_fields distinct e =
          subst
            (λ s.
              (s.version ≡ version) × (s.committed_at ≡ at) × IsCanonical s × Perm s.nodes nodes)
            (ok-injective e) (refl, refl, ascending distinct, sort_by-perm node_less nodes)
        where
          ascending : has_adjacent same_node sorted ≡ false → IsAscending (map id_of sorted)
          ascending =
              IsAscending-of_sorted id_of sorted
                (sort_by-sorted node_less node_less-IsOrder nodes (All-Unit nodes))

  -- `Create` accepts the nodes exactly when no two of them have the same id.
  create_snapshot_iff :
      (version : SnapshotVersion) (at : SimTime) (nodes : List (NodeCommittedState W))
      → ((s : WorldSnapshot W) × (create version at nodes ≡ ok s)) ↔ Nodup (map id_of nodes)
  unfolding create
  create_snapshot_iff version at nodes =
      (λ (s, e). distinct (create_snapshot-ok version at nodes e), accepted)
    where
      sorted : List (NodeCommittedState W)
      sorted = sort_by node_less nodes

      same_ids : Perm (map id_of sorted) (map id_of nodes)
      same_ids = Perm.map id_of (sort_by-perm node_less nodes)

      distinct :
          {s : WorldSnapshot W}
          → (s.version ≡ version) × (s.committed_at ≡ at) × IsCanonical s × Perm s.nodes nodes
          → Nodup (map id_of nodes)
      distinct {s} f = Perm.nodup (Perm.map id_of f.3) (IsAscending-Nodup (map id_of s.nodes) f.2)

      accepted : Nodup (map id_of nodes) → (s : WorldSnapshot W) × (create version at nodes ≡ ok s)
      accepted d = elim (Bool-cases (has_adjacent same_node sorted)) [
        | inl dup ↦
            absurd (has_adjacent-not_Nodup id_of sorted dup (Perm.nodup (Perm.symm same_ids) d))
        | inr none ↦ (record { version = version; committed_at = at; nodes = sorted }, rw none)
      ]

  -- Nodes that come in strictly ascending order are taken over as they are.
  pub create_canonical :
      (version : SnapshotVersion) (at : SimTime) (nodes : List (NodeCommittedState W))
      → IsAscending (map id_of nodes)
      → create version at nodes
        ≡ ok (record { version = version; committed_at = at; nodes = nodes })
  unfolding create
  create_canonical version at nodes s = rw (
    sort_by_id node_less nodes (sorted_of_IsAscending id_of nodes s),
    distinct_of_IsAscending id_of nodes s,
  )

  -- In a canonical snapshot `FindNode` returns a node exactly when the snapshot holds it and it has
  -- the id sought.
  pub find_node_iff :
      (s : WorldSnapshot W) (id : NodeId) (n : NodeCommittedState W)
      → IsCanonical s
      → (find_node s id ≡ some n) ↔ (Among n s.nodes × (n.node_id ≡ id))
  unfolding find_node
  find_node_iff s id n c = (
    find_key_sound id_of id s.nodes,
    λ (m, e).
        subst (λ k. find_key id_of k s.nodes ≡ some n) e (find_key_complete id_of s.nodes c m),
  )

  pub find_node-id :
      (s : WorldSnapshot W) (id : NodeId) (n : NodeCommittedState W)
      → find_node s id ≡ some n
      → n.node_id ≡ id
  unfolding find_node
  find_node-id s id n h = (find_key_sound id_of id s.nodes h).1
