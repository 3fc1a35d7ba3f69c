-- ===== src/Runtime/Commit/Replacement.antt =====
-- `ValidateFullReplacement` accepts a delta set exactly when it replaces every node once, in order.
use ns3_bellhop_platform.Prelude.{
  ◌≡◌, refl, sym, subst, ◌↔◌, List, [], ◌∷◌, map, arith, IsAscending, length,
}
use ns3_bellhop_platform.Contracts.Errors.{ok}
use ns3_bellhop_platform.Contracts.State.{
  NodeCommittedState, NodeStateReplacement, DeltaSet, WorldSnapshot, id_of,
}
use ns3_bellhop_platform.Contracts.State.Snapshot.{IsCanonical}
use ns3_bellhop_platform.Runtime.Commit.{
  replacement_id, check_order, check_ids, validate_full_replacement,
}

module _ {ℓ} {W : Type ℓ} where
  check_order_ascending :
      (rs : List (NodeStateReplacement W))
      → IsAscending (map replacement_id rs)
      → check_order rs ≡ ok tt
  unfolding check_order
  check_order_ascending [] s = refl
  check_order_ascending (r ∷ []) s = refl
  check_order_ascending (r ∷ q ∷ rs) s = ground (arith, check_order_ascending (q ∷ rs) s.1)

  check_ids_same :
      (rs : List (NodeStateReplacement W)) (ns : List (NodeCommittedState W))
      → map replacement_id rs ≡ map id_of ns
      → check_ids rs ns ≡ ok tt
  unfolding check_ids
  check_ids_same [] ns e = refl
  check_ids_same (r ∷ rs) [] e = refl
  check_ids_same (r ∷ rs) (n ∷ ns) e = ground (arith, check_ids_same rs ns)

  same_of_check_ids :
      (rs : List (NodeStateReplacement W)) (ns : List (NodeCommittedState W))
      → length rs ≡ length ns
      → check_ids rs ns ≡ ok tt
      → map replacement_id rs ≡ map id_of ns
  unfolding check_ids
  same_of_check_ids [] [] l e = refl
  same_of_check_ids [] (n ∷ ns) l e = absurd (omega arith)
  same_of_check_ids (r ∷ rs) [] l e = absurd (omega arith)
  same_of_check_ids (r ∷ rs) (n ∷ ns) l e = ground (arith, same_of_check_ids rs ns)

  same_lengths :
      (rs : List (NodeStateReplacement W)) (ns : List (NodeCommittedState W))
      → map replacement_id rs ≡ map id_of ns
      → length rs ≡ length ns
  same_lengths [] [] e = refl
  same_lengths [] (n ∷ ns) e = cc
  same_lengths (r ∷ rs) [] e = cc
  same_lengths (r ∷ rs) (n ∷ ns) e = ground (arith, same_lengths rs ns)

  -- For a canonical snapshot the validation passes exactly when the replacements have the ids of the
  -- snapshot's nodes, in the same order.
  pub validate_full_replacement_iff :
      (current : WorldSnapshot W) (delta : DeltaSet W)
      → IsCanonical current
      → (validate_full_replacement current delta ≡ ok tt)
        ↔ (map replacement_id delta.node_replacements ≡ map id_of current.nodes)
  unfolding validate_full_replacement
  validate_full_replacement_iff current delta c = (
    λ h. ground (arith, same_of_check_ids delta.node_replacements current.nodes),
    λ e. ground (
      arith,
      same_lengths delta.node_replacements current.nodes e,
      check_ids_same delta.node_replacements current.nodes e,
      check_order_ascending delta.node_replacements (subst IsAscending (sym e) c),
    ),
  )
