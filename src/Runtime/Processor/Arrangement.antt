-- ===== src/Runtime/Processor/Arrangement.antt =====
-- The order in which reception sessions are appended to the results.
use mathlib.Core.List.{append_assoc, append-nil}
use ns3_bellhop_platform.Prelude.{
  All-Unit, ◌≡◌, ◌≢◌, sym, ap, ◌∙◌, subst, arith, List, [], ◌∷◌, ◌++◌, Pairwise, Pairwise-map,
  sort_by, sort_by-sorted, sort_by-Pairwise, sort_by-arranges, NotAfter, Pairwise-both, ◌<◌, ◌⊎◌,
  Permᴰ, IsComparable, sort_by-permᴰ, sort_by-sort_by_append, Pairwise-front, Pairwise-permᴰ,
}
use ns3_bellhop_platform.Prelude.Int.{◌<ℤ◌, eqb_ℤ_iff}
use ns3_bellhop_platform.Contracts.Packets.{Reception}
use ns3_bellhop_platform.Runtime.Processor.{ReceptionSession, id_less, session_less, append}
use ns3_bellhop_platform.Runtime.Processor.Sessions.{session_less-IsOrder}

module _ {W : Type 0} where
  -- The two are of different receptions.
  abbrev pub OtherReception : ReceptionSession W → ReceptionSession W → Type 0
  OtherReception a b = a.reception.reception_id ≢ b.reception.reception_id

  OtherReception-IsComparable :
      (a b : ReceptionSession W) → OtherReception a b → IsComparable session_less a b
  unfolding session_less id_less
  OtherReception-IsComparable a b h = ground arith

  -- The sessions of a list, appended one after the other.
  abbrev pub append_all :
      List (ReceptionSession W) → List (ReceptionSession W) → List (ReceptionSession W)
  append_all sessions [] = sessions
  append_all sessions (s ∷ ss) = append_all (append sessions s) ss

  append_all-sorted :
      (xs ys : List (ReceptionSession W))
      → Pairwise (IsComparable session_less) (xs ++ ys)
      → append_all (sort_by session_less xs) ys ≡ sort_by session_less (xs ++ ys)
  unfolding append
  append_all-sorted xs [] r = ap (sort_by session_less) (sym (append-nil xs))
  append_all-sorted xs (y ∷ ys) r =
      let assoc = append_assoc xs (y ∷ []) ys in
      let r' = subst (Pairwise (IsComparable session_less)) (sym assoc) r in
      let first = Pairwise-front (IsComparable session_less) (xs ++ y ∷ []) ys r' in
      ap (λ l. append_all l ys)
        (sort_by-sort_by_append session_less session_less-IsOrder xs (y ∷ [])
          (All-Unit (xs ++ y ∷ [])) first)
      ∙ append_all-sorted (xs ++ y ∷ []) ys r'
      ∙ ap (sort_by session_less) assoc

  -- By arrival, then receiver, then transmission, then reception.
  abbrev pub ComesBefore : ReceptionSession W → ReceptionSession W → Type 0
  ComesBefore x y =
      let a : Reception = x.reception in
      let b : Reception = y.reception in
      (a.arrival_at.nanoseconds <ℤ b.arrival_at.nanoseconds)
      ⊎ ((a.arrival_at ≡ b.arrival_at)
          × ((a.receiver_node_id < b.receiver_node_id)
              ⊎ ((a.receiver_node_id ≡ b.receiver_node_id)
                  × ((a.transmission_id < b.transmission_id)
                      ⊎ ((a.transmission_id ≡ b.transmission_id)
                          × (a.reception_id < b.reception_id))))))

  ComesBefore-of_sorted :
      (a b : ReceptionSession W) → NotAfter session_less a b → OtherReception a b → ComesBefore a b
  unfolding session_less id_less
  ComesBefore-of_sorted a b h k =
      ground
        (arith, eqb_ℤ_iff a.reception.arrival_at.nanoseconds b.reception.arrival_at.nanoseconds)

  -- Sessions of different receptions, appended to no results, give the same results in whatever
  -- order they are appended. The results are all of them, each once, strictly in the order of arrival,
  -- then receiver, then transmission, then reception.
  pub append_all-permᴰ :
      {ss ts : List (ReceptionSession W)}
      → Pairwise OtherReception ss
      → Permᴰ ss ts
      → Permᴰ (append_all [] ss) ss
        × Pairwise ComesBefore (append_all [] ss)
        × (append_all [] ts ≡ append_all [] ss)
  unfolding sort_by
  append_all-permᴰ {ss = ss} {ts = ts} r p =
      let to = append_all-sorted [] ss (Pairwise-map ss OtherReception-IsComparable r) in
      let differ : (a b : ReceptionSession W) → OtherReception a b → OtherReception b a =
        λ a b g e. g (sym e) in
      let r' = Pairwise-permᴰ OtherReception differ p r in
      let from = append_all-sorted [] ts (Pairwise-map ts OtherReception-IsComparable r') in
      let same =
        sort_by-permᴰ session_less session_less-IsOrder p (All-Unit ss)
          (Pairwise-map ss OtherReception-IsComparable r) in
      let sorted = sort_by-sorted session_less session_less-IsOrder ss (All-Unit ss) in
      let apart = sort_by-Pairwise session_less OtherReception differ ss r in
      let strict = Pairwise-both ComesBefore-of_sorted (sort_by session_less ss) sorted apart in
      (
        subst (λ l. Permᴰ l ss) (sym to) (sort_by-arranges session_less ss),
        subst (Pairwise ComesBefore) (sym to) strict,
        cc (to, from, same),
      )
