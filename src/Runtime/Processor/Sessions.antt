-- ===== src/Runtime/Processor/Sessions.antt =====
-- The sessions that the processor returns, and their order.
use ns3_bellhop_platform.Prelude.{
  All-Unit, ◌≡◌, true, false, Pairwise, List, [], ◌∷◌, ◌++◌, arith, IsOrder, Perm, sort_by-sorted,
  sort_by-perm,
}
use ns3_bellhop_platform.Runtime.Processor.{ReceptionSession, id_less, session_less, append}
use ns3_bellhop_platform.Contracts.Packets.{Reception}

id_less_asym : (a b : Reception) → id_less a b ≡ true → id_less b a ≡ false
unfolding id_less
id_less_asym a b h = ground arith

id_less_negtrans :
    (a b c : Reception) → id_less b a ≡ false → id_less c b ≡ false → id_less c a ≡ false
unfolding id_less
id_less_negtrans a b c h k = ground arith

module _ {W : Type 0} where
  pub session_less-IsOrder : IsOrder session_less (λ (s : ReceptionSession W). Unit {0})
  unfolding session_less
  session_less-IsOrder = record {
    asym = λ x y _ _ h. ground (arith, id_less_asym x.reception y.reception);
    negtrans =
        λ x y z _ _ _ h k. ground (arith, id_less_negtrans x.reception y.reception z.reception);
  }

  -- `Append` adds the session to those there, each kept as often, and leaves them ordered by arrival,
  -- receiver, transmission and reception.
  pub append-ordered :
      (sessions : List (ReceptionSession W)) (s : ReceptionSession W)
      → Pairwise (λ a b. session_less b a ≡ false) (append sessions s)
        × Perm (append sessions s) (sessions ++ s ∷ [])
  unfolding append
  append-ordered sessions s = (
    sort_by-sorted session_less session_less-IsOrder (sessions ++ s ∷ [])
        (All-Unit (sessions ++ s ∷ [])),
    sort_by-perm session_less (sessions ++ s ∷ []),
  )
