-- ===== src/Examples/Times.antt =====
-- Runs of the checked arithmetic, of the allocator and of the projector.
use ns3_bellhop_platform.Prelude.{
  ◌≡◌, ◌↔◌, ◌-◌, ◌^◌, ◌+◌, refl, none, some, arith, leb, if◌then◌else◌,
}
use ns3_bellhop_platform.Prelude.Int.{pos, negsuc, ◌+ℤ◌, ◌-ℤ◌}
use ns3_bellhop_platform.Contracts.Errors.{ok, err}
use ns3_bellhop_platform.Contracts.Time.{k_max, InRange, checked_add_counts}
use ns3_bellhop_platform.Contracts.Time.Exact.{checked_add_counts_exact}
use ns3_bellhop_platform.Runtime.Allocator.{
  allocator, next_transmission_id, k_maximum, transmission_ids_gone,
}
use ns3_bellhop_platform.Runtime.Allocator.Fresh.{allocate, allocate-next}
use ns3_bellhop_platform.Examples.{whole}

add_overflows : checked_add_counts k_max (pos 1) ≡ none
unfolding checked_add_counts ◌-ℤ◌ ◌+ℤ◌
add_overflows = refl

add_of_signs : checked_add_counts (negsuc 4) (pos 9) ≡ some (pos 4)
unfolding checked_add_counts ◌-ℤ◌ ◌+ℤ◌
add_of_signs = refl

checked_add_counts_exact_example :
    (checked_add_counts k_max (negsuc 6) ≡ some (pos (2 ^ 63 - 8)))
    ↔ (InRange (pos (2 ^ 63 - 8)) × (pos (2 ^ 63 - 8) ≡ k_max +ℤ negsuc 6))
checked_add_counts_exact_example =
    checked_add_counts_exact k_max (negsuc 6) (pos (2 ^ 63 - 8)) (omega arith, omega arith)
      (omega arith, omega arith)

allocate-next_example :
    (next_transmission_id (allocate 2 (allocator k_maximum))).1
    ≡ (if leb (2 ^ 64) (k_maximum + 2) then err transmission_ids_gone else ok (k_maximum + 2))
allocate-next_example = allocate-next k_maximum 2 (omega arith)
