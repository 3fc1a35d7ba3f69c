-- ===== src/Runtime/Allocator.antt =====
-- Platform/runtime/internal/communication_id_allocator.hpp: fresh transmission and reception ids.
pub mod Fresh
use ns3_bellhop_platform.Prelude.{
  ℕ, ◌+◌, ◌-◌, ◌%◌, ◌^◌, Bool, true, false, Option, none, some, if◌then◌else◌, ◌==◌,
}
use ns3_bellhop_platform.Contracts.Errors.{
  Error, error, overflow, failed_precondition, Result, ok, err,
}
use ns3_bellhop_platform.Contracts.State.{TransmissionId, ReceptionId}

abbrev pub k_maximum : ℕ
k_maximum = 2 ^ 64 - 1

pub record CommunicationIdAllocator : Type 0 where
  pub next_transmission_id : TransmissionId
  pub transmission_ids_exhausted : Bool
  pub next_reception_id : Option ReceptionId
  pub reception_ids_exhausted : Bool

-- The two constructors.
abbrev pub allocator : TransmissionId → CommunicationIdAllocator
allocator first = record {
  next_transmission_id = first;
  transmission_ids_exhausted = false;
  next_reception_id = none;
  reception_ids_exhausted = false;
}

abbrev pub allocator_with_receptions : TransmissionId → ReceptionId → CommunicationIdAllocator
allocator_with_receptions first_transmission first_reception =
    record (allocator first_transmission) { next_reception_id = some first_reception }

abbrev pub transmission_ids_gone : Error
transmission_ids_gone = error overflow "TransmissionId allocation exhausted"

abbrev pub reception_ids_gone : Error
reception_ids_gone = error overflow "ReceptionId allocation exhausted"

abbrev pub receptions_not_configured : Error
receptions_not_configured = error failed_precondition "ReceptionId allocation was not configured"

unfoldable pub next_transmission_id :
    CommunicationIdAllocator → CommunicationIdAllocator × Result TransmissionId
next_transmission_id a = if a.transmission_ids_exhausted then (a, err transmission_ids_gone) else (
  (if a.next_transmission_id == k_maximum
      then record a { transmission_ids_exhausted = true }
      else record a { next_transmission_id = (a.next_transmission_id + 1) % 2 ^ 64 }),
  ok a.next_transmission_id,
)

next_configured :
    CommunicationIdAllocator → Option ReceptionId → CommunicationIdAllocator × Result ReceptionId
next_configured a none = (a, err receptions_not_configured)
next_configured a (some next) = if a.reception_ids_exhausted then (a, err reception_ids_gone) else (
  (if next == k_maximum
      then record a { reception_ids_exhausted = true }
      else record a { next_reception_id = some ((next + 1) % 2 ^ 64) }),
  ok next,
)

unfoldable pub next_reception_id :
    CommunicationIdAllocator → CommunicationIdAllocator × Result ReceptionId
unfolding next_configured
next_reception_id a = next_configured a a.next_reception_id
