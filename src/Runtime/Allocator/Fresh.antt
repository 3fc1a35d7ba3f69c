-- ===== src/Runtime/Allocator/Fresh.antt =====
-- The ids of one allocator never repeat: they count up from the first, to the last 64-bit value.
use Prim.Native.Nat.{min}
use ns3_bellhop_platform.Prelude.{
  ℕ, zero, suc, ◌+◌, ◌^◌, ◌<◌, ◌≤◌, ◌≡◌, refl, true, false, some, arith, if◌then◌else◌, leb, ◌⊎◌,
  inl,
}
use ns3_bellhop_platform.Contracts.Errors.{ok, err}
use ns3_bellhop_platform.Runtime.Allocator.{
  CommunicationIdAllocator, allocator, allocator_with_receptions, k_maximum, transmission_ids_gone,
  reception_ids_gone, next_transmission_id, next_reception_id,
}

-- One call after another.
pub allocate : ℕ → CommunicationIdAllocator → CommunicationIdAllocator
allocate zero a = a
allocate (suc n) a = allocate n (next_transmission_id a).0

-- The next id, or 2 ^ 64 when none is left.
abbrev pub used : CommunicationIdAllocator → ℕ
used a = if a.transmission_ids_exhausted then 2 ^ 64 else a.next_transmission_id

abbrev pub IsValid : CommunicationIdAllocator → Type 0
IsValid a = a.next_transmission_id ≤ k_maximum

-- One call hands out the next id, while there is one.
next_transmission_id_lem :
    (a : CommunicationIdAllocator)
    → IsValid a
    → IsValid (next_transmission_id a).0
      × (used (next_transmission_id a).0 ≡ min (used a + 1) (2 ^ 64))
      × ((next_transmission_id a).1
          ≡ (if leb (2 ^ 64) (used a) then err transmission_ids_gone else ok (used a)))
unfolding next_transmission_id
next_transmission_id_lem a v = ground arith

allocate-used :
    (n : ℕ) (a : CommunicationIdAllocator)
    → IsValid a
    → IsValid (allocate n a) × (used (allocate n a) ≡ min (used a + n) (2 ^ 64))
unfolding allocate
allocate-used zero a v = (v, ground arith)
allocate-used (suc n) a v =
    let (v', step, _) = next_transmission_id_lem a v in
    let (w, rest) = allocate-used n (next_transmission_id a).0 v' in (w, omega arith)

-- After any number `n` of calls an allocator that began at a 64-bit id hands out that id plus `n`,
-- as long as this is a 64-bit value; from then on every call reports the overflow.
pub allocate-next :
    (first n : ℕ)
    → first < 2 ^ 64
    → (next_transmission_id (allocate n (allocator first))).1
      ≡ (if leb (2 ^ 64) (first + n) then err transmission_ids_gone else ok (first + n))
allocate-next first n h =
    let (w, u) = allocate-used n (allocator first) (omega arith) in
    let (_, _, r) = next_transmission_id_lem (allocate n (allocator first)) w in ground arith

-- The allocator after `n` calls of `NextReceptionId`.
pub allocate_receptions : ℕ → CommunicationIdAllocator → CommunicationIdAllocator
allocate_receptions zero a = a
allocate_receptions (suc n) a = allocate_receptions n (next_reception_id a).0

abbrev IsAt : CommunicationIdAllocator → ℕ → Type 0
IsAt a used =
    ((a.reception_ids_exhausted ≡ false) × (a.next_reception_id ≡ some used) × (used ≤ k_maximum))
    ⊎ ((a.reception_ids_exhausted ≡ true)
        × (used ≡ 2 ^ 64)
        × (a.next_reception_id ≡ some k_maximum))

next_reception_id_lem :
    (a : CommunicationIdAllocator) (used : ℕ)
    → IsAt a used
    → IsAt (next_reception_id a).0 (min (used + 1) (2 ^ 64))
      × ((next_reception_id a).1 ≡ (if leb (2 ^ 64) used then err reception_ids_gone else ok used))
unfolding next_reception_id
next_reception_id_lem a used h = ground arith

allocate_receptions-IsAt :
    (n used : ℕ) (a : CommunicationIdAllocator)
    → used ≤ 2 ^ 64
    → IsAt a used
    → IsAt (allocate_receptions n a) (min (used + n) (2 ^ 64))
unfolding allocate_receptions
allocate_receptions-IsAt zero used a le h =
    let same : used ≡ min (used + 0) (2 ^ 64) = omega arith in rw (← same) h
allocate_receptions-IsAt (suc n) used a le h =
    let (h', _) = next_reception_id_lem a used h in
    let rest = allocate_receptions-IsAt n _ (next_reception_id a).0 (omega arith) h' in
    let same : min (min (used + 1) (2 ^ 64) + n) (2 ^ 64) ≡ min (used + suc n) (2 ^ 64) =
      omega arith in
    rw same at rest

-- After any number `n` of calls an allocator that was given a first 64-bit reception id hands out
-- that id plus `n`, as long as this is a 64-bit value; from then on every call reports the overflow.
allocate_receptions-next :
    (first_transmission first n : ℕ)
    → first < 2 ^ 64
    → (next_reception_id
        (allocate_receptions n (allocator_with_receptions first_transmission first))).1
      ≡ (if leb (2 ^ 64) (first + n) then err reception_ids_gone else ok (first + n))
allocate_receptions-next first_transmission first n h =
    let start = allocator_with_receptions first_transmission first in
    let at = allocate_receptions-IsAt n first start (omega arith) (inl (refl, refl, omega arith)) in
    let (_, r) =
      next_reception_id_lem (allocate_receptions n start) (min (first + n) (2 ^ 64)) at in
    ground arith
