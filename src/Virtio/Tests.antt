-- ===== src/Virtio/Tests.antt =====
-- The descriptors of kernel/virtio_disk.c at concrete inputs: tests of the model, and the theorems
-- applied.
use mp.Prelude.{◌>>=◌, ℕ, ◌≡◌, refl, true, false, ◌==◌, if◌then◌else◌, Option, none, some, ok}
use mp.Virtio.{
  Ring, alloc3_desc, alloc_desc, alloc_second, alloc_third, find_desc, free_desc, request,
}
use mp.Virtio.Request.{request_lem}

-- All descriptors are free.
abbrev idle : Ring
idle = record { free = λ i. true; desc = λ i. record { addr = 0; len = 0; flags = 0; next = 0 } }

-- Two descriptors are free.
abbrev busy : Ring
busy = record idle { free = λ i. if i == 3 then true else if i == 5 then true else false }

-- Another request has descriptor 0.
abbrev shared : Ring
shared = record idle { free = λ i. if i == 0 then false else true }

first_three : (r : Ring) × (alloc3_desc idle ≡ ok (some (0, 1, 2), r))
unfolding alloc3_desc alloc_second alloc_third alloc_desc find_desc
first_three = (_, refl)

too_few : (r : Ring) × (alloc3_desc busy ≡ ok (none, r)) × (r.free 3 ≡ true) × (r.free 5 ≡ true)
unfolding alloc3_desc alloc_second alloc_third alloc_desc find_desc free_desc ◌>>=◌
too_few = (_, refl, refl, refl)

request_lem_example :
    (r : Option (ℕ × ℕ × ℕ)) × (q' : Ring) × (request true 64 128 192 shared ≡ ok (r, q'))
    × ((i : ℕ) → q'.free i ≡ shared.free i)
    × ((i : ℕ) → shared.free i ≡ false → q'.desc i ≡ shared.desc i)
request_lem_example = request_lem true 64 128 192 shared
