-- ===== src/DeviceState/Tests.antt =====
-- Runs of the device state over a store of objects that is a function.
use s2e.Common.{
  ℕ, ◌≡◌, refl, arith, true, false, List, [], ◌∷◌, Option, none, some, replicate, ok, ◌>>=◌, ◌==◌,
  ==_refl, ==_ne, if◌then◌else◌,
}
use s2e.DeviceState.{
  AddressSpace, DeviceState, put_all, get_buffer, init_first_snapshot, block_device_id,
  block_device_start, write_sector, read_sector,
}
use s2e.DeviceState.Buffer.{calls_from}
use s2e.DeviceState.Snapshot.{no_snapshot, with_snapshot, first_snapshot}
use s2e.DeviceState.Sectors.{Outside, read_sector-write_sector}

abbrev Objects : Type 0
Objects = ℕ → Option (List ℕ)

abbrev objects : AddressSpace Objects
objects = record {
  find_object = λ s a. s a;
  bind_object = λ s a bytes b. if a == b then some bytes else s b;
  find-bind_self = λ s a bytes. rw (==_refl a);
  find-bind_ne = λ s a b bytes ne. rw (==_ne a b ne);
}

abbrev start : DeviceState Objects
start = record {
  devices = [];
  devices_inited = false;
  temp_buffer = [];
  temp_size = 0;
  final_size = 0;
  block_devices = 70 ∷ 71 ∷ [];
  state_buffer = none;
  mem_file = false;
  device_state = λ a. none;
}

abbrev saved : DeviceState Objects
saved = record start { state_buffer = some (1 ∷ 2 ∷ 3 ∷ []); final_size = 3; mem_file = true }

unknown_sector_run : (read_sector objects start 71 5 2).1 ≡ ([], 0)
unfolding read_sector
unknown_sector_run = refl

new_device_run : block_device_id (70 ∷ 71 ∷ []) 72 ≡ (70 ∷ 71 ∷ 72 ∷ [], 2)
unfolding block_device_id
new_device_run = refl

first_snapshot_example :
    ((put_all 0 (no_snapshot 0 start) (calls_from 0 ((1 ∷ []) ∷ (2 ∷ 3 ∷ []) ∷ (4 ∷ []) ∷ []))
        >>= init_first_snapshot)
      ≡ ok (with_snapshot 0 start (1 ∷ 2 ∷ 3 ∷ 4 ∷ [])))
    × (get_buffer (with_snapshot 0 start (1 ∷ 2 ∷ 3 ∷ 4 ∷ [])) 1 2 ≡ ok (2 ∷ 3 ∷ [], 2))
first_snapshot_example =
    first_snapshot 0 start ((1 ∷ []) ∷ []) (2 ∷ 3 ∷ []) ((4 ∷ []) ∷ []) (omega arith) (omega arith)

read_sector-write_sector_example :
    (d' : DeviceState Objects) × (write_sector objects start 71 5 (replicate 1024 6) 2 ≡ ok d')
    × (read_sector objects d' 71 5 2 ≡ (d', (replicate 1024 6, 2)))
    × ((a : ℕ)
        → Outside objects (block_device_start start.block_devices 71) a 5 2
        → objects.find_object d'.device_state a ≡ objects.find_object start.device_state a)
read_sector-write_sector_example =
    read_sector-write_sector objects start 71 5 (replicate 1024 6) 2 refl (omega arith)
