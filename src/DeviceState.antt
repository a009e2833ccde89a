-- ===== src/DeviceState.antt =====
-- S2EDeviceState of include/s2e/S2EDeviceState.h and src/s2e/S2EDeviceState.cpp: the snapshot of
-- QEMU's devices that each execution state has, and its private copy of the disk sectors it wrote.
-- The static members and those of one object are one record. Bytes are natural numbers.
pub mod Buffer
pub mod Snapshot
pub mod Restore
pub mod Sectors
pub mod Devices
pub mod Faults
mod Tests
use s2e.Common.{
  ℕ, zero, suc, ◌+◌, ◌-◌, ◌*◌, ◌%◌, ◌^◌, ◌≡◌, ◌≢◌, Bool, true, false, not, ◌&&◌, ◌||◌, List, [],
  ◌∷◌, ◌++◌, Option, none, some, length, take, drop, replicate, ltb, leb, ◌==◌, if◌then◌else◌,
  assertion, out_of_bounds, null_pointer, Result, ok, fault, ◌>>=◌, ◌>>◌, check,
}

-- klee::AddressSpace, a library: objects of concrete bytes under their addresses. `bind_object` is
-- bindObject() of a new object, or getWriteable() of the one that is there, with the bytes written.
pub record AddressSpace {ℓ} (S : Type ℓ) : Type ℓ where
  pub find_object : S → ℕ → Option (List ℕ)
  pub bind_object : S → ℕ → List ℕ → S
  pub find-bind_self :
      (s : S) (a : ℕ) (bytes : List ℕ) → find_object (bind_object s a bytes) a ≡ some bytes
  pub find-bind_ne :
      (s : S) (a b : ℕ) (bytes : List ℕ)
      → a ≢ b
      → find_object (bind_object s a bytes) b ≡ find_object s b

abbrev pub sector_size : ℕ
sector_size = 512

-- BLOCK_DEV_AS: the product is one of `int`, which wraps round before it becomes a uint64_t.
abbrev pub block_dev_as : ℕ
block_dev_as = 1024 * 1024 * 1024 * 64 % 2 ^ 32

pub record DeviceState {ℓ} (S : Type ℓ) : Type ℓ where
  pub devices : List ℕ
  pub devices_inited : Bool
  pub temp_buffer : List ℕ
  pub temp_size : ℕ
  pub final_size : ℕ
  pub block_devices : List ℕ
  pub state_buffer : Option (List ℕ)
  pub mem_file : Bool
  pub device_state : S

-- ignoreList.count(deviceId)
abbrev pub member : ℕ → List ℕ → Bool
member x [] = false
member x (y ∷ ys) = (x == y) || member x ys

-- The loop over QEMU's devices in initDeviceState(): those not in the list of shared ones.
register : List ℕ → List ℕ → List ℕ → List ℕ
register ignore [] devices = devices
register ignore (se ∷ ses) devices =
    register ignore ses (if member se ignore then devices else devices ++ (se ∷ []))

-- memcpy to `&dest[pos]`.
pub write_at : List ℕ → ℕ → List ℕ → Result (List ℕ)
write_at dest pos buf =
    if leb (pos + length buf) (length dest)
    then ok (take pos dest ++ (buf ++ drop (pos + length buf) dest))
    else fault out_of_bounds

module _ {ℓ} {S : Type ℓ} where
  -- S2EDeviceState(state), for the object part.
  pub init : DeviceState S → S → DeviceState S
  init d s = record d { state_buffer = none; mem_file = false; device_state = s }

  -- initDeviceState(): `handlers` are the names of QEMU's devices, `shared` those on the command line
  -- with "ram", "block" and "cpu".
  pub init_device_state : DeviceState S → List ℕ → List ℕ → Result (DeviceState S)
  unfolding register
  init_device_state d handlers shared = do
    check (elim d.state_buffer [ none ↦ true | some _ ↦ false ])
    check (not d.mem_file)
    check (not d.devices_inited)
    ok (record d { devices = register shared handlers d.devices; devices_inited = true })

  -- The copy constructor, for the object part.
  pub copy : DeviceState S → Result (DeviceState S)
  copy d = elim d.state_buffer [
    | none ↦ fault assertion
    | some b ↦ do
      check (ltb 0 d.final_size)
      check (leb d.final_size (length b))
      ok (record d { state_buffer = some (take d.final_size b); mem_file = true })
  ]

  -- allocateBuffer(Sz); realloc leaves the byte `junk` in what it adds.
  pub allocate_buffer : ℕ → DeviceState S → ℕ → DeviceState S
  allocate_buffer junk d sz = if ltb sz d.temp_size then d else record d {
    temp_size = sz;
    temp_buffer = take sz d.temp_buffer ++ replicate (sz - length d.temp_buffer) junk;
  }

  -- putBuffer(buf, pos, size), where `size` is the length of `buf`.
  pub put_buffer : ℕ → DeviceState S → List ℕ → ℕ → Result (DeviceState S × ℕ)
  unfolding write_at allocate_buffer
  put_buffer junk d buf pos = elim d.state_buffer [
    | none ↦ do
      let d' = allocate_buffer junk d ((pos + length buf) % 2 ^ 32)
      bytes ← write_at d'.temp_buffer pos buf
      ok (record d' { temp_buffer = bytes }, length buf)
    | some b ↦ do
      bytes ← write_at b pos buf
      ok (record d { state_buffer = some bytes }, length buf)
  ]

  -- getBuffer(buf, pos, size): the bytes that it copies to the front of `buf`, and what it returns.
  pub get_buffer : DeviceState S → ℕ → ℕ → Result (List ℕ × ℕ)
  get_buffer d pos size = elim d.state_buffer [
    | none ↦ fault assertion
    | some b ↦
        let to_copy = if leb (pos + size) d.final_size then size else d.final_size - pos in
        if leb pos d.final_size && leb (pos + to_copy) (length b)
        then ok (take to_copy (drop pos b), size)
        else fault out_of_bounds
  ]

  -- initFirstSnapshot()
  pub init_first_snapshot : DeviceState S → Result (DeviceState S)
  init_first_snapshot d =
      let first = (do
        check (elim d.state_buffer [ none ↦ true | some _ ↦ false ])
        check (not (d.temp_size == 0))
        ok (record d {
          state_buffer = some (take d.temp_size d.temp_buffer);
          final_size = d.temp_size;
          temp_buffer = [];
          temp_size = 0;
        })) in
      if d.final_size == 0 then first else ok d

  -- The calls of putBuffer() that the devices and the flush of the file make.
  pub put_all : ℕ → DeviceState S → List (ℕ × List ℕ) → Result (DeviceState S)
  unfolding put_buffer
  put_all junk d [] = ok d
  put_all junk d ((pos, buf) ∷ calls) = do
    (d', _) ← put_buffer junk d buf pos
    put_all junk d' calls

  -- saveDeviceState(); its flush of m_memFile needs the file.
  pub save : ℕ → DeviceState S → List (ℕ × List ℕ) → Result (DeviceState S)
  save junk d calls = do
    if d.mem_file then ok tt else fault null_pointer
    d' ← put_all junk d calls
    init_first_snapshot d'

module _ {ℓ} {S : Type ℓ} where
  -- The calls of getBuffer() that loading the devices makes.
  get_all : DeviceState S → List (ℕ × ℕ) → Result (List (List ℕ))
  unfolding get_buffer
  get_all d [] = ok []
  get_all d ((pos, size) ∷ calls) = do
    (bytes, _) ← get_buffer d pos size
    rest ← get_all d calls
    ok (bytes ∷ rest)

  -- restoreDeviceState()
  pub restore : DeviceState S → List (ℕ × ℕ) → Result (List (List ℕ))
  unfolding get_all
  restore d calls = do
    check (not (d.final_size == 0))
    check (elim d.state_buffer [ none ↦ false | some _ ↦ true ])
    if d.mem_file then ok tt else fault null_pointer
    get_all d calls

-- getBlockDeviceId(dev): the list of devices after it, and the index.
pub block_device_id : List ℕ → ℕ → List ℕ × ℕ
block_device_id [] dev = (dev ∷ [], 0)
block_device_id (blkdev ∷ rest) dev =
    let (rest', i) = block_device_id rest dev in
    if blkdev == dev then (blkdev ∷ rest, 0) else (blkdev ∷ rest', i + 1)

-- getBlockDeviceStart(dev)
abbrev pub block_device_start : List ℕ → ℕ → ℕ
block_device_start devs dev = (block_device_id devs dev).1 * block_dev_as % 2 ^ 64

abbrev pub sector_address : ℕ → ℕ → ℕ
sector_address bstart sector = (bstart + sector * sector_size) % 2 ^ 64

module _ {ℓ} {S : Type ℓ} (K : AddressSpace S) where
  -- The loop of writeSector().
  pub write_sectors : S → ℕ → ℕ → List ℕ → ℕ → Result S
  write_sectors s bstart sector buf zero = ok s
  write_sectors s bstart sector buf (suc nb_sectors) =
      let rest =
        write_sectors (K.bind_object s (sector_address bstart sector) (take sector_size buf)) bstart
          (sector + 1) (drop sector_size buf) nb_sectors in
      if leb sector_size (length buf) then rest else fault out_of_bounds

  -- writeSector(bs, sector, buf, nb_sectors)
  pub write_sector : DeviceState S → ℕ → ℕ → List ℕ → ℕ → Result (DeviceState S)
  unfolding write_sectors block_device_id
  write_sector d bs sector buf nb_sectors = do
    let bstart = block_device_start d.block_devices bs
    s ← write_sectors d.device_state bstart sector buf nb_sectors
    ok (record d { block_devices = (block_device_id d.block_devices bs).0; device_state = s })

  -- The loop of readSector(): the bytes that it copies, and the count.
  pub read_sectors : S → ℕ → ℕ → ℕ → List ℕ × ℕ
  read_sectors s bstart sector zero = ([], 0)
  read_sectors s bstart sector (suc nb_sectors) =
      let (bytes, count) = read_sectors s bstart (sector + 1) nb_sectors in
      elim (K.find_object s (sector_address bstart sector)) [
        | none ↦ ([], 0)
        | some object ↦ (take sector_size object ++ bytes, count + 1)
      ]

  -- readSector(bs, sector, buf, nb_sectors)
  pub read_sector : DeviceState S → ℕ → ℕ → ℕ → DeviceState S × (List ℕ × ℕ)
  unfolding read_sectors block_device_id
  read_sector d bs sector nb_sectors = (
    record d { block_devices = (block_device_id d.block_devices bs).0 },
    read_sectors d.device_state (block_device_start d.block_devices bs) sector nb_sectors,
  )
