-- ===== src/DeviceState/Sectors.antt =====
-- writeSector() and readSector() together.
use s2e.Common.{
  ℕ, zero, suc, ◌+◌, ◌*◌, ◌^◌, ◌≤◌, ◌<◌, ◌≡◌, ◌≢◌, refl, sym, ap, ◌∙◌, List, some, arith, length,
  take, drop, length-take, ok, le→leb,
}
use s2e.DeviceState.{
  AddressSpace, DeviceState, sector_size, sector_address, block_device_id, block_device_start,
  write_sectors, write_sector, read_sectors, read_sector,
}
use s2e.DeviceState.Devices.{block_device_id-again}
use s2e.DeviceState.Buffer.{take-length, take-split, length-drop}

module _ {ℓ} {S : Type ℓ} (K : AddressSpace S) (bstart : ℕ) where
  -- The address is none of `n` sectors.
  abbrev pub Outside : ℕ → ℕ → ℕ → Type 0
  Outside a sector n = (i : ℕ) → i < n → sector_address bstart (sector + i) ≢ a

  abbrev Written : S → ℕ → List ℕ → ℕ → Type ℓ
  Written s sector buf n =
      (s' : S) × (write_sectors K s bstart sector buf n ≡ ok s')
      × (read_sectors K s' bstart sector n ≡ (take (n * sector_size) buf, n))
      × ((a : ℕ) → Outside a sector n → K.find_object s' a ≡ K.find_object s a)

  read_step :
      (n sector : ℕ) (buf : List ℕ) (s : S)
      → 512 ≤ length buf
      → K.find_object s (sector_address bstart sector) ≡ some (take 512 buf)
      → read_sectors K s bstart (sector + 1) n ≡ (take (n * 512) (drop 512 buf), n)
      → read_sectors K s bstart sector (suc n) ≡ (take (suc n * 512) buf, suc n)
  unfolding read_sectors
  read_step n sector buf s h first reads =
      let whole : length (take 512 buf) ≡ 512 = length-take 512 buf h in
      let same : take 512 (take 512 buf) ≡ take 512 buf =
        ap (λ k. take k (take 512 buf)) (sym whole) ∙ take-length (take 512 buf) in
      let count : n + 1 ≡ suc n = omega arith in
      let bytes : suc n * 512 ≡ 512 + n * 512 = omega arith in
      rw (read_sectors, first, reads, same, count, bytes)
        (ap (λ b. (b, suc n)) (sym (take-split 512 (n * 512) buf)))

  written :
      (n sector : ℕ) (buf : List ℕ) (s : S)
      → n * 512 ≤ length buf
      → bstart + (sector + n) * 512 ≤ 2 ^ 64
      → Written s sector buf n
  unfolding write_sectors read_sectors
  written zero sector buf s h room = (s, refl, refl, λ a o. refl)
  written (suc n) sector buf s h room =
      let here = sector_address bstart sector in
      let (s', run, reads, frame) =
        written n (sector + 1) (drop 512 buf) (K.bind_object s here (take 512 buf))
          (omega (arith, length-drop 512 buf)) (omega arith) in
      let apart : Outside here (sector + 1) n = λ i l. omega arith in
      let first : K.find_object s' here ≡ some (take 512 buf) =
        frame here apart ∙ K.find-bind_self s here (take 512 buf) in
      (
        s',
        rw (le→leb 512 (length buf) (omega arith), run),
        read_step n sector buf s' (omega arith) first reads,
        λ a o.
            frame a (λ i l. λ e. o (suc i) (omega arith) (omega arith))
            ∙ K.find-bind_ne s here a (take 512 buf) (λ e. o 0 (omega arith) (omega arith)),
      )

module _ {ℓ} {S : Type ℓ} (K : AddressSpace S) (d : DeviceState S) (bs sector : ℕ) where
  read_again :
      (s : S) (devs : List ℕ) (n : ℕ) (buf : List ℕ)
      → length buf ≡ n * 512
      → block_device_id devs bs ≡ (devs, (block_device_id d.block_devices bs).1)
      → read_sectors K s (block_device_start d.block_devices bs) sector n ≡ (take (n * 512) buf, n)
      → read_sector K (record d { block_devices = devs; device_state = s }) bs sector n
        ≡ (record d { block_devices = devs; device_state = s }, (buf, n))
  unfolding read_sector
  read_again s devs n buf size again reads = rw (again, reads, ← size, take-length buf) refl

  -- writeSector() of `n` sectors from a buffer of that length, on a device whose sectors end within
  -- the address space, reads no byte out of the buffer. readSector() of the same sectors of the
  -- device then returns the bytes and the number of sectors, and changes nothing; every object that
  -- is none of these sectors is left as it was.
  pub read_sector-write_sector :
      (buf : List ℕ) (n : ℕ)
      → length buf ≡ n * 512
      → block_device_start d.block_devices bs + (sector + n) * 512 ≤ 2 ^ 64
      → (d' : DeviceState S) × (write_sector K d bs sector buf n ≡ ok d')
        × (read_sector K d' bs sector n ≡ (d', (buf, n)))
        × ((a : ℕ)
            → Outside K (block_device_start d.block_devices bs) a sector n
            → K.find_object d'.device_state a ≡ K.find_object d.device_state a)
  unfolding write_sector read_sector
  read_sector-write_sector buf n size room =
      let bstart = block_device_start d.block_devices bs in
      let devs = (block_device_id d.block_devices bs).0 in
      let again : block_device_id devs bs ≡ block_device_id d.block_devices bs =
        block_device_id-again d.block_devices bs in
      let (s', run, reads, frame) =
        written K bstart n sector buf d.device_state (omega arith) room in
      (
        record d { block_devices = devs; device_state = s' },
        rw run,
        read_again s' devs n buf size again reads,
        frame,
      )
