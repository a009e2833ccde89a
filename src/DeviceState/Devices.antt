-- ===== src/DeviceState/Devices.antt =====
-- The numbers of block devices.
use s2e.Common.{
  ℕ, zero, suc, ◌+◌, ◌<◌, ◌≡◌, refl, ap, false, List, [], ◌∷◌, some, get_elem?, arith, length, ◌==◌,
  ==_iff, ==_refl, Bool-cases, inl, inr,
}
use s2e.DeviceState.{AddressSpace, DeviceState, block_device_id, read_sectors, read_sector}

-- The device stands under its number, which a second call finds again without a change, and the
-- devices that were there before keep theirs.
pub record IsNumbered (devs : List ℕ) (dev : ℕ) (devs' : List ℕ) (i : ℕ) : Type 0 where
  pub found : get_elem? devs' i ≡ some dev
  pub again : block_device_id devs' dev ≡ (devs', i)
  pub kept : (j : ℕ) → j < length devs → get_elem? devs' j ≡ get_elem? devs j

IsNumbered-later :
    (blkdev dev : ℕ) (devs devs' : List ℕ) (i : ℕ)
    → (blkdev == dev) ≡ false
    → IsNumbered devs dev devs' i
    → IsNumbered (blkdev ∷ devs) dev (blkdev ∷ devs') (i + 1)
unfolding block_device_id
IsNumbered-later blkdev dev devs devs' i e v =
    let up : i + 1 ≡ suc i = omega arith in
    record { found = rw up v.found; again = rw (e, v.again) refl; kept = kept }
  where
    kept :
        (j : ℕ) → j < suc (length devs) → get_elem? (blkdev ∷ devs') j ≡ get_elem? (blkdev ∷ devs) j
    kept zero l = refl
    kept (suc j) l = v.kept j (omega arith)

-- getBlockDeviceId() gives the index of the device in the list, at whose end it puts a device that it
-- does not know. Afterwards the device stands under that number, each device that had a number
-- keeps it, and to ask again gives the same number and changes nothing.
pub block_device_id-IsNumbered :
    (devs : List ℕ) (dev : ℕ)
    → IsNumbered devs dev (block_device_id devs dev).0 (block_device_id devs dev).1
unfolding block_device_id
block_device_id-IsNumbered [] dev = record {
  found = refl;
  again = rw (==_refl dev) refl;
  kept = λ j l. absurd (omega arith);
}
block_device_id-IsNumbered (blkdev ∷ devs) dev = elim (Bool-cases (blkdev == dev)) [
  | inl e ↦
      let same : blkdev ≡ dev = (==_iff blkdev dev).0 e in
      rw e (record { found = ap some same; again = rw e refl; kept = λ j l. refl })
  | inr e ↦ rw e (
      IsNumbered-later blkdev dev devs (block_device_id devs dev).0 (block_device_id devs dev).1 e
        (block_device_id-IsNumbered devs dev))
]

pub block_device_id-again :
    (devs : List ℕ) (dev : ℕ)
    → block_device_id (block_device_id devs dev).0 dev ≡ block_device_id devs dev
block_device_id-again devs dev = (block_device_id-IsNumbered devs dev).again

-- The int product that should be the 64 GB between two devices wraps round to 0: the sectors of all
-- block devices have the same addresses, so that what is written to one device is read from every
-- other.
pub read_sector_of_other {ℓ} :
    {S : Type ℓ} (K : AddressSpace S) (d : DeviceState S) (bs other sector n : ℕ)
    → (read_sector K d other sector n).1 ≡ (read_sector K d bs sector n).1
unfolding read_sector
read_sector_of_other K d bs other sector n =
    ap (λ b. read_sectors K d.device_state b sector n) (omega arith)
