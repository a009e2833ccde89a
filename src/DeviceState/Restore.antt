-- ===== src/DeviceState/Restore.antt =====
-- restoreDeviceState() after saveDeviceState().
use s2e.Common.{
  append_assoc, ℕ, ◌+◌, ◌≡◌, ◌≢◌, refl, sym, ap, ◌∙◌, true, List, [], ◌∷◌, ◌++◌, some, arith,
  length, length-append, ok, le→leb, ==_ne,
}
use s2e.DeviceState.{DeviceState, save, get_buffer, get_all, restore}
use s2e.DeviceState.Buffer.{joined, calls_from, take-append, drop_exact}
use s2e.DeviceState.Snapshot.{with_snapshot, later_snapshot}

module _ {ℓ} {S : Type ℓ} (junk : ℕ) (d : DeviceState S) where
  -- The places of the buffers.
  abbrev pub places_from : ℕ → List (List ℕ) → List (ℕ × ℕ)
  places_from pos [] = []
  places_from pos (buf ∷ bufs) = (pos, length buf) ∷ places_from (pos + length buf) bufs

  get_piece :
      (e : DeviceState S) (front buf rest : List ℕ)
      → e.state_buffer ≡ some (front ++ (buf ++ rest))
      → e.final_size ≡ length (front ++ (buf ++ rest))
      → get_buffer e (length front) (length buf) ≡ ok (buf, length buf)
  unfolding get_buffer
  get_piece e front buf rest held size =
      let all = length-append front (buf ++ rest) in
      let tail = length-append buf rest in
      rw (
        held,
        le→leb (length front + length buf) e.final_size (omega arith),
        le→leb (length front) e.final_size (omega arith),
        le→leb (length front + length buf) (length (front ++ (buf ++ rest))) (omega arith),
        drop_exact front (buf ++ rest),
        take-append buf rest,
      )

  get_pieces :
      (e : DeviceState S) (front : List ℕ) (bufs : List (List ℕ))
      → e.state_buffer ≡ some (front ++ joined bufs)
      → e.final_size ≡ length (front ++ joined bufs)
      → get_all e (places_from (length front) bufs) ≡ ok bufs
  unfolding get_all
  get_pieces e front [] held size = refl
  get_pieces e front (buf ∷ bufs) held size =
      let same = sym (append_assoc front buf (joined bufs)) in
      rw (
        get_piece e front buf (joined bufs) held size,
        ← length-append front buf,
        get_pieces e (front ++ buf) bufs (held ∙ ap some same) (size ∙ ap length same),
      )

  -- A later snapshot of the size of the first one: saveDeviceState() with calls that write `bufs` one
  -- after the other fails no assertion and stays within the buffer, and restoreDeviceState() with
  -- calls for the same pieces then reads exactly `bufs`.
  pub restore-save :
      (old : List ℕ) (bufs : List (List ℕ))
      → length (joined bufs) ≡ length old
      → length old ≢ 0
      → (d' : DeviceState S) × (save junk
            (record (with_snapshot junk d old) { mem_file = true })
            (calls_from 0 bufs)
          ≡ ok d')
        × (restore d' (places_from 0 bufs) ≡ ok bufs)
  unfolding restore
  restore-save old bufs same some_bytes = (
    record (with_snapshot junk d (joined bufs)) { mem_file = true },
    later_snapshot junk d old bufs same some_bytes,
    rw (
      ==_ne (length (joined bufs)) 0 (omega arith),
      get_pieces (record (with_snapshot junk d (joined bufs)) { mem_file = true }) [] bufs refl
          refl,
    ),
  )
