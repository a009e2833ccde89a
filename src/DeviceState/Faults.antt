-- ===== src/DeviceState/Faults.antt =====
-- Where the snapshot code stops or runs out of its buffers, and the registration of devices.
use s2e.Common.{
  append-nil, append_assoc, ℕ, ◌+◌, ◌-◌, ◌≤◌, ◌<◌, ◌≡◌, refl, sym, true, false, List, [], ◌∷◌, ◌++◌,
  none, some, arith, length, length-take, take, drop, ok, fault, null_pointer, out_of_bounds,
  assertion, le→leb, Bool-cases, inl, inr, if◌then◌else◌, lt→leb,
}
use s2e.DeviceState.{
  DeviceState, member, register, init, copy, save, put_buffer, get_buffer, write_at,
  init_device_state,
}
use s2e.DeviceState.Buffer.{length-drop}

-- QEMU's devices that are not shared, in their order.
abbrev pub unshared : List ℕ → List ℕ → List ℕ
unshared ignore [] = []
unshared ignore (se ∷ ses) =
    if member se ignore then unshared ignore ses else se ∷ unshared ignore ses

register-eq-unshared :
    (ignore ses devices : List ℕ) → register ignore ses devices ≡ devices ++ unshared ignore ses
unfolding register
register-eq-unshared ignore [] devices = sym (append-nil devices)
register-eq-unshared ignore (se ∷ ses) devices = elim (Bool-cases (member se ignore)) [
  | inl e ↦ rw (e, register-eq-unshared ignore ses devices)
  | inr e ↦
      rw (e, register-eq-unshared ignore ses (devices ++ (se ∷ [])))
        (append_assoc devices (se ∷ []) (unshared ignore ses))
]

module _ {ℓ} {S : Type ℓ} where
  -- The constructor from an execution state opens no file for the snapshot, and only the copy
  -- constructor does: a new state can be saved by no calls, since the file is a null pointer, nor
  -- copied, since it has no snapshot.
  pub new_state_stuck :
      (d : DeviceState S) (s : S) (junk : ℕ) (calls : List (ℕ × List ℕ))
      → (save junk (init d s) calls ≡ fault null_pointer) × (copy (init d s) ≡ fault assertion)
  unfolding save init copy
  new_state_stuck d s junk calls = (refl, refl)

  -- Once a state has a snapshot, a call of putBuffer() that reaches beyond its end writes out of the
  -- buffer: nothing grows it, or tests the size.
  pub put_buffer_beyond :
      (d : DeviceState S) (b buf : List ℕ) (junk pos : ℕ)
      → d.state_buffer ≡ some b
      → length b < pos + length buf
      → put_buffer junk d buf pos ≡ fault out_of_bounds
  unfolding put_buffer write_at
  put_buffer_beyond d b buf junk pos e h = rw (e, write_at, lt→leb (pos + length buf) (length b) h)

  -- getBuffer() at the end of the snapshot copies only the bytes that are left, but returns the size
  -- that was asked for.
  pub get_buffer_short :
      (d : DeviceState S) (b : List ℕ) (pos size : ℕ)
      → d.state_buffer ≡ some b
      → length b ≡ d.final_size
      → pos ≤ d.final_size
      → d.final_size < pos + size
      → (bytes : List ℕ) × (get_buffer d pos size ≡ ok (bytes, size)) × (length bytes < size)
  unfolding get_buffer
  get_buffer_short d b pos size e whole lo hi =
      let rest : length (drop pos b) ≡ d.final_size - pos = omega (arith, length-drop pos b) in
      (
        take (d.final_size - pos) (drop pos b),
        rw
            (
              e,
              lt→leb (pos + size) d.final_size hi,
              le→leb pos d.final_size lo,
              le→leb (pos + (d.final_size - pos)) (length b) (omega arith),
            )
            refl,
        omega (arith, length-take (d.final_size - pos) (drop pos b) (omega arith)),
      )

  -- initDeviceState() of a state without a snapshot, where it was not run before, registers QEMU's
  -- devices that are not shared, in their order, behind those that are registered; to run it again
  -- fails an assertion.
  pub init_device_state-unshared :
      (d : DeviceState S) (handlers shared : List ℕ)
      → d.state_buffer ≡ none
      → d.mem_file ≡ false
      → d.devices_inited ≡ false
      → (d' : DeviceState S) × (init_device_state d handlers shared ≡ ok d')
        × (d'.devices ≡ d.devices ++ unshared shared handlers)
        × ((later others : List ℕ) → init_device_state d' later others ≡ fault assertion)
  unfolding init_device_state
  init_device_state-unshared d handlers shared e f g = (
    record d { devices = register shared handlers d.devices; devices_inited = true },
    rw (e, f, g),
    register-eq-unshared shared handlers d.devices,
    λ later others. rw (e, f),
  )
