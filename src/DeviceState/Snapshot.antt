-- ===== src/DeviceState/Snapshot.antt =====
-- saveDeviceState() and getBuffer() together.
use s2e.Common.{
  append-nil, append_assoc, ℕ, ◌+◌, ◌-◌, ◌%◌, ◌^◌, ◌≤◌, ◌<◌, ◌≡◌, ◌≢◌, refl, sym, ap, ◌∙◌, ◌>>=◌,
  true, List, [], ◌∷◌, ◌++◌, none, some, arith, length, take, drop, replicate, length-append,
  length-replicate, ok, le→leb, le→ltb, ==_ne,
}
use s2e.DeviceState.{
  DeviceState, save, put_all, put_buffer, get_buffer, allocate_buffer, init_first_snapshot,
}
use s2e.DeviceState.Buffer.{
  joined, calls_from, take-append, take-length, drop-length, drop_exact, write_at-append, take_all,
  drop-replicate, drop-drop, length-drop,
}

pub length-joined :
    (buf : List ℕ) (bufs : List (List ℕ))
    → length (joined (buf ∷ bufs)) ≡ length buf + length (joined bufs)
length-joined buf bufs = length-append buf (joined bufs)

pub joined-append : (xs ys : List (List ℕ)) → joined (xs ++ ys) ≡ joined xs ++ joined ys
joined-append [] ys = refl
joined-append (x ∷ xs) ys =
    ap (λ t. x ++ t) (joined-append xs ys) ∙ sym (append_assoc x (joined xs) (joined ys))

module _ {ℓ} {S : Type ℓ} (junk : ℕ) (d : DeviceState S) where
  abbrev with_state : List ℕ → DeviceState S
  with_state b = record d { state_buffer = some b }

  -- Later snapshots: the calls write over the buffer from the end of `front` on.
  over :
      (front back : List ℕ) (bufs : List (List ℕ))
      → length (joined bufs) ≤ length back
      → put_all junk (with_state (front ++ back)) (calls_from (length front) bufs)
        ≡ ok (with_state (front ++ (joined bufs ++ drop (length (joined bufs)) back)))
  unfolding put_all put_buffer
  over front back [] h = refl
  over front back (buf ∷ bufs) h =
      let fits : length buf ≤ length back = omega (arith, length-joined buf bufs) in
      let rest = drop (length buf) back in
      let step =
        over (front ++ buf) rest bufs
          (omega (arith, length-joined buf bufs, length-drop (length buf) back)) in
      rw
        (
          write_at-append front back buf fits,
          ← append_assoc front buf rest,
          ← length-append front buf,
          step,
        )
        (ap (λ b. ok (with_state b))
          (append_assoc front buf (joined bufs ++ drop (length (joined bufs)) rest)
            ∙ ap (λ t. front ++ t)
                (sym (append_assoc buf (joined bufs) (drop (length (joined bufs)) rest))
                  ∙ ap (λ t. (buf ++ joined bufs) ++ t)
                      (drop-drop (length buf) (length (joined bufs)) back
                        ∙ ap (λ k. drop k back) (sym (length-joined buf bufs))))))

  abbrev with_temp : List ℕ → DeviceState S
  with_temp t = record d { state_buffer = none; temp_buffer = t; temp_size = length t }

  -- The first snapshot: the calls append to the scratch buffer, which grows.
  allocated :
      (t buf : List ℕ)
      → length t + length buf < 2 ^ 32
      → allocate_buffer junk (with_temp t) ((length t + length buf) % 2 ^ 32) ≡ record d {
        state_buffer = none;
        temp_buffer = t ++ replicate (length buf) junk;
        temp_size = length t + length buf;
      }
  unfolding allocate_buffer
  allocated t buf small =
      let e : (length t + length buf) % 2 ^ 32 ≡ length t + length buf = omega arith in
      let more : length t + length buf - length t ≡ length buf = omega arith in
      rw (e, le→ltb (length t + length buf) (length t) (omega arith), more, take_all t (length buf))

  append_one :
      (t buf : List ℕ)
      → length t + length buf < 2 ^ 32
      → put_buffer junk (with_temp t) buf (length t) ≡ ok (with_temp (t ++ buf), length buf)
  unfolding put_buffer allocate_buffer
  append_one t buf small = rw (
    allocated t buf small,
    write_at-append t (replicate (length buf) junk) buf
        (omega (arith, length-replicate (length buf) junk)),
    drop-replicate (length buf) junk,
    append-nil buf,
    length-append t buf,
  )

  append :
      (t : List ℕ) (bufs : List (List ℕ))
      → length t + length (joined bufs) < 2 ^ 32
      → put_all junk (with_temp t) (calls_from (length t) bufs) ≡ ok (with_temp (t ++ joined bufs))
  unfolding put_all
  append t [] small = ap (λ b. ok (with_temp b)) (sym (append-nil t))
  append t (buf ∷ bufs) small =
      rw
        (
          append_one t buf (omega (arith, length-joined buf bufs)),
          ← length-append t buf,
          append (t ++ buf) bufs (omega (arith, length-joined buf bufs, length-append t buf)),
        )
        (ap (λ b. ok (with_temp b)) (append_assoc t buf (joined bufs)))

module _ {ℓ} {S : Type ℓ} (junk : ℕ) (d : DeviceState S) where
  -- No state has a snapshot.
  abbrev pub no_snapshot : DeviceState S
  no_snapshot = record d { state_buffer = none; temp_buffer = []; temp_size = 0; final_size = 0 }

  -- The state with the first snapshot.
  abbrev pub with_snapshot : List ℕ → DeviceState S
  with_snapshot b = record d {
    state_buffer = some b;
    temp_buffer = [];
    temp_size = 0;
    final_size = length b;
  }

  first_put :
      (bufs : List (List ℕ))
      → length (joined bufs) < 2 ^ 32
      → put_all junk no_snapshot (calls_from 0 bufs)
        ≡ ok (record no_snapshot { temp_buffer = joined bufs; temp_size = length (joined bufs) })
  first_put bufs small = append junk (record d { final_size = 0 }) [] bufs (omega arith)

  -- Where no state has a snapshot yet, calls of putBuffer() that write `bufs` one after the other,
  -- less than 4 GB and not nothing, and initFirstSnapshot() then fail no assertion and stay within
  -- the buffers: the snapshot is exactly those bytes, and getBuffer() at the place of any of the
  -- buffers returns it whole.
  pub first_snapshot :
      (front : List (List ℕ)) (buf : List ℕ) (back : List (List ℕ))
      → length (joined (front ++ (buf ∷ back))) ≢ 0
      → length (joined (front ++ (buf ∷ back))) < 2 ^ 32
      → ((put_all junk no_snapshot (calls_from 0 (front ++ (buf ∷ back))) >>= init_first_snapshot)
          ≡ ok (with_snapshot (joined (front ++ (buf ∷ back)))))
        × (get_buffer
              (with_snapshot (joined (front ++ (buf ∷ back))))
              (length (joined front))
              (length buf)
            ≡ ok (buf, length buf))
  unfolding init_first_snapshot get_buffer
  first_snapshot front buf back some_bytes small =
      let all = joined (front ++ (buf ∷ back)) in
      let split : all ≡ joined front ++ (buf ++ joined back) = joined-append front (buf ∷ back) in
      let size : length all ≡ length (joined front) + (length buf + length (joined back)) =
        ap length split
        ∙ length-append (joined front) (buf ++ joined back)
        ∙ ap (λ n. length (joined front) + n) (length-append buf (joined back)) in
      (
        rw (
          first_put (front ++ (buf ∷ back)) small,
          ==_ne (length all) 0 some_bytes,
          take-length all,
        ),
        rw
            (
              le→leb (length (joined front) + length buf) (length all) (omega arith),
              le→leb (length (joined front)) (length all) (omega arith),
              le→leb (length (joined front) + length buf) (length all) (omega arith),
            )
            (ap (λ b. ok (b, length buf))
              (ap (λ t. take (length buf) (drop (length (joined front)) t)) split
                ∙ ap (take (length buf)) (drop_exact (joined front) (buf ++ joined back))
                ∙ take-append buf (joined back))),
      )

  -- A later snapshot of the same size is exactly the bytes of its calls.
  pub later_snapshot :
      (old : List ℕ) (bufs : List (List ℕ))
      → length (joined bufs) ≡ length old
      → length old ≢ 0
      → save junk (record (with_snapshot old) { mem_file = true }) (calls_from 0 bufs)
        ≡ ok (record (with_snapshot (joined bufs)) { mem_file = true })
  unfolding save init_first_snapshot
  later_snapshot old bufs same some_bytes = rw (
    over junk (record (with_snapshot old) { mem_file = true }) [] old bufs (omega arith),
    same,
    drop-length old,
    append-nil (joined bufs),
    ==_ne (length old) 0 some_bytes,
  )
