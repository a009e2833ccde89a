-- ===== src/Socket/Receive.antt =====
-- read() and underflow().
use s2e.Common.{ℕ, suc, ◌≤◌, ◌<◌, ◌≡◌, ◌≢◌, ◌⊎◌, ap, true, false, List, [], ◌∷◌, arith, ltb}
use s2e.Socket.{
  Reply, gives, failed, returns, throws, connection_closed, socket_error, Socket, select_tries,
  get_available_bytes, after_read, read_tries, read, StreamBuffer, after_input, underflow, not_eof,
  char_to_int,
}

-- A connected socket.
abbrev pub connected : List (Reply ℕ) → List (Reply (List ℕ)) → List (Reply ℕ) → List ℕ → Socket
connected selects reads writes sent = record {
  is_connected = true;
  selects = selects;
  reads = reads;
  writes = writes;
  sent = sent;
}

-- The stream's buffer over the socket, with nothing left to read.
abbrev pub drained : List ℕ → ℕ → ℕ → Socket → StreamBuffer
drained pending front size sock = record {
  pending = pending;
  incoming = [];
  front = front;
  buffer_size = size;
  sock = sock;
}

module _ (selects : List (Reply ℕ)) (reads : List (Reply (List ℕ))) (writes : List (Reply ℕ))
    (sent : List ℕ) where
  suc-ltb : (n : ℕ) → ltb (suc n) 1 ≡ false
  suc-ltb n = ground arith

  suc-pos : (n : ℕ) → ltb 0 (suc n) ≡ true
  suc-pos n = ground arith

  -- Where select() reports that the connected socket can be read, read() returns the bytes that the
  -- system call gives, at least one, and uses up the replies to it, also if select() and then the
  -- system call are interrupted once. Where the system call is interrupted twice, read() throws
  -- with EINTR; where it gives no bytes, read() throws, and the socket is no longer connected.
  pub read_branches :
      (n m b : ℕ) (bs : List ℕ)
      → (read (
            connected
              (failed 4 ∷ gives (suc n) ∷ gives (suc m) ∷ selects)
              (failed 4 ∷ gives (b ∷ bs) ∷ reads)
              writes
              sent)
          ≡ (connected selects reads writes sent, returns (b ∷ bs)))
        × (read (
              connected
                (failed 4 ∷ gives (suc n) ∷ gives (suc m) ∷ selects)
                (failed 4 ∷ failed 4 ∷ reads)
                writes
                sent)
            ≡ (connected selects reads writes sent, throws (socket_error 4)))
        × (read (connected (gives (suc n) ∷ selects) (gives [] ∷ reads) writes sent) ≡ (
          record (connected selects reads writes sent) { is_connected = false },
          throws connection_closed,
        ))
  unfolding read read_tries get_available_bytes select_tries after_read
  read_branches n m b bs =
      (rw (suc-ltb n, suc-ltb m), rw (suc-ltb n, suc-ltb m), rw (suc-ltb n, suc-pos n))

  read_once :
      (n c : ℕ) (cs : List ℕ)
      → read (connected (gives (suc n) ∷ selects) (gives (c ∷ cs) ∷ reads) writes sent)
        ≡ (connected selects reads writes sent, returns (c ∷ cs))
  unfolding read read_tries get_available_bytes select_tries after_read
  read_once n c cs = rw (suc-ltb n)

  -- Where bytes arrive, underflow() makes them the characters to be read. If the first of them is
  -- below 128, it returns that character, as the stream expects. The byte 0xFF is returned as 0, and
  -- the others from 128 on as negative numbers, where the stream expects an unsigned char.
  pub underflow_first :
      (pending : List ℕ) (front size n c : ℕ) (cs : List ℕ)
      → c < 256
      → (underflow (
            drained pending front size
              (connected (gives (suc n) ∷ selects) (gives (c ∷ cs) ∷ reads) writes sent))
          ≡ (
            record (drained pending front size (connected selects reads writes sent)) {
              incoming = c ∷ cs;
              front = c;
            },
            returns (not_eof (char_to_int c)),
          ))
        × ((c < 128) × (not_eof (char_to_int c) ≡ c) ⊎ (128 ≤ c) × (not_eof (char_to_int c) ≢ c))
  unfolding underflow after_input
  underflow_first pending front size n c cs small = (
    ap
        (after_input (
          drained pending front size
            (connected (gives (suc n) ∷ selects) (gives (c ∷ cs) ∷ reads) writes sent)))
        (read_once n c cs),
    ground arith,
  )
