-- ===== src/Socket/Tests.antt =====
-- Runs of the sockets.
use s2e.Common.{some, ℕ, ◌≡◌, refl, true, false, List, [], ◌∷◌, ◌++◌, none}
use s2e.Socket.{
  Reply, Family, inet6, gives, returns, Socket, write, StreamBuffer, sputc, overflow, sync,
  split_address, Candidate,
}
use s2e.Socket.Receive.{connected}
use s2e.Socket.Send.{write-ends, after_put, put_chars, sync-put_chars}

-- A socket whose system call takes two bytes and then three.
abbrev ready : Socket
ready = connected [] [] (gives 2 ∷ gives 3 ∷ []) (1 ∷ [])

abbrev drained_socket : Socket
drained_socket = connected [] [] [] (1 ∷ 5 ∷ 6 ∷ 7 ∷ 8 ∷ 9 ∷ [])

abbrev text : List ℕ
text = 97 ∷ 58 ∷ 98 ∷ 58 ∷ 56 ∷ []

write_run : write ready (5 ∷ 6 ∷ 7 ∷ 8 ∷ 9 ∷ []) ≡ (drained_socket, returns 5)
unfolding write
write_run = refl

split_run : split_address text ≡ returns (97 ∷ 58 ∷ 98 ∷ [], 56 ∷ [])
unfolding split_address
split_run = refl

write-ends_example :
    (s' : Socket) × (write ready (5 ∷ 6 ∷ 7 ∷ 8 ∷ 9 ∷ []) ≡ (s', returns 5))
    × (s'.sent ≡ (1 ∷ []) ++ (5 ∷ 6 ∷ 7 ∷ 8 ∷ 9 ∷ []))
write-ends_example = write-ends ready (5 ∷ 6 ∷ 7 ∷ 8 ∷ 9 ∷ []) 1 (2 ∷ []) refl refl refl

abbrev buffer : List ℕ → Socket → StreamBuffer
buffer pending sock = record {
  pending = pending;
  incoming = [];
  front = 0;
  buffer_size = 2048;
  sock = sock;
}

put_run :
    put_chars (buffer (5 ∷ []) ready) (6 ∷ 7 ∷ 8 ∷ 9 ∷ [])
    ≡ (buffer (5 ∷ 6 ∷ 7 ∷ 8 ∷ 9 ∷ []) ready, returns tt)
unfolding put_chars sputc after_put
put_run = refl

sync_run : sync (buffer (5 ∷ 6 ∷ 7 ∷ 8 ∷ 9 ∷ []) ready) ≡ (buffer [] drained_socket, returns tt)
unfolding sync write overflow
sync_run = refl

sync-put_chars_example :
    ((buffer [] drained_socket).pending ≡ [])
    × (drained_socket.sent ≡ (1 ∷ []) ++ ((5 ∷ []) ++ (6 ∷ 7 ∷ 8 ∷ 9 ∷ [])))
sync-put_chars_example =
    sync-put_chars (buffer (5 ∷ []) ready) (buffer (5 ∷ 6 ∷ 7 ∷ 8 ∷ 9 ∷ []) ready)
      (buffer [] drained_socket) (6 ∷ 7 ∷ 8 ∷ 9 ∷ []) put_run sync_run

abbrev candidates : List Candidate
candidates =
    record { address = 1; socket = none; reachable = true }
    ∷ record { address = 2; socket = some 9; reachable = false }
    ∷ record { address = 3; socket = some 10; reachable = true }
    ∷ []

abbrev accepted : Reply (ℕ × Family)
accepted = gives (12, inet6)
