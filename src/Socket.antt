-- ===== src/Socket.antt =====
-- The sockets of include/s2e/QemuSocket.h and src/s2e/QemuSocket.cpp. What the system calls answer is
-- a script of replies for each call; a call without a reply left waits for ever. Characters and bytes
-- are natural numbers; lengths stay below 2^31, so that `int` holds them.
pub mod Receive
pub mod Send
pub mod Address
mod Tests
use s2e.Common.{
  ℕ, zero, suc, ◌+◌, ◌-◌, ◌^◌, ◌≡◌, Bool, true, false, ◌||◌, List, [], ◌∷◌, ◌++◌, Option, none,
  some, length, take, drop, ltb, ◌==◌, if◌then◌else◌,
}

-- The answer of a system call: a result, or -1 with errno.
pub data Reply {ℓ} (A : Type ℓ) : Type ℓ where
  gives : A → Reply A
  failed : ℕ → Reply A

-- The exceptions of the file; `socket_error` carries errno, and `assertion_failed` stands for the end of
-- the program by a failed assertion.
pub data Exception : Type 0 where
  not_connected connection_closed connect_error timed_out no_port unknown_family assertion_failed :
      Exception
  socket_error : ℕ → Exception

pub data Outcome {ℓ} (A : Type ℓ) : Type ℓ where
  returns : A → Outcome A
  throws : Exception → Outcome A
  waits : Outcome A

-- QemuTcpSocket with the replies that select(), read() and write() will give, and the bytes that
-- write() took.
pub record Socket : Type 0 where
  pub is_connected : Bool
  pub selects : List (Reply ℕ)
  pub reads : List (Reply (List ℕ))
  pub writes : List (Reply ℕ)
  pub sent : List ℕ

-- EINTR
abbrev pub eintr : ℕ
eintr = 4

-- getAvailableBytes(timeout) from `repeat_select` on; `tries` is 2 - error_counter.
pub select_tries : Socket → List (Reply ℕ) → ℕ → Socket × Outcome ℕ
select_tries s replies zero = (s, throws (socket_error eintr))
select_tries s [] (suc tries) = (record s { selects = [] }, waits)
select_tries s (gives n ∷ replies) (suc tries) = (record s { selects = replies }, returns n)
select_tries s (failed e ∷ replies) (suc tries) =
    let again = select_tries (record s { selects = replies }) replies tries in
    if e == eintr then again else (record s { selects = replies }, throws (socket_error e))

pub get_available_bytes : Socket → Socket × Outcome ℕ
unfolding select_tries
get_available_bytes s =
    if s.is_connected then select_tries s s.selects 2 else (s, throws not_connected)

-- What follows the system call read() in read(); `again` is the jump to `repeat_read`.
pub after_read : Socket → Reply (List ℕ) → ℕ → Socket × Outcome (List ℕ) → Socket × Outcome (List ℕ)
after_read s (failed e) available again = if e == eintr then again else (s, throws (socket_error e))
after_read s (gives []) available again =
    if ltb 0 available
    then (record s { is_connected = false }, throws connection_closed)
    else (s, returns [])
after_read s (gives (b ∷ bs)) available again = (s, returns (b ∷ bs))

-- read(buffer, length, timeout) from `repeat_read` on; the bytes are those in the buffer.
pub read_tries : Socket → ℕ → Socket × Outcome (List ℕ)
unfolding after_read
read_tries s zero = (s, throws (socket_error eintr))
read_tries s (suc tries) =
    let (s1, available) = get_available_bytes s in
    let again = read_tries (record s1 { reads = drop 1 s1.reads }) tries in
    elim available [
      | throws e ↦ (s1, throws e)
      | waits ↦ (s1, waits)
      | returns n ↦ if ltb n 1 then (s1, returns []) else elim s1.reads [
        | [] ↦ (s1, waits)
        | reply ∷ reads ↦ after_read (record s1 { reads = reads }) reply n again
      ]
    ]

pub read : Socket → Socket × Outcome (List ℕ)
unfolding read_tries
read s = read_tries s 2

-- The loop of write(buffer, length); `rest` is what is left of the buffer, and `written` is writtenLen,
-- which the length is set to at the end.
pub write_loop : Socket → ℕ → List ℕ → List (Reply ℕ) → Socket × Outcome ℕ
write_loop s written rest [] = (record s { writes = [] }, waits)
write_loop s written rest (failed e ∷ replies) =
    (record s { writes = replies }, throws (socket_error e))
write_loop s written rest (gives n ∷ replies) =
    let s1 = record s { writes = replies; sent = s.sent ++ take n rest } in
    let more = write_loop s1 (written + n) (drop n rest) replies in
    if n == length rest then (s1, returns (written + n)) else more

-- write(buffer, length), which returns the length that it sets.
pub write : Socket → List ℕ → Socket × Outcome ℕ
unfolding write_loop
write s buffer =
    if s.is_connected then write_loop s 0 buffer s.writes else (s, throws not_connected)

-- TcpStreamBuffer: the characters between pbase() and pptr(), those between gptr() and egptr(), and
-- m_bufferSize. The put area has one character less than the buffer.
pub record StreamBuffer : Type 0 where
  pub pending : List ℕ
  pub incoming : List ℕ
  pub front : ℕ
  pub buffer_size : ℕ
  pub sock : Socket

-- What overflow(c) does once write() of todoLength bytes is over.
pub after_write : StreamBuffer → ℕ → Socket × Outcome ℕ → StreamBuffer × Outcome (Unit {0})
after_write b todo (s, returns n) =
    if todo == n
    then (record b { pending = []; sock = s }, returns tt)
    else (record b { sock = s }, throws assertion_failed)
after_write b todo (s, throws e) = (record b { sock = s }, throws e)
after_write b todo (s, waits) = (record b { sock = s }, waits)

-- overflow(c), where `none` is EOF.
pub overflow : StreamBuffer → Option ℕ → StreamBuffer × Outcome (Unit {0})
unfolding after_write
overflow b c =
    let todo = b.pending ++ elim c [ none ↦ [] | some x ↦ x ∷ [] ] in
    after_write b (length todo) (write b.sock todo)

-- sync()
pub sync : StreamBuffer → StreamBuffer × Outcome (Unit {0})
sync b = overflow b none

-- sputc(c) of std::streambuf, which calls overflow() where the put area is full.
pub sputc : StreamBuffer → ℕ → StreamBuffer × Outcome (Unit {0})
sputc b c =
    if ltb (length b.pending) (b.buffer_size - 1)
    then (record b { pending = b.pending ++ (c ∷ []) }, returns tt)
    else overflow b (some c)

-- An int as 32 bits: EOF is -1, and a char is signed.
abbrev pub eof : ℕ
eof = 2 ^ 32 - 1

abbrev pub char_to_int : ℕ → ℕ
char_to_int c = if ltb c 128 then c else 2 ^ 32 + c - 256

-- std::char_traits<char>::not_eof
abbrev pub not_eof : ℕ → ℕ
not_eof x = if x == eof then 0 else x

-- What underflow() does once read() is over; `front` is the first character of m_inBuffer, which a
-- read of nothing leaves there.
pub after_input : StreamBuffer → Socket × Outcome (List ℕ) → StreamBuffer × Outcome ℕ
after_input b (s, throws connection_closed) = (record b { sock = s }, returns eof)
after_input b (s, throws e) = (record b { sock = s }, throws e)
after_input b (s, waits) = (record b { sock = s }, waits)
after_input b (s, returns []) =
    (record b { incoming = []; sock = s }, returns (not_eof (char_to_int b.front)))
after_input b (s, returns (c ∷ cs)) =
    (record b { incoming = c ∷ cs; front = c; sock = s }, returns (not_eof (char_to_int c)))

-- underflow(), with the int that it returns.
pub underflow : StreamBuffer → StreamBuffer × Outcome ℕ
unfolding after_input
underflow b = if ltb 0 (length b.incoming) then (b, returns 0) else after_input b (read b.sock)

-- The place of the last ':' in SocketAddress::parseAndResolve(): host and port.
pub split_address : List ℕ → Outcome (List ℕ × List ℕ)
split_address [] = throws no_port
split_address (c ∷ cs) =
    let rest = split_address cs in
    elim rest [
      | returns (host, port) ↦ returns (c ∷ host, port)
      | throws e ↦ if c == 58 then returns ([], cs) else throws e
      | waits ↦ waits
    ]

-- A resolved address with what socket() and connect(), or bind(), answer for it.
pub record Candidate : Type 0 where
  pub address : ℕ
  pub socket : Option ℕ
  pub reachable : Bool

-- One round of the loop in QemuTcpSocket(remote_address), with what the later ones come to.
pub try_one : Option ℕ → Bool → ℕ → List ℕ × Outcome (ℕ × ℕ) → List ℕ × Outcome (ℕ × ℕ)
try_one none reachable address rest = rest
try_one (some sock) true address rest = ([], returns (sock, address))
try_one (some sock) false address (closed, out) = (sock ∷ closed, out)

-- The loop of QemuTcpSocket(remote_address): the sockets that it closes, and the one it keeps with
-- its address.
pub connect : List Candidate → List ℕ × Outcome (ℕ × ℕ)
unfolding try_one
connect [] = ([], throws connect_error)
connect (c ∷ cs) = let rest = connect cs in try_one c.socket c.reachable c.address rest

-- One round of the loop in QemuTcpServerSocket(bind_address, backlog), with what the later ones come
-- to; the last argument is what listen() answers.
try_bind :
    Option ℕ → Bool → ℕ → Reply (Unit {0}) → List ℕ × Outcome (ℕ × ℕ) → List ℕ × Outcome (ℕ × ℕ)
try_bind none bound address listens rest = rest
try_bind (some sock) false address listens (closed, out) = (sock ∷ closed, out)
try_bind (some sock) true address (gives _) rest = ([], returns (sock, address))
try_bind (some sock) true address (failed e) rest = ([], throws (socket_error e))

-- The loop of QemuTcpServerSocket(bind_address, backlog).
pub serve : List (Candidate × Reply (Unit {0})) → List ℕ × Outcome (ℕ × ℕ)
unfolding try_bind
serve [] = ([], throws connect_error)
serve ((c, listens) ∷ cs) =
    let rest = serve cs in try_bind c.socket c.reachable c.address listens rest

-- The family of an accepted connection's address.
pub data Family : Type 0 where
  inet inet6 unknown : Family

-- The wait for a connection in accept(), with the answer of select().
wait_for : Reply ℕ → Outcome (Unit {0})
wait_for (failed e) = throws (socket_error e)
wait_for (gives n) = if n == 0 then throws timed_out else returns tt

-- accept() from the system call on.
accept_now : Socket → Reply (ℕ × Family) → Socket × Outcome ℕ
accept_now s (failed e) = (s, throws (socket_error e))
accept_now s (gives (sock, inet)) = (record s { is_connected = true }, returns sock)
accept_now s (gives (sock, inet6)) = (record s { is_connected = true }, returns sock)
accept_now s (gives (sock, unknown)) = (s, throws unknown_family)

-- accept(sock, timeout), with the answer of select() unless the timeout is -1.
pub accept : Socket → Option (Reply ℕ) → Reply (ℕ × Family) → Socket × Outcome ℕ
unfolding wait_for accept_now
accept s none accepted = accept_now s accepted
accept s (some selected) accepted = elim (wait_for selected) [
  | returns _ ↦ accept_now s accepted
  | throws e ↦ (s, throws e)
  | waits ↦ (s, waits)
]
