-- ===== src/Socket/Send.antt =====
-- write() and the put side of TcpStreamBuffer: no byte is lost, doubled or moved.
use s2e.Common.{
  append-nil, append_assoc, ℕ, zero, suc, ◌+◌, ◌-◌, ◌≡◌, refl, sym, ap, ◌∙◌, Bool, true, List, [],
  ◌∷◌, ◌++◌, arith, length, take, drop, ltb, ◌==◌, ==_iff, ==_ne, Bool-cases, inl, inr,
  if◌then◌else◌,
}
use s2e.Socket.{
  Reply, gives, failed, Outcome, returns, throws, waits, Socket, write_loop, write, not_connected,
  assertion_failed, StreamBuffer, after_write, overflow, sync, sputc,
}

take-drop : (n : ℕ) (xs : List ℕ) → take n xs ++ drop n xs ≡ xs
take-drop zero xs = refl
take-drop (suc n) [] = refl
take-drop (suc n) (x ∷ xs) = ap (λ t. x ∷ t) (take-drop n xs)

take-length : (xs : List ℕ) → take (length xs) xs ≡ xs
take-length [] = refl
take-length (x ∷ xs) = ap (λ t. x ∷ t) (take-length xs)

write_loop_lem :
    (s s' : Socket) (m l : ℕ) (rest : List ℕ) (replies : List (Reply ℕ))
    → write_loop s m rest replies ≡ (s', returns l)
    → s'.sent ≡ s.sent ++ rest
unfolding write_loop
write_loop_lem s s' m l rest [] h = absurd (cc (h))
write_loop_lem s s' m l rest (failed e ∷ replies) h = absurd (cc (h))
write_loop_lem s s' m l rest (gives n ∷ replies) h = elim (Bool-cases (n == length rest)) [
  | inl e ↦
      let whole : take n rest ≡ rest =
        ap (λ k. take k rest) ((==_iff n (length rest)).0 e) ∙ take-length rest in
      sym (ap (λ p. p.0.sent) (rw e at h)) ∙ ap (λ t. s.sent ++ t) whole
  | inr e ↦
      write_loop_lem (record s { writes = replies; sent = s.sent ++ take n rest }) s' (m + n) l
        (drop n rest) replies (rw e at h)
      ∙ append_assoc s.sent (take n rest) (drop n rest)
      ∙ ap (λ t. s.sent ++ t) (take-drop n rest)
]

-- What write() does by the state of the connection.
abbrev chosen : Socket → List ℕ → Bool → Socket × Outcome ℕ
chosen s buffer c = if c then write_loop s 0 buffer s.writes else (s, throws not_connected)

-- If write() returns, the socket took exactly the bytes of the buffer, in their order, in however many
-- pieces.
pub write-sent :
    (s s' : Socket) (buffer : List ℕ) (l : ℕ)
    → write s buffer ≡ (s', returns l)
    → s'.sent ≡ s.sent ++ buffer
unfolding write
write-sent s s' buffer l h = elim (Bool-cases s.is_connected) [
  | inl e ↦ write_loop_lem s s' 0 l buffer s.writes (sym (ap (chosen s buffer) e) ∙ h)
  | inr e ↦
      let k : (s, throws not_connected) ≡ (s', returns l) = sym (ap (chosen s buffer) e) ∙ h in
      absurd (cc k)
]

-- The lengths that the system call takes, each at least 1, and their sum.
abbrev pub answers : List ℕ → List (Reply ℕ)
answers [] = []
answers (n ∷ ns) = gives (suc n) ∷ answers ns

abbrev pub total : List ℕ → ℕ
total [] = 0
total (n ∷ ns) = suc n + total ns

length-drop : (n : ℕ) (xs : List ℕ) → length (drop n xs) ≡ length xs - n
length-drop zero xs = omega arith
length-drop (suc n) [] = omega arith
length-drop (suc n) (x ∷ xs) = omega (arith, length-drop n xs)

write_loop-ends :
    (s : Socket) (w : ℕ) (rest : List ℕ) (n : ℕ) (ns : List ℕ)
    → total (n ∷ ns) ≡ length rest
    → (s' : Socket) × (write_loop s w rest (answers (n ∷ ns)) ≡ (s', returns (w + length rest)))
unfolding write_loop
write_loop-ends s w rest n [] h =
    let s1 : Socket = record s { writes = []; sent = s.sent ++ take (suc n) rest } in
    let e : suc n ≡ length rest = omega arith in
    (s1, rw ((==_iff (suc n) (length rest)).1 e) (ap (λ l. (s1, returns (w + l))) e))
write_loop-ends s w rest n (m ∷ ns) h =
    let (s', run) =
      write_loop-ends (record s { writes = answers (m ∷ ns); sent = s.sent ++ take (suc n) rest })
        (w + suc n) (drop (suc n) rest) m ns (omega (arith, length-drop (suc n) rest)) in
    let all : w + suc n + length (drop (suc n) rest) ≡ w + length rest =
      omega (arith, length-drop (suc n) rest) in
    (s', rw (==_ne (suc n) (length rest) (omega arith)) (run ∙ ap (λ l. (s', returns l)) all))

-- A connected socket whose system call takes the buffer in pieces of at least one byte: write() comes
-- to an end and returns, with the length of the buffer as its length, and has sent the buffer.
pub write-ends :
    (s : Socket) (buffer : List ℕ) (n : ℕ) (ns : List ℕ)
    → s.is_connected ≡ true
    → s.writes ≡ answers (n ∷ ns)
    → total (n ∷ ns) ≡ length buffer
    → (s' : Socket) × (write s buffer ≡ (s', returns (length buffer)))
      × (s'.sent ≡ s.sent ++ buffer)
unfolding write
write-ends s buffer n ns on given size =
    let (s', run) = write_loop-ends s 0 buffer n ns size in
    let whole : write_loop s 0 buffer s.writes ≡ (s', returns (length buffer)) =
      ap (λ ws. write_loop s 0 buffer ws) given ∙ run ∙ ap (λ l. (s', returns l)) (omega arith) in
    (
      s',
      ap (chosen s buffer) on ∙ whole,
      write_loop_lem s s' 0 (length buffer) buffer s.writes whole,
    )

-- The calls of sputc() for the characters of an output, up to one that does not return.
unfoldable pub after_put :
    StreamBuffer
    → StreamBuffer × Outcome (Unit {0})
    → Outcome (Unit {0})
    → StreamBuffer × Outcome (Unit {0})
after_put b rest (returns _) = rest
after_put b rest (throws e) = (b, throws e)
after_put b rest waits = (b, waits)

unfoldable pub put_chars : StreamBuffer → List ℕ → StreamBuffer × Outcome (Unit {0})
unfolding after_put
put_chars b [] = (b, returns tt)
put_chars b (c ∷ cs) =
    let rest = put_chars (sputc b c).0 cs in after_put (sputc b c).0 rest (sputc b c).1

after_write_lem :
    (b b' : StreamBuffer) (todo : List ℕ) (r : Socket × Outcome ℕ)
    → write b.sock todo ≡ r
    → after_write b (length todo) r ≡ (b', returns tt)
    → (b'.pending ≡ []) × (b'.sock.sent ≡ b.sock.sent ++ todo)
unfolding after_write
after_write_lem b b' todo (s, returns l) e h = elim (Bool-cases (length todo == l)) [
  | inl same ↦
      let h' : (record b { pending = []; sock = s }, returns tt) ≡ (b', returns tt) =
        rw same at h in
      (
        sym (ap (λ p. p.0.pending) h'),
        sym (ap (λ p. p.0.sock.sent) h') ∙ write-sent b.sock s todo l e,
      )
  | inr other ↦
      let h' : (record b { sock = s }, throws assertion_failed) ≡ (b', returns tt) =
        rw other at h in
      absurd (cc h')
]
after_write_lem b b' todo (s, throws x) e h = absurd (cc h)
after_write_lem b b' todo (s, waits) e h = absurd (cc h)

-- sync() that returns has sent all pending characters.
sync_lem :
    (b b' : StreamBuffer)
    → sync b ≡ (b', returns tt)
    → (b'.pending ≡ []) × (b'.sock.sent ≡ b.sock.sent ++ b.pending)
unfolding sync overflow
sync_lem b b' h =
    let (empty, sent) =
      after_write_lem b b' (b.pending ++ []) (write b.sock (b.pending ++ [])) refl h in
    (empty, sent ∙ ap (λ t. b.sock.sent ++ t) (append-nil b.pending))

sputc_lem :
    (b b' : StreamBuffer) (c : ℕ)
    → sputc b c ≡ (b', returns tt)
    → b'.sock.sent ++ b'.pending ≡ b.sock.sent ++ (b.pending ++ (c ∷ []))
unfolding sputc overflow
sputc_lem b b' c h = elim (Bool-cases (ltb (length b.pending) (b.buffer_size - 1))) [
  | inl e ↦ sym (ap (λ p. p.0.sock.sent ++ p.0.pending) (rw e at h))
  | inr e ↦
      let (empty, sent) =
        after_write_lem b b' (b.pending ++ (c ∷ [])) (write b.sock (b.pending ++ (c ∷ []))) refl
          (rw e at h) in
      rw (empty, sent) (append-nil (b.sock.sent ++ (b.pending ++ (c ∷ []))))
]

after_sputc :
    (b b' : StreamBuffer) (c : ℕ) (cs : List ℕ) (r : StreamBuffer × Outcome (Unit {0}))
    → sputc b c ≡ r
    → after_put r.0 (put_chars r.0 cs) r.1 ≡ (b', returns tt)
    → (put_chars r.0 cs ≡ (b', returns tt)) × (sputc b c ≡ (r.0, returns tt))
unfolding after_put
after_sputc b b' c cs (b1, returns tt) e h = (h, e)
after_sputc b b' c cs (b1, throws x) e h = absurd (cc h)
after_sputc b b' c cs (b1, waits) e h = absurd (cc h)

put_chars_lem :
    (b b' : StreamBuffer) (cs : List ℕ)
    → put_chars b cs ≡ (b', returns tt)
    → b'.sock.sent ++ b'.pending ≡ b.sock.sent ++ (b.pending ++ cs)
unfolding put_chars
put_chars_lem b b' [] h =
    sym (ap (λ p. p.0.sock.sent ++ p.0.pending) h)
    ∙ ap (λ t. b.sock.sent ++ t) (sym (append-nil b.pending))
put_chars_lem b b' (c ∷ cs) h =
    let (more, here) = after_sputc b b' c cs (sputc b c) refl h in
    let b1 = (sputc b c).0 in
    put_chars_lem b1 b' cs more
    ∙ sym (append_assoc b1.sock.sent b1.pending cs)
    ∙ ap (λ t. t ++ cs) (sputc_lem b b1 c here)
    ∙ append_assoc b.sock.sent (b.pending ++ (c ∷ [])) cs
    ∙ ap (λ t. b.sock.sent ++ t) (append_assoc b.pending (c ∷ []) cs)

-- If all calls of sputc() for an output and then sync() return, the socket took exactly the characters
-- that were pending and those of the output, in their order, and none is pending.
pub sync-put_chars :
    (b b1 b2 : StreamBuffer) (cs : List ℕ)
    → put_chars b cs ≡ (b1, returns tt)
    → sync b1 ≡ (b2, returns tt)
    → (b2.pending ≡ []) × (b2.sock.sent ≡ b.sock.sent ++ (b.pending ++ cs))
sync-put_chars b b1 b2 cs put synced =
    let (empty, sent) = sync_lem b1 b2 synced in (empty, sent ∙ put_chars_lem b b1 cs put)
