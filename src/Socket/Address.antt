-- ===== src/Socket/Address.antt =====
-- parseAndResolve()'s split of an address, and the choice among the addresses.
use s2e.Common.{
  ℕ, ◌≡◌, ◌≢◌, ◌⊎◌, refl, ap, Bool, true, false, List, [], ◌∷◌, ◌++◌, Option, none, some, ◌==◌,
  ==_iff, ne_of_==, Bool-cases, inl, inr, if◌then◌else◌, zero, suc, arith,
}
use s2e.Socket.{
  Socket, Reply, gives, failed, Family, inet, inet6, unknown, accept, wait_for, accept_now,
  socket_error, unknown_family, timed_out, Outcome, returns, throws, waits, no_port, connect_error,
  split_address, try_one, Candidate, connect, Exception,
}

-- No character of the text is a colon.
abbrev pub NoColon : List ℕ → Type 0
NoColon [] = Unit {0}
NoColon (c ∷ cs) = (c ≢ 58) × NoColon cs

-- The split of a text, by what split_address() returns.
abbrev pub Split : List ℕ → Outcome (List ℕ × List ℕ) → Type 0
Split text (returns (host, port)) = (text ≡ host ++ (58 ∷ port)) × NoColon port
Split text (throws e) = (e ≡ no_port) × NoColon text
Split text waits = ⊥

Split-step :
    (c : ℕ) (cs : List ℕ) (rest : Outcome (List ℕ × List ℕ))
    → Split cs rest
    → Split (c ∷ cs) (elim rest [
      | returns (host, port) ↦ returns (c ∷ host, port)
      | throws e ↦ if c == 58 then returns ([], cs) else throws e
      | waits ↦ waits
    ])
Split-step c cs (returns (host, port)) (e, free) = (ap (λ t. c ∷ t) e, free)
Split-step c cs (throws x) (e, free) = elim (Bool-cases (c == 58)) [
  | inl colon ↦ rw colon (ap (λ k. k ∷ cs) ((==_iff c 58).0 colon), free)
  | inr other ↦ rw other (e, (ne_of_== c 58 other, free))
]
Split-step c cs waits v = absurd v

-- An address is split at its last colon, into a host that may hold colons and a port that holds none;
-- the exception for a missing port is thrown exactly where the address holds no colon.
pub split_address-Split : (text : List ℕ) → Split text (split_address text)
unfolding split_address
split_address-Split [] = (refl, tt)
split_address-Split (c ∷ cs) = Split-step c cs (split_address cs) (split_address-Split cs)

-- The sockets that the loop opens for the addresses before one that can be reached.
abbrev pub opened : List Candidate → List ℕ
opened [] = []
opened (c ∷ cs) = elim c.socket [ none ↦ opened cs | some sock ↦ sock ∷ opened cs ]

-- No address has a socket and can be reached.
abbrev pub Unreachable : List Candidate → Type 0
Unreachable [] = Unit {0}
Unreachable (c ∷ cs) = ((c.socket ≡ none) ⊎ (c.reachable ≡ false)) × Unreachable cs

-- The first candidate that has a socket and can be reached, and those before it.
pub record IsChosen (cs : List Candidate) (closed : List ℕ) (sock address : ℕ) : Type 0 where
  pub before : List Candidate
  pub found : Candidate
  pub later : List Candidate
  pub order : cs ≡ before ++ (found ∷ later)
  pub tried : Unreachable before
  pub kept : (found.socket ≡ some sock) × (found.reachable ≡ true) × (found.address ≡ address)
  pub released : closed ≡ opened before

abbrev pub Connected : List Candidate → List ℕ × Outcome (ℕ × ℕ) → Type 0
Connected cs (closed, returns (sock, address)) = IsChosen cs closed sock address
Connected cs (closed, throws e) = (e ≡ connect_error) × Unreachable cs × (closed ≡ opened cs)
Connected cs (closed, waits) = ⊥

-- One round of the loop.
module _ (c : Candidate) (cs : List Candidate) where
  -- The first address is passed over.
  passed_over :
      (closed all : List ℕ) (sock address : ℕ)
      → (c.socket ≡ none) ⊎ (c.reachable ≡ false)
      → (v : IsChosen cs closed sock address) → all ≡ opened (c ∷ v.before)
      → IsChosen (c ∷ cs) all sock address
  passed_over closed all sock address bad v released = record {
    before = c ∷ v.before;
    found = v.found;
    later = v.later;
    order = ap (λ t. c ∷ t) v.order;
    tried = (bad, v.tried);
    kept = v.kept;
    released = released;
  }

  round :
      (o : Option ℕ) (reachable : Bool) (rest : List ℕ × Outcome (ℕ × ℕ))
      → c.socket ≡ o
      → c.reachable ≡ reachable
      → Connected cs rest
      → Connected (c ∷ cs) (try_one o reachable c.address rest)
  unfolding try_one
  round none r (closed, returns (sock, address)) e f v =
      passed_over closed closed sock address (inl e) v (rw e v.released)
  round none r (closed, throws x) e f (x_is, bad, all) = (x_is, (inl e, bad), rw e all)
  round none r (closed, waits) e f v = absurd v
  round (some sock) true (closed, out) e f v = record {
    before = [];
    found = c;
    later = cs;
    order = refl;
    tried = tt;
    kept = (e, f, refl);
    released = refl;
  }
  round (some sock) false (closed, returns (s, address)) e f v =
      passed_over closed (sock ∷ closed) s address (inr f) v (rw e (ap (λ t. sock ∷ t) v.released))
  round (some sock) false (closed, throws x) e f (x_is, bad, all) =
      (x_is, (inr f, bad), rw e (ap (λ t. sock ∷ t) all))
  round (some sock) false (closed, waits) e f v = absurd v

-- The constructor of QemuTcpSocket takes the first address with a socket that can be connected, and
-- closes exactly the sockets that it opened for the addresses before. It throws exactly where there
-- is no such address, with all sockets closed.
pub connect-Connected : (cs : List Candidate) → Connected cs (connect cs)
unfolding connect
connect-Connected [] = (refl, tt, refl)
connect-Connected (c ∷ cs) =
    round c cs c.socket c.reachable (connect cs) refl refl (connect-Connected cs)

suc-ne : (n : ℕ) → (suc n == 0) ≡ false
suc-ne n = ground arith

given : (n : ℕ) (r : Reply ℕ) → some (gives (suc n)) ≡ some r → r ≡ gives (suc n)
given n r e = cc e

-- accept() connects the socket exactly where select(), if it is called, reports a connection, the
-- system call gives one, and its address is of a known family; otherwise it throws, and the socket
-- is as it was.
pub accept_outcome :
    (s : Socket) (selected : Option (Reply ℕ)) (accepted : Reply (ℕ × Family))
    → ((sock : ℕ) × (family : Family) × (accepted ≡ gives (sock, family))
        × (family ≢ unknown)
        × ((r : Reply ℕ) → selected ≡ some r → (n : ℕ) × (r ≡ gives (suc n)))
        × (accept s selected accepted ≡ (record s { is_connected = true }, returns sock)))
      ⊎ ((e : Exception) × (accept s selected accepted ≡ (s, throws e)))
unfolding accept wait_for accept_now
accept_outcome s none (failed e) = inr (socket_error e, refl)
accept_outcome s none (gives (sock, inet)) =
    inl (sock, inet, refl, (λ e. cc e), (λ r e. absurd (cc e)), refl)
accept_outcome s none (gives (sock, inet6)) =
    inl (sock, inet6, refl, (λ e. cc e), (λ r e. absurd (cc e)), refl)
accept_outcome s none (gives (sock, unknown)) = inr (unknown_family, refl)
accept_outcome s (some (failed e)) accepted = inr (socket_error e, refl)
accept_outcome s (some (gives zero)) accepted = inr (timed_out, refl)
accept_outcome s (some (gives (suc n))) (failed e) =
    inr (socket_error e, rw (accept, wait_for, suc-ne n))
accept_outcome s (some (gives (suc n))) (gives (sock, inet)) =
    inl (sock, inet, refl, (λ e. cc e), (λ r e. (n, given n r e)), rw (accept, wait_for, suc-ne n))
accept_outcome s (some (gives (suc n))) (gives (sock, inet6)) =
    inl (sock, inet6, refl, (λ e. cc e), (λ r e. (n, given n r e)), rw (accept, wait_for, suc-ne n))
accept_outcome s (some (gives (suc n))) (gives (sock, unknown)) =
    inr (unknown_family, rw (accept, wait_for, suc-ne n))
