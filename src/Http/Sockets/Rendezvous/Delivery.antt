-- ===== src/Http/Sockets/Rendezvous/Delivery.antt =====
-- The messages that a web socket (main.go) is told by server/block_listener.go while its connection
-- accepts them.
use fabric_byzantine.Base.{
  ℕ, zero, suc, ◌+◌, ◌-◌, ◌*◌, ◌≤◌, ◌≡◌, refl, ap, sym, ◌∙◌, append_one, append_none, String, Bool,
  true, List, [], ◌∷◌, ◌++◌, arith, length,
}
use fabric_byzantine.Http.Sockets.{all_accepted}
use fabric_byzantine.Http.Sockets.Rendezvous.{
  Sending, telling, sending, Receiving, waiting, writing, deleting, gone, Link, Side, send, receive,
  send_turn, receive_turn, move, moves, linked, moves-append,
}

-- The messages that are still to be written.
abbrev unsent : Sending → List String
unsent (telling ms) = ms
unsent (sending m ms) = m ∷ ms

abbrev held : Receiving → List String
held (writing m) = m ∷ []
held _ = []

abbrev Live : Receiving → Type 0
Live waiting = Unit
Live (writing m) = Unit
Live deleting = ⊥
Live gone = ⊥

-- The steps that are left.
abbrev to_send : Sending → ℕ
to_send (telling ms) = 3 * length ms
to_send (sending m ms) = 2 + 3 * length ms

abbrev cost : Sending → Receiving → ℕ
cost s r = to_send s + length (held r)

abbrev link : Sending → Receiving → List String → Link
link s r written = record { registered = true; sender = s; receiver = r; written = written }

-- Each side in turn.
abbrev pub rounds : ℕ → List Side
rounds zero = []
rounds (suc k) = send ∷ receive ∷ rounds k

module _ (write : String → Bool) where
  -- A link on which all messages are accepted, and nothing is lost or changes its place.
  abbrev Sound : List String → ℕ → Link → Type 0
  Sound all n l =
      (s : Sending) × (r : Receiving) × (written : List String) × (l ≡ link s r written)
      × Live r
      × (all_accepted write (held r ++ unsent s) ≡ true)
      × (written ++ (held r ++ unsent s) ≡ all)
      × (cost s r ≤ n)

  -- A write of a message that is accepted.
  write_parts :
      (s : Sending) (m : String) (written all : List String) (n : ℕ)
      → all_accepted write (m ∷ unsent s) ≡ true
      → written ++ m ∷ unsent s ≡ all
      → to_send s ≤ n
      → Sound all n (move write receive (link s (writing m) written))
  unfolding move receive_turn
  write_parts s m written all n ok whole le =
      let accepted : write m ≡ true = ground (arith, ok) in
      (
        s,
        waiting,
        written ++ m ∷ [],
        rw (accepted, receive_turn) refl,
        tt,
        ground (arith, ok, accepted),
        append_one written (unsent s) m ∙ whole,
        omega (arith, le),
      )

  -- One step keeps the link so.
  move_parts :
      (x : Side) (s : Sending) (r : Receiving) (written all : List String) (n : ℕ)
      → Live r
      → all_accepted write (held r ++ unsent s) ≡ true
      → written ++ (held r ++ unsent s) ≡ all
      → cost s r ≤ n
      → Sound all n (move write x (link s r written))
  unfolding move send_turn receive_turn
  move_parts send (telling []) r written all n live ok whole le =
      (telling [], r, written, refl, live, ok, whole, le)
  move_parts send (telling (m ∷ ms)) r written all n live ok whole le =
      (sending m ms, r, written, refl, live, ok, whole, omega (arith, le))
  move_parts send (sending m ms) waiting written all n live ok whole le =
      (telling ms, writing m, written, refl, tt, ok, whole, omega (arith, le))
  move_parts send (sending m ms) (writing k) written all n live ok whole le =
      (sending m ms, writing k, written, refl, tt, ok, whole, le)
  move_parts send (sending m ms) deleting written all n live ok whole le = absurd live
  move_parts send (sending m ms) gone written all n live ok whole le = absurd live
  move_parts receive s waiting written all n live ok whole le =
      (s, waiting, written, refl, tt, ok, whole, le)
  move_parts receive s (writing m) written all n live ok whole le =
      write_parts s m written all n ok whole (omega (arith, le))
  move_parts receive s deleting written all n live ok whole le = absurd live
  move_parts receive s gone written all n live ok whole le = absurd live

  -- A step of each side brings the link nearer to its end.
  round_parts :
      (s : Sending) (r : Receiving) (written all : List String) (n : ℕ)
      → Live r
      → all_accepted write (held r ++ unsent s) ≡ true
      → written ++ (held r ++ unsent s) ≡ all
      → cost s r ≤ n
      → Sound all (n - 1) (move write receive (move write send (link s r written)))
  unfolding move send_turn
  round_parts (telling []) waiting written all n live ok whole le =
      move_parts receive (telling []) waiting written all (n - 1) tt ok whole (omega arith)
  round_parts (telling []) (writing m) written all n live ok whole le =
      write_parts (telling []) m written all (n - 1) ok whole (omega arith)
  round_parts (telling []) deleting written all n live ok whole le = absurd live
  round_parts (telling []) gone written all n live ok whole le = absurd live
  round_parts (telling (m ∷ ms)) r written all n live ok whole le =
      move_parts receive (sending m ms) r written all (n - 1) live ok whole (omega (arith, le))
  round_parts (sending m ms) waiting written all n live ok whole le =
      write_parts (telling ms) m written all (n - 1) ok whole (omega (arith, le))
  round_parts (sending m ms) (writing k) written all n live ok whole le =
      write_parts (sending m ms) k written all (n - 1) ok whole (omega (arith, le))
  round_parts (sending m ms) deleting written all n live ok whole le = absurd live
  round_parts (sending m ms) gone written all n live ok whole le = absurd live

  moves-Sound :
      (schedule : List Side) (all : List String) (n : ℕ) (l : Link)
      → Sound all n l
      → Sound all n (moves write schedule l)
  unfolding moves
  moves-Sound [] all n l h = h
  moves-Sound (x ∷ schedule) all n l (s, r, written, same, live, ok, whole, le) =
      moves-Sound schedule all n (move write x l)
        (rw same (move_parts x s r written all n live ok whole le))

  rounds-Sound :
      (k : ℕ) (all : List String) (n : ℕ) (l : Link)
      → Sound all n l
      → Sound all (n - k) (moves write (rounds k) l)
  unfolding moves
  rounds-Sound zero all n l (s, r, written, same, live, ok, whole, le) =
      (s, r, written, same, live, ok, whole, omega (arith, le))
  rounds-Sound (suc k) all n l (s, r, written, same, live, ok, whole, le) =
      let (s', r', written', same', live', ok', whole', le') =
        rounds-Sound k all (n - 1) (move write receive (move write send l))
          (rw same (round_parts s r written all n live ok whole le)) in
      (s', r', written', same', live', ok', whole', omega (arith, le'))

  over : (all : List String) (l : Link) → Sound all 0 l → l ≡ link (telling []) waiting all
  over all l (telling [], waiting, written, same, live, ok, whole, le) =
      same ∙ ap (link (telling []) waiting) (sym (append_none written) ∙ whole)
  over all l (telling [], writing m, written, same, live, ok, whole, le) =
      absurd (omega (arith, le))
  over all l (telling [], deleting, written, same, live, ok, whole, le) = absurd live
  over all l (telling [], gone, written, same, live, ok, whole, le) = absurd live
  over all l (telling (m ∷ ms), r, written, same, live, ok, whole, le) = absurd (omega (arith, le))
  over all l (sending m ms, r, written, same, live, ok, whole, le) = absurd (omega (arith, le))

  -- While the connection accepts all messages: from whatever state the steps of the two sides have
  -- led to, in whichever order, three rounds in turn for each message bring both to their end; then
  -- all messages are written, each once and in order, and the channel is still registered.
  pub all_delivered :
      (ms : List String) (schedule : List Side) (k : ℕ)
      → all_accepted write ms ≡ true
      → 3 * length ms ≤ k
      → moves write (schedule ++ rounds k) (linked ms)
        ≡ record { registered = true; sender = telling []; receiver = waiting; written = ms }
  all_delivered ms schedule k ok enough =
      let n = 3 * length ms in
      let begun : Sound ms n (linked ms) =
        (telling ms, waiting, [], refl, tt, ok, refl, omega arith) in
      let later = moves-Sound schedule ms n (linked ms) begun in
      let (s, r, written, same, live, accepted, whole, le) =
        rounds-Sound k ms n (moves write schedule (linked ms)) later in
      moves-append write schedule (rounds k) (linked ms)
      ∙ over ms (moves write (rounds k) (moves write schedule (linked ms)))
          (s, r, written, same, live, accepted, whole, omega (arith, le, enough))
