-- ===== src/Http/Sockets/Rendezvous.antt =====
-- A web socket (the handlers block and transaction of main.go) and a goroutine that tells it
-- messages (the calls of `Range` on BlockChans and TxChans in server/block_listener.go), which run
-- at the same time. The channel between them has no buffer: a send is over only when the socket
-- receives. `Range` finds a channel while it is in the map, and only then sends; the socket takes
-- the channel out of the map after a write was refused, and returns. There is one socket here, and a
-- schedule names the side that makes the next step.
pub mod Delivery
use fabric_byzantine.Base.{
  ℕ, ◌≡◌, refl, ap, ◌∙◌, String, Bool, true, false, List, [], ◌∷◌, ◌++◌, if◌then◌else◌,
}

-- The sending side: before a call of `Range` with the next message, or at the send of a message to
-- the channel that `Range` has found.
pub data Sending : Type 0 where
  telling : List String → Sending
  sending : String → List String → Sending

-- The socket: before it receives, before it writes a message, before it takes the channel out of the
-- map, and after its return.
pub data Receiving : Type 0 where
  waiting : Receiving
  writing : String → Receiving
  deleting : Receiving
  gone : Receiving

-- `registered` tells whether the channel is in the map.
pub record Link : Type 0 where
  pub registered : Bool
  pub sender : Sending
  pub receiver : Receiving
  pub written : List String

pub data Side : Type 0 where
  send : Side
  receive : Side

-- A step of the sending side; a send to a socket that does not receive waits.
unfoldable pub send_turn : Sending → Link → Link
send_turn (telling []) l = l
send_turn (telling (m ∷ ms)) l =
    if l.registered then record l { sender = sending m ms } else record l { sender = telling ms }
send_turn (sending m ms) l = elim l.receiver [
  | waiting ↦ record l { sender = telling ms; receiver = writing m }
  | writing _ ↦ l
  | deleting ↦ l
  | gone ↦ l
]

-- A step of the socket; `write` tells whether the connection accepts a message.
unfoldable pub receive_turn : (String → Bool) → Receiving → Link → Link
receive_turn write waiting l = l
receive_turn write (writing m) l =
    if write m
    then record l { receiver = waiting; written = l.written ++ m ∷ [] }
    else record l { receiver = deleting }
receive_turn write deleting l = record l { registered = false; receiver = gone }
receive_turn write gone l = l

unfoldable pub move : (String → Bool) → Side → Link → Link
unfolding send_turn receive_turn
move write send l = send_turn l.sender l
move write receive l = receive_turn write l.receiver l

unfoldable pub moves : (String → Bool) → List Side → Link → Link
unfolding move
moves write [] l = l
moves write (s ∷ schedule) l = moves write schedule (move write s l)

-- A socket that has registered its channel, and messages to tell.
abbrev pub linked : List String → Link
linked ms = record { registered = true; sender = telling ms; receiver = waiting; written = [] }

pub moves-append :
    (write : String → Bool) (s s' : List Side) (l : Link)
    → moves write (s ++ s') l ≡ moves write s' (moves write s l)
unfolding moves
moves-append write [] s' l = refl
moves-append write (x ∷ s) s' l = moves-append write s s' (move write x l)

-- A send to a socket that has returned waits for ever.
left_alone :
    (write : String → Bool) (schedule : List Side) (m : String) (ms written : List String)
    → let l : Link = record {
      registered = false;
      sender = sending m ms;
      receiver = gone;
      written = written;
    } in
      moves write schedule l ≡ l
unfolding moves move send_turn receive_turn
left_alone write [] m ms written = refl
left_alone write (send ∷ schedule) m ms written = left_alone write schedule m ms written
left_alone write (receive ∷ schedule) m ms written = left_alone write schedule m ms written

-- The socket receives the first message, `Range` finds the channel again for the second, and then
-- the write of the first is refused.
abbrev pub refused_late : List Side
refused_late = send ∷ send ∷ send ∷ receive ∷ receive ∷ []

-- If the connection refuses a message, there is an order of the steps after which the sending side
-- waits for ever at the send of the next message, whatever steps follow: it gets no further and
-- nothing is written.
pub sender_left_waiting :
    (write : String → Bool) (m m' : String) (ms : List String) (schedule : List Side)
    → write m ≡ false
    → let l = moves write (refused_late ++ schedule) (linked (m ∷ m' ∷ ms)) in
      (l.sender ≡ sending m' ms) × (l.receiver ≡ gone) × (l.written ≡ [])
unfolding moves move send_turn receive_turn
sender_left_waiting write m m' ms schedule refused =
    let step : moves write refused_late (linked (m ∷ m' ∷ ms))
        ≡ record { registered = false; sender = sending m' ms; receiver = gone; written = [] } =
      rw (refused, receive_turn) refl in
    let stuck =
      moves-append write refused_late schedule (linked (m ∷ m' ∷ ms))
      ∙ ap (moves write schedule) step
      ∙ left_alone write schedule m' ms [] in
    (ap (λ l. l.sender) stuck, ap (λ l. l.receiver) stuck, ap (λ l. l.written) stuck)
