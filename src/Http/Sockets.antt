-- ===== src/Http/Sockets.antt =====
-- The web sockets of main.go: block, blockNumber, transaction, transactionNumber and echo. A
-- handler registers a channel, forwards what it receives, and takes the channel away when a write
-- fails. `write` tells whether the connection accepts a message; the messages that arrive are a
-- list. `sync.Map.Store` of a fresh identifier adds it at the end.
pub mod Rendezvous
use fabric_byzantine.Base.{
  ◌≡◌, ◌≢◌, refl, String, Bool, true, false, List, [], ◌∷◌, ◌++◌, arith, str_eq, eq_iff,
  if◌then◌else◌, append_one, append_none, ap, sym, ◌∙◌, inl, inr, Bool-cases,
}
use fabric_byzantine.Server.State.{State}

-- The four maps of channels.
pub data Channel : Type 0 where
  block_chans : Channel
  block_number_chans : Channel
  tx_chans : Channel
  tx_number_chans : Channel

abbrev pub chans : Channel → State → List String
chans block_chans st = st.block_chans
chans block_number_chans st = st.block_number_chans
chans tx_chans st = st.tx_chans
chans tx_number_chans st = st.tx_number_chans

abbrev pub set_chans : Channel → List String → State → State
set_chans block_chans l st = record st { block_chans = l }
set_chans block_number_chans l st = record st { block_number_chans = l }
set_chans tx_chans l st = record st { tx_chans = l }
set_chans tx_number_chans l st = record st { tx_number_chans = l }

-- `Delete(uid)`
unfoldable pub without : String → List String → List String
without uid [] = []
without uid (u ∷ us) = if str_eq u uid then us else u ∷ without uid us

-- The loop of a socket: what was written, and the state when it waits or has ended.
unfoldable pub forward :
    Channel → String → (String → Bool) → List String → List String → State → List String × State
unfolding without
forward c uid write [] written st = (written, st)
forward c uid write (m ∷ ms) written st = elim (write m) [
  | true ↦ forward c uid write ms (written ++ m ∷ []) st
  | false ↦ (written, set_chans c (without uid (chans c st)) st)
]

unfoldable pub socket :
    Channel → String → (String → Bool) → List String → State → List String × State
unfolding forward
socket c uid write arrived st =
    forward c uid write arrived [] (set_chans c (chans c st ++ uid ∷ []) st)

-- The loop of `echo`: what is sent back, until a message cannot be written.
unfoldable pub echo : (String → Bool) → List String → List String
echo write [] = []
echo write (m ∷ ms) = elim (write m) [ true ↦ m ∷ echo write ms | false ↦ [] ]

-- The messages before the first one that is not accepted.
abbrev pub accepted : (String → Bool) → List String → List String
accepted write [] = []
accepted write (m ∷ ms) = if write m then m ∷ accepted write ms else []

abbrev pub all_accepted : (String → Bool) → List String → Bool
all_accepted write [] = true
all_accepted write (m ∷ ms) = if write m then all_accepted write ms else false

abbrev pub IsFresh : String → List String → Type 0
IsFresh uid [] = Unit
IsFresh uid (u ∷ us) = (u ≢ uid) × IsFresh uid us

without_added :
    (uid : String) (us : List String) → IsFresh uid us → without uid (us ++ uid ∷ []) ≡ us
unfolding without
without_added uid [] fresh = ground (arith, eq_iff uid uid)
without_added uid (u ∷ us) fresh = ground (arith, eq_iff u uid, without_added uid us fresh.1)

forward_lem :
    (c : Channel) (uid : String) (write : String → Bool) (ms written : List String) (st : State)
    → forward c uid write ms written st ≡ (
      written ++ accepted write ms,
      if all_accepted write ms then st else set_chans c (without uid (chans c st)) st,
    )
unfolding forward
forward_lem c uid write [] written st = ap (λ l. (l, st)) (sym (append_none written))
forward_lem c uid write (m ∷ ms) written st = elim (Bool-cases (write m)) [
  | inl yes_sent ↦
      rw (yes_sent, forward)
        (forward_lem c uid write ms (written ++ m ∷ []) st
          ∙ ap
              (λ l. (
                l,
                if all_accepted write ms then st else set_chans c (without uid (chans c st)) st,
              ))
              (append_one written (accepted write ms) m))
  | inr not_sent ↦
      rw (not_sent, forward)
        (ap (λ l. (l, set_chans c (without uid (chans c st)) st)) (sym (append_none written)))
]

undone :
    (c : Channel) (l : List String) (st : State) → set_chans c (chans c st) (set_chans c l st) ≡ st
undone block_chans l st = refl
undone block_number_chans l st = refl
undone tx_chans l st = refl
undone tx_number_chans l st = refl

chans-set_chans : (c : Channel) (l : List String) (st : State) → chans c (set_chans c l st) ≡ l
chans-set_chans block_chans l st = refl
chans-set_chans block_number_chans l st = refl
chans-set_chans tx_chans l st = refl
chans-set_chans tx_number_chans l st = refl

-- A socket whose identifier is fresh writes, in order, the messages before the first one that the
-- connection refuses. While none is refused its channel is registered; when one is, the state is
-- as it was before the socket was opened.
pub socket_lem :
    (c : Channel) (uid : String) (write : String → Bool) (arrived : List String) (st : State)
    → IsFresh uid (chans c st)
    → socket c uid write arrived st ≡ (
      accepted write arrived,
      if all_accepted write arrived then set_chans c (chans c st ++ uid ∷ []) st else st,
    )
unfolding socket
socket_lem c uid write arrived st fresh =
    let opened = set_chans c (chans c st ++ uid ∷ []) st in
    forward_lem c uid write arrived [] opened
    ∙ ap (λ t. (accepted write arrived, if all_accepted write arrived then opened else t))
        (ap (λ l. set_chans c (without uid l) opened)
            (chans-set_chans c (chans c st ++ uid ∷ []) st)
          ∙ ap (λ l. set_chans c l opened) (without_added uid (chans c st) fresh)
          ∙ undone c (chans c st ++ uid ∷ []) st)

-- The echo sends back, in order, the messages before the first one that is refused.
echo-accepted : (write : String → Bool) (ms : List String) → echo write ms ≡ accepted write ms
unfolding echo
echo-accepted write [] = refl
echo-accepted write (m ∷ ms) = elim (Bool-cases (write m)) [
  | inl sent ↦ rw (sent, echo) (ap (λ l. m ∷ l) (echo-accepted write ms))
  | inr lost ↦ rw (lost, echo) refl
]
