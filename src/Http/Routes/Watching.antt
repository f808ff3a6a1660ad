-- ===== src/Http/Routes/Watching.antt =====
-- What a web socket (main.go) does to the statistics.
use fabric_byzantine.Base.{◌≡◌, inl, inr, refl, ◌∙◌, Bool-cases, String, Bool, List, [], ◌∷◌, ◌++◌}
use fabric_byzantine.Server.State.{State}
use fabric_byzantine.Http.Sockets.{
  Channel, chans, set_chans, without, forward, socket, block_chans, block_number_chans, tx_chans,
  tx_number_chans,
}

set_chans-table : (c : Channel) (l : List String) (st : State) → (set_chans c l st).table ≡ st.table
set_chans-table block_chans l st = refl
set_chans-table block_number_chans l st = refl
set_chans-table tx_chans l st = refl
set_chans-table tx_number_chans l st = refl

forward-table :
    (c : Channel) (uid : String) (write : String → Bool) (ms written : List String) (st : State)
    → (forward c uid write ms written st).1.table ≡ st.table
unfolding forward
forward-table c uid write [] written st = refl
forward-table c uid write (m ∷ ms) written st = elim (Bool-cases (write m)) [
  | inl accepted ↦ rw (accepted, forward) (forward-table c uid write ms (written ++ m ∷ []) st)
  | inr lost ↦ rw (lost, forward) (set_chans-table c (without uid (chans c st)) st)
]

-- A web socket leaves the statistics alone.
pub socket-table :
    (c : Channel) (uid : String) (write : String → Bool) (arrived : List String) (st : State)
    → (socket c uid write arrived st).1.table ≡ st.table
unfolding socket
socket-table c uid write arrived st =
    let opened = set_chans c (chans c st ++ uid ∷ []) st in
    forward-table c uid write arrived [] opened ∙ set_chans-table c (chans c st ++ uid ∷ []) st
