-- ===== src/Token/Contract/Effects.antt =====
-- The answers and effects of each handler of the token contract (chaincode/src/token/token.go),
-- through `invoke`.
use fabric_byzantine.Base.{
  ◌≡◌, refl, ap, ◌∙◌, String, Bool, false, [], ◌∷◌, Option, none, some, arith, eq_refl,
}
use fabric_byzantine.Int.{ℤ, pos, leb_ℤ, ◌≤ℤ◌, IsInt, int_laws}
use fabric_byzantine.Dict.{Dict, IsDict}
use fabric_byzantine.Strconv.{atoi, parse_bool, NumError}
use fabric_byzantine.Strconv.RoundTrip.{atoi-itoa, atoi-IsInt}
use fabric_byzantine.Json.{
  Wire, IsWire, Decoded, bool, encode_map, decode_map, decode_bool, decode_string, unmarshal,
}
use fabric_byzantine.Json.RoundTrip.{unmarshal-render, decode_map-encode_map}
use fabric_byzantine.Token.Document.{AllRead-bool}
use fabric_byzantine.Shim.{Response, success, failure, Stub, IsLedger}
use fabric_byzantine.Token.{Token, transfer, balance, encode_token}
use fabric_byzantine.Token.Supply.{IsSound, balance_bounds}
use fabric_byzantine.Token.Contract.{
  initial_peers, new_token, issue, transfer_tokens, set_peer, set_peers, get_peers, query_balance,
  invoke,
}
use fabric_byzantine.Token.Contract.Held.{Holds, Accepts, get_token_held, put_token_accepted}

initial_peers-IsDict : (n : ℤ) → IsDict (initial_peers n)
unfolding initial_peers
initial_peers-IsDict n = ground arith

-- With a supply that is not negative the token that `issue` makes is sound.
pub new_token-IsSound :
    (owner name : String) (supply n : ℤ)
    → pos 0 ≤ℤ supply
    → IsInt supply
    → IsSound (new_token owner name supply n)
unfolding new_token
new_token-IsSound owner name supply n p fits = record {
  balances = (refl, tt);
  peers = initial_peers-IsDict n;
  nonneg = (p, tt);
  total = omega int_laws;
  fits = fits;
}

-- The number that an answer prints, as `Atoi` reads it.
abbrev pub number_of : (w : Wire) → Response (Option w.Bytes) → Option (ℤ × Option NumError)
number_of w (success (some b)) = some (atoi (w.to_string b))
number_of w (success none) = none
number_of w (failure e) = none

-- `json.Unmarshal(result, &peers)` into an empty map, on the bytes of an answer, nil after a failure.
abbrev pub peers_of : (w : Wire) → Response (Option w.Bytes) → Decoded (Dict Bool)
peers_of w (success b) = unmarshal w (decode_map decode_bool false) b []
peers_of w (failure e) = unmarshal w (decode_map decode_bool false) none []

-- The token after a call of `transfer` that passed its checks.
abbrev pub transferred : Token → String → String → String → String → Token
transferred t from to amount flag =
    transfer from to (atoi amount).0 (record t { flag = parse_bool flag })

module _ {w : Wire} {l : Stub w} (wire : IsWire w) (ledger : IsLedger l) where
  module _ (k : String) (t : Token) (s : l.State) (holds : Holds l k t s) (sound : IsSound t) where
    -- On a ledger that holds a sound token under the key, a call of `transfer` with an amount that
    -- `Atoi` gives as positive, if the write is accepted: it answers with the token after
    -- `Token.transfer` with the flag that the call names, and the ledger holds that token. An
    -- amount that the balance does not cover succeeds too.
    pub invoke-transfer :
        (from to amount flag : String)
        → leb_ℤ (atoi amount).0 (pos 0) ≡ false
        → Accepts l k (transferred t from to amount flag) s
        → let (r, s') = invoke w l "transfer" (k ∷ from ∷ to ∷ amount ∷ flag ∷ []) s in
          (r ≡ success (some (w.render (encode_token (transferred t from to amount flag)))))
          × Holds l k (transferred t from to amount flag) s'
    unfolding invoke transfer_tokens
    invoke-transfer from to amount flag positive accepted =
        rw (positive, get_token_held wire ledger k t s holds sound)
          (put_token_accepted wire ledger k (transferred t from to amount flag) s accepted)

    -- On a ledger that holds a sound token under the key, a call of `balance` answers with the
    -- digits of the balance: `Atoi` reads the balance back from them. The state is as it was.
    pub invoke-balance :
        (who : String)
        → let (r, s') = invoke w l "balance" (k ∷ who ∷ []) s in
          (number_of w r ≡ some (balance who t, none)) × (s' ≡ s)
    unfolding invoke query_balance
    invoke-balance who = rw (get_token_held wire ledger k t s holds sound) (
      ap some
          (rw wire.to_string-of_string (atoi-itoa (balance who t) (balance_bounds who t sound).2)),
      refl,
    )

    -- On a ledger that holds a sound token under the key, a call of `getPeers` answers with a
    -- document from which the marks of the peers are read back, and leaves the state as it was.
    pub invoke-get_peers :
        let (r, s') = invoke w l "getPeers" (k ∷ []) s in
        (peers_of w r ≡ (t.peers, none)) × (s' ≡ s)
    unfolding invoke get_peers
    invoke-get_peers = rw (get_token_held wire ledger k t s holds sound) (
      unmarshal-render wire (decode_map decode_bool false) (encode_map bool t.peers) []
          ∙ decode_map-encode_map decode_bool bool false t.peers sound.peers (AllRead-bool t.peers),
      refl,
    )

    module _ (changes flag : String) (entries : Dict String)
        (decoded : unmarshal w (decode_map decode_string "") (some (w.of_string changes)) []
          ≡ (entries, none)) where
      -- On a ledger that holds a sound token under the key, a call of `setPeer` whose request is
      -- read as a map of peers that the token knows, if the write is accepted: it answers with the
      -- token with the new marks and the new flag, and the ledger holds it.
      invoke-set_peer :
          (peers : Dict Bool)
          → set_peers entries t.peers ≡ some peers
          → let u = record t { peers = peers; flag = parse_bool flag } in
            Accepts l k u s
            → let (r, s') = invoke w l "setPeer" (k ∷ changes ∷ flag ∷ []) s in
              (r ≡ success (some (w.render (encode_token u)))) × Holds l k u s'
      unfolding invoke set_peer
      invoke-set_peer peers done accepted =
          rw (get_token_held wire ledger k t s holds sound, decoded, done)
            (put_token_accepted wire ledger k (record t { peers = peers; flag = parse_bool flag }) s
              accepted)

  -- An accepted `issue` of a supply that is not negative leaves, under the token's name, a sound
  -- token whose owner has the whole supply.
  pub invoke-issue :
      (owner name supply byzantine_num : String) (s : l.State)
      → let t = new_token owner name (atoi supply).0 (atoi byzantine_num).0 in
        pos 0 ≤ℤ (atoi supply).0
        → Accepts l name t s
        → let (r, s') = invoke w l "issue" (owner ∷ name ∷ supply ∷ byzantine_num ∷ []) s in
          (r ≡ success (some (w.render (encode_token t))))
          × Holds l name t s'
          × IsSound t
          × (balance owner t ≡ t.total_supply)
  unfolding invoke issue
  invoke-issue owner name supply byzantine_num s p accepted =
      let t = new_token owner name (atoi supply).0 (atoi byzantine_num).0 in
      let (answer, held) = put_token_accepted wire ledger name t s accepted in
      (
        answer,
        held,
        new_token-IsSound owner name (atoi supply).0 (atoi byzantine_num).0 p (atoi-IsInt supply),
        unfold balance new_token in ground (arith, eq_refl owner),
      )
