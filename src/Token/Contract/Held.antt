-- ===== src/Token/Contract/Held.antt =====
-- What the ledger holds under a key, and the calls of the token contract
-- (chaincode/src/token/token.go) that read and write a token there.
use fabric_byzantine.Base.{String, ◌≡◌, ◌≢◌, ◌⊎◌, inl, inr, some, arith}
use fabric_byzantine.Json.{Wire, IsWire}
use fabric_byzantine.Shim.{success, Stub, IsLedger, Response-cases}
use fabric_byzantine.Json.RoundTrip.{unmarshal-render}
use fabric_byzantine.Token.{Token, empty_token, encode_token, decode_token}
use fabric_byzantine.Token.Supply.{IsSound}
use fabric_byzantine.Token.Document.{decode_token-encode_token}
use fabric_byzantine.Token.Contract.{put_token, get_token}

module _ {w : Wire} (l : Stub w) where
  -- The ledger holds this token under this key.
  abbrev pub Holds : String → Token → l.State → Type 0
  Holds k t s = l.get_state k s ≡ success (some (w.render (encode_token t)))

  -- What `PutState` is asked to write for a token, and that it accepts it.
  abbrev pub Accepts : String → Token → l.State → Type 0
  Accepts k t s = (l.put_state k (w.render (encode_token t)) s).0 ≡ success tt

  -- The ledger holds, under this key, a sound token of the same issue as `t`.
  pub record HoldsIssue (k : String) (t : Token) (s : l.State) : Type 0 where
    pub token : Token
    pub holds : Holds k token s
    pub sound : IsSound token
    pub supply : token.total_supply ≡ t.total_supply
    pub owner : token.owner ≡ t.owner
    pub name : token.token_name ≡ t.token_name

module _ {w : Wire} {l : Stub w} (wire : IsWire w) (ledger : IsLedger l) where
  pub get_token_held :
      (k : String) (t : Token) (s : l.State)
      → Holds l k t s
      → IsSound t
      → get_token w l k s ≡ (success t, s)
  unfolding get_token
  get_token_held k t s h v = rw (
    h,
    unmarshal-render wire decode_token (encode_token t) empty_token,
    decode_token-encode_token t v,
  )

  pub put_token_accepted :
      (k : String) (t : Token) (s : l.State)
      → (l.put_state k (w.render (encode_token t)) s).0 ≡ success tt
      → ((put_token w l k t s).0 ≡ success (some (w.render (encode_token t))))
        × Holds l k t (put_token w l k t s).1
  unfolding put_token
  put_token_accepted k t s e = ground (arith, ledger.get-put_self k (w.render (encode_token t)) s e)

  pub put_token_cases :
      (k : String) (t : Token) (s : l.State)
      → Holds l k t (put_token w l k t s).1 ⊎ ((put_token w l k t s).1 ≡ s)
  unfolding put_token
  put_token_cases k t s = elim (Response-cases (l.put_state k (w.render (encode_token t)) s).0) [
    | inl (_, e) ↦ inl (put_token_accepted k t s e).1
    | inr (x, e) ↦ inr (rw e (ledger.put_refused k (w.render (encode_token t)) s x e))
  ]

  -- A handler that only reads leaves the state alone, whatever its answer.
  pub get_token_reads : (k : String) (s : l.State) → (get_token w l k s).1 ≡ s
  unfolding get_token
  get_token_reads k s = ground arith

  pub put_token_ne :
      (name k : String) (u : Token) (s : l.State)
      → name ≢ k
      → l.get_state k (put_token w l name u s).1 ≡ l.get_state k s
  unfolding put_token
  put_token_ne name k u s ne =
      ground (arith, ledger.get-put_ne name k (w.render (encode_token u)) s ne)
