-- ===== src/Token/Contract/Refused.antt =====
-- The calls that the token contract (chaincode/src/token/token.go) refuses for what they ask: an amount
-- that is none, and a peer that the token does not know.
use fabric_byzantine.Base.{
  ℕ, ◌≡◌, ◌≢◌, ◌⊎◌, inl, inr, ap, ◌∙◌, String, Bool, true, false, List, [], ◌∷◌, none, some,
  Option-cases, arith,
}
use fabric_byzantine.Int.{ℤ, pos, leb_ℤ, IsInt}
use fabric_byzantine.Dict.{Dict, lookup}
use fabric_byzantine.Strconv.{codes, scan, scan_digits, atoi, atoi_bytes}
use fabric_byzantine.Strconv.Digits.{itoa}
use fabric_byzantine.Strconv.RoundTrip.{atoi-itoa}
use fabric_byzantine.Json.{Wire, IsWire, decode_map, decode_string, unmarshal}
use fabric_byzantine.Shim.{failure, text, Stub, IsLedger}
use fabric_byzantine.Server.PeerName.{is_digit}
use fabric_byzantine.Token.{Token}
use fabric_byzantine.Token.Supply.{IsSound}
use fabric_byzantine.Token.Contract.{transfer_tokens, set_peer, set_peers, invoke}
use fabric_byzantine.Token.Contract.Held.{Holds, get_token_held}
use fabric_byzantine.Token.Contract.Peers.{lookup_known, set_peers-AllKnown}

-- A text begins with a character that is no digit and no sign.
abbrev pub StartsWrong : List ℕ → Type 0
StartsWrong [] = ⊥
StartsWrong (c ∷ cs) = (is_digit c ≡ false) × (c ≢ b'-') × (c ≢ b'+')

-- A text that is no amount: the print of an integer that is zero or less, the empty text, or a text
-- that begins with a character that is no digit and no sign.
abbrev pub NoAmount : String → Type 0
NoAmount amount =
    ((z : ℤ) × IsInt z × (leb_ℤ z (pos 0) ≡ true) × (amount ≡ itoa z))
    ⊎ ((codes amount ≡ []) ⊎ StartsWrong (codes amount))

atoi_bytes_wrong : (s : List ℕ) → StartsWrong s → (atoi_bytes s).0 ≡ pos 0
unfolding atoi_bytes scan_digits scan
atoi_bytes_wrong [] h = absurd h
atoi_bytes_wrong (c ∷ cs) (digit, minus, plus) = ground (arith, digit, minus, plus)

not_positive : (amount : String) → NoAmount amount → leb_ℤ (atoi amount).0 (pos 0) ≡ true
unfolding atoi atoi_bytes
not_positive amount (inl (z, fits, le, e)) =
    ap (λ a. leb_ℤ (atoi a).0 (pos 0)) e ∙ ap (λ r. leb_ℤ r.0 (pos 0)) (atoi-itoa z fits) ∙ le
not_positive amount (inr (inl empty)) = ap (λ s. leb_ℤ (atoi_bytes s).0 (pos 0)) empty
not_positive amount (inr (inr wrong)) =
    ap (λ n. leb_ℤ n (pos 0)) (atoi_bytes_wrong (codes amount) wrong)

module _ {w : Wire} (l : Stub w) where
  -- A call of `transfer` with an amount that is the decimal print of an integer of zero or less, or
  -- empty, or begins with a character that is no digit and no sign, fails and leaves the ledger as
  -- it was, whatever it holds.
  pub invoke-transfer_refused :
      (k from to amount flag : String) (s : l.State)
      → NoAmount amount
      → invoke w l "transfer" (k ∷ from ∷ to ∷ amount ∷ flag ∷ []) s
        ≡ (failure (text "Incorrect number of amount"), s)
  unfolding invoke transfer_tokens
  invoke-transfer_refused k from to amount flag s none_given = rw (not_positive amount none_given)

-- A request with a peer that the token does not know is refused, wherever in the map it stands.
set_peers_unknown :
    (changes : Dict String) (peers : Dict Bool) (name v : String)
    → lookup name changes ≡ some v
    → lookup name peers ≡ none
    → set_peers changes peers ≡ none
set_peers_unknown changes peers name v named unknown =
    elim (Option-cases (set_peers changes peers)) [
      | inl refused ↦ refused
      | inr (p, accepted) ↦
          let known =
            lookup_known changes peers name (set_peers-AllKnown changes peers p accepted)
              (λ e. absurd (ground (arith, e, named))) in
          absurd (ground (arith, known, unknown))
    ]

module _ {w : Wire} {l : Stub w} (wire : IsWire w) (ledger : IsLedger l) where
  -- On a ledger that holds a sound token under the key, a call of `setPeer` whose request is read as
  -- a map and names a peer that is not in the token is refused, and nothing is written: neither this
  -- peer's mark nor that of any other peer of the request.
  pub invoke-set_peer_unknown :
      (k : String) (t : Token) (s : l.State) (changes flag : String) (entries : Dict String)
      (name v : String)
      → Holds l k t s
      → IsSound t
      → unmarshal w (decode_map decode_string "") (some (w.of_string changes)) [] ≡ (entries, none)
      → lookup name entries ≡ some v
      → lookup name t.peers ≡ none
      → invoke w l "setPeer" (k ∷ changes ∷ flag ∷ []) s ≡ (failure (text "invaild peer params"), s)
  unfolding invoke set_peer
  invoke-set_peer_unknown k t s changes flag entries name v holds sound decoded named unknown = rw (
    get_token_held wire ledger k t s holds sound,
    decoded,
    set_peers_unknown entries t.peers name v named unknown,
  )
