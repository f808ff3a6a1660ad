-- ===== src/Token/Contract/Keeps.antt =====
-- The handlers of the token contract (chaincode/src/token/token.go) and the token that the ledger
-- holds.
use fabric_byzantine.Base.{
  String, ◌≡◌, ◌≢◌, inl, inr, refl, ap, sym, subst, ◌∙◌, Bool, true, false, List, [], ◌∷◌, Option,
  none, some, arith, str_eq, str_ne, str_eq-false, if◌then◌else◌, eq_iff, Bool-cases, Option-cases,
}
use fabric_byzantine.Int.{ℤ, pos, leb_ℤ, ◌≤ℤ◌}
use fabric_byzantine.Dict.{Dict, IsDict}
use fabric_byzantine.Strconv.{atoi, parse_bool}
use fabric_byzantine.Json.{Wire, IsWire, unmarshal, decode_map, decode_string, Decoded}
use fabric_byzantine.Shim.{Action, Response, success, Stub, IsLedger, or_raise, after_reading}
use fabric_byzantine.Token.{Token, transfer}
use fabric_byzantine.Token.Supply.{IsSound, transfer-IsSound, transfer_rest}
use fabric_byzantine.Token.Contract.{
  put_token, get_token, transfer_tokens, set_peer, set_peers, get_peers, query_balance, invoke,
}
use fabric_byzantine.Token.Contract.Peers.{set_peers-IsDict}
use fabric_byzantine.Token.Contract.Held.{
  HoldsIssue, get_token_held, put_token_cases, get_token_reads, put_token_ne,
}

reflag : {t : Token} (flag : Bool) → IsSound t → IsSound (record t { flag = flag })
reflag flag s = record {
  balances = s.balances;
  peers = s.peers;
  nonneg = s.nonneg;
  total = s.total;
  fits = s.fits;
}

repeer :
    {t : Token} (peers : Dict Bool) (flag : Bool)
    → IsDict peers
    → IsSound t
    → IsSound (record t { peers = peers; flag = flag })
repeer peers flag d s = record {
  balances = s.balances;
  peers = d;
  nonneg = s.nonneg;
  total = s.total;
  fits = s.fits;
}

nonneg_of_positive : (a : ℤ) → leb_ℤ a (pos 0) ≡ false → pos 0 ≤ℤ a
nonneg_of_positive a h = ground arith

or_raise_reads : {S A : Type 0} (d : Decoded A) (s : S) → (or_raise d s).1 ≡ s
or_raise_reads (a, none) s = refl
or_raise_reads (a, some e) s = refl

module _ {w : Wire} {l : Stub w} (wire : IsWire w) (ledger : IsLedger l) where
  -- The same for a choice between two handlers.
  if_keeps :
      {k : String} {t : Token} {s : l.State} (b : Bool) (m n : Action l.State (Option w.Bytes))
      → HoldsIssue l k t (m s).1
      → HoldsIssue l k t (n s).1
      → HoldsIssue l k t ((if b then m else n) s).1
  if_keeps true m n hm hn = hm
  if_keeps false m n hm hn = hn

  module _ (k : String) (t : Token) (s : l.State) (h : HoldsIssue l k t s) where
    -- A token of the issue that is held.
    abbrev IsNext : Token → Type 0
    IsNext u =
        IsSound u
        × (u.total_supply ≡ t.total_supply)
        × (u.owner ≡ t.owner)
        × (u.token_name ≡ t.token_name)

    put_next : (u : Token) → IsNext u → HoldsIssue l k t (put_token w l k u s).1
    put_next u good = elim (put_token_cases wire ledger k u s) [
      | inl holds ↦ record {
        token = u;
        holds = holds;
        sound = good.0;
        supply = good.1;
        owner = good.2;
        name = good.3;
      }
      | inr same ↦ rw same h
    ]

    -- A write of a next token, or under another key, keeps what is held.
    put_token_keeps :
        (name : String) (u : Token)
        → (name ≡ k → IsNext u)
        → HoldsIssue l k t (put_token w l name u s).1
    put_token_keeps name u good = elim (Bool-cases (str_eq name k)) [
      | inl same ↦
          (let e = (eq_iff name k).0 same in
            subst (λ (n : String). HoldsIssue l k t (put_token w l n u s).1) (sym e)
              (put_next u (good e)))
      | inr other ↦ record {
        token = h.token;
        holds = put_token_ne wire ledger name k u s (str_ne name k other) ∙ h.holds;
        sound = h.sound;
        supply = h.supply;
        owner = h.owner;
        name = h.name;
      }
    ]

    -- What is read under the key is the token that is held.
    get_token_known :
        (name : String) (u : Token) → (get_token w l name s).0 ≡ success u → name ≡ k → u ≡ h.token
    get_token_known name u e same = cc (
      ap (λ (n : String). (get_token w l n s).0) same,
      ap (λ (p : Response Token × l.State). p.0)
          (get_token_held wire ledger k h.token s h.holds h.sound),
    )

    IsNext-transfer :
        (u : Token) (from to : String) (amount : ℤ) (flag : Bool)
        → u ≡ h.token
        → pos 0 ≤ℤ amount
        → IsNext (transfer from to amount (record u { flag = flag }))
    IsNext-transfer u from to amount flag e p =
        subst (λ (v : Token). IsNext (transfer from to amount (record v { flag = flag }))) (sym e)
          (let v = record h.token { flag = flag } in
            let rest = transfer_rest from to amount v in
            (
              transfer-IsSound from to amount v (reflag flag h.sound) p,
              rest.0 ∙ h.supply,
              rest.1 ∙ h.owner,
              rest.2 ∙ h.name,
            ))

    transfer_tokens_keeps : (args : List String) → HoldsIssue l k t (transfer_tokens w l args s).1
    unfolding transfer_tokens
    transfer_tokens_keeps (name ∷ from ∷ to ∷ amount ∷ flag ∷ []) =
        elim (Bool-cases (leb_ℤ (atoi amount).0 (pos 0))) [
          | inl refused ↦ rw refused h
          | inr positive ↦ rw positive (
              after_reading (HoldsIssue l k t) (get_token w l name) _ s
                (get_token_reads wire ledger name s) h
                (λ u e. put_token_keeps name _ (λ same.
                  IsNext-transfer u from to (atoi amount).0 (parse_bool flag)
                    (get_token_known name u e same) (nonneg_of_positive (atoi amount).0 positive))))
        ]
    transfer_tokens_keeps _ = h

    IsNext-peers :
        (u : Token) (peers : Dict Bool) (flag : Bool)
        → u ≡ h.token
        → IsDict peers
        → IsNext (record u { peers = peers; flag = flag })
    IsNext-peers u peers flag e d =
        subst (λ (v : Token). IsNext (record v { peers = peers; flag = flag })) (sym e)
          (repeer peers flag d h.sound, h.supply, h.owner, h.name)

    set_peer_keeps : (args : List String) → HoldsIssue l k t (set_peer w l args s).1
    unfolding set_peer
    set_peer_keeps (name ∷ changes ∷ flag ∷ []) =
        after_reading (HoldsIssue l k t) (get_token w l name) _ s
          (get_token_reads wire ledger name s) h
          (λ u e.
            after_reading (HoldsIssue l k t)
              (or_raise (unmarshal w (decode_map decode_string "") (some (w.of_string changes)) []))
              _ s (or_raise_reads _ s) h
              (λ entries _. elim (Option-cases (set_peers entries u.peers)) [
                | inl invalid ↦ rw invalid h
                | inr (peers, done) ↦ rw done (
                    put_token_keeps name _ (λ same.
                      (let known = get_token_known name u e same in
                        IsNext-peers u peers (parse_bool flag) known
                          (set_peers-IsDict entries u.peers peers (rw known h.sound.peers) done))))
              ]))
    set_peer_keeps _ = h

    get_peers_keeps : (args : List String) → HoldsIssue l k t (get_peers w l args s).1
    unfolding get_peers
    get_peers_keeps (name ∷ []) =
        after_reading (HoldsIssue l k t) (get_token w l name) _ s
          (get_token_reads wire ledger name s) h (λ u e. h)
    get_peers_keeps _ = h

    query_balance_keeps : (args : List String) → HoldsIssue l k t (query_balance w l args s).1
    unfolding query_balance
    query_balance_keeps (name ∷ who ∷ []) =
        after_reading (HoldsIssue l k t) (get_token w l name) _ s
          (get_token_reads wire ledger name s) h (λ u e. h)
    query_balance_keeps _ = h

    -- No call but `issue` can unbalance a token that the ledger holds: under its key there is
    -- afterwards a sound token of the same owner, name and total supply, whatever the arguments,
    -- whichever key they name, and whether the call succeeds or fails.
    pub invoke-HoldsIssue :
        (function : String) (args : List String)
        → function ≢ "issue"
        → HoldsIssue l k t (invoke w l function args s).1
    unfolding invoke
    invoke-HoldsIssue function args ne = rw (str_eq-false function "issue" ne) (
        if_keeps (str_eq function "transfer") _ _ (transfer_tokens_keeps args) (
          if_keeps (str_eq function "balance") _ _ (query_balance_keeps args) (
            if_keeps (str_eq function "setPeer") _ _ (set_peer_keeps args)
              (if_keeps (str_eq function "getPeers") _ _ (get_peers_keeps args) h))))
