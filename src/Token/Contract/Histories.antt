-- ===== src/Token/Contract/Histories.antt =====
-- The ledger over a history of calls of the token contract (chaincode/src/token/token.go).
use fabric_byzantine.Base.{String, ◌≢◌, refl, List, [], ◌∷◌}
use fabric_byzantine.Int.{pos, ◌≤ℤ◌}
use fabric_byzantine.Strconv.{atoi}
use fabric_byzantine.Json.{Wire, IsWire}
use fabric_byzantine.Shim.{Stub, IsLedger}
use fabric_byzantine.Token.{Token}
use fabric_byzantine.Token.Contract.{new_token, invoke}
use fabric_byzantine.Token.Contract.Held.{Accepts, HoldsIssue}
use fabric_byzantine.Token.Contract.Keeps.{invoke-HoldsIssue}
use fabric_byzantine.Token.Contract.Effects.{invoke-issue}

-- A function's name and its arguments.
abbrev pub Call : Type 0
Call = String × List String

-- One call after the other, each on the state that the one before it left.
pub run : (w : Wire) (l : Stub w) → List Call → l.State → l.State
run w l [] s = s
run w l ((function, args) ∷ calls) s = run w l calls (invoke w l function args s).1

abbrev pub NoIssue : List Call → Type 0
NoIssue [] = Unit
NoIssue ((function, _) ∷ calls) = (function ≢ "issue") × NoIssue calls

module _ {w : Wire} {l : Stub w} (wire : IsWire w) (ledger : IsLedger l) where
  run-HoldsIssue :
      (k : String) (t : Token) (calls : List Call) (s : l.State)
      → NoIssue calls
      → HoldsIssue l k t s
      → HoldsIssue l k t (run w l calls s)
  unfolding run
  run-HoldsIssue k t [] s others h = h
  run-HoldsIssue k t ((function, args) ∷ calls) s others h =
      run-HoldsIssue k t calls (invoke w l function args s).1 others.1
        (invoke-HoldsIssue wire ledger k t s h function args others.0)

  -- After an accepted issue of a supply that is not negative, and any further calls but `issue`,
  -- valid or not, the ledger holds a sound token of that supply under its name: no balance is
  -- negative, and the balances sum to the supply that was issued.
  pub issue_conserved :
      (owner name supply byzantine_num : String) (calls : List Call) (s : l.State)
      → let t = new_token owner name (atoi supply).0 (atoi byzantine_num).0 in
        pos 0 ≤ℤ (atoi supply).0
        → Accepts l name t s
        → NoIssue calls
        → HoldsIssue l name t
            (run w l (("issue", owner ∷ name ∷ supply ∷ byzantine_num ∷ []) ∷ calls) s)
  unfolding run
  issue_conserved owner name supply byzantine_num calls s p accepted others =
      let t = new_token owner name (atoi supply).0 (atoi byzantine_num).0 in
      let (_, held, sound, _) =
        invoke-issue wire ledger owner name supply byzantine_num s p accepted in
      run-HoldsIssue name t calls
        (invoke w l "issue" (owner ∷ name ∷ supply ∷ byzantine_num ∷ []) s).1 others
        (record {
          token = t;
          holds = held;
          sound = sound;
          supply = refl;
          owner = refl;
          name = refl;
        })
