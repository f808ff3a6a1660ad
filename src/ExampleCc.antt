-- ===== src/ExampleCc.antt =====
-- The chaincode of chaincode/src/example_cc/go/example_cc.go, over a stub. A handler ends in a
-- response or in a panic; an entity's holding is stored as a decimal number.
pub mod Effects
mod Tests
use fabric_byzantine.Base.{
  String, List, [], ◌∷◌, Option, none, some, str_eq, if◌then◌else◌, get_elem?,
}
use Prim.Native.String.{◌++◌}
use fabric_byzantine.Int.{ℤ, add64, sub64}
use fabric_byzantine.Strconv.{NumError, atoi}
use fabric_byzantine.Strconv.Digits.{itoa}
use fabric_byzantine.Json.{Wire}
use fabric_byzantine.Flow.{Flow, go, stop, crash, Body, ◌>>=◌, ◌>>◌, return, lift, or_crash}
use fabric_byzantine.Shim.{Response, success, failure, Error, text, unknown_function, Stub}

module _ (w : Wire) (l : Stub w) where
  abbrev pub Handler : Type 0 → Type 0
  Handler A = Body l.State (Response (Option w.Bytes)) A

  -- A response of the stub; an error ends the handler with the error that `f` gives.
  abbrev accepted : {A : Type 0} → (Error → Error) → Response A → Handler A
  accepted f (success a) s = (go a, s)
  accepted f (failure e) s = (stop (failure (f e)), s)

  -- `stub.PutState(k, []byte(strconv.Itoa(v)))`
  unfoldable pub put_holding : String → ℤ → Handler (Unit {0})
  put_holding k v s = let (r, s') = l.put_state k (w.of_string (itoa v)) s in accepted (λ e. e) r s'

  -- `strconv.Atoi`, and the message if it fails.
  abbrev number_or : String → ℤ × Option NumError → Handler ℤ
  number_or message (v, none) = lift (go v)
  number_or message (v, some e) = return (failure (text message))

  unfoldable pub init : List String → Handler (Unit {0})
  unfolding put_holding
  init args = do
    a ← or_crash (get_elem? args 0)
    a_text ← or_crash (get_elem? args 1)
    a_val ← number_or "Expecting integer value for asset holding" (atoi a_text)
    b ← or_crash (get_elem? args 2)
    b_text ← or_crash (get_elem? args 3)
    b_val ← number_or "Expecting integer value for asset holding" (atoi b_text)
    put_holding a a_val
    put_holding b b_val
    return (success none)

  abbrev found_or : String → Option w.Bytes → Handler w.Bytes
  found_or message none = return (failure (text message))
  found_or message (some b) = lift (go b)

  -- The holding of an entity; a text that is no number counts as what Atoi gives beside its error.
  unfoldable pub get_holding : String → Handler ℤ
  get_holding k = do
    stored ← (λ s. accepted (λ e. text "Failed to get state") (l.get_state k s) s)
    b ← found_or "Entity not found" stored
    lift (go (atoi (w.to_string b)).0)

  abbrev wrong_count : {A : Type 0} → String → Handler A
  wrong_count message = return (failure (text message))

  abbrev move_count : String
  move_count =
      "Incorrect number of arguments. Expecting 4, function followed by 2 names and 1 value"

  unfoldable pub move : List String → Handler (Unit {0})
  move [] = wrong_count move_count
  move (_ ∷ []) = wrong_count move_count
  move (_ ∷ _ ∷ []) = wrong_count move_count
  move (a ∷ b ∷ x_text ∷ []) = do
    a_val ← get_holding a
    b_val ← get_holding b
    x ← number_or "Invalid transaction amount, expecting a integer value" (atoi x_text)
    put_holding a (sub64 a_val x)
    put_holding b (add64 b_val x)
    return (success none)
  move (_ ∷ _ ∷ _ ∷ _ ∷ _) = wrong_count move_count

  unfoldable pub delete : List String → Handler (Unit {0})
  delete [] = wrong_count "Incorrect number of arguments. Expecting 1"
  delete (a ∷ []) = do
    (λ s. let (r, s') = l.del_state a s in accepted (λ e. text "Failed to delete state") r s')
    return (success none)
  delete (_ ∷ _ ∷ _) = wrong_count "Incorrect number of arguments. Expecting 1"

  abbrev query_count : String
  query_count = "Incorrect number of arguments. Expecting name of the person to query"

  abbrev refusal : String → String → String
  refusal what a = "{\"Error\":\"" ++ what ++ a ++ "\"}"

  unfoldable pub query : List String → Handler (Unit {0})
  query [] = wrong_count query_count
  query (a ∷ []) = do
    stored ← (λ s. accepted (λ e. text (refusal "Failed to get state for " a)) (l.get_state a s) s)
    b ← found_or (refusal "Nil amount for " a) stored
    return (success (some b))
  query (_ ∷ _ ∷ _) = wrong_count query_count

  -- The message for an unknown function quotes the first argument: without one, it panics.
  unfoldable pub invoke : String → List String → Handler (Unit {0})
  invoke function args =
      if str_eq function "delete"
      then delete args
      else if str_eq function "query"
      then query args
      else if str_eq function "move"
      then move args
      else (do a ← or_crash (get_elem? args 0); return (failure (unknown_function a)))
