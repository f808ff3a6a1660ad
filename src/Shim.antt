-- ===== src/Shim.antt =====
-- The chaincode's side of Hyperledger Fabric (package shim, not part of this repository): the
-- calls of a stub are parameters, and a handler is an action on the stub's state that ends in a
-- response, `shim.Success` or `shim.Error`. The state is the key-value state that the next
-- transaction reads. A write made before a failure stays in the state of the model; whether an
-- unsuccessful proposal is committed is the network's affair.
use fabric_byzantine.Base.{
  String, ◌≡◌, ◌≢◌, ◌⊎◌, inl, inr, refl, Bool, Option, none, some, if◌then◌else◌,
}
use fabric_byzantine.Json.{JsonError, Decoded, Wire}

-- `text` is a message of this program, `json` and `stub` that of an error of a library, whose
-- wording is not modelled; `name` stands for the message that quotes an unknown function's name.
pub data Error : Type 0 where
  text : String → Error
  json : JsonError → Error
  stub : String → Error
  unknown_function : String → Error

pub data Response (A : Type 0) : Type 0 where
  success : A → Response A
  failure : Error → Response A

-- `GetState` gives no bytes for a key that is not there.
pub record Stub (w : Wire) : Type 1 where
  pub State : Type 0
  pub get_state : String → State → Response (Option w.Bytes)
  pub put_state : String → w.Bytes → State → Response (Unit {0}) × State
  pub del_state : String → State → Response (Unit {0}) × State

-- What a ledger promises: a write that is accepted is read back, and it touches no other key; a
-- write that is refused changes nothing.
pub record IsLedger {w : Wire} (l : Stub w) : Type 0 where
  pub get-put_self :
      (k : String) (b : w.Bytes) (s : l.State)
      → (l.put_state k b s).0 ≡ success tt
      → l.get_state k (l.put_state k b s).1 ≡ success (some b)
  pub get-put_ne :
      (k j : String) (b : w.Bytes) (s : l.State)
      → k ≢ j
      → l.get_state j (l.put_state k b s).1 ≡ l.get_state j s
  pub put_refused :
      (k : String) (b : w.Bytes) (s : l.State) (e : Error)
      → (l.put_state k b s).0 ≡ failure e
      → (l.put_state k b s).1 ≡ s

-- What a handler is: it ends in a response, and leaves a state.
abbrev pub Action : Type 0 → Type 0 → Type 0
Action S A = S → Response A × S

abbrev pub resume : {S A B : Type 0} → Response A → (A → Action S B) → Action S B
resume (success a) f s = f a s
resume (failure e) f s = (failure e, s)

infixl 5 ◌>>=◌ ◌>>◌
abbrev pub ◌>>=◌ : {S A B : Type 0} → Action S A → (A → Action S B) → Action S B
◌>>=◌ m f s = let (r, s') = m s in resume r f s'

abbrev pub ◌>>◌ : {S A B : Type 0} → Action S A → Action S B → Action S B
m >> k = m >>= λ _. k

abbrev pub pure : {S A : Type 0} → A → Action S A
pure a s = (success a, s)

abbrev pub raise : {S A : Type 0} → Error → Action S A
raise e s = (failure e, s)

-- A call that reads the state and leaves it alone.
abbrev pub reading : {S A : Type 0} → (S → Response A) → Action S A
reading f s = (f s, s)

-- `if err != nil { return shim.Error(err.Error()) }` after a decoding.
abbrev pub or_raise : {S A : Type 0} → Decoded A → Action S A
or_raise (a, none) = pure a
or_raise (a, some e) = raise (json e)

abbrev pub raise_if : {S : Type 0} → Bool → Error → Action S (Unit {0})
raise_if b e s = (if b then failure e else success tt, s)

pub Response-cases :
    {A : Type 0} (r : Response A) → ((a : A) × (r ≡ success a)) ⊎ ((e : Error) × (r ≡ failure e))
Response-cases (success a) = inl (a, refl)
Response-cases (failure e) = inr (e, refl)

-- A call that leaves the state alone, before a rest that keeps `P` if the call succeeds.
pub after_reading :
    {S A B : Type 0} (P : S → Type 0) (m : Action S A) (f : A → Action S B) (s : S)
    → (m s).1 ≡ s
    → P s
    → ((a : A) → (m s).0 ≡ success a → P (f a s).1)
    → P ((m >>= f) s).1
after_reading P m f s same h rest = elim (Response-cases (m s).0) [
  | inl (a, e) ↦ rw (e, same) (rest a e)
  | inr (x, e) ↦ rw (e, same) h
]
