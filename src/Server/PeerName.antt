-- ===== src/Server/PeerName.antt =====
-- The number of an organisation, cut out of its peer's name: "peer0.org7.example.com" gives 7.
-- Three places of the program have this code (main.go: query and invoke; server/fabsdk.go:
-- InvokeCC). A name is given by its bytes.
use fabric_byzantine.Base.{
  ℕ, ◌+◌, ◌-◌, ◌≡◌, refl, Bool, true, false, ◌||◌, List, [], ◌∷◌, Option, none, some, arith, ltb,
  ◌==◌, if◌then◌else◌, map,
}
use fabric_byzantine.Int.{ℤ, pos, negsuc}
use fabric_byzantine.Strconv.{NumError, bytes_of, atoi_bytes, slice}

abbrev is_one : ℤ → Bool
is_one (pos n) = n == 1
is_one (negsuc n) = false

-- `if k, err := strconv.Atoi(…); err == nil { index = k }`
abbrev or_keep : ℤ → ℤ × Option NumError → ℤ
or_keep index (k, none) = k
or_keep index (k, some _) = index

abbrev reread : List ℕ → ℤ → Option ℤ
reread name index = elim (slice 9 11 name) [
  | none ↦ none
  | some s ↦ some (or_keep index (atoi_bytes s))
]

-- `none` is the panic of a slice beyond the end of the name.
unfoldable pub peer_number : List ℕ → Option ℤ
unfolding slice
peer_number name = elim (slice 9 10 name) [
  | none ↦ none
  | some s ↦
      (let index = (atoi_bytes s).0 in if is_one index then reread name index else some index)
]

network_names :
    map peer_number (
      bytes_of "peer0.org1.example.com"
      ∷ bytes_of "peer0.org2.example.com"
      ∷ bytes_of "peer0.org10.example.com"
      ∷ [])
    ≡ some (pos 1) ∷ some (pos 2) ∷ some (pos 10) ∷ []
unfolding peer_number atoi_bytes
network_names = refl

abbrev pub is_digit : ℕ → Bool
is_digit c = if ltb c b'0' || ltb b'9' c then false else true

-- Of a name of eleven bytes or more whose tenth byte is a digit: if that digit is a 1 and the byte
-- after it is a digit too, the number is that of the two digits; else it is the first digit.
peer_number_lem :
    (a b c d e f g h i x y : ℕ) (rest : List ℕ)
    → is_digit x ≡ true
    → let name = a ∷ b ∷ c ∷ d ∷ e ∷ f ∷ g ∷ h ∷ i ∷ x ∷ y ∷ rest in
      peer_number name
      ≡ some (
          if x == b'1'
          then (if is_digit y then pos (10 + (y - b'0')) else pos 1)
          else pos (x - b'0'))
unfolding peer_number atoi_bytes
peer_number_lem a b c d e f g h i x y rest digit = ground arith
