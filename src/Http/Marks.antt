-- ===== src/Http/Marks.antt =====
-- Which peers the handler muma of main.go marks as byzantine in the database.
use fabric_byzantine.Base.{
  ◌≡◌, refl, String, [], ◌∷◌, Option, none, some, arith, eq_iff, if◌then◌else◌, inl, inr,
  Option-cases,
}
use fabric_byzantine.Int.{ℤ, pos}
use fabric_byzantine.Dict.{Dict, lookup, insert, IsDict, insert-IsDict}
use fabric_byzantine.Strconv.{parse_bool}
use fabric_byzantine.Json.{
  Wire, Json, null, bool, num, str, obj, other, Members, end, member, JsonError, Decoder, Decoded,
  decode_members, decode_map, decode_string, unmarshal,
}
use fabric_byzantine.Server.Gateway.{Sdk}
use fabric_byzantine.Mysql.{Database}
use fabric_byzantine.Http.{marked, updates_of}

-- A decoded map has each key once.
decode_members-IsDict :
    {V : Type 0} (dec : Decoder V) (z : V) (ms : Members) (d : Dict V)
    → IsDict d
    → IsDict (decode_members dec z ms d).0
unfolding decode_members
decode_members-IsDict dec z end d h = h
decode_members-IsDict dec z (member k v ms) d h =
    decode_members-IsDict dec z ms (insert k (dec v z).0 d) (insert-IsDict k (dec v z).0 d h)

-- The database is to have a peer's mark exactly if the request has it with a text that `ParseBool`
-- does not read as true.
abbrev mark_of : Option String → Option ℤ
mark_of none = none
mark_of (some v) = if parse_bool v then none else some (pos 1)

lookup-marked :
    (peers : Dict String) (k : String)
    → IsDict peers
    → lookup k (marked peers) ≡ mark_of (lookup k peers)
unfolding marked
lookup-marked [] k h = refl
lookup-marked ((i, v) ∷ peers) k h = ground (arith, eq_iff i k, lookup-marked peers k h.1)

marked-IsDict : (peers : Dict String) → IsDict peers → IsDict (marked peers)
unfolding marked
marked-IsDict [] h = tt
marked-IsDict ((i, v) ∷ peers) h =
    ground (arith, lookup-marked peers i h.1, marked-IsDict peers h.1)

-- What a decoded request asks of the database: each peer that it names with a text that `ParseBool`
-- does not read as true, once and with the type 1, and no other; nothing if it is no map of texts.
abbrev pub Asks : Decoded (Dict String) → Dict ℤ → Type 0
Asks (peers, none) marks = IsDict marks × ((k : String) → lookup k marks ≡ mark_of (lookup k peers))
Asks (peers, some e) marks = marks ≡ []

decode_map-IsDict : (j : Json) → IsDict (decode_map decode_string "" j []).0
unfolding decode_map
decode_map-IsDict null = tt
decode_map-IsDict (bool b) = tt
decode_map-IsDict (num n) = tt
decode_map-IsDict (str s) = tt
decode_map-IsDict (obj ms) = decode_members-IsDict decode_string "" ms [] tt
decode_map-IsDict other = tt

asked :
    (peers : Dict String) (e : Option JsonError)
    → IsDict peers
    → Asks (peers, e) (elim e [ some _ ↦ [] | none ↦ marked peers ])
asked peers none h = (marked-IsDict peers h, λ k. lookup-marked peers k h)
asked peers (some e) h = refl

unmarshal-IsDict :
    (w : Wire) (body : w.Bytes)
    → IsDict (unmarshal w (decode_map decode_string "") (some body) []).0
unfolding unmarshal
unmarshal-IsDict w body = elim (Option-cases (w.parse body)) [
  | inl unread ↦ rw (unread, unmarshal) tt
  | inr (j, parsed) ↦ rw (parsed, unmarshal) (decode_map-IsDict j)
]

-- What muma tells the database is what the body asks for.
pub updates_of-Asks :
    (w : Wire) (sdk : Sdk w) (db : Database) (body : w.Bytes)
    → Asks (unmarshal w (decode_map decode_string "") (some body) []) (updates_of w sdk db body)
unfolding updates_of
updates_of-Asks w sdk db body =
    let (peers, e) = unmarshal w (decode_map decode_string "") (some body) [] in
    asked peers e (unmarshal-IsDict w body)
