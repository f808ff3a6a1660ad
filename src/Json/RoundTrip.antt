-- ===== src/Json/RoundTrip.antt =====
-- Maps and their JSON documents.
use fabric_byzantine.Base.{String, ◌≡◌, ◌≢◌, refl, [], ◌∷◌, ◌++◌, none, some, arith, eq_iff}
use fabric_byzantine.Dict.{Dict, lookup, insert, IsDict}
use fabric_byzantine.Json.{
  Json, Decoder, Wire, IsWire, unmarshal, decode_members, decode_map, encode_members, encode_map,
}
use mathlib.Core.List.{append_assoc, append-nil}

module _ {V : Type 0} where
  -- No key of the second map stands in the first.
  abbrev IsFresh : Dict V → Dict V → Type 0
  IsFresh d [] = Unit
  IsFresh d ((k, v) ∷ m) = (lookup k d ≡ none) × IsFresh d m

  insert_fresh :
      (k : String) (v : V) (d : Dict V) → lookup k d ≡ none → insert k v d ≡ d ++ (k, v) ∷ []
  insert_fresh k v [] h = refl
  insert_fresh k v ((j, w) ∷ d) h = ground (arith, insert_fresh k v d)

  lookup-append :
      (j k : String) (v : V) (d : Dict V)
      → lookup j d ≡ none
      → k ≢ j
      → lookup j (d ++ (k, v) ∷ []) ≡ none
  lookup-append j k v [] h ne = ground (arith, eq_iff k j)
  lookup-append j k v ((i, w) ∷ d) h ne = ground (arith, lookup-append j k v d)

  IsFresh-append :
      (d : Dict V) (k : String) (v : V) (m : Dict V)
      → IsFresh d m
      → lookup k m ≡ none
      → IsFresh (d ++ (k, v) ∷ []) m
  IsFresh-append d k v [] f h = tt
  IsFresh-append d k v ((j, w) ∷ m) f h =
      ground (arith, eq_iff j k, lookup-append j k v d, IsFresh-append d k v m f.1)

  IsFresh-nil : (m : Dict V) → IsFresh [] m
  IsFresh-nil [] = tt
  IsFresh-nil (e ∷ m) = (refl, IsFresh-nil m)

  module _ (dec : Decoder V) (enc : V → Json) (z : V) where
    -- Every value of the map is read back from its document.
    abbrev pub AllRead : Dict V → Type 0
    AllRead [] = Unit
    AllRead ((k, v) ∷ m) = (dec (enc v) z ≡ (v, none)) × AllRead m

    decode_members-encode_members :
        (m d : Dict V)
        → IsDict m
        → IsFresh d m
        → AllRead m
        → decode_members dec z (encode_members enc m) d ≡ (d ++ m, none)
    unfolding decode_members encode_members
    decode_members-encode_members [] d u f r = rw append-nil
    decode_members-encode_members ((k, v) ∷ m) d u f r =
        rw (r.0, insert_fresh k v d f.0)
          (rw
            (decode_members-encode_members m (d ++ (k, v) ∷ []) u.1 (IsFresh-append d k v m f.1 u.0)
              r.1)
            (rw append_assoc))

    -- `json.Unmarshal` into an empty map gives back the map that `json.Marshal` was given.
    pub decode_map-encode_map :
        (m : Dict V) → IsDict m → AllRead m → decode_map dec z (encode_map enc m) [] ≡ (m, none)
    unfolding decode_map encode_map
    decode_map-encode_map m u r = decode_members-encode_members m [] u (IsFresh-nil m) r

-- Unmarshalling the text of a document decodes the document.
pub unmarshal-render :
    {A : Type 0} {w : Wire} (wire : IsWire w) (dec : Decoder A) (j : Json) (old : A)
    → unmarshal w dec (some (w.render j)) old ≡ dec j old
unfolding unmarshal
unmarshal-render wire dec j old = rw (wire.parse-render j, unmarshal)
