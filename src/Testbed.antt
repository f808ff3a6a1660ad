-- ===== src/Testbed.antt =====
-- Concrete instances of what the model takes as parameters, on which the witnesses run: bytes that
-- remember what they were made from, and a ledger that is a map and refuses nothing.
use fabric_byzantine.Base.{String, refl, ap, Option, none, some, str_eq, if◌then◌else◌}
use fabric_byzantine.Dict.{Dict, lookup, insert, erase, lookup-insert_self, lookup-insert_ne}
use fabric_byzantine.Json.{Json, str, obj, end, member, Wire, IsWire}
use fabric_byzantine.Shim.{success, Stub, IsLedger}

pub data Doc : Type 0 where
  rendered : Json → Doc
  plain : String → Doc

-- One JSON text that a request may carry.
abbrev pub request_text : String
request_text = "{\"peer0.org1.example.com\":\"false\"}"

abbrev pub plain_text : Doc → String
plain_text (rendered j) = ""
plain_text (plain s) = s

abbrev pub parse_doc : Doc → Option Json
parse_doc (rendered j) = some j
parse_doc (plain s) =
    if str_eq s request_text
    then some (obj (member "peer0.org1.example.com" (str "false") end))
    else none

abbrev pub documents : Wire
documents = record {
  Bytes = Doc;
  of_string = plain;
  to_string = plain_text;
  render = rendered;
  parse = parse_doc;
}

pub documents-IsWire : IsWire documents
documents-IsWire = record { to_string-of_string = λ s. refl; parse-render = λ j. refl }

abbrev pub memory : Stub documents
memory = record {
  State = Dict Doc;
  get_state = λ k s. success (lookup k s);
  put_state = λ k b s. (success tt, insert k b s);
  del_state = λ k s. (success tt, erase k s);
}

pub memory-IsLedger : IsLedger memory
memory-IsLedger = record {
  get-put_self = λ k b s e. ap success (lookup-insert_self k b s);
  get-put_ne = λ k j b s ne. ap success (lookup-insert_ne j k b s ne);
  put_refused = λ k b s e h. cc;
}
