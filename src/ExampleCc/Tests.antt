-- ===== src/ExampleCc/Tests.antt =====
-- The theorems about the example chaincode at concrete inputs.
use fabric_byzantine.Base.{◌≡◌, refl, [], ◌∷◌, none, arith, str_ne}
use fabric_byzantine.Int.{pos, ◌+ℤ◌, ◌-ℤ◌}
use fabric_byzantine.Dict.{Dict}
use fabric_byzantine.Strconv.{atoi, atoi_bytes}
use fabric_byzantine.Strconv.Digits.{itoa}
use fabric_byzantine.Flow.{stop}
use fabric_byzantine.Shim.{success}
use fabric_byzantine.Testbed.{Doc, plain, documents, documents-IsWire, memory, memory-IsLedger}
use fabric_byzantine.ExampleCc.{invoke}
use fabric_byzantine.ExampleCc.Effects.{HasHolding, AcceptsAll, invoke-move, invoke-move_self}

memory-AcceptsAll : AcceptsAll memory
memory-AcceptsAll k b s = refl

abbrev holdings : Dict Doc
holdings = ("a", plain (itoa (pos 100))) ∷ ("b", plain (itoa (pos 200))) ∷ []

read_ten : atoi "10" ≡ (pos 10, none)
unfolding atoi atoi_bytes
read_ten = refl

invoke-move_example :
    let (r, s') = invoke documents memory "move" ("a" ∷ "b" ∷ "10" ∷ []) holdings in
    (r ≡ stop (success none))
    × HasHolding memory "a" (pos 100 -ℤ pos 10) s'
    × HasHolding memory "b" (pos 200 +ℤ pos 10) s'
    × (memory.get_state "c" s' ≡ memory.get_state "c" holdings)
unfolding ◌-ℤ◌ ◌+ℤ◌
invoke-move_example =
    invoke-move documents-IsWire memory-IsLedger memory-AcceptsAll "a" "b" "c" "10" (pos 100)
      (pos 200) (pos 10) holdings (str_ne "a" "b" refl) (str_ne "a" "c" refl) (str_ne "b" "c" refl)
      refl refl (omega arith) (omega arith) read_ten (omega arith) (omega arith)

invoke-move_self_example :
    let (r, s') = invoke documents memory "move" ("a" ∷ "a" ∷ "10" ∷ []) holdings in
    (r ≡ stop (success none)) × HasHolding memory "a" (pos 100 +ℤ pos 10) s'
unfolding ◌+ℤ◌
invoke-move_self_example =
    invoke-move_self documents-IsWire memory-IsLedger memory-AcceptsAll "a" "10" (pos 100) (pos 10)
      holdings refl (omega arith) read_ten (omega arith)
