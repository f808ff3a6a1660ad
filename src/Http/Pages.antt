-- ===== src/Http/Pages.antt =====
-- What the handlers blockPage and transactionPage of main.go ask of the database.
use fabric_byzantine.Base.{
  ℕ, suc, ◌+◌, ◌*◌, ◌^◌, ◌<◌, ◌≡◌, String, List, Option, none, arith, get_elem?,
}
use fabric_byzantine.Int.{ℤ, pos}
use fabric_byzantine.Strconv.{atoi}
use fabric_byzantine.Strconv.Digits.{itoa}
use fabric_byzantine.Strconv.RoundTrip.{atoi-itoa}
use fabric_byzantine.Json.{Wire}
use fabric_byzantine.Dict.{Dict}
use fabric_byzantine.Flow.{Outcome, ok}
use fabric_byzantine.Mysql
use fabric_byzantine.Mysql.{Database, block_page_sql, block_page}
use fabric_byzantine.Mysql.Pages.{Answers, shown, block_page_shows}
use fabric_byzantine.Server.Gateway.{Sdk}
use fabric_byzantine.Http.{rows, page, block_page_handler}

module _ {w : Wire} (sdk : Sdk w) (db : Database) where
  page_numbers :
      (query : ℤ → ℤ → Outcome (Mysql.Failure db.Fault) (List (Dict String))) (id size : String)
      (p n : ℕ) (r : List (Dict String))
      → atoi id ≡ (pos (suc p), none)
      → atoi size ≡ (pos (suc n), none)
      → query (pos (suc p)) (pos (suc n)) ≡ ok r
      → page w sdk db query id size ≡ rows r
  unfolding page
  page_numbers query id size p n r read_id read_size answered =
      ground (arith, read_id, read_size, answered)

  -- A request for a block page with the decimal digits of p + 1 and of a size above 0, while the
  -- database answers the query for blocks with the rows that its limit asks for, is answered with
  -- rows, and at place j below the size there is the row (p * size) + j of the whole. The numbers
  -- stay below 2^63.
  pub block_page_handler-shown :
      (columns : List String) (table : List (List (Option String))) (p n j : ℕ)
      → Answers db (block_page_sql db) columns table
      → p + 1 < 2 ^ 63
      → suc n < 2 ^ 63
      → p * suc n < 2 ^ 63
      → (r : List (Dict String)) × (block_page_handler w sdk db
            (itoa (pos (suc p)))
            (itoa (pos (suc n)))
          ≡ rows r)
        × (get_elem? r j ≡ shown columns table p (suc n) j)
  unfolding block_page_handler
  block_page_handler-shown columns table p n j answers small_p small_n small =
      let (r, answered, at_j) =
        block_page_shows db columns table p (suc n) j answers small_p small in
      (
        r,
        page_numbers (block_page db) (itoa (pos (suc p))) (itoa (pos (suc n))) p n r
            (atoi-itoa (pos (suc p)) (omega arith)) (atoi-itoa (pos (suc n)) (omega arith))
            answered,
        at_j,
      )
