-- ===== src/Mysql/Pages.antt =====
-- BlockPage and TransactionPage of server/mysql/handler.go, on a table.
use fabric_byzantine.Base.{
  ℕ, zero, suc, ◌+◌, ◌*◌, ◌^◌, ◌<◌, ◌≡◌, refl, sym, ◌∙◌, ap, append_one, append_none, String, List,
  [], ◌∷◌, ◌++◌, map, Option, none, some, arith, ltb, get_elem?, if◌then◌else◌,
}
use fabric_byzantine.Int.{pos, sub64, mul64, wrap64, wrap64-eq_of_IsInt, ◌-ℤ◌, ◌*ℤ◌}
use fabric_byzantine.Dict.{Dict}
use fabric_byzantine.Flow.{Outcome, ok}
use fabric_byzantine.Mysql.{
  number, Database, entry_from, scan_rows, query_rows, block_page_sql, block_page, tx_page_sql,
  transaction_page,
}

-- `limit offset, count` of SQL.
abbrev pub limit : {A : Type 0} → ℕ → ℕ → List A → List A
limit offset count [] = []
limit (suc o) count (x ∷ xs) = limit o count xs
limit zero zero (x ∷ xs) = []
limit zero (suc n) (x ∷ xs) = x ∷ limit zero n xs

limit_at :
    {A : Type 0} (offset n : ℕ) (xs : List A) (j : ℕ)
    → get_elem? (limit offset n xs) j ≡ (if ltb j n then get_elem? xs (offset + j) else none)
limit_at offset n [] j = ground arith
limit_at (suc o) n (x ∷ xs) j = limit_at o n xs j ∙ ground arith
limit_at zero zero (x ∷ xs) j = ground arith
limit_at zero (suc n) (x ∷ xs) zero = ground arith
limit_at zero (suc n) (x ∷ xs) (suc j) = ground (arith, limit_at zero n xs j)

-- All rows are scanned without a fault.
abbrev pub scanned :
    {F : Type 0} → List (List (Option String)) → List (Outcome F (List (Option String)))
scanned rs = map (λ r. ok r) rs

abbrev pub entries : List String → List (List (Option String)) → List (Dict String)
entries columns rs = map (λ r. entry_from columns r []) rs

scan_rows-scanned :
    {F : Type 0} (columns : List String) (rs : List (List (Option String)))
    (datas : List (Dict String))
    → scan_rows {F = F} columns none (scanned rs) datas ≡ ok (datas ++ entries columns rs)
unfolding scan_rows
scan_rows-scanned columns [] datas = ap ok (sym (append_none datas))
scan_rows-scanned columns (r ∷ rs) datas =
    scan_rows-scanned columns rs (datas ++ entry_from columns r [] ∷ [])
    ∙ ap ok (append_one datas (entries columns rs) (entry_from columns r []))

minus_one : (p : ℕ) → p + 1 < 2 ^ 63 → sub64 (pos (suc p)) (pos 1) ≡ pos p
unfolding sub64 wrap64 ◌-ℤ◌
minus_one p h = ground arith

times_zero : (p : ℕ) → p * 0 ≡ 0
times_zero p = omega arith

product_pos : (p size : ℕ) → pos p *ℤ pos size ≡ pos (p * size)
unfolding ◌*ℤ◌
product_pos p size = ground (arith, times_zero p)

product_exact : (p size : ℕ) → p * size < 2 ^ 63 → mul64 (pos p) (pos size) ≡ pos (p * size)
unfolding mul64
product_exact p size small =
    ap wrap64 (product_pos p size) ∙ wrap64-eq_of_IsInt (pos (p * size)) (small, omega arith)

offset_exact :
    (p size : ℕ)
    → p * size < 2 ^ 63
    → p + 1 < 2 ^ 63
    → mul64 (sub64 (pos (suc p)) (pos 1)) (pos size) ≡ pos (p * size)
offset_exact p size small index =
    ap (λ o. mul64 o (pos size)) (minus_one p index) ∙ product_exact p size small

-- What a query with a limit answers for a table: `sql` with an offset and a count gives those of
-- the rows.
abbrev pub Answers : (db : Database) → String → List String → List (List (Option String)) → Type 0
Answers db sql columns rows =
    (offset count : ℕ)
    → db.query sql (number (pos offset) ∷ number (pos count) ∷ [])
      ≡ ok (record { columns = ok columns; rows = scanned (limit offset count rows); fault = none })

get_elem?-map :
    {A B : Type 0} (f : A → B) (xs : List A) (j : ℕ)
    → get_elem? (map f xs) j ≡ elim (get_elem? xs j) [ none ↦ none | some x ↦ some (f x) ]
get_elem?-map f [] j = refl
get_elem?-map f (x ∷ xs) zero = refl
get_elem?-map f (x ∷ xs) (suc j) = get_elem?-map f xs j

-- The entry that page `p` (from 0) of pages of `size` shows at a place.
abbrev pub shown : List String → List (List (Option String)) → ℕ → ℕ → ℕ → Option (Dict String)
shown columns rows p size j =
    if ltb j size
    then elim (get_elem? rows (p * size + j)) [
      | none ↦ none
      | some r ↦ some (entry_from columns r [])
    ]
    else none

module _ (db : Database) (columns : List String) (rows : List (List (Option String))) where
  -- If the database answers the query for blocks with the rows that `limit` asks for, the page of
  -- number p + 1 is answered, and at place j it shows the row (p * size) + j of the whole, for j
  -- below the size and no other.
  pub block_page_shows :
      (p size j : ℕ)
      → Answers db (block_page_sql db) columns rows
      → p + 1 < 2 ^ 63
      → p * size < 2 ^ 63
      → (page : List (Dict String)) × (block_page db (pos (suc p)) (pos size) ≡ ok page)
        × (get_elem? page j ≡ shown columns rows p size j)
  unfolding block_page query_rows
  block_page_shows p size j answers index small =
      let page = limit (p * size) size rows in
      (
        entries columns page,
        rw (offset_exact p size small index, query_rows, answers (p * size) size)
            (scan_rows-scanned columns page []),
        ground (
          arith,
          get_elem?-map (λ r. entry_from columns r []) page j,
          limit_at (p * size) size rows j,
        ),
      )

  -- If the database answers the query for transactions with the rows that `limit` asks for, the
  -- page of number p + 1 is answered, and at place j it shows the row (p * size) + j of the whole,
  -- for j below the size and no other. The numbers stay below 2^63.
  transaction_page_shows :
      (p size j : ℕ)
      → Answers db (tx_page_sql db) columns rows
      → p + 1 < 2 ^ 63
      → p * size < 2 ^ 63
      → (page : List (Dict String)) × (transaction_page db (pos (suc p)) (pos size) ≡ ok page)
        × (get_elem? page j ≡ shown columns rows p size j)
  unfolding transaction_page query_rows
  transaction_page_shows p size j answers index small =
      let page = limit (p * size) size rows in
      (
        entries columns page,
        rw (offset_exact p size small index, query_rows, answers (p * size) size)
            (scan_rows-scanned columns page []),
        ground (
          arith,
          get_elem?-map (λ r. entry_from columns r []) page j,
          limit_at (p * size) size rows j,
        ),
      )
