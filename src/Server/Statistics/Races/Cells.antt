-- ===== src/Server/Statistics/Races/Cells.antt =====
-- The cells of the rows that InvokeCC (server/fabsdk.go) counts in, and the numbers that they stand
-- under.
use fabric_byzantine.Base.{
  ℕ, zero, suc, ◌≡◌, ◌≢◌, refl, ap, List, [], ◌∷◌, ◌++◌, map, some, arith, length, get_elem?,
}
use fabric_byzantine.Server.Statistics.{Statistics}
use fabric_byzantine.Server.Statistics.Races.{Counter, put, Memory, update}

module _ {A : Type 0} where
  pub get_elem?-update :
      (a : ℕ) (f : A → A) (x : A) (xs : List A)
      → get_elem? xs a ≡ some x
      → get_elem? (update a f xs) a ≡ some (f x)
  get_elem?-update a f x [] e = absurd (ground arith)
  get_elem?-update zero f x (y ∷ xs) e = ground arith
  get_elem?-update (suc a) f x (y ∷ xs) e = get_elem?-update a f x xs e

  pub get_elem?-update_ne :
      (a b : ℕ) (f : A → A) (xs : List A) → a ≢ b → get_elem? (update a f xs) b ≡ get_elem? xs b
  get_elem?-update_ne a b f [] ne = refl
  get_elem?-update_ne zero zero f (y ∷ xs) ne = absurd (ne refl)
  get_elem?-update_ne zero (suc b) f (y ∷ xs) ne = refl
  get_elem?-update_ne (suc a) zero f (y ∷ xs) ne = refl
  get_elem?-update_ne (suc a) (suc b) f (y ∷ xs) ne =
      get_elem?-update_ne a b f xs (λ e. ne (ap (λ (n : ℕ). suc n) e))

  pub get_elem?-append : (xs : List A) (x : A) → get_elem? (xs ++ x ∷ []) (length xs) ≡ some x
  get_elem?-append [] x = refl
  get_elem?-append (y ∷ xs) x = get_elem?-append xs x

  pub get_elem?-append_left :
      (xs : List A) (x y : A) (b : ℕ)
      → get_elem? xs b ≡ some y
      → (length xs ≢ b) × (get_elem? (xs ++ x ∷ []) b ≡ some y)
  get_elem?-append_left [] x y b e = absurd (ground arith)
  get_elem?-append_left (z ∷ xs) x y zero e = (λ l. omega (arith, l), e)
  get_elem?-append_left (z ∷ xs) x y (suc b) e =
      let (ne, kept) = get_elem?-append_left xs x y b e in (λ l. ne (omega (arith, l)), kept)

-- The number of a row does not change.
pub put-byzantine_peers :
    (d : Counter) (v : ℕ) (t : Statistics) → (put d v t).byzantine_peers ≡ t.byzantine_peers
put-byzantine_peers d v t = ground arith

abbrev pub nums : List Statistics → List ℕ
nums cells = map (λ t. t.byzantine_peers) cells

pub nums-update :
    (a : ℕ) (d : Counter) (v : ℕ) (cells : List Statistics)
    → nums (update a (put d v) cells) ≡ nums cells
nums-update a d v [] = refl
nums-update zero d v (t ∷ cells) = ap (λ k. k ∷ nums cells) (put-byzantine_peers d v t)
nums-update (suc a) d v (t ∷ cells) = ap (λ ks. t.byzantine_peers ∷ ks) (nums-update a d v cells)

-- What is known of an address stays when rows are added.
pub nums-append :
    (a k : ℕ) (t : Statistics) (cells : List Statistics)
    → get_elem? (nums cells) a ≡ some k
    → get_elem? (nums (cells ++ t ∷ [])) a ≡ some k
nums-append a k t [] h = ground arith
nums-append zero k t (s ∷ cells) h = h
nums-append (suc a) k t (s ∷ cells) h = nums-append a k t cells h

pub nums-append_last :
    (t : Statistics) (cells : List Statistics)
    → get_elem? (nums (cells ++ t ∷ [])) (length cells) ≡ some t.byzantine_peers
nums-append_last t [] = refl
nums-append_last t (s ∷ cells) = nums-append_last t cells

-- A cell, and the number that it stands under.
pub num_of_cell :
    (a k : ℕ) (cells : List Statistics)
    → get_elem? (nums cells) a ≡ some k
    → (t : Statistics) × (get_elem? cells a ≡ some t) × (t.byzantine_peers ≡ k)
num_of_cell a k [] h = absurd (ground arith)
num_of_cell zero k (t ∷ cells) h = (t, refl, ground arith)
num_of_cell (suc a) k (t ∷ cells) h = num_of_cell a k cells h

pub cell_of_num :
    (a : ℕ) (t : Statistics) (cells : List Statistics)
    → get_elem? cells a ≡ some t
    → get_elem? (nums cells) a ≡ some t.byzantine_peers
cell_of_num a t [] h = absurd (ground arith)
cell_of_num zero t (s ∷ cells) h = ground arith
cell_of_num (suc a) t (s ∷ cells) h = cell_of_num a t cells h

-- The table's pointers lead to rows of their numbers.
abbrev pub IsLinked : Memory → Type 0
IsLinked m = (k a : ℕ) → m.table k ≡ some a → get_elem? (nums m.cells) a ≡ some k
