-- ===== src/JsArray.antt =====
-- The array methods that the client calls on arrays: find, findIndex, indexing and splice(i, 1).
pub mod Laws
use zmey.Base.{
  ℕ, zero, suc, Bool, true, false, ◌||◌, Option, none, some, List, [], ◌∷◌, ◌≡◌, ◌==◌,
  if◌then◌else◌, get_elem?,
}

-- Is `x` an element?
unfoldable pub includes : ℕ → List ℕ → Bool
includes x [] = false
includes x (y ∷ ys) = y == x || includes x ys

-- `a.find(v => v == x)`: the element, or `none` for `undefined`.
unfoldable pub find : ℕ → List ℕ → Option ℕ
find x [] = none
find x (y ∷ ys) = if y == x then some y else find x ys

-- Is the result of `find` truthy? `undefined` and the number 0 are not.
abbrev pub truthy : Option ℕ → Bool
truthy none = false
truthy (some zero) = false
truthy (some (suc n)) = true

-- `a.findIndex(v => v == x)`, with `none` for -1.
unfoldable pub find_index : ℕ → List ℕ → Option ℕ
find_index x [] = none
find_index x (y ∷ ys) =
    if y == x then some 0 else elim (find_index x ys) [ none ↦ none | some i ↦ some (suc i) ]

module _ {ℓ} {A : Type ℓ} where
  erase_at : ℕ → List A → List A
  erase_at i [] = []
  erase_at zero (x ∷ xs) = xs
  erase_at (suc i) (x ∷ xs) = x ∷ erase_at i xs

  drop_last : List A → List A
  drop_last [] = []
  drop_last (x ∷ []) = []
  drop_last (x ∷ y ∷ ys) = x ∷ drop_last (y ∷ ys)

  -- `a.splice(i, 1)` for an index that `findIndex` gave; `splice(-1, 1)` removes the last element.
  unfoldable pub splice : Option ℕ → List A → List A
  unfolding erase_at drop_last
  splice none xs = drop_last xs
  splice (some i) xs = erase_at i xs

  -- `a[i]` for an index that `findIndex` gave, with `none` for `undefined`.
  abbrev pub element : Option ℕ → List A → Option A
  element none xs = none
  element (some i) xs = get_elem? xs i

-- No element stands twice.
abbrev pub Distinct : List ℕ → Type 0
Distinct [] = Unit {0}
Distinct (x ∷ xs) = (includes x xs ≡ false) × Distinct xs
