-- ===== src/JsArray/Laws.antt =====
-- What find, findIndex and splice do on arrays of distinct ids.
use zmey.Base.{
  ℕ, zero, suc, ◌-◌, ◌≡◌, ◌≢◌, refl, sym, ap, Bool, true, false, not, ◌&&◌, ◌||◌, Option, none,
  some, List, [], ◌∷◌, ◌++◌, arith, ◌==◌, if◌then◌else◌, length,
}
use zmey.JsArray.{
  includes, find, truthy, find_index, erase_at, drop_last, splice, element, Distinct,
}

-- The list without the first occurrence of `x`.
pub without : ℕ → List ℕ → List ℕ
without x [] = []
without x (y ∷ ys) = if y == x then ys else y ∷ without x ys

pub includes-append :
    (x : ℕ) (ys : List ℕ) (z : ℕ) → includes x (ys ++ z ∷ []) ≡ (includes x ys || z == x)
unfolding includes
includes-append x [] z = ground arith
includes-append x (y ∷ ys) z = ground (arith, includes-append x ys z)

pub Distinct-append :
    (ys : List ℕ) (z : ℕ) → Distinct ys → includes z ys ≡ false → Distinct (ys ++ z ∷ [])
unfolding includes
Distinct-append [] z d h = (refl, tt)
Distinct-append (y ∷ ys) z d h =
    (ground (arith, includes-append y ys z), Distinct-append ys z d.1 (ground arith))

-- A found id is positive wherever 0 is no element, so `find` is a membership test.
pub truthy-find : (x : ℕ) (ys : List ℕ) → x ≢ 0 → truthy (find x ys) ≡ includes x ys
unfolding find includes
truthy-find x [] h = refl
truthy-find x (y ∷ ys) h = ground (arith, truthy-find x ys h)

pub splice-find_index :
    (x : ℕ) (ys : List ℕ) → includes x ys ≡ true → splice (find_index x ys) ys ≡ without x ys
unfolding splice find_index includes without
splice-find_index x [] h = cc
splice-find_index x (y ∷ ys) h = ground (arith, splice-find_index x ys)

pub element-find_index :
    (x : ℕ) (ys : List ℕ) → includes x ys ≡ true → element (find_index x ys) ys ≡ some x
unfolding find_index includes
element-find_index x [] h = cc
element-find_index x (y ∷ ys) h = ground (arith, element-find_index x ys)

length-drop_last {ℓ} : {A : Type ℓ} (xs : List A) → length (drop_last xs) ≡ length xs - 1
unfolding drop_last
length-drop_last [] = omega arith
length-drop_last (x ∷ []) = omega arith
length-drop_last (x ∷ y ∷ ys) = omega (arith, length-drop_last (y ∷ ys))

length-erase_at {ℓ κ} :
    {A : Type ℓ} {B : Type κ} (i : ℕ) (xs : List A) (ys : List B)
    → length xs ≡ length ys
    → length (erase_at i xs) ≡ length (erase_at i ys)
unfolding erase_at
length-erase_at i [] [] h = refl
length-erase_at i [] (y ∷ ys) h = absurd (omega arith)
length-erase_at i (x ∷ xs) [] h = absurd (omega arith)
length-erase_at zero (x ∷ xs) (y ∷ ys) h = omega arith
length-erase_at (suc i) (x ∷ xs) (y ∷ ys) h = omega (arith, length-erase_at i xs ys (omega arith))

-- The same splice keeps arrays of one length at one length.
pub length-splice {ℓ κ} :
    {A : Type ℓ} {B : Type κ} (i : Option ℕ) (xs : List A) (ys : List B)
    → length xs ≡ length ys
    → length (splice i xs) ≡ length (splice i ys)
unfolding splice
length-splice none xs ys h = omega (arith, length-drop_last xs, length-drop_last ys)
length-splice (some i) xs ys h = length-erase_at i xs ys h

pub includes-without :
    (x y : ℕ) (ys : List ℕ)
    → Distinct ys
    → includes x (without y ys) ≡ (includes x ys && not (y == x))
unfolding includes without
includes-without x y [] d = refl
includes-without x y (z ∷ ys) d = ground (arith, includes-without x y ys)

pub Distinct-without : (x : ℕ) (ys : List ℕ) → Distinct ys → Distinct (without x ys)
unfolding without
Distinct-without x [] d = tt
Distinct-without x (y ∷ ys) d = ground (arith, Distinct-without x ys, includes-without y x ys)

-- A splice at a found index, or none at all: the array then lacks `x`, and nothing else.
pub includes-splice :
    (x b : ℕ) (ys : List ℕ) (found : Bool)
    → Distinct ys
    → found ≡ includes x ys
    → includes b (if found then splice (find_index x ys) ys else ys)
      ≡ (includes b ys && not (x == b))
includes-splice x b ys true d h = rw (splice-find_index x ys (sym h)) (includes-without b x ys d)
includes-splice x b ys false d h = ground (arith, ap (λ (j : ℕ). includes j ys))

pub Distinct-splice :
    (x : ℕ) (ys : List ℕ) (found : Bool)
    → Distinct ys
    → found ≡ includes x ys
    → Distinct (if found then splice (find_index x ys) ys else ys)
Distinct-splice x ys true d h = rw (splice-find_index x ys (sym h)) (Distinct-without x ys d)
Distinct-splice x ys false d h = d
