-- ===== src/JsMap.antt =====
-- JavaScript's Map with numbers for keys: the entries in the order of their insertion. A Map holds
-- a key at most once.
pub mod Laws
use zmey.Base.{
  ◌≡◌, ℕ, Bool, true, false, Option, none, some, List, [], ◌∷◌, ◌==◌, if◌then◌else◌, map,
}

abbrev pub JsMap {ℓ} : Type ℓ → Type ℓ
JsMap V = List (ℕ × V)

module _ {ℓ} {V : Type ℓ} where
  unfoldable pub get : ℕ → JsMap V → Option V
  get k [] = none
  get k ((j, v) ∷ m) = if j == k then some v else get k m

  unfoldable pub has : ℕ → JsMap V → Bool
  has k [] = false
  has k ((j, v) ∷ m) = if j == k then true else has k m

  -- A value for a known key takes the place of the old one; a new key goes to the end.
  unfoldable pub set : ℕ → V → JsMap V → JsMap V
  set k v [] = (k, v) ∷ []
  set k v ((j, w) ∷ m) = if j == k then (k, v) ∷ m else (j, w) ∷ set k v m

  unfoldable pub delete : ℕ → JsMap V → JsMap V
  delete k [] = []
  delete k ((j, w) ∷ m) = if j == k then delete k m else (j, w) ∷ delete k m

  abbrev pub values : JsMap V → List V
  values = map (λ e. e.1)

  -- No key stands twice: what every Map grants.
  abbrev pub IsMap : JsMap V → Type 0
  IsMap [] = Unit {0}
  IsMap ((k, v) ∷ m) = (has k m ≡ false) × IsMap m

  -- A stored value, changed by `f` if the test says so.
  abbrev pub changed : Bool → (V → V) → Option V → Option V
  changed b f none = none
  changed b f (some v) = some (if b then f v else v)
