-- ===== src/JsMap/Laws.antt =====
-- The laws of Map: what get and has return after set and delete.
use zmey.Base.{
  All, All-map, Bool, ap, ℕ, ◌≡◌, refl, true, false, none, some, [], ◌∷◌, inl, inr, arith, ◌==◌,
  if◌then◌else◌, ◌||◌, Option-cases,
}
use zmey.JsMap.{JsMap, get, has, set, delete, changed, IsMap}

module _ {ℓ} {V : Type ℓ} where
  pub get-set :
      (k j : ℕ) (v : V) (m : JsMap V) → get j (set k v m) ≡ (if k == j then some v else get j m)
  unfolding get set
  get-set k j v [] = refl
  get-set k j v ((i, w) ∷ m) = ground (arith, get-set k j v m)

  pub get-delete : (k j : ℕ) (m : JsMap V) → get j (delete k m) ≡ (if k == j then none else get j m)
  unfolding get delete
  get-delete k j [] = ground arith
  get-delete k j ((i, w) ∷ m) = ground (arith, get-delete k j m)

  pub has-get : (k : ℕ) (m : JsMap V) (v : V) → get k m ≡ some v → has k m ≡ true
  unfolding get has
  has-get k [] v h = cc
  has-get k ((j, w) ∷ m) v h = ground (arith, has-get k m v)

  pub has-of_none : (k : ℕ) (m : JsMap V) → get k m ≡ none → has k m ≡ false
  unfolding get has
  has-of_none k [] h = refl
  has-of_none k ((j, w) ∷ m) h = ground (arith, has-of_none k m)

  pub get_of_has : (k : ℕ) (m : JsMap V) → has k m ≡ true → (v : V) × (get k m ≡ some v)
  get_of_has k m h = elim (Option-cases (get k m)) [
    | inl e ↦ cc (h, has-of_none k m e)
    | inr found ↦ found
  ]

  pub has-set : (k j : ℕ) (v : V) (m : JsMap V) → has j (set k v m) ≡ (k == j || has j m)
  unfolding has set
  has-set k j v [] = ground arith
  has-set k j v ((i, w) ∷ m) = ground (arith, has-set k j v m)

  -- In a Map every entry is what `get` returns for its key.
  pub get-entries : (m : JsMap V) → IsMap m → All (λ e. get e.0 m ≡ some e.1) m
  unfolding get has
  get-entries [] h = tt
  get-entries ((j, w) ∷ m) h = (
    ground arith,
    All-map _ _ (λ e s. ground (arith, has-get e.0 m e.1 s, ap (λ (i : ℕ). has i m))) m
        (get-entries m h.1),
  )

  pub IsMap-set : (k : ℕ) (v : V) (m : JsMap V) → IsMap m → IsMap (set k v m)
  unfolding set has
  IsMap-set k v [] h = (refl, tt)
  IsMap-set k v ((j, w) ∷ m) h =
      ground (arith, has-set k j v m, IsMap-set k v m h.1, ap (λ (i : ℕ). has i m))

  pub has-changed :
      (k : ℕ) (b : Bool) (f : V → V) (m m' : JsMap V)
      → get k m' ≡ changed b f (get k m)
      → has k m ≡ true
      → has k m' ≡ true
  has-changed k b f m m' spec h =
      let (t, e) = get_of_has k m h in has-get k m' (if b then f t else t) (ground (arith, e, spec))

  pub get-eq-none : (k : ℕ) (m : JsMap V) → has k m ≡ false → get k m ≡ none
  unfolding get has
  get-eq-none k [] h = refl
  get-eq-none k ((j, w) ∷ m) h = ground (arith, get-eq-none k m)

  pub has-delete : (k j : ℕ) (m : JsMap V) → has j m ≡ false → has j (delete k m) ≡ false
  unfolding has delete
  has-delete k j [] h = refl
  has-delete k j ((i, w) ∷ m) h = ground (arith, has-delete k j m)

  pub IsMap-delete : (k : ℕ) (m : JsMap V) → IsMap m → IsMap (delete k m)
  unfolding has delete
  IsMap-delete k [] h = tt
  IsMap-delete k ((i, w) ∷ m) h = ground (arith, h, has-delete k i m h.0, IsMap-delete k m h.1)
