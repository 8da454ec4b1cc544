-- ===== src/Store/Interface.antt =====
-- What the four stores of objects in web/client/store promise, as an interface, and what a sequence
-- of calls of `add`, `upd` and `del` then does.
use zmey.Base.{
  ℕ, ◌≡◌, refl, ap, sym, ◌∙◌, Bool, true, false, Option, none, some, List, [], ◌∷◌, arith, ◌==◌,
  if◌then◌else◌, inl, inr, Bool-cases,
}
use zmey.JsMap.{JsMap}

-- What a store promises, for an object at each id: `add` keeps the object that is there, `upd`
-- brings in none, both go by the object's own id.
abbrev pub added : {V : Type 0} → Bool → V → Option V → Option V
added true v none = some v
added true v (some w) = some w
added false v o = o

abbrev pub updated : {V : Type 0} → Bool → V → Option V → Option V
updated b v none = none
updated true v (some w) = some v
updated false v (some w) = some w

-- A store's methods and their laws.
pub record Store (V : Type 0) : Type 0 where
  pub id_of : V → ℕ
  pub get : ℕ → JsMap V → Option V
  pub add : V → JsMap V → JsMap V
  pub del : ℕ → JsMap V → JsMap V
  pub upd : V → JsMap V → JsMap V
  pub get-add : (k : ℕ) (v : V) (m : JsMap V) → get k (add v m) ≡ added (id_of v == k) v (get k m)
  pub get-upd : (k : ℕ) (v : V) (m : JsMap V) → get k (upd v m) ≡ updated (id_of v == k) v (get k m)
  pub get-del : (i k : ℕ) (m : JsMap V) → get k (del i m) ≡ (if i == k then none else get k m)

-- A call of one of the methods that change a store.
pub data Call (V : Type 0) : Type 0 where
  add upd : V → Call V
  del : ℕ → Call V

module _ {V : Type 0} (store : Store V) where
  abbrev pub call : Call V → JsMap V → JsMap V
  call (add v) = store.add v
  call (upd v) = store.upd v
  call (del i) = store.del i

  abbrev pub run : List (Call V) → JsMap V → JsMap V
  run [] m = m
  run (c ∷ cs) m = run cs (call c m)

  -- What is at the id `k` after the calls.
  abbrev pub call_at : ℕ → Call V → Option V → Option V
  call_at k (add v) o = added (store.id_of v == k) v o
  call_at k (upd v) o = updated (store.id_of v == k) v o
  call_at k (del i) o = if i == k then none else o

  abbrev pub run_at : ℕ → List (Call V) → Option V → Option V
  run_at k [] o = o
  run_at k (c ∷ cs) o = run_at k cs (call_at k c o)

  abbrev pub AreKeyed : JsMap V → Type 0
  AreKeyed m = (k : ℕ) (v : V) → store.get k m ≡ some v → store.id_of v ≡ k

  get-call :
      (k : ℕ) (c : Call V) (m : JsMap V) → store.get k (call c m) ≡ call_at k c (store.get k m)
  get-call k (add v) m = store.get-add k v m
  get-call k (upd v) m = store.get-upd k v m
  get-call k (del i) m = store.get-del i k m

  -- The object at an id is one with this id.
  KeyedAt : ℕ → Option V → Type 0
  KeyedAt k o = (v : V) → o ≡ some v → store.id_of v ≡ k

  KeyedAt-call_at : (k : ℕ) (c : Call V) (o : Option V) → KeyedAt k o → KeyedAt k (call_at k c o)
  unfolding KeyedAt
  KeyedAt-call_at k (add v) none keyed w e = elim (Bool-cases (store.id_of v == k)) [
    | inl same ↦ ground arith
    | inr other ↦ ground arith
  ]
  KeyedAt-call_at k (add v) (some u) keyed w e = ground (arith, keyed u, keyed w)
  KeyedAt-call_at k (upd v) none keyed w e = ground arith
  KeyedAt-call_at k (upd v) (some u) keyed w e = ground (arith, keyed u, keyed w)
  KeyedAt-call_at k (del i) o keyed w e = ground (arith, keyed w)

  AreKeyed-call : (c : Call V) (m : JsMap V) → AreKeyed m → AreKeyed (call c m)
  unfolding KeyedAt
  AreKeyed-call c m keyed k v e =
      KeyedAt-call_at k c (store.get k m) (keyed k) v (sym (get-call k c m) ∙ e)

  -- The calls do what the description says for each id, and the objects stay under their own ids.
  abbrev pub Refines : List (Call V) → JsMap V → Type 0
  Refines cs m =
      ((k : ℕ) → store.get k (run cs m) ≡ run_at k cs (store.get k m)) × AreKeyed (run cs m)

  pub run_lem : (cs : List (Call V)) (m : JsMap V) → AreKeyed m → Refines cs m
  run_lem [] m keyed = (λ k. refl, keyed)
  run_lem (c ∷ cs) m keyed =
      let (spec, keyed') = run_lem cs (call c m) (AreKeyed-call c m keyed) in
      (λ k. spec k ∙ ap (run_at k cs) (get-call k c m), keyed')
