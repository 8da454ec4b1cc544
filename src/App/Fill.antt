-- ===== src/App/Fill.antt =====
-- The stores after `componentDidMount` of web/client/app.tsx.
use zmey.Base.{
  ℕ, ◌==◌, ◌≡◌, refl, sym, ◌∙◌, ap, Option, none, some, List, [], ◌∷◌, arith, if◌then◌else◌, inl,
  inr, Bool-cases,
}
use zmey.JsMap
use zmey.JsMap.{JsMap, IsMap}
use zmey.JsMap.Laws.{get-set, IsMap-set}
use zmey.Types.{PipelineTask}
use zmey.Client.{Client}
use zmey.Graph.Links.{IsKeyed}
use zmey.App.{fill, pipeline_tasks_received}

module _ {ℓ} {A : Type ℓ} (id_of : A → ℕ) where
  -- The last object of the list with the id, or else `old`.
  abbrev pub last_with : ℕ → List A → Option A → Option A
  last_with k [] old = old
  last_with k (a ∷ rest) old = last_with k rest (if id_of a == k then some a else old)

  pub fill-IsMap : (xs : List A) (m : JsMap A) → IsMap m → IsMap (fill id_of xs m)
  unfolding fill
  fill-IsMap [] m h = h
  fill-IsMap (a ∷ rest) m h = fill-IsMap rest (JsMap.set (id_of a) a m) (IsMap-set (id_of a) a m h)

  pub get-fill :
      (k : ℕ) (xs : List A) (m : JsMap A)
      → JsMap.get k (fill id_of xs m) ≡ last_with k xs (JsMap.get k m)
  unfolding fill
  get-fill k [] m = refl
  get-fill k (a ∷ rest) m =
      rw (get-fill k rest (JsMap.set (id_of a) a m), get-set (id_of a) k a m) refl

  last_with-id :
      (k : ℕ) (xs : List A) (old : Option A)
      → ((a : A) → old ≡ some a → id_of a ≡ k)
      → (a : A) → last_with k xs old ≡ some a
      → id_of a ≡ k
  last_with-id k [] old h a e = h a e
  last_with-id k (b ∷ bs) old h a e =
      last_with-id k bs (if id_of b == k then some b else old) (λ c. from_here c) a e
    where
      from_here : (c : A) → (if id_of b == k then some b else old) ≡ some c → id_of c ≡ k
      from_here c f = elim (Bool-cases (id_of b == k)) [
        | inl same ↦
            let q : id_of b ≡ id_of c =
              ap {B = ℕ} (λ (o : Option A). elim o [ none ↦ 0 | some x ↦ id_of x ])
                (rw same at f) in
            ground (arith, q, same)
        | inr other ↦ h c (rw other at f)
      ]

-- Whatever list of tasks the server sends, the store is then a Map with the tasks under their
-- own ids, and it holds for each id the last task of the list with that id.
pub pipeline_tasks_received-last :
    (ts : List PipelineTask) (c : Client)
    → let m = (pipeline_tasks_received ts c).pipeline_tasks in
      IsMap m × IsKeyed m × ((k : ℕ) → JsMap.get k m ≡ last_with (λ t. t.id) k ts none)
unfolding pipeline_tasks_received JsMap.get
pipeline_tasks_received-last ts c =
    let id_of = λ (t : PipelineTask). t.id in
    (
      fill-IsMap id_of ts [] tt,
      λ k t e.
          last_with-id id_of k ts none (λ a f. ground (arith, f)) t
            (sym (get-fill id_of k ts []) ∙ e),
      λ k. get-fill id_of k ts [],
    )
