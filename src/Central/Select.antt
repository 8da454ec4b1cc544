-- ===== src/Central/Select.antt =====
-- Which pipelines are selected and visible after `selectPipeline`.
use zmey.Base.{
  ℕ, ◌≡◌, refl, ap, ◌∙◌, Bool, true, false, not, ◌&&◌, ◌||◌, ◌==◌, Option, none, some, List, [],
  ◌∷◌, map, arith, inl, inr, Option-cases, Bool-cases, All, All-map, All-keep,
}
use zmey.JsArray.{includes}
use zmey.JsMap
use zmey.JsMap.{JsMap, changed, IsMap}
use zmey.JsMap.Laws.{get-set, has-get, get_of_has, has-changed, get-entries, get-eq-none}
use zmey.Types.{Pipeline}
use zmey.Client.{Client, returns, send, change_pipeline, ◌>>=◌}
use zmey.Store.Pipelines
use zmey.Store.Laws.{
  get-pipeline, upd-pipeline_as, AreKeyed, with_selected, with_visible, get-set_selected,
  get-set_visible,
}
use zmey.Store.Ordered.{IsStore, IsStore-set_visible}
use zmey.Central.{deselect, select_pipeline, send_pipeline}

abbrev pub selected_in : Option Pipeline → Bool
selected_in none = false
selected_in (some p) = p.setts.is_selected

abbrev pub visible_in : Option Pipeline → Bool
visible_in none = false
visible_in (some p) = p.setts.is_visible

-- Is the pipeline with this id stored and selected?
abbrev pub is_selected : ℕ → JsMap Pipeline → Bool
is_selected k m = selected_in (JsMap.get k m)

abbrev pub is_visible : ℕ → JsMap Pipeline → Bool
is_visible k m = visible_in (JsMap.get k m)

abbrev ids : List Pipeline → List ℕ
ids = map (λ p. p.id)

pub AreKeyed-changed :
    (b : ℕ → Bool) (f : Pipeline → Pipeline) (m m' : JsMap Pipeline)
    → ((p : Pipeline) → (f p).id ≡ p.id)
    → ((k : ℕ) → JsMap.get k m' ≡ changed (b k) f (JsMap.get k m))
    → AreKeyed m
    → AreKeyed m'
AreKeyed-changed b f m m' f-id spec keyed k p e = elim (Option-cases (JsMap.get k m)) [
  | inl gone ↦ ground (arith, spec k, gone)
  | inr (q, found) ↦ ground (arith, spec k, found, keyed k q, f-id q)
]

AllStored-changed :
    (b : ℕ → Bool) (f : Pipeline → Pipeline) (m m' : JsMap Pipeline)
    → ((k : ℕ) → JsMap.get k m' ≡ changed (b k) f (JsMap.get k m))
    → (ps : List Pipeline) → All (λ p. JsMap.has p.id m ≡ true) ps
    → All (λ p. JsMap.has p.id m' ≡ true) ps
AllStored-changed b f m m' spec =
    All-map _ _ (λ p h. has-changed p.id (b p.id) f m m' (spec p.id) h)

put_unselected :
    (id : ℕ) (q : Pipeline) (m : JsMap Pipeline) (k : ℕ)
    → JsMap.get id m ≡ some q
    → JsMap.get k (JsMap.set id (with_selected false q) m)
      ≡ changed (id == k) (with_selected false) (JsMap.get k m)
put_unselected id q m k e =
    ground (arith, get-set id k (with_selected false q) m, ap (λ (j : ℕ). JsMap.get j m))

-- The loop unselects the listed pipelines but the given one.
deselect_lem :
    (id : ℕ) (ps : List Pipeline) (c : Client)
    → AreKeyed c.pipelines
    → All (λ p. JsMap.has p.id c.pipelines ≡ true) ps
    → (c' : Client) × (deselect id ps c ≡ returns c')
      × ((k : ℕ)
          → JsMap.get k c'.pipelines
            ≡ changed
                (includes k (ids ps) && not (k == id))
                (with_selected false)
                (JsMap.get k c.pipelines))
unfolding deselect includes
deselect_lem id [] c keyed stored = (c, refl, λ k. ground arith)
deselect_lem id (p ∷ ps) c keyed stored = elim (Bool-cases (p.id == id)) [
  | inl same ↦
      let (c', run, spec) = deselect_lem id ps c keyed stored.1 in
      (c', ground arith, λ k. ground (arith, spec k))
  | inr other ↦
      let m = c.pipelines in
      let (q, e) = get_of_has p.id m stored.0 in
      let q' = with_selected false q in
      let put = upd-pipeline_as p.id q' m (keyed p.id q e) stored.0 in
      let m₁ = JsMap.set p.id q' m in
      let c₁ = send (change_pipeline q') (record c { pipelines = m₁ }) in
      let step = λ (k : ℕ). put_unselected p.id q m k e in
      let (c', run, spec) =
        deselect_lem id ps c₁
          (AreKeyed-changed (λ k. p.id == k) (with_selected false) m m₁ (λ r. refl) step keyed)
          (AllStored-changed (λ k. p.id == k) (with_selected false) m m₁ step ps stored.1) in
      (c', ground (arith, get-pipeline p.id m), λ k. ground (arith, spec k, step k))
]

pub AreKeyed-entries : (m : JsMap Pipeline) → IsMap m → AreKeyed m → All (λ e. e.1.id ≡ e.0) m
AreKeyed-entries m h keyed = All-map _ _ (λ e found. keyed e.0 e.1 found) m (get-entries m h)

includes-selected :
    (k : ℕ) (es : JsMap Pipeline)
    → IsMap es
    → All (λ e. e.1.id ≡ e.0) es
    → includes k (ids (Pipelines.get_selected es)) ≡ is_selected k es
unfolding includes JsMap.get
includes-selected k [] h keyed = refl
includes-selected k ((j, p) ∷ es) h keyed = ground (
  arith,
  includes-selected k es h.1 keyed.1,
  get-eq-none j es h.0,
  ap (λ (i : ℕ). JsMap.get i es),
)

values-stored :
    (m es : JsMap Pipeline)
    → AreKeyed m
    → All (λ e. JsMap.get e.0 m ≡ some e.1) es
    → All (λ p. JsMap.has p.id m ≡ true) (JsMap.values es)
values-stored m [] keyed h = tt
values-stored m ((j, p) ∷ es) keyed h = (
  has-get p.id m p (ap (λ (i : ℕ). JsMap.get i m) (keyed j p h.0) ∙ h.0),
  values-stored m es keyed h.1,
)

pub selected-stored :
    (m : JsMap Pipeline)
    → IsMap m
    → AreKeyed m
    → All (λ p. JsMap.has p.id m ≡ true) (Pipelines.get_selected m)
selected-stored m h keyed =
    All-keep _ (λ p. p.setts.is_selected) (JsMap.values m)
      (values-stored m m keyed (get-entries m h))

-- The loop and the last statement of `selectPipeline`, from a store in which `id` is stored.
select_rest :
    (id : ℕ) (c : Client)
    → IsStore c.pipelines
    → JsMap.has id c.pipelines ≡ true
    → (c' : Client) × ((deselect id (Pipelines.get_selected c.pipelines) c >>= λ c₂.
          send_pipeline id (record c₂ { pipelines = Pipelines.set_selected id true c₂.pipelines }))
        ≡ returns c')
      × ((k : ℕ) → is_selected k c'.pipelines ≡ (id == k))
      × ((k : ℕ) → is_visible k c'.pipelines ≡ is_visible k c.pipelines)
select_rest id c s h =
    let m = c.pipelines in
    let (c₁, run, spec) =
      deselect_lem id (Pipelines.get_selected m) c s.keyed (selected-stored m s.is_map s.keyed) in
    let m₁ = c₁.pipelines in
    let keyed₁ =
      AreKeyed-changed (λ k. includes k (ids (Pipelines.get_selected m)) && not (k == id))
        (with_selected false) m m₁ (λ p. refl) spec s.keyed in
    let m₂ = Pipelines.set_selected id true m₁ in
    let spec₂ = λ (k : ℕ). get-set_selected id true m₁ keyed₁ k in
    let (p, e) = get_of_has id m h in
    let chosen = λ (k : ℕ). includes-selected k m s.is_map (AreKeyed-entries m s.is_map s.keyed) in
    (
      send (change_pipeline (with_selected true p)) (record c₁ { pipelines = m₂ }),
      ground (arith, get-pipeline id m₂, spec₂ id, spec id),
      λ k. elim (Option-cases (JsMap.get k m)) [
        | inl gone ↦ ground (arith, spec₂ k, spec k, gone, e, ap (λ (j : ℕ). JsMap.get j m))
        | inr (q, found) ↦ ground (arith, spec₂ k, spec k, found, chosen k)
      ],
      λ k. elim (Option-cases (JsMap.get k m)) [
        | inl gone ↦ ground (arith, spec₂ k, spec k, gone)
        | inr (q, found) ↦ ground (arith, spec₂ k, spec k, found)
      ],
    )

-- If the store is a Map under the pipelines' own ids and the pipeline is stored,
-- `selectPipeline` returns; afterwards that pipeline alone is selected, it is visible, and no
-- other pipeline's visibility has changed.
pub select_pipeline-alone :
    (id : ℕ) (c : Client)
    → IsStore c.pipelines
    → JsMap.has id c.pipelines ≡ true
    → (c' : Client) × (select_pipeline id c ≡ returns c')
      × ((k : ℕ) → is_selected k c'.pipelines ≡ (id == k))
      × ((k : ℕ) → is_visible k c'.pipelines ≡ (is_visible k c.pipelines || id == k))
unfolding select_pipeline
select_pipeline-alone id c s h =
    let m = c.pipelines in
    let (p, e) = get_of_has id m h in
    elim (Bool-cases p.setts.is_visible) [
      | inl shown ↦
          let (c', run, sel, vis) = select_rest id c s h in
          (
            c',
            ground (arith, get-pipeline id m),
            sel,
            λ k. ground (arith, vis k, e, ap (λ (j : ℕ). is_visible j m)),
          )
      | inr hidden ↦
          let m₁ = Pipelines.set_visible id true m in
          let c₁ = record c { pipelines = m₁ } in
          let spec = get-set_visible id true m s.keyed in
          let (c', run, sel, vis) =
            select_rest id c₁ (IsStore-set_visible id true m s)
              (has-changed id (id == id) (with_visible true) m m₁ (spec id) h) in
          (
            c',
            ground (arith, get-pipeline id m),
            sel,
            λ k. elim (Option-cases (JsMap.get k m)) [
              | inl gone ↦ ground (arith, vis k, spec k, gone, e, ap (λ (j : ℕ). JsMap.get j m))
              | inr (q, found) ↦ ground (arith, vis k, spec k, found)
            ],
          )
    ]
