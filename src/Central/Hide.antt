-- ===== src/Central/Hide.antt =====
-- `hidePipeline` of web/client/central_widget/central_widget.tsx.
use zmey.Base.{
  All, All-kept, All-map, ap, ◌∙◌, some, Bool, ℕ, ◌≡◌, refl, true, false, not, ◌&&◌, List, [], ◌∷◌,
  arith, ◌==◌, inl, inr, if◌then◌else◌, Option-cases,
}
use zmey.JsMap
use zmey.JsMap.{JsMap, IsMap, changed}
use zmey.JsMap.Laws.{get_of_has, get-entries}
use zmey.Types.{Pipeline}
use zmey.Client.{Client, Outcome, returns, send, change_pipeline}
use zmey.Store.Pipelines
use zmey.Store.Laws.{
  AreKeyed, with_selected, with_visible, get-set_selected, get-set_visible, get-pipeline,
}
use zmey.Store.Ordered.{IsStore, IsStore-set_selected, IsStore-set_visible}
use zmey.Central.{hide_pipeline, select_first, has_id}
use zmey.Central.Select.{is_selected, is_visible, AreKeyed-changed}

-- A run that returns and at most selects pipelines.
record Selects (o : Outcome) (c : Client) : Type 0 where
  after : Client
  runs : o ≡ returns after
  keyed : AreKeyed after.pipelines
  store : IsStore c.pipelines → IsStore after.pipelines
  chosen : ℕ → Bool
  seen : IsStore c.pipelines → (k : ℕ) → chosen k ≡ true → is_visible k c.pipelines ≡ true
  spec :
      (k : ℕ)
      → JsMap.get k after.pipelines
        ≡ changed (chosen k) (with_selected true) (JsMap.get k c.pipelines)

seen-first :
    (v : Pipeline) (k : ℕ) (m : JsMap Pipeline)
    → is_visible v.id m ≡ true
    → (v.id == k) ≡ true
    → is_visible k m ≡ true
seen-first v k m h e = ground (arith, h, e, ap (λ (j : ℕ). is_visible j m))

-- The pipelines that `getVisible` lists are visible in the Map.
get_visible-seen :
    (m : JsMap Pipeline) → IsStore m → All (λ p. is_visible p.id m ≡ true) (Pipelines.get_visible m)
get_visible-seen m s =
    All-kept (λ p. is_visible p.id m ≡ true) (λ p. p.setts.is_visible) (JsMap.values m)
      (values-seen m (
        All-map _ _ (λ e f. ap (λ (j : ℕ). JsMap.get j m) (s.keyed e.0 e.1 f) ∙ f) m
          (get-entries m s.is_map)))
  where
    values-seen :
        (es : JsMap Pipeline)
        → All (λ e. JsMap.get e.1.id m ≡ some e.1) es
        → All (λ p. p.setts.is_visible ≡ true → is_visible p.id m ≡ true) (JsMap.values es)
    values-seen [] h = tt
    values-seen ((j, p) ∷ es) h = (λ on. ground (arith, h.0, on), values-seen es h.1)

select_first-Selects :
    (ps : List Pipeline) (c : Client)
    → AreKeyed c.pipelines
    → (IsStore c.pipelines → All (λ p. is_visible p.id c.pipelines ≡ true) ps)
    → Selects (select_first ps c) c
select_first-Selects [] c keyed shown = record {
  after = c;
  runs = refl;
  keyed = keyed;
  store = λ s. s;
  chosen = λ k. false;
  seen = λ s k e. ground (arith, e);
  spec = λ k. ground arith;
}
select_first-Selects (v ∷ vs) c keyed shown =
    let m = Pipelines.set_selected v.id true c.pipelines in
    let spec = λ (k : ℕ). get-set_selected v.id true c.pipelines keyed k in
    let keyed' =
      AreKeyed-changed (λ k. v.id == k) (with_selected true) c.pipelines m (λ p. refl) spec keyed in
    let first = λ (s : IsStore c.pipelines) (k : ℕ) (e : (v.id == k) ≡ true).
      seen-first v k c.pipelines (shown s).0 e in
    elim (Option-cases (JsMap.get v.id m)) [
      | inl gone ↦ record {
        after = record c { pipelines = m };
        runs = ground arith;
        keyed = keyed';
        store = IsStore-set_selected v.id true c.pipelines;
        chosen = λ k. v.id == k;
        seen = first;
        spec = spec;
      }
      | inr (v', found) ↦ record {
        after = send (change_pipeline v') (record c { pipelines = m });
        runs = ground arith;
        keyed = keyed';
        store = IsStore-set_selected v.id true c.pipelines;
        chosen = λ k. v.id == k;
        seen = first;
        spec = spec;
      }
    ]

next-Selects :
    (b : Bool) (ps : List Pipeline) (c : Client)
    → AreKeyed c.pipelines
    → (IsStore c.pipelines → All (λ p. is_visible p.id c.pipelines ≡ true) ps)
    → Selects (if b then select_first ps c else returns c) c
next-Selects true ps c keyed shown = select_first-Selects ps c keyed shown
next-Selects false ps c keyed shown = record {
  after = c;
  runs = refl;
  keyed = keyed;
  store = λ s. s;
  chosen = λ k. false;
  seen = λ s k e. ground (arith, e);
  spec = λ k. ground arith;
}

-- What `hidePipeline` leaves in the store: `chosen` is the pipeline that it selects, if any.
pub hide_lem :
    (id : ℕ) (c : Client)
    → AreKeyed c.pipelines
    → JsMap.has id c.pipelines ≡ true
    → (c' : Client) × (chosen : ℕ → Bool) × (hide_pipeline id c ≡ returns c')
      × ((k : ℕ)
          → JsMap.get k c'.pipelines
            ≡ changed (id == k) (with_selected false) (
                changed
                  (chosen k)
                  (with_selected true)
                  (changed (id == k) (with_visible false) (JsMap.get k c.pipelines))))
      × (IsStore c.pipelines → IsStore c'.pipelines)
      × (IsStore c.pipelines
          → (k : ℕ) → chosen k ≡ true
          → is_visible k (Pipelines.set_visible id false c.pipelines) ≡ true)
unfolding hide_pipeline
hide_lem id c keyed h =
    let m = c.pipelines in
    let m₁ = Pipelines.set_visible id false m in
    let c₁ = record c { pipelines = m₁ } in
    let spec₁ = λ (k : ℕ). get-set_visible id false m keyed k in
    let keyed₁ =
      AreKeyed-changed (λ k. id == k) (with_visible false) m m₁ (λ p. refl) spec₁ keyed in
    let s =
      next-Selects (has_id id (Pipelines.get_selected m₁)) (Pipelines.get_visible m₁) c₁ keyed₁
        (get_visible-seen m₁) in
    let m₂ = s.after.pipelines in
    let m₃ = Pipelines.set_selected id false m₂ in
    let spec₃ = λ (k : ℕ). get-set_selected id false m₂ s.keyed k in
    let (p, e) = get_of_has id m h in
    let hidden = with_visible false p in
    let last = with_selected false (if s.chosen id then with_selected true hidden else hidden) in
    (
      send (change_pipeline last) (record (s.after) { pipelines = m₃ }),
      s.chosen,
      ground (arith, s.runs, get-pipeline id m₃, spec₃ id, s.spec id, spec₁ id, e),
      λ k. ground (arith, spec₃ k, s.spec k, spec₁ k),
      λ store. IsStore-set_selected id false m₂ (s.store (IsStore-set_visible id false m store)),
      λ store k on. s.seen (IsStore-set_visible id false m store) k on,
    )

-- If the pipelines are stored under their own ids and the pipeline is stored, `hidePipeline`
-- returns; afterwards it is neither visible nor selected, and the visibility of no other
-- pipeline has changed.
pub hide_pipeline-hidden :
    (id : ℕ) (c : Client)
    → AreKeyed c.pipelines
    → JsMap.has id c.pipelines ≡ true
    → (c' : Client) × (hide_pipeline id c ≡ returns c')
      × (is_selected id c'.pipelines ≡ false)
      × ((k : ℕ) → is_visible k c'.pipelines ≡ (is_visible k c.pipelines && not (id == k)))
hide_pipeline-hidden id c keyed h =
    let m = c.pipelines in
    let (c', chosen, run, spec, _, _) = hide_lem id c keyed h in
    let (p, e) = get_of_has id m h in
    (
      c',
      run,
      ground (arith, spec id, e),
      λ k. elim (Option-cases (JsMap.get k m)) [
        | inl gone ↦ ground (arith, spec k, gone)
        | inr (q, found) ↦ ground (arith, spec k, found)
      ],
    )
