-- ===== src/Session/Tabs.antt =====
-- What a user and the server's answers do to the pipelines, one handler after the other: the tabs and
-- the list of web/client/central_widget/central_widget.tsx, the deletion of a pipeline, the dialog of
-- pipeline_dialog.tsx beside it, and the answer to the edit of a task.
use zmey.Base.{
  ℕ, ◌≡◌, subst, true, false, List, [], ◌∷◌, arith, ◌==◌, inl, inr, Bool-cases, Option-cases,
}
use zmey.JsMap
use zmey.JsMap.{JsMap}
use zmey.Types.{Pipeline}
use zmey.Client.{Client, Outcome, returns, final, send, final->>=, ◌>>=◌, change_pipeline}
use zmey.Store.Pipelines
use zmey.Store.Laws.{get-set_visible}
use zmey.Store.Ordered.{IsStore, IsStore-set_selected, IsStore-set_visible, IsStore-upd}
use zmey.Central.{deselect, select_pipeline, send_pipeline, hide_pipeline}
use zmey.Central.Select.{is_selected, is_visible, select_pipeline-alone}
use zmey.Central.Hide.{hide_lem}

-- The store is a Map under the pipelines' own ids, and a selected pipeline has a tab.
pub record IsTabbed (m : JsMap Pipeline) : Type 0 where
  pub store : IsStore m
  pub seen : (k : ℕ) → is_selected k m ≡ true → is_visible k m ≡ true

abbrev pub Tabs : Outcome → Type 0
Tabs o = (c : Client) × (o ≡ returns c) × IsTabbed c.pipelines

abbrev Stores : Client → Type 0
Stores c = IsStore c.pipelines

send_pipeline-IsStore : (id : ℕ) (c : Client) → Stores c → Stores (final (send_pipeline id c))
send_pipeline-IsStore id c s = elim (Option-cases (Pipelines.get id c.pipelines)) [
  | inl gone ↦ ground (arith, gone, s)
  | inr (p, found) ↦ ground (arith, found, s)
]

deselect-IsStore :
    (id : ℕ) (ps : List Pipeline) (c : Client) → Stores c → Stores (final (deselect id ps c))
unfolding deselect
deselect-IsStore id [] c s = s
deselect-IsStore id (p ∷ ps) c s = elim (Bool-cases (p.id == id)) [
  | inl same ↦ ground (arith, same, deselect-IsStore id ps c s)
  | inr other ↦ elim (Option-cases (Pipelines.get p.id c.pipelines)) [
    | inl gone ↦ ground (arith, other, gone, s)
    | inr (q, found) ↦
        let q' = record q { setts = record (q.setts) { is_selected = false } } in
        let c₁ =
          send (change_pipeline q') (record c { pipelines = Pipelines.upd q' c.pipelines }) in
        ground (arith, other, found, deselect-IsStore id ps c₁ (IsStore-upd q' c.pipelines s))
  ]
]

select_rest-IsStore :
    (id : ℕ) (c : Client)
    → Stores c
    → Stores (
        final (
          deselect id (Pipelines.get_selected c.pipelines) c >>= λ c₂.
          send_pipeline id (record c₂ { pipelines = Pipelines.set_selected id true c₂.pipelines })))
select_rest-IsStore id c s =
    final->>= Stores (deselect id (Pipelines.get_selected c.pipelines) c) _
      (deselect-IsStore id (Pipelines.get_selected c.pipelines) c s)
      (λ c₂ s₂. send_pipeline-IsStore id _ (IsStore-set_selected id true c₂.pipelines s₂))

select_pipeline-IsStore : (id : ℕ) (c : Client) → Stores c → Stores (final (select_pipeline id c))
unfolding select_pipeline
select_pipeline-IsStore id c s = elim (Option-cases (Pipelines.get id c.pipelines)) [
  | inl gone ↦ ground (arith, gone, s)
  | inr (p, found) ↦ elim (Bool-cases p.setts.is_visible) [
    | inl shown ↦ ground (arith, found, shown, select_rest-IsStore id c s)
    | inr hidden ↦
        let c₁ = record c { pipelines = Pipelines.set_visible id true c.pipelines } in
        ground (
          arith,
          found,
          hidden,
          select_rest-IsStore id c₁ (IsStore-set_visible id true c.pipelines s),
        )
  ]
]

pub select_pipeline-Tabs :
    (id : ℕ) (c : Client)
    → IsTabbed c.pipelines
    → JsMap.has id c.pipelines ≡ true
    → Tabs (select_pipeline id c)
select_pipeline-Tabs id c h stored =
    let (c', run, sel, vis) = select_pipeline-alone id c h.store stored in
    (
      c',
      run,
      record {
        store = subst (λ o. Stores (final o)) run (select_pipeline-IsStore id c h.store);
        seen = λ k on. ground (arith, sel k, vis k, on);
      },
    )

pub hide_pipeline-Tabs :
    (id : ℕ) (c : Client)
    → IsTabbed c.pipelines
    → JsMap.has id c.pipelines ≡ true
    → Tabs (hide_pipeline id c)
hide_pipeline-Tabs id c h stored =
    let m = c.pipelines in
    let (c', chosen, run, spec, store, first) = hide_lem id c h.store.keyed stored in
    let spec₁ = λ (k : ℕ). get-set_visible id false m h.store.keyed k in
    (
      c',
      run,
      record {
        store = store h.store;
        seen = λ k on. elim (Option-cases (JsMap.get k m)) [
          | inl gone ↦ ground (arith, spec k, gone, on)
          | inr (q, found) ↦ elim (Bool-cases (chosen k)) [
            | inl next ↦ ground (arith, spec k, spec₁ k, found, on, next, first h.store k next)
            | inr other ↦ ground (arith, spec k, found, on, other, h.seen k)
          ]
        ];
      },
    )
