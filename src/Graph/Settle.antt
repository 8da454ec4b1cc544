-- ===== src/Graph/Settle.antt =====
-- One rendering of the panel's tasks and the next: `Tasks` in graph_panel.tsx of web/client/graph.
use zmey.Base.{
  ℕ, ◌≡◌, refl, ap, sym, subst, All, true, false, List, [], ◌∷◌, length, arith, ◌==◌, not, ◌||◌,
  inl, inr, Bool-cases, ◌-ℤ◌, ◌∙◌,
}
use zmey.JsMap
use zmey.JsMap.{JsMap, IsMap}
use zmey.JsMap.Laws.{get_of_has}
use zmey.Types.{Point, Pipeline, PipelineTask}
use zmey.Client.{Client, returns}
use zmey.Store.Pipelines
use zmey.Store.PipelineTasks
use zmey.Store.Selected.{get_selected-set_change_task}
use zmey.Central.{get_selected_pipeline_id}
use zmey.Central.Select.{selected-stored, AreKeyed-entries}
use zmey.Store.Ordered.{IsStore}
use zmey.Graph.Links.{Linked}
use zmey.Graph.Lines.{draw_all-outgoing}
use zmey.Graph.Handlers.{Panel, redraw}
use zmey.Graph.View.{turn_to, center_on, move_task_on_center, recount, render_tasks, then_step}

-- The list of the selected pipelines asks for nothing.
abbrev Quiet : List Pipeline → ℕ → Type 0
Quiet [] id = id ≡ 0
Quiet (s ∷ ss) id = (id ≡ s.id) × (s.setts.has_change_task ≡ false)

first_id : List Pipeline → ℕ
first_id [] = 0
first_id (s ∷ ss) = s.id

turn_to-Quiet :
    (sel : List Pipeline) (p : Panel) (c : Client)
    → Quiet sel p.ppl_id
    → turn_to sel p c ≡ record { panel = p; outcome = returns c }
unfolding turn_to
turn_to-Quiet [] p c h = ground arith
turn_to-Quiet (s ∷ ss) p c h = ground arith

module _ (c : Client) (store : IsStore c.pipelines) (is_map : IsMap c.pipeline_tasks)
    (linked : Linked c.pipeline_tasks) where
  redraw-returns :
      (id : ℕ) (ps : JsMap Pipeline)
      → redraw id (record c { pipelines = ps }) ≡ returns (record c { pipelines = ps })
  unfolding redraw
  redraw-returns id ps =
      let (lines, drawn, _) = draw_all-outgoing id c.pipeline_tasks is_map linked in
      ground (arith, drawn)

  recount_lem :
      (ps : JsMap Pipeline) (p : Panel)
      → recount p (record c { pipelines = ps }) ≡ record {
        panel = record p {
          task_count_mem = length (PipelineTasks.get_by_ppl_id p.ppl_id c.pipeline_tasks);
        };
        outcome = returns (record c { pipelines = ps });
      }
  unfolding recount
  recount_lem ps p =
      let count = length (PipelineTasks.get_by_ppl_id p.ppl_id c.pipeline_tasks) in
      elim (Bool-cases (p.task_count_mem == count)) [
        | inl same ↦ ground arith
        | inr other ↦ ground (arith, redraw-returns p.ppl_id ps)
      ]

  -- What the first statement leaves.
  turn_to_lem :
      (sel : List Pipeline) (p : Panel)
      → Pipelines.get_selected c.pipelines ≡ sel
      → (ps : JsMap Pipeline) × (turn_to sel p c ≡ record {
        panel = record p { ppl_id = first_id sel };
        outcome = returns (record c { pipelines = ps });
      })
        × Quiet (Pipelines.get_selected ps) (first_id sel)
  unfolding turn_to first_id
  turn_to_lem [] p e = (
    c.pipelines,
    ground (arith, redraw-returns 0 c.pipelines),
    subst (λ l. Quiet l 0) (sym e) refl,
  )
  turn_to_lem (s ∷ ss) p e = elim (Bool-cases (not (s.id == p.ppl_id) || s.setts.has_change_task)) [
    | inl changes ↦
        let stored =
          subst (All (λ q. JsMap.has q.id c.pipelines ≡ true)) e
            (selected-stored c.pipelines store.is_map store.keyed) in
        let (t, found) = get_of_has s.id c.pipelines stored.0 in
        let (s', ss', sel, same, flag) =
          get_selected-set_change_task s ss t c.pipelines store.is_map
            (AreKeyed-entries c.pipelines store.is_map store.keyed) e found
            (store.keyed s.id t found) in
        let ps = Pipelines.set_change_task s.id false c.pipelines in
        (
          ps,
          ground (arith, redraw-returns s.id ps),
          subst (λ l. Quiet l s.id) (sym sel) (sym same, flag),
        )
    | inr stays ↦
        (c.pipelines, ground arith, subst (λ l. Quiet l s.id) (sym e) (ground arith, ground arith))
  ]

first_id_lem : (sel : List Pipeline) → first_id sel ≡ elim sel [ [] ↦ 0 | s ∷ ss ↦ s.id ]
unfolding first_id
first_id_lem [] = refl
first_id_lem (s ∷ ss) = refl

center_on_lem :
    (ts : List PipelineTask) (offs : Point) (p : Panel)
    → (q : Panel) × (center_on ts offs p ≡ q)
      × (q.ppl_id ≡ p.ppl_id)
      × ((n : ℕ)
          → center_on ts offs (record q { task_count_mem = n }) ≡ record q { task_count_mem = n })
center_on_lem [] offs p = (p, refl, refl, λ n. refl)
center_on_lem (t ∷ ts) offs p = elim (Bool-cases (t.id == p.ppl_task_id)) [
  | inl same ↦ (p, ground arith, refl, λ n. ground arith)
  | inr other ↦ (
    record p {
      ppl_task_id = t.id;
      scroll = record { x = t.setts.position_x -ℤ offs.x; y = t.setts.position_y -ℤ offs.y };
    },
    ground arith,
    refl,
    λ n. ground arith,
  )
]

-- Let the pipelines be a Map under their own ids, and the tasks a consistent Map. Drawing the
-- tasks returns; the panel then shows the first selected pipeline, or 0 if there is none, and
-- has counted its tasks, and the tasks are unchanged. Drawing again returns and changes
-- neither the panel nor the stores.
pub render_tasks-settles :
    (offs : Point) (p : Panel) (c : Client)
    → IsStore c.pipelines
    → IsMap c.pipeline_tasks
    → Linked c.pipeline_tasks
    → (p' : Panel) × (c' : Client) × (render_tasks offs p c
        ≡ record { panel = p'; outcome = returns c' })
      × (p'.ppl_id ≡ get_selected_pipeline_id c)
      × (p'.task_count_mem ≡ length (PipelineTasks.get_by_ppl_id p'.ppl_id c.pipeline_tasks))
      × (c'.pipeline_tasks ≡ c.pipeline_tasks)
      × (render_tasks offs p' c' ≡ record { panel = p'; outcome = returns c' })
unfolding render_tasks move_task_on_center recount
render_tasks-settles offs p c store is_map linked =
    let sel = Pipelines.get_selected c.pipelines in
    let id = first_id sel in
    let (ps, turned, quiet) = turn_to_lem c store is_map linked sel p refl in
    let c₁ = record c { pipelines = ps } in
    let p₁ = record p { ppl_id = id } in
    let (q, centered, same, stays) =
      center_on_lem (PipelineTasks.get_selected id c.pipeline_tasks) offs p₁ in
    let n = length (PipelineTasks.get_by_ppl_id q.ppl_id c.pipeline_tasks) in
    let p' = record q { task_count_mem = n } in
    let rest = λ (p₂ : Panel) (c₂ : Client). recount (move_task_on_center offs p₂ c₂) c₂ in
    (
      p',
      c₁,
      ap (λ s. then_step s rest) turned
          ∙ ap (λ p₂. recount p₂ c₁) centered
          ∙ recount_lem c store is_map linked ps q,
      same ∙ first_id_lem sel,
      refl,
      refl,
      ap (λ s. then_step s rest)
            (turn_to-Quiet (Pipelines.get_selected ps) p' c₁
              (subst (λ i. Quiet (Pipelines.get_selected ps) i) (sym same) quiet))
          ∙ ap (λ p₂. recount p₂ c₁)
              (subst (λ i. center_on (PipelineTasks.get_selected i c.pipeline_tasks) offs p' ≡ p')
                (sym same) (stays n))
          ∙ recount_lem c store is_map linked ps p',
    )
