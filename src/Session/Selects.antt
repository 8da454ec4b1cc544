-- ===== src/Session/Selects.antt =====
-- Selecting a task on the panel and in the list of tasks keeps the store of tasks in order.
use zmey.Base.{
  ℕ, ◌≡◌, refl, true, false, not, ◌&&◌, some, List, [], ◌∷◌, arith, ◌==◌, inl, inr, Bool-cases,
  Option-cases,
}
use zmey.JsMap
use zmey.JsMap.{JsMap}
use zmey.JsMap.Laws.{get_of_has}
use zmey.Types.{PipelineTask}
use zmey.Client.{Client, send, change_pipeline_task}
use zmey.Store.PipelineTasks
use zmey.Store.Laws.{get-task}
use zmey.Central.{deselect_tasks, double_click_task}
use zmey.Graph.Handlers.{deselect_others, select_task}
use zmey.Graph.Consistent.{IsConsistent, Safe, set_selected-IsConsistent, set_visible-IsConsistent}
use zmey.Graph.Selection.{deselect_others_lem}

-- The two loops are the same.
deselect_tasks-others :
    (id : ℕ) (ts : List PipelineTask) (c : Client)
    → deselect_tasks id ts c ≡ deselect_others id ts c
unfolding deselect_tasks deselect_others
deselect_tasks-others id [] c = refl
deselect_tasks-others id (t ∷ ts) c = elim (Bool-cases (t.setts.is_selected && not (t.id == id))) [
  | inr skipped ↦ ground (arith, skipped, deselect_tasks-others id ts c)
  | inl hit ↦
      let m = PipelineTasks.set_selected t.id false c.pipeline_tasks in
      elim (Option-cases (JsMap.get t.id m)) [
        | inl gone ↦
            ground (arith, hit, gone, deselect_tasks-others id ts (record c { pipeline_tasks = m }))
        | inr (t', found) ↦ ground (
          arith,
          hit,
          found,
          deselect_tasks-others id ts
              (send (change_pipeline_task t') (record c { pipeline_tasks = m })),
        )
      ]
]

deselect_others-IsConsistent :
    (id : ℕ) (ts : List PipelineTask) (c : Client)
    → IsConsistent c.pipeline_tasks
    → IsConsistent (deselect_others id ts c).pipeline_tasks
unfolding deselect_others
deselect_others-IsConsistent id [] c h = h
deselect_others-IsConsistent id (t ∷ ts) c h =
    elim (Bool-cases (t.setts.is_selected && not (t.id == id))) [
      | inr skipped ↦ ground (arith, skipped, deselect_others-IsConsistent id ts c h)
      | inl hit ↦
          let m = PipelineTasks.set_selected t.id false c.pipeline_tasks in
          let h₁ = set_selected-IsConsistent t.id c.pipeline_tasks h false in
          elim (Option-cases (JsMap.get t.id m)) [
            | inl gone ↦ ground (
              arith,
              hit,
              gone,
              deselect_others-IsConsistent id ts (record c { pipeline_tasks = m }) h₁,
            )
            | inr (t', found) ↦ ground (
              arith,
              hit,
              found,
              deselect_others-IsConsistent id ts
                  (send (change_pipeline_task t') (record c { pipeline_tasks = m })) h₁,
            )
          ]
    ]

pub select-Safe :
    (id : ℕ) (c : Client)
    → IsConsistent c.pipeline_tasks
    → JsMap.has id c.pipeline_tasks ≡ true
    → Safe (select_task id (deselect_others id (JsMap.values c.pipeline_tasks) c))
unfolding select_task
select-Safe id c h stored =
    let ts = JsMap.values c.pipeline_tasks in
    let c₁ = deselect_others id ts c in
    let m₁ = c₁.pipeline_tasks in
    let h₁ = deselect_others-IsConsistent id ts c h in
    let (t, e) = get_of_has id c.pipeline_tasks stored in
    let kept : JsMap.get id m₁ ≡ some t =
      ground (arith, e, deselect_others_lem id ts c h.keyed id) in
    let read = get-task id m₁ in
    elim (Bool-cases t.setts.is_selected) [
      | inl already ↦ (c₁, ground (arith, kept, read, already), h₁)
      | inr off ↦ (
        send (change_pipeline_task t)
            (record c₁ { pipeline_tasks = PipelineTasks.set_selected id true m₁ }),
        ground (arith, kept, read, off),
        set_selected-IsConsistent id m₁ h₁ true,
      )
    ]

pub double_click_task-Safe :
    (id : ℕ) (c : Client)
    → IsConsistent c.pipeline_tasks
    → JsMap.has id c.pipeline_tasks ≡ true
    → Safe (double_click_task id c)
unfolding double_click_task
double_click_task-Safe id c h stored =
    let m = c.pipeline_tasks in
    let (t, e) = get_of_has id m stored in
    let m₁ = PipelineTasks.set_selected id true m in
    let m₂ = PipelineTasks.set_visible id true m₁ in
    let h₂ = set_visible-IsConsistent id m₁ (set_selected-IsConsistent id m h true) true in
    let c₂ = send (change_pipeline_task t) (record c { pipeline_tasks = m₂ }) in
    (
      deselect_others id (JsMap.values m₂) c₂,
      ground (arith, get-task id m, e, deselect_tasks-others id (JsMap.values m₂) c₂),
      deselect_others-IsConsistent id (JsMap.values m₂) c₂ h₂,
    )
