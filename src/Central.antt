-- ===== src/Central.antt =====
-- web/client/central_widget/central_widget.tsx: the lists of pipelines, tasks, templates and
-- events, and the tabs of the visible pipelines.
pub mod Select
pub mod Delete
pub mod Hide
pub mod Widget
pub mod Items
pub mod Lists
pub mod Confirm
use zmey.Base.{
  ℕ, ◌==◌, not, ◌&&◌, Bool, true, false, Option, none, some, List, [], ◌∷◌, if◌then◌else◌, String,
}
use zmey.JsMap
use zmey.Store.Pipelines
use zmey.Store.PipelineTasks
use zmey.Store.TaskTemplates
use zmey.Store.Events
use zmey.Store.Connections.{del_all_connections}
use zmey.Types.{Pipeline, PipelineTask, TaskTemplate, Event}
use zmey.Client.{
  Client, Outcome, returns, throws, send, change_pipeline, change_pipeline_task, del_task_template,
  del_pipeline, del_pipeline_task, del_event, ◌>>=◌,
}

-- `ServerAPI.changePipeline(Pipelines.get(id))`: a missing pipeline throws when its id is read.
abbrev pub send_pipeline : ℕ → Client → Outcome
send_pipeline id c = elim (Pipelines.get id c.pipelines) [
  | none ↦ throws c
  | some p ↦ returns (send (change_pipeline p) c)
]

-- The loop of `selectPipeline`, over the pipelines that were selected.
unfoldable pub deselect : ℕ → List Pipeline → Client → Outcome
deselect id [] c = returns c
deselect id (p ∷ ps) c = elim (p.id == id) [
  | true ↦ deselect id ps c
  | false ↦ elim (Pipelines.get p.id c.pipelines) [
    | none ↦ throws c
    | some ppl ↦
        let ppl' = record ppl { setts = record (ppl.setts) { is_selected = false } } in
        deselect id ps
          (send (change_pipeline ppl') (record c { pipelines = Pipelines.upd ppl' c.pipelines }))
  ]
]

unfoldable pub select_pipeline : ℕ → Client → Outcome
unfolding deselect
select_pipeline id c = elim (Pipelines.get id c.pipelines) [
  | none ↦ throws c
  | some p ↦
      let c₁ =
        if p.setts.is_visible
        then c
        else record c { pipelines = Pipelines.set_visible id true c.pipelines } in
      deselect id (Pipelines.get_selected c₁.pipelines) c₁ >>= λ c₂.
      send_pipeline id (record c₂ { pipelines = Pipelines.set_selected id true c₂.pipelines })
]

-- `find(p => p.id == id)` as a test
abbrev pub has_id : ℕ → List Pipeline → Bool
has_id id [] = false
has_id id (p ∷ ps) = if p.id == id then true else has_id id ps

-- What `hidePipeline` does to the first visible pipeline if the hidden one was selected. The
-- object that is sent is the one in the Map.
abbrev pub select_first : List Pipeline → Client → Outcome
select_first [] c = returns c
select_first (v ∷ vs) c =
    let m = Pipelines.set_selected v.id true c.pipelines in
    elim (JsMap.get v.id m) [
      | none ↦ returns (record c { pipelines = m })
      | some v' ↦ returns (send (change_pipeline v') (record c { pipelines = m }))
    ]

unfoldable pub hide_pipeline : ℕ → Client → Outcome
hide_pipeline id c =
    let c₁ = record c { pipelines = Pipelines.set_visible id false c.pipelines } in
    (if has_id id (Pipelines.get_selected c₁.pipelines)
      then select_first (Pipelines.get_visible c₁.pipelines) c₁
      else returns c₁)
    >>= λ c₂.
        send_pipeline id (record c₂ { pipelines = Pipelines.set_selected id false c₂.pipelines })

abbrev pub get_selected_pipeline_id : Client → ℕ
get_selected_pipeline_id c = elim (Pipelines.get_selected c.pipelines) [ [] ↦ 0 | p ∷ ps ↦ p.id ]

-- The four handlers that delete: first the request, and what its success does to the store.
unfoldable pub del_task_template_request : TaskTemplate → Client → Outcome
del_task_template_request sel c = returns (send (del_task_template sel) c)

unfoldable pub del_task_template_success : TaskTemplate → Client → Outcome
del_task_template_success sel c =
    returns (record c { task_templates = TaskTemplates.del sel.id c.task_templates })

unfoldable pub del_pipeline_request : Pipeline → Client → Outcome
unfolding hide_pipeline
del_pipeline_request sel c = hide_pipeline sel.id c >>= λ c'. returns (send (del_pipeline sel) c')

unfoldable pub del_pipeline_success : Pipeline → Client → Outcome
del_pipeline_success sel c = returns (record c { pipelines = Pipelines.del sel.id c.pipelines })

unfoldable pub del_pipeline_task_request : PipelineTask → Client → Outcome
del_pipeline_task_request sel c = returns (send (del_pipeline_task sel) c)

unfoldable pub del_pipeline_task_success : PipelineTask → Client → Outcome
del_pipeline_task_success sel c = del_all_connections sel.id c >>= λ c'.
    returns (record c' { pipeline_tasks = PipelineTasks.del sel.id c'.pipeline_tasks })

unfoldable pub del_event_request : Event → Client → Outcome
del_event_request sel c = returns (send (del_event sel) c)

unfoldable pub del_event_success : Event → Client → Outcome
del_event_success sel c = returns (record c { events = Events.del sel.id c.events })

-- The loop of `hDClickItem` in the list of pipeline tasks; `st` is the object in the Map.
unfoldable pub deselect_tasks : ℕ → List PipelineTask → Client → Client
deselect_tasks id [] c = c
deselect_tasks id (st ∷ sts) c = elim (st.setts.is_selected && not (st.id == id)) [
  | false ↦ deselect_tasks id sts c
  | true ↦
      let m = PipelineTasks.set_selected st.id false c.pipeline_tasks in
      elim (JsMap.get st.id m) [
        | none ↦ deselect_tasks id sts (record c { pipeline_tasks = m })
        | some st' ↦
            deselect_tasks id sts
              (send (change_pipeline_task st') (record c { pipeline_tasks = m }))
      ]
]

-- `hDClickItem` sends the copy that it read before it selected the task.
unfoldable pub double_click_task : ℕ → Client → Outcome
unfolding deselect_tasks
double_click_task id c = elim (PipelineTasks.get id c.pipeline_tasks) [
  | none ↦ throws c
  | some sel ↦
      let m =
        PipelineTasks.set_visible id true (PipelineTasks.set_selected id true c.pipeline_tasks) in
      returns (
        deselect_tasks id (JsMap.values m)
          (send (change_pipeline_task sel) (record c { pipeline_tasks = m })))
]
