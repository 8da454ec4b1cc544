-- ===== src/Central/Lists.antt =====
-- The lists of templates, pipelines, tasks and events in `render` of
-- web/client/central_widget/central_widget.tsx, and what the buttons of an entry open.
use zmey.Base.{
  ℕ, ◌≡◌, refl, ◌∙◌, ap, false, Option, some, List, [], ◌∷◌, String, arith, All, All-map,
}
use zmey.JsMap
use zmey.JsMap.{JsMap, IsMap}
use zmey.JsMap.Laws.{get-entries, has-get}
use zmey.Store.TaskTemplates
use zmey.Store.PipelineTasks
use zmey.Store.Laws.{get-task, get-pipeline}
use zmey.Central.Confirm.{get-event}
use zmey.Types.{Pipeline, PipelineTask, TaskTemplate, Event}
use zmey.Client.{Client}
use zmey.Graph.Lines.{All-get_by_ppl_id}
use zmey.Central.{get_selected_pipeline_id}
use zmey.Central.Items.{Entry, entries_of, pipeline_task_list}
use zmey.Central.Widget.{
  Widget, edit_task_template, edit_pipeline, edit_pipeline_task, edit_event, delete_task_template,
  delete_pipeline, delete_pipeline_task, delete_event,
}

unfoldable pub template_list : JsMap TaskTemplate → List Entry
template_list [] = []
template_list ((k, t) ∷ m) =
    record { id = t.id; title = t.name; tooltip = t.description } ∷ template_list m

unfoldable pub pipeline_list : JsMap Pipeline → List Entry
pipeline_list [] = []
pipeline_list ((k, p) ∷ m) =
    record { id = p.id; title = p.name; tooltip = p.description } ∷ pipeline_list m

unfoldable pub event_list : JsMap Event → List Entry
event_list [] = []
event_list ((k, ev) ∷ m) =
    record { id = ev.id; title = ev.name; tooltip = ev.description } ∷ event_list m

-- `onHide` of the four dialogs.
unfoldable pub hide_task_template : Widget → Widget
hide_task_template w = record w { is_show_task_template = false }

unfoldable pub hide_pipeline_dialog : Widget → Widget
hide_pipeline_dialog w = record w { is_show_pipeline = false }

unfoldable pub hide_pipeline_task : Widget → Widget
hide_pipeline_task w = record w { is_show_pipeline_task = false }

unfoldable pub hide_event : Widget → Widget
hide_event w = record w { is_show_event = false }

-- A Map under the objects' own ids.
abbrev pub IsOwn : {V : Type 0} → (V → ℕ) → JsMap V → Type 0
IsOwn {V} id_of m = IsMap m × ((k : ℕ) (v : V) → JsMap.get k m ≡ some v → id_of v ≡ k)

-- An entry names an object that is stored under its id.
own-entries :
    {V : Type 0}
    → (id_of : V → ℕ) (m : JsMap V) → IsOwn id_of m
    → All (λ e. JsMap.get (id_of e.1) m ≡ some e.1) m
own-entries id_of m (is_map, own) =
    All-map _ _ (λ e s. ap (λ (j : ℕ). JsMap.get j m) (own e.0 e.1 s) ∙ s) m (get-entries m is_map)

get-template :
    (id : ℕ) (t : TaskTemplate) (m : JsMap TaskTemplate)
    → JsMap.get id m ≡ some t
    → TaskTemplates.get id m ≡ some t
unfolding TaskTemplates.get
get-template id t m h = ground (arith, h, has-get id m t h)

-- An entry shows the object that its two buttons select, for editing and for deleting.
abbrev pub Opens :
    {V : Type 0} → (V → String) → (V → String) → (ℕ → Option V) → (ℕ → Option V) → Entry → Type 0
Opens {V} name description edited deleted e =
    (v : V) × (edited e.id ≡ some v)
    × (deleted e.id ≡ some v)
    × (name v ≡ e.title)
    × (description v ≡ e.tooltip)

module _ (w : Widget) (c : Client) where
  abbrev pub TemplateOpens : Entry → Type 0
  TemplateOpens =
      Opens (λ (t : TaskTemplate). t.name) (λ t. t.description)
        (λ id. (edit_task_template id w c).sel_task_template)
        (λ id. (delete_task_template id w c).widget.sel_task_template)

  abbrev pub PipelineOpens : Entry → Type 0
  PipelineOpens =
      Opens (λ (p : Pipeline). p.name) (λ p. p.description)
        (λ id. (edit_pipeline id w c).sel_pipeline)
        (λ id. (delete_pipeline id w c).widget.sel_pipeline)

  abbrev pub TaskOpens : Entry → Type 0
  TaskOpens =
      Opens (λ (t : PipelineTask). t.name) (λ t. t.description)
        (λ id. (edit_pipeline_task id w c).sel_pipeline_task)
        (λ id. (delete_pipeline_task id w c).widget.sel_pipeline_task)

  abbrev pub EventOpens : Entry → Type 0
  EventOpens =
      Opens (λ (ev : Event). ev.name) (λ ev. ev.description) (λ id. (edit_event id w c).sel_event)
        (λ id. (delete_event id w c).widget.sel_event)

  templates-open :
      (m : JsMap TaskTemplate)
      → All (λ e. JsMap.get e.1.id c.task_templates ≡ some e.1) m
      → All TemplateOpens (template_list m)
  unfolding template_list edit_task_template delete_task_template
  templates-open [] h = tt
  templates-open ((k, t) ∷ m) h =
      let found = get-template t.id t c.task_templates h.0 in
      ((t, found, ground (arith, found), refl, refl), templates-open m h.1)

  pipelines-open :
      (m : JsMap Pipeline)
      → All (λ e. JsMap.get e.1.id c.pipelines ≡ some e.1) m
      → All PipelineOpens (pipeline_list m)
  unfolding pipeline_list edit_pipeline delete_pipeline
  pipelines-open [] h = tt
  pipelines-open ((k, p) ∷ m) h =
      let found = get-pipeline p.id c.pipelines ∙ h.0 in
      ((p, found, ground (arith, found), refl, refl), pipelines-open m h.1)

  tasks-open :
      (ts : List PipelineTask)
      → All (λ t. JsMap.get t.id c.pipeline_tasks ≡ some t) ts
      → All TaskOpens (entries_of ts)
  unfolding entries_of edit_pipeline_task delete_pipeline_task
  tasks-open [] h = tt
  tasks-open (t ∷ ts) h =
      let found = get-task t.id c.pipeline_tasks ∙ h.0 in
      ((t, found, ground (arith, found), refl, refl), tasks-open ts h.1)

  events-open :
      (m : JsMap Event)
      → All (λ e. JsMap.get e.1.id c.events ≡ some e.1) m
      → All EventOpens (event_list m)
  unfolding event_list edit_event delete_event
  events-open [] h = tt
  events-open ((k, ev) ∷ m) h =
      let found = get-event ev.id ev c.events h.0 in
      ((ev, found, ground (arith, found), refl, refl), events-open m h.1)

-- Let the four stores be Maps under the objects' own ids. Each entry of the lists of
-- templates, pipelines, tasks and events shows the name and the description of the stored
-- object that its two buttons select, the one for editing and the one for deleting.
pub lists-Opens :
    (w : Widget) (c : Client)
    → IsOwn (λ t. t.id) c.task_templates
    → IsOwn (λ p. p.id) c.pipelines
    → IsOwn (λ t. t.id) c.pipeline_tasks
    → IsOwn (λ ev. ev.id) c.events
    → All (TemplateOpens w c) (template_list c.task_templates)
      × All (PipelineOpens w c) (pipeline_list c.pipelines)
      × All (TaskOpens w c) (pipeline_task_list c)
      × All (EventOpens w c) (event_list c.events)
unfolding pipeline_task_list
lists-Opens w c templates pipelines tasks events = (
  templates-open w c c.task_templates (own-entries _ c.task_templates templates),
  pipelines-open w c c.pipelines (own-entries _ c.pipelines pipelines),
  tasks-open w c (PipelineTasks.get_by_ppl_id (get_selected_pipeline_id c) c.pipeline_tasks) (
      All-get_by_ppl_id _ (get_selected_pipeline_id c) c.pipeline_tasks tasks.0
        (λ k t e. ap (λ (j : ℕ). JsMap.get j c.pipeline_tasks) (tasks.1 k t e) ∙ e)),
  events-open w c c.events (own-entries _ c.events events),
)
