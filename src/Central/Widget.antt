-- ===== src/Central/Widget.antt =====
-- The fields and the dialogs of `CentralWidget` in
-- web/client/central_widget/central_widget.tsx: what is selected for editing or deleting, which
-- dialogs are open, and the question before a deletion (web/client/common/ack_delete_modal.tsx).
use zmey.Base.{ℕ, Bool, true, false, Option, none, some, String}
use Prim.Native.String.{◌++◌}
use zmey.Store.Pipelines
use zmey.Store.PipelineTasks
use zmey.Store.TaskTemplates
use zmey.Store.Events
use zmey.Types.{Pipeline, PipelineTask, TaskTemplate, Event}
use zmey.Client.{Client, Outcome, returns, throws}
use zmey.Central.{
  get_selected_pipeline_id, double_click_task, del_task_template_request, del_task_template_success,
  del_pipeline_request, del_pipeline_success, del_pipeline_task_request, del_pipeline_task_success,
  del_event_request, del_event_success,
}

-- Which of the four methods `onYes` is.
pub data OnYes : Type 0 where
  del_task_template del_pipeline del_pipeline_task del_event : OnYes

-- `m_ackDeleteDialog`
pub record AckDialog : Type 0 where
  pub description : String
  pub title : String
  pub on_yes : OnYes

-- `none` is the `null` that `get` of a store returns for a missing object. Of `ack` there is
-- nothing before the first deletion.
pub record Widget : Type 0 where
  pub sel_task_template : Option TaskTemplate
  pub sel_pipeline : Option Pipeline
  pub sel_pipeline_task : Option PipelineTask
  pub sel_event : Option Event
  pub ack : Option AckDialog
  pub is_show_task_template : Bool
  pub is_show_pipeline : Bool
  pub is_show_pipeline_task : Bool
  pub is_show_event : Bool
  pub is_show_ack : Bool

pub record Step : Type 0 where
  pub widget : Widget
  pub outcome : Outcome

-- A handler that throws has changed what `w` says.
abbrev thrown : Widget → Client → Step
thrown w c = record { widget = w; outcome = throws c }

abbrev done : Widget → Client → Step
done w c = record { widget = w; outcome = returns c }

-- Opening the editors; that of tasks is also opened from the panel. The double click on a template
-- or an event does the same.
unfoldable pub edit_task_template : ℕ → Widget → Client → Widget
edit_task_template id w c = record w {
  sel_task_template = TaskTemplates.get id c.task_templates;
  is_show_task_template = true;
}

unfoldable pub edit_pipeline : ℕ → Widget → Client → Widget
edit_pipeline id w c = record w {
  sel_pipeline = Pipelines.get id c.pipelines;
  is_show_pipeline = true;
}

unfoldable pub edit_pipeline_task : ℕ → Widget → Client → Widget
edit_pipeline_task id w c = record w {
  sel_pipeline_task = PipelineTasks.get id c.pipeline_tasks;
  is_show_pipeline_task = true;
}

unfoldable pub edit_event : ℕ → Widget → Client → Widget
edit_event id w c = record w { sel_event = Events.get id c.events; is_show_event = true }

abbrev asks : String → String → OnYes → Widget → Widget
asks description title on_yes w = record w {
  ack = some (record { description = description; title = title; on_yes = on_yes });
  is_show_ack = true;
}

-- Asking before a deletion. The description of a missing object throws.
unfoldable pub delete_task_template : ℕ → Widget → Client → Step
delete_task_template id w c =
    let w₁ = record w { sel_task_template = TaskTemplates.get id c.task_templates } in
    elim (TaskTemplates.get id c.task_templates) [
      | none ↦ thrown w₁ c
      | some t ↦
          done
            (asks t.description ("Delete '" ++ t.name ++ "' Task Template?") del_task_template w₁) c
    ]

unfoldable pub delete_pipeline : ℕ → Widget → Client → Step
delete_pipeline id w c =
    let w₁ = record w { sel_pipeline = Pipelines.get id c.pipelines } in
    elim (Pipelines.get id c.pipelines) [
      | none ↦ thrown w₁ c
      | some p ↦
          done
            (asks p.description ("Delete '" ++ p.name ++ "' Pipeline and all his tasks?")
              del_pipeline w₁)
            c
    ]

unfoldable pub delete_pipeline_task : ℕ → Widget → Client → Step
delete_pipeline_task id w c =
    let w₁ = record w { sel_pipeline_task = PipelineTasks.get id c.pipeline_tasks } in
    elim (PipelineTasks.get id c.pipeline_tasks) [
      | none ↦ thrown w₁ c
      | some t ↦
          done
            (asks t.description ("Delete '" ++ t.name ++ "' Pipeline Task?") del_pipeline_task w₁) c
    ]

unfoldable pub delete_event : ℕ → Widget → Client → Step
delete_event id w c =
    let w₁ = record w { sel_event = Events.get id c.events } in
    elim (Events.get id c.events) [
      | none ↦ thrown w₁ c
      | some e ↦ done (asks e.description ("Delete '" ++ e.name ++ "' Event?") del_event w₁) c
    ]

unfoldable pub click_task_twice : ℕ → Widget → Client → Step
click_task_twice id w c = record {
  widget = record w { sel_pipeline_task = PipelineTasks.get id c.pipeline_tasks };
  outcome = double_click_task id c;
}

-- The buttons for a new object write the id 0 into the object that was selected last.
unfoldable pub new_task_template : Widget → Client → Step
new_task_template w c = elim w.sel_task_template [
  | none ↦ thrown w c
  | some t ↦
      done
        (record w { sel_task_template = some (record t { id = 0 }); is_show_task_template = true })
        c
]

unfoldable pub new_pipeline : Widget → Client → Step
new_pipeline w c = elim w.sel_pipeline [
  | none ↦ thrown w c
  | some p ↦
      done (record w { sel_pipeline = some (record p { id = 0 }); is_show_pipeline = true }) c
]

unfoldable pub new_pipeline_task : Widget → Client → Step
new_pipeline_task w c = elim w.sel_pipeline_task [
  | none ↦ thrown w c
  | some t ↦
      let t' = record t { id = 0; ppl_id = get_selected_pipeline_id c } in
      done (record w { sel_pipeline_task = some t'; is_show_pipeline_task = true }) c
]

unfoldable pub new_event : Widget → Client → Step
new_event w c = elim w.sel_event [
  | none ↦ thrown w c
  | some e ↦ done (record w { sel_event = some (record e { id = 0 }); is_show_event = true }) c
]

-- A handler of a selected object; reading the id of `null` throws.
abbrev with_sel : {A : Type 0} → Option A → (A → Client → Outcome) → Client → Outcome
with_sel none f c = throws c
with_sel (some a) f c = f a c

-- The button Yes: the request of the method.
unfoldable pub yes : OnYes → Widget → Client → Outcome
yes del_task_template w = with_sel w.sel_task_template del_task_template_request
yes del_pipeline w = with_sel w.sel_pipeline del_pipeline_request
yes del_pipeline_task w = with_sel w.sel_pipeline_task del_pipeline_task_request
yes del_event w = with_sel w.sel_event del_event_request

-- The method's callback reads the selected object when the server's answer comes.
unfoldable pub deleted : OnYes → Widget → Client → Outcome
deleted del_task_template w = with_sel w.sel_task_template del_task_template_success
deleted del_pipeline w = with_sel w.sel_pipeline del_pipeline_success
deleted del_pipeline_task w = with_sel w.sel_pipeline_task del_pipeline_task_success
deleted del_event w = with_sel w.sel_event del_event_success

-- It closes the question, a pipeline's even if what follows throws.
unfoldable pub on_deleted : OnYes → Widget → Client → Step
unfolding deleted
on_deleted k w c =
    let closed = record w { is_show_ack = false } in
    elim (deleted k w c) [
      | returns c' ↦ done closed c'
      | throws c' ↦ elim k [ del_pipeline ↦ thrown closed c' | _ ↦ thrown w c' ]
    ]

-- The button No.
unfoldable pub hide_ack : Widget → Widget
hide_ack w = record w { is_show_ack = false }
