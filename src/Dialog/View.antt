-- ===== src/Dialog/View.antt =====
-- What `render` of the four dialogs in web/client/central_widget shows. A dialog's inputs are made
-- anew when it is shown, with the values that `render` gives them.
use zmey.Base.{ℕ, ◌==◌, Bool, true, false, Option, none, some, List, [], ◌∷◌, String, if◌then◌else◌}
use zmey.Types.{Pipeline, PipelineTask, TaskTemplate, Event}
use zmey.Client.{Client}
use zmey.Dialog.{Dialog, Mess}
use zmey.Dialog.PipelineForm
use zmey.Dialog.Templates
use zmey.Dialog.TaskForm
use zmey.Dialog.EventForm
use zmey.Dialog.Times.{print_times}
use zmey.Dialog.TaskRows.{Choice, NextRow, pipeline_choices, template_choices, next_rows}
use zmey.Dialog.EventRows.{Row, offered_tasks, event_rows}

-- `Create of Event` or `4# Edit of Event`, and the same for the other objects.
pub data Title : Type 0 where
  create_of : Title
  edit_of : ℕ → Title

-- The label of the second button.
pub data Label : Type 0 where
  create save_changes : Label

-- The title with its switch, the status line and the button; a switch shows whether it is on.
pub record Frame : Type 0 where
  pub shown : Bool
  pub title : Title
  pub switch : Option Bool
  pub status_mess : Mess
  pub submit : Label

abbrev pub frame_of : ℕ → Option Bool → Dialog → Frame
frame_of id switch d =
    let is_new = id == 0 in
    record {
      shown = d.shown;
      title = if is_new then create_of else edit_of id;
      switch = if is_new then none else switch;
      status_mess = d.status_mess;
      submit = if is_new then create else save_changes;
    }

pub record PipelineView : Type 0 where
  pub frame : Frame
  pub inputs : PipelineForm.Form

unfoldable pub render_pipeline : Pipeline → Dialog → PipelineView
render_pipeline ppl d = record {
  frame = frame_of ppl.id none d;
  inputs = record { name = ppl.name; description = ppl.description };
}

pub record TemplateView : Type 0 where
  pub frame : Frame
  pub inputs : Templates.Form

unfoldable pub render_template : TaskTemplate → Dialog → TemplateView
render_template ttask d = record {
  frame = frame_of ttask.id none d;
  inputs = record {
    name = ttask.name;
    script = ttask.script;
    description = ttask.description;
    aver_duration_sec = some ttask.aver_duration_sec;
    max_duration_sec = some ttask.max_duration_sec;
  };
}

-- The options of the two choices and the rows; the choices start at the first pipeline and task.
pub record EventView : Type 0 where
  pub frame : Frame
  pub inputs : EventForm.Form
  pub pipelines : List Choice
  pub offered : List (ℕ × String)
  pub rows : List Row

-- `sel_ppl_id` and `starts` are the component's state; `none` is a TypeError.
unfoldable pub render_event : Event → ℕ → List ℕ → Dialog → Client → Option EventView
render_event evt sel_ppl_id starts d c = elim (event_rows starts c.pipelines c.pipeline_tasks) [
  | none ↦ none
  | some rows ↦ some (record {
    frame = frame_of evt.id (some evt.is_enabled) d;
    inputs = record {
      name = evt.name;
      description = evt.description;
      start_time_every = some evt.time_start_every_sec;
      start_time_once = print_times evt.time_start_once_of_day;
    };
    pipelines = pipeline_choices c.pipelines;
    offered = offered_tasks sel_ppl_id c.pipelines c.pipeline_tasks;
    rows = rows;
  })
]

-- `onChange` of the choice of a pipeline: the new `selPplId`.
unfoldable pub choose_pipeline : ℕ → ℕ → ℕ
choose_pipeline value sel_ppl_id = value

-- Is there an option with the value?
abbrev pub offers : ℕ → List Choice → Bool
offers value [] = false
offers value (o ∷ os) = if o.value == value then true else offers value os

-- What a choice with a default value has chosen: the option with the value, else the first one.
abbrev pub chosen : ℕ → List Choice → Option ℕ
chosen value [] = none
chosen value (o ∷ os) = if offers value (o ∷ os) then some value else some o.value

-- `m_refObj["isStartNext" + id].checked`: the box that was drawn last for the id.
abbrev pub box_of : ℕ → List NextRow → Option Bool
box_of id [] = none
box_of id (r ∷ rs) = elim (box_of id rs) [
  | some on ↦ some on
  | none ↦ if r.id == id then some r.is_checked else none
]

abbrev pub is_on : Option Bool → Bool
is_on none = false
is_on (some on) = on

pub record TaskView : Type 0 where
  pub frame : Frame
  pub inputs : TaskForm.Form
  pub pipelines : List Choice
  pub templates : List Choice
  pub rows : List NextRow

unfoldable pub render_task : PipelineTask → Dialog → Client → Option TaskView
render_task t d c = elim (next_rows t.next_tasks_id t.is_start_next c.pipeline_tasks) [
  | none ↦ none
  | some rows ↦ some (record {
    frame = frame_of t.id (some t.is_enabled) d;
    inputs = record {
      ppl_id = chosen t.ppl_id (pipeline_choices c.pipelines);
      tt_id = chosen t.tt_id (template_choices c.task_templates);
      name = t.name;
      description = t.description;
      params = t.params;
      checked = λ id. is_on (box_of id rows);
    };
    pipelines = pipeline_choices c.pipelines;
    templates = template_choices c.task_templates;
    rows = if t.id == 0 then [] else rows;
  })
]
