-- ===== src/Dialog/TaskForm.antt =====
-- `hSubmit` of web/client/central_widget/pipeline_task_dialog.tsx.
use zmey.Base.{
  List, [], ◌∷◌, pos, ℕ, ◌==◌, not, ◌&&◌, Bool, true, false, Option, none, some, String, str_eq,
  if◌then◌else◌,
}
use zmey.DateFormat.{to_string}
use zmey.Store.PipelineTasks
use zmey.Store.Pipelines
use zmey.Store.Connections.{del_all_connections}
use zmey.Types.{PipelineTask, FormTask, TaskSetts, Point, Rect}
use zmey.Client.{Client, Outcome, returns, send, add_pipeline_task, change_form_task, ◌>>=◌}
use zmey.Dialog.{
  Dialog, Submitted, Mess, name_empty, not_select_pipeline, not_select_task_template, name_exists,
  reject, on_add_success, on_change_success,
}

-- The inputs. `ppl_id` and `tt_id` are the ids of the options that are selected, `none` while the list
-- is empty; the `value` that the source reads is the id's text. `checked` are the boxes of the next
-- tasks, by their ids.
pub record Form : Type 0 where
  pub ppl_id : Option ℕ
  pub tt_id : Option ℕ
  pub name : String
  pub description : String
  pub params : String
  pub checked : ℕ → Bool

-- `PipelineTasks.getByName(pplId, name)` as a test; no task has an empty pipeline id.
abbrev pub exists : Option ℕ → String → Client → Bool
exists none name c = false
exists (some ppl_id) name c = elim (PipelineTasks.get_by_name ppl_id name c.pipeline_tasks) [
  | none ↦ false
  | some t ↦ true
]

-- The ids of the pipeline and the template of a valid form, or the error.
pub data Checked : Type 0 where
  invalid : Mess → Checked
  valid : ℕ → ℕ → Checked

unfoldable pub selections : Option ℕ → Option ℕ → Checked
selections none tt_id = invalid not_select_pipeline
selections (some ppl_id) none = invalid not_select_task_template
selections (some ppl_id) (some tt_id) = valid ppl_id tt_id

unfoldable pub check : PipelineTask → Form → Client → Checked
unfolding selections
check sel f c =
    let is_new = sel.id == 0 in
    if str_eq f.name ""
    then invalid name_empty
    else if is_new && exists f.ppl_id f.name c
    then invalid (name_exists f.name)
    else if not is_new && (not (str_eq sel.name f.name) && exists f.ppl_id f.name c)
    then invalid (name_exists f.name)
    else selections f.ppl_id f.tt_id

-- `selTask.nextTasksId.forEach((id, ix) => selTask.isStartNext[ix] = …)`: a flag for each next
-- task; flags behind the last next task stay.
unfoldable pub set_flags : (ℕ → Bool) → List ℕ → List ℕ → List ℕ
set_flags checked [] flags = flags
set_flags checked (id ∷ ids) [] = (if checked id then 1 else 0) ∷ set_flags checked ids []
set_flags checked (id ∷ ids) (f ∷ flags) =
    (if checked id then 1 else 0) ∷ set_flags checked ids flags

abbrev no_point : Point
no_point = record { x = pos 0; y = pos 0 }

abbrev no_rect : Rect
no_rect = record { x = pos 0; y = pos 0; w = pos 0; h = pos 0 }

-- The sockets are undefined in the source, until the task is drawn for the first time.
abbrev pub new_setts : TaskSetts
new_setts = record {
  is_visible = true;
  is_selected = false;
  is_moved = false;
  position_x = pos 0;
  position_y = pos 0;
  width = pos 0;
  height = pos 0;
  socket_in_rect = no_rect;
  socket_in_point = no_point;
  socket_out_rect = no_rect;
  socket_out_point = no_point;
}

unfoldable pub new_task : ℕ → ℕ → Form → FormTask
new_task ppl_id tt_id f = record {
  id = 0;
  ppl_id = to_string ppl_id;
  tt_id = to_string tt_id;
  is_enabled = true;
  next_tasks_id = [];
  prev_tasks_id = [];
  is_start_next = [];
  params = f.params;
  name = f.name;
  description = f.description;
  setts = new_setts;
}

-- The edited task, with the connections of the selected one.
unfoldable pub edited_task : PipelineTask → ℕ → ℕ → Form → FormTask
unfolding set_flags
edited_task sel ppl_id tt_id f = record {
  id = sel.id;
  ppl_id = to_string ppl_id;
  tt_id = to_string tt_id;
  is_enabled = sel.is_enabled;
  next_tasks_id = sel.next_tasks_id;
  prev_tasks_id = sel.prev_tasks_id;
  is_start_next = set_flags f.checked sel.next_tasks_id sel.is_start_next;
  params = f.params;
  name = f.name;
  description = f.description;
  setts = sel.setts;
}

-- The edit of a task that is in the store already. `pplId != selTask.pplId` compares the text with the
-- number as numbers. Moving it to another pipeline deletes its
-- connections, in the store and in the object that is sent.
unfoldable pub submit_edit : PipelineTask → ℕ → ℕ → Form → Client → Outcome
unfolding edited_task
submit_edit sel ppl_id tt_id f c =
    let edited = edited_task sel ppl_id tt_id f in
    if ppl_id == sel.ppl_id
    then returns (send (change_form_task edited) c)
    else (del_all_connections sel.id c >>= λ c'.
        returns
          (send (change_form_task (record edited { next_tasks_id = []; prev_tasks_id = [] })) c'))

unfoldable pub h_submit : PipelineTask → Form → Dialog → Client → Submitted
unfolding check new_task submit_edit
h_submit sel f d c =
    if d.has_added then record { dialog = d; outcome = returns c } else elim (check sel f c) [
      | invalid mess ↦ record { dialog = reject mess d; outcome = returns c }
      | valid ppl_id tt_id ↦
          if sel.id == 0
          then record {
            dialog = record d { has_added = true };
            outcome = returns (send (add_pipeline_task (new_task ppl_id tt_id f)) c);
          }
          else record { dialog = d; outcome = submit_edit sel ppl_id tt_id f c }
    ]

unfoldable pub add_success : PipelineTask → Dialog → Client → Submitted
unfolding on_add_success
add_success resp d c = record {
  dialog = on_add_success d;
  outcome = returns (record c { pipeline_tasks = PipelineTasks.add resp c.pipeline_tasks });
}

-- The panel is told to redraw the selected pipeline.
unfoldable pub change_success : PipelineTask → Dialog → Client → Submitted
unfolding on_change_success
change_success resp d c = record {
  dialog = on_change_success d;
  outcome = returns (record c {
    pipeline_tasks = PipelineTasks.upd resp c.pipeline_tasks;
    pipelines = elim (Pipelines.get_selected c.pipelines) [
      | [] ↦ c.pipelines
      | p ∷ ps ↦ Pipelines.set_change_task p.id true c.pipelines
    ];
  });
}
