-- ===== src/Dialog/TaskRows.antt =====
-- What the dialog of a pipeline task in web/client/central_widget/pipeline_task_dialog.tsx shows: the
-- choices, and the next tasks with their boxes. It is drawn with the central widget, also while it is
-- hidden.
use zmey.Base.{
  ℕ, ◌≡◌, refl, ◌==◌, Bool, true, false, Option, none, some, List, [], ◌∷◌, String, arith, ap, inl,
  inr, Bool-cases,
}
use zmey.JsArray.{includes}
use zmey.JsMap
use zmey.JsMap.{JsMap}
use zmey.Types.{Pipeline, PipelineTask, TaskTemplate}
use zmey.Store.PipelineTasks
use zmey.Store.Laws.{get-task}
use zmey.Client.{Client, returns, send, change_pipeline_task}
use zmey.Graph.Links.{Linked, next_stored}
use zmey.JsMap.Laws.{get_of_has}
use zmey.Central.{del_pipeline_task_success}
use zmey.Central.Delete.{del_pipeline_task_success-Linked}
use zmey.Central.Widget.{Widget, edit_pipeline_task}

-- An option of a choice: the value and the text.
pub record Choice : Type 0 where
  pub value : ℕ
  pub text : String

unfoldable pub pipeline_choices : JsMap Pipeline → List Choice
pipeline_choices [] = []
pipeline_choices ((k, p) ∷ m) = record { value = p.id; text = p.name } ∷ pipeline_choices m

unfoldable pub template_choices : JsMap TaskTemplate → List Choice
template_choices [] = []
template_choices ((k, t) ∷ m) = record { value = t.id; text = t.name } ∷ template_choices m

-- The row of a next task: its id, its name and whether its box is checked.
pub record NextRow : Type 0 where
  pub id : ℕ
  pub name : String
  pub is_checked : Bool

-- The flag of the first connection; one that is missing is not 1.
abbrev pub first_flag : List ℕ → Bool
first_flag [] = false
first_flag (f ∷ flags) = f == 1

abbrev pub rest_flags : List ℕ → List ℕ
rest_flags [] = []
rest_flags (f ∷ flags) = flags

-- `none` is the TypeError of a next task that is not stored.
unfoldable pub next_rows : List ℕ → List ℕ → JsMap PipelineTask → Option (List NextRow)
next_rows [] flags m = some []
next_rows (id ∷ ids) flags m = elim (PipelineTasks.get id m) [
  | none ↦ none
  | some nt ↦ elim (next_rows ids (rest_flags flags) m) [
    | none ↦ none
    | some rows ↦ some (record { id = id; name = nt.name; is_checked = first_flag flags } ∷ rows)
  ]
]

-- The rows of the dialog for the selected task; there is nothing to show of `null` either.
unfoldable pub rows_of_selected : Widget → Client → Option (List NextRow)
unfolding next_rows
rows_of_selected w c = elim w.sel_pipeline_task [
  | none ↦ none
  | some t ↦ next_rows t.next_tasks_id t.is_start_next c.pipeline_tasks
]

-- The switch writes into the selected task, stores it and sends it: the task and the client after.
unfoldable pub switch_task : Bool → PipelineTask → Client → PipelineTask × Client
switch_task on task c =
    let task' = record task { is_enabled = on } in
    (
      task',
      send (change_pipeline_task task')
          (record c { pipeline_tasks = PipelineTasks.upd task' c.pipeline_tasks }),
    )

next_rows-none :
    (id : ℕ) (ids flags : List ℕ) (m : JsMap PipelineTask)
    → includes id ids ≡ true
    → JsMap.get id m ≡ none
    → next_rows ids flags m ≡ none
unfolding next_rows includes
next_rows-none id [] flags m h e = cc
next_rows-none id (i ∷ ids) flags m h e = elim (Bool-cases (id == i)) [
  | inl same ↦ ground (arith, get-task i m, e, ap (λ (j : ℕ). JsMap.get j m))
  | inr other ↦ ground (arith, next_rows-none id ids (rest_flags flags) m)
]

next_rows-returns :
    (ids flags : List ℕ) (m : JsMap PipelineTask)
    → ((n : ℕ) → includes n ids ≡ true → JsMap.has n m ≡ true)
    → (rows : List NextRow) × (next_rows ids flags m ≡ some rows)
unfolding next_rows includes
next_rows-returns [] flags m h = ([], refl)
next_rows-returns (id ∷ ids) flags m h =
    let (nt, e) = get_of_has id m (h id (ground arith)) in
    let (rows, run) = next_rows-returns ids (rest_flags flags) m (λ n i. h n (ground arith)) in
    (
      record { id = id; name = nt.name; is_checked = first_flag flags } ∷ rows,
      ground (arith, get-task id m, e, run),
    )

-- On a consistent store let a stored task be opened for editing. Drawing the dialog of the
-- selected task returns; once a stored task that the task names as a next task has been
-- deleted, it throws.
pub rows_of_selected-deleted :
    (id : ℕ) (t u : PipelineTask) (w : Widget) (c : Client)
    → Linked c.pipeline_tasks
    → JsMap.get id c.pipeline_tasks ≡ some u
    → includes t.id u.next_tasks_id ≡ true
    → JsMap.has t.id c.pipeline_tasks ≡ true
    → (rows : List NextRow) × (c' : Client) × (rows_of_selected (edit_pipeline_task id w c) c
        ≡ some rows)
      × (del_pipeline_task_success t c ≡ returns c')
      × (rows_of_selected (edit_pipeline_task id w c) c' ≡ none)
unfolding rows_of_selected edit_pipeline_task
rows_of_selected-deleted id t u w c linked e listed h =
    let (c', run, gone, linked', edges) = del_pipeline_task_success-Linked t c linked h in
    let (rows, before) =
      next_rows-returns u.next_tasks_id u.is_start_next c.pipeline_tasks
        (λ n. next_stored linked id u n e) in
    (
      rows,
      c',
      ground (arith, get-task id c.pipeline_tasks, e, before),
      run,
      ground (
        arith,
        get-task id c.pipeline_tasks,
        e,
        next_rows-none t.id u.next_tasks_id u.is_start_next c'.pipeline_tasks listed gone,
      ),
    )
