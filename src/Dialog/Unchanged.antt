-- ===== src/Dialog/Unchanged.antt =====
-- Opening a dialog in web/client/central_widget and submitting it as it was opened.
use zmey.Base.{
  ℕ, ◌≡◌, ◌≢◌, ◌⊎◌, refl, ◌==◌, Bool, true, false, none, some, List, [], ◌∷◌, if◌then◌else◌, inl,
  inr, arith, All, length, ap, str_eq, Option-cases,
}
use text.Mathlib.TextPositions.{eq_refl}
use zmey.JsArray.{includes, Distinct}
use zmey.JsMap
use zmey.JsMap.{JsMap}
use zmey.JsMap.Laws.{get_of_has}
use zmey.Store.Laws.{get-task}
use zmey.Types.{Pipeline, PipelineTask, TaskTemplate, Event}
use zmey.Client.{
  Client, returns, send, change_form_task, change_event, change_pipeline, change_task_template,
}
use zmey.Graph.Links.{Linked, next_stored, next-Distinct_at}
use zmey.Dialog.{Dialog}
use zmey.Dialog.PipelineForm
use zmey.Dialog.Templates
use zmey.Dialog.EventForm
use zmey.Dialog.TaskForm
use zmey.Admin.ParseInt.{parse_int, parse_int-to_string}
use zmey.Dialog.Sent.{form_task}
use zmey.Dialog.TaskForm.{set_flags}
use zmey.Dialog.Times.{IsTime, print_times, parse_times-print_times}
use zmey.Dialog.TaskRows.{Choice, NextRow, pipeline_choices, template_choices, next_rows}
use zmey.Dialog.EventRows.{Row, h_show, event_rows, offered_tasks}
use zmey.Dialog.View.{
  TaskView, EventView, frame_of, offers, chosen, box_of, is_on, render_task, render_event,
  render_pipeline, render_template,
}

-- The boxes `g` show the flags.
abbrev Shows : (ℕ → Bool) → List ℕ → List ℕ → Type 0
Shows g [] flags = Unit {0}
Shows g (id ∷ ids) [] = ⊥
Shows g (id ∷ ids) (f ∷ flags) = ((if g id then 1 else 0) ≡ f) × Shows g ids flags

set_flags-Shows :
    (g : ℕ → Bool) (ids flags : List ℕ) → Shows g ids flags → set_flags g ids flags ≡ flags
unfolding set_flags
set_flags-Shows g [] flags h = refl
set_flags-Shows g (id ∷ ids) [] h = absurd h
set_flags-Shows g (id ∷ ids) (f ∷ flags) h = ground (arith, h.0, set_flags-Shows g ids flags h.1)

Shows-same :
    (g k : ℕ → Bool) (ids flags : List ℕ)
    → ((n : ℕ) → includes n ids ≡ true → k n ≡ g n)
    → Shows g ids flags
    → Shows k ids flags
unfolding includes
Shows-same g k [] flags same h = tt
Shows-same g k (id ∷ ids) [] same h = h
Shows-same g k (id ∷ ids) (f ∷ flags) same h =
    (ground (arith, h.0, same id), Shows-same g k ids flags (λ n i. same n (ground arith)) h.1)

-- A flag of a connection is 0 or 1.
abbrev pub IsFlag : ℕ → Type 0
IsFlag f = (f ≡ 0) ⊎ (f ≡ 1)

boxes : List NextRow → ℕ → Bool
boxes rows id = is_on (box_of id rows)

next_rows-Shows :
    (ids flags : List ℕ) (m : JsMap PipelineTask)
    → ((n : ℕ) → includes n ids ≡ true → JsMap.has n m ≡ true)
    → Distinct ids
    → All IsFlag flags
    → length flags ≡ length ids
    → (rows : List NextRow) × (next_rows ids flags m ≡ some rows)
      × ((n : ℕ) → includes n ids ≡ false → box_of n rows ≡ none)
      × Shows (boxes rows) ids flags
unfolding next_rows includes boxes
next_rows-Shows [] flags m h d b l = ([], refl, λ n e. refl, tt)
next_rows-Shows (id ∷ ids) [] m h d b l = absurd (omega (arith, l))
next_rows-Shows (id ∷ ids) (f ∷ flags) m h d b l =
    let (nt, e) = get_of_has id m (h id (ground arith)) in
    let (rows, run, others, shows) =
      next_rows-Shows ids flags m (λ n i. h n (ground arith)) d.1 b.1 (omega (arith, l)) in
    let row : NextRow = record { id = id; name = nt.name; is_checked = f == 1 } in
    (
      row ∷ rows,
      ground (arith, get-task id m, e, run),
      λ n i. ground (arith, others n, i),
      (
        elim b.0 [
          | inl off ↦ ground (arith, off, others id, d.0)
          | inr on ↦ ground (arith, on, others id, d.0)
        ],
        Shows-same (boxes rows) (boxes (row ∷ rows)) ids flags
            (λ n i. elim (Option-cases (box_of n rows)) [
              | inl gone ↦ ground (arith, gone, d.0, ap (λ (j : ℕ). includes j ids))
              | inr (on, e) ↦ ground (arith, e)
            ])
            shows,
      ),
    )

offers-pipeline :
    (k : ℕ) (m : JsMap Pipeline) (p : Pipeline)
    → JsMap.get k m ≡ some p
    → p.id ≡ k
    → offers k (pipeline_choices m) ≡ true
unfolding JsMap.get pipeline_choices
offers-pipeline k [] p e own = cc
offers-pipeline k ((j, q) ∷ m) p e own = ground (arith, offers-pipeline k m p)

offers-template :
    (k : ℕ) (m : JsMap TaskTemplate) (p : TaskTemplate)
    → JsMap.get k m ≡ some p
    → p.id ≡ k
    → offers k (template_choices m) ≡ true
unfolding JsMap.get template_choices
offers-template k [] p e own = cc
offers-template k ((j, q) ∷ m) p e own = ground (arith, offers-template k m p)

chosen-offered : (k : ℕ) (os : List Choice) → offers k os ≡ true → chosen k os ≡ some k
chosen-offered k [] h = cc
chosen-offered k (o ∷ os) h = ground (arith, h)

-- Let a task with an id other than 0 and a name be stored in a consistent store, its pipeline
-- and its template be stored under their own ids, each of its connections have a flag that is
-- 0 or 1, and `m_hasAdded` be false. Opening the task in its dialog shows it, and submitting
-- it with the inputs as they were opened returns and sends that task with the ids of its
-- pipeline and its template as texts, which read as these ids.
pub task-unchanged :
    (t : PipelineTask) (p : Pipeline) (tm : TaskTemplate) (d : Dialog) (c : Client)
    → Linked c.pipeline_tasks
    → JsMap.get t.id c.pipeline_tasks ≡ some t
    → JsMap.get t.ppl_id c.pipelines ≡ some p
    → p.id ≡ t.ppl_id
    → JsMap.get t.tt_id c.task_templates ≡ some tm
    → tm.id ≡ t.tt_id
    → All IsFlag t.is_start_next
    → length t.is_start_next ≡ length t.next_tasks_id
    → t.id ≢ 0
    → str_eq t.name "" ≡ false
    → d.has_added ≡ false
    → (v : TaskView) × (render_task t d c ≡ some v)
      × (TaskForm.h_submit t v.inputs d c
          ≡ record { dialog = d; outcome = returns (send (change_form_task (form_task t)) c) })
      × (parse_int (form_task t).ppl_id ≡ some t.ppl_id)
      × (parse_int (form_task t).tt_id ≡ some t.tt_id)
unfolding render_task TaskForm.h_submit TaskForm.check TaskForm.selections TaskForm.submit_edit
    TaskForm.edited_task boxes
task-unchanged t p tm d c linked e ep own_p et own_t flags aligned nonzero named fresh =
    let (rows, run, _, shows) =
      next_rows-Shows t.next_tasks_id t.is_start_next c.pipeline_tasks
        (λ n. next_stored linked t.id t n e) (next-Distinct_at linked t.id t e) flags aligned in
    let ppls = pipeline_choices c.pipelines in
    let tts = template_choices c.task_templates in
    let ppl = chosen-offered t.ppl_id ppls (offers-pipeline t.ppl_id c.pipelines p ep own_p) in
    let temp = chosen-offered t.tt_id tts (offers-template t.tt_id c.task_templates tm et own_t) in
    let kept = set_flags-Shows (boxes rows) t.next_tasks_id t.is_start_next shows in
    (
      record {
        frame = frame_of t.id (some t.is_enabled) d;
        inputs = record {
          ppl_id = chosen t.ppl_id ppls;
          tt_id = chosen t.tt_id tts;
          name = t.name;
          description = t.description;
          params = t.params;
          checked = boxes rows;
        };
        pipelines = ppls;
        templates = tts;
        rows = if t.id == 0 then [] else rows;
      },
      ground (arith, run),
      ground (arith, ppl, temp, kept, eq_refl t.name),
      parse_int-to_string t.ppl_id,
      parse_int-to_string t.tt_id,
    )

-- Let an event have an id other than 0 and a name, let the rows of its tasks be there, none
-- of its times be empty or hold a semicolon, and `m_hasAdded` be false. Opening the event in
-- its dialog shows it, and submitting it with the inputs as they were opened returns and
-- sends that very event.
pub event-unchanged :
    (evt : Event) (sel_ppl_id : ℕ) (starts : List ℕ) (rows : List Row) (d : Dialog) (c : Client)
    → event_rows evt.tasks_for_start c.pipelines c.pipeline_tasks ≡ some rows
    → All IsTime evt.time_start_once_of_day
    → evt.id ≢ 0
    → str_eq evt.name "" ≡ false
    → d.has_added ≡ false
    → let shown = h_show (some evt.tasks_for_start) starts in
      (v : EventView) × (render_event evt sel_ppl_id shown d c ≡ some v)
      × (EventForm.h_submit evt shown v.inputs d c
          ≡ record { dialog = d; outcome = returns (send (change_event evt) c) })
unfolding render_event h_show EventForm.h_submit EventForm.error_of EventForm.new_event
event-unchanged evt sel_ppl_id starts rows d c run times nonzero named fresh = (
  record {
    frame = frame_of evt.id (some evt.is_enabled) d;
    inputs = record {
      name = evt.name;
      description = evt.description;
      start_time_every = some evt.time_start_every_sec;
      start_time_once = print_times evt.time_start_once_of_day;
    };
    pipelines = pipeline_choices c.pipelines;
    offered = offered_tasks sel_ppl_id c.pipelines c.pipeline_tasks;
    rows = rows;
  },
  ground (arith, run),
  ground (arith, eq_refl evt.name, parse_times-print_times evt.time_start_once_of_day times),
)

-- Opening a pipeline and a task template, each with an id other than 0 and with a name, the template
-- with a script, and submitting them as they were opened, while `m_hasAdded` is false, sends them.
pub pipeline_template-unchanged :
    (ppl : Pipeline) (tm : TaskTemplate) (d : Dialog) (c : Client)
    → ppl.id ≢ 0
    → str_eq ppl.name "" ≡ false
    → tm.id ≢ 0
    → str_eq tm.name "" ≡ false
    → str_eq tm.script "" ≡ false
    → d.has_added ≡ false
    → (PipelineForm.h_submit ppl (render_pipeline ppl d).inputs d c
        ≡ record { dialog = d; outcome = returns (send (change_pipeline ppl) c) })
      × (Templates.h_submit tm (render_template tm d).inputs d c
          ≡ record { dialog = d; outcome = returns (send (change_task_template tm) c) })
unfolding render_pipeline render_template PipelineForm.h_submit PipelineForm.error_of
    PipelineForm.new_pipeline Templates.h_submit Templates.error_of Templates.new_template
pipeline_template-unchanged ppl tm d c p_nonzero p_named t_nonzero t_named scripted fresh =
    (ground (arith, eq_refl ppl.name), ground (arith, eq_refl tm.name))
