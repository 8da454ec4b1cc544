-- ===== src/Tests/Api.antt =====
-- The theorems on the requests, the stores and the menu of a run, at concrete inputs, and the colour of
-- the messages.
use zmey.Base.{none, ℕ, ◌≡◌, refl, pos, true, false, some, List, [], ◌∷◌, arith}
use zmey.JsMap
use zmey.Types.{Pipeline, PipelineTask, Point, MessType, state_number, running, completed}
use zmey.Store.Tasks.{TaskStore}
use zmey.Client.{get_task_state}
use zmey.ServerApi.Reader.{runs, read_fetch}
use zmey.ServerApi.Routes.{fetch_of, read_fetch-fetch_of}
use zmey.Store.Interface.{Call, add, upd, del, AreKeyed, Refines}
use zmey.Store.Refine
use zmey.Store.Refine.{stores-refine}
use zmey.Store.Pipelines
use zmey.Store.PipelineTasks
use zmey.Store.TaskTemplates
use zmey.Store.Events
use zmey.Status.Menu.{
  Panel, Action, mouse_down, click, filter, runs_change, run, drawn, seen_by, IsSettled,
  run-seen_by,
}
use zmey.App.Page.{StatusLine, black, red, set_status_mess, central_status_mess, colour}
use zmey.Tests.Data.{client, pipeline, task_3}

read_fetch-fetch_of_example : read_fetch (fetch_of (get_task_state 12 true)) ≡ some (runs 12 true)
read_fetch-fetch_of_example = read_fetch-fetch_of (get_task_state 12 true)

-- A pipeline is deleted and another one is added twice.
abbrev pipeline_calls : List (Call Pipeline)
pipeline_calls = del 2 ∷ add (pipeline 3 true false) ∷ add (pipeline 3 false false) ∷ []

abbrev task_calls : List (Call PipelineTask)
task_calls = upd task_3 ∷ del 1 ∷ []

pipelines-keyed : AreKeyed Refine.pipelines client.pipelines
unfolding Refine.pipelines Pipelines.get JsMap.get JsMap.has
pipelines-keyed k v e = ground arith

tasks-keyed : AreKeyed Refine.pipeline_tasks client.pipeline_tasks
unfolding Refine.pipeline_tasks PipelineTasks.get JsMap.get JsMap.has
tasks-keyed k v e = ground arith

stores-refine_example :
    Refines Refine.pipelines pipeline_calls client.pipelines
    × Refines Refine.pipeline_tasks task_calls client.pipeline_tasks
    × Refines Refine.task_templates [] []
    × Refines Refine.events (del 7 ∷ []) []
unfolding Refine.task_templates Refine.events TaskTemplates.get Events.get JsMap.has
stores-refine_example =
    stores-refine pipeline_calls task_calls [] (del 7 ∷ []) client pipelines-keyed tasks-keyed
      (λ k v e. ground arith) (λ k v e. ground arith)

abbrev at : ℕ → ℕ → Point
at x y = record { x = pos x; y = pos y }

abbrev closed : Panel
closed = record {
  sel_task_id = 0;
  mpos = at 0 0;
  update_after_filter = false;
  has_new = false;
  has_hide = false;
  has_show = false;
  has_filter = false;
  drawn_id = 0;
  drawn_mpos = at 0 0;
  drawn_button = none;
}

abbrev run_7 : ℕ → TaskStore
run_7 state = record {
  ppl_task_id = 1;
  tasks =
      (record {
        id = 7;
        ppl_task_id = 1;
        starter_ppl_task_id = 1;
        starter_event_id = 0;
        ttl_id = 1;
        state = state;
        progress = 0;
        params = "";
        result = "";
        create_time = "";
        take_in_work_time = "";
        start_time = "";
        stop_time = "";
      })
      ∷ [];
}

-- The menu of run 7 is opened, the run ends, a box is checked, and the menu is closed.
abbrev actions : List Action
actions =
    mouse_down 2 (at 30 40) (at 10 10) 7 false
    ∷ runs_change true (run_7 (state_number completed))
    ∷ filter true
    ∷ click false
    ∷ []

run-seen_by_example :
    let runs = run_7 (state_number running) in
    (drawn (run actions runs closed) ≡ seen_by actions runs (drawn closed))
    × IsSettled (run actions runs closed)
run-seen_by_example =
    run-seen_by actions (run_7 (state_number running)) closed (refl, (tt, (tt, (tt, tt))))
      (refl, refl, refl, refl, refl)

abbrev line : StatusLine
line = record { mess = ""; mess_type = MessType.ok; has_timeout = false }

-- An error is red if the page itself reports it, and black if the central widget does.
error_colours :
    (colour (set_status_mess "e" MessType.error line) ≡ red)
    × (colour (central_status_mess "e" MessType.error line) ≡ black)
unfolding colour set_status_mess central_status_mess
error_colours = (refl, refl)
