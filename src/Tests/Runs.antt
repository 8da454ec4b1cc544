-- ===== src/Tests/Runs.antt =====
-- The theorems on the table of runs and on polling, at concrete inputs.
use zmey.Base.{
  ℕ, ◌≡◌, refl, Bool, true, false, List, [], ◌∷◌, String, arith, none, some, Option, map,
  if◌then◌else◌,
}
use zmey.JsMap
use zmey.Types.{Task, PipelineSetts, MessType}
use zmey.DateFormat.{Text}
use zmey.ServerApi.Reader.{same_text}
use zmey.App.Receive.{Page, pipelines_answered, printed, json_text, pipelines_answered-printed}
use zmey.Store.PipelineTasks
use zmey.Store.Tasks.{TaskStore}
use zmey.Status.{Filter, Row, Widget, starter_name, rows_of, render_rows}
use zmey.Status.Rows.{row_tasks, rows_of-tasks, render_rows-stale}
use zmey.ServerApi.{rejected, response}
use zmey.App.{pipeline_tasks_received, Poller, Query, update_task_state, polled_id, answered}
use zmey.App.Poll.{poll_continues, failed_first_query}
use zmey.JsMap.{IsMap}
use zmey.Graph.Links.{IsKeyed}
use zmey.App.Fill.{last_with, pipeline_tasks_received-last}
use zmey.Tests.Data.{tasks, task_1, task_2, client, pipeline}

abbrev run : ℕ → ℕ → String → Task
run id starter result = record {
  id = id;
  ppl_task_id = 1;
  starter_ppl_task_id = starter;
  starter_event_id = 0;
  ttl_id = 1;
  state = 3;
  progress = 50;
  params = "";
  result = result;
  create_time = "";
  take_in_work_time = "";
  start_time = "10:00";
  stop_time = "";
}

abbrev running_only : Filter
running_only = record { only_running = true; only_completed = false; only_error = false }

rows_of-tasks_example :
    (rows : List Row) × (rows_of running_only (run 8 2 "a" ∷ []) tasks [] ≡ some rows)
    × (row_tasks rows ≡ run 8 2 "a" ∷ [])
unfolding starter_name PipelineTasks.get JsMap.get JsMap.has
rows_of-tasks_example = rows_of-tasks running_only (run 8 2 "a" ∷ []) tasks [] (("t", refl), tt)

abbrev shown_runs : Widget
shown_runs = record { tasks = run 7 1 "a" ∷ []; rows = [] }

abbrev other_runs : TaskStore
other_runs = record { ppl_task_id = 1; tasks = run 8 2 "b" ∷ [] }

-- A run with another id, starter and result takes the place of the shown one.
render_rows-stale_example :
    render_rows running_only false other_runs tasks [] shown_runs ≡ some shown_runs
render_rows-stale_example =
    render_rows-stale running_only other_runs tasks [] shown_runs refl
      (record { states = refl; starts = refl; stops = refl; progresses = refl }, tt)

-- Task 7 was polled before task 1 was selected.
abbrev polling : Poller
polling = record { ppl_task_id = 7; scheduled = false; store = other_runs }

abbrev query_1 : Bool → Query
query_1 if_change = record { ppl_task_id = 1; if_change = if_change }

poll_continues_example :
    ((update_task_state tasks polling).poller.scheduled ≡ true
      → (update_task_state tasks polling).query ≡ none)
    × ((update_task_state tasks polling).query ≡ none
        → (update_task_state tasks polling).poller.scheduled ≡ true)
    × ((answered (query_1 true) rejected polling).scheduled ≡ true)
poll_continues_example = poll_continues tasks polling (query_1 true) rejected

failed_first_query_example :
    let first = update_task_state tasks polling in
    (first.query ≡ some (query_1 false))
    × (let p₁ = answered (query_1 false) rejected first.poller in
        let second = update_task_state tasks p₁ in
        (second.query ≡ some (query_1 true))
        × ((answered (query_1 true) (response true (some [])) second.poller).store ≡ other_runs))
unfolding polled_id
failed_first_query_example =
    failed_first_query tasks polling true (λ e. ground arith) (λ e. ground arith)

-- Two objects with the id 2 came: the later one is stored.
pipeline_tasks_received-last_example :
    let m = (pipeline_tasks_received (task_2 ∷ task_1 ∷ task_2 ∷ []) client).pipeline_tasks in
    IsMap m
    × IsKeyed m
    × ((k : ℕ) → JsMap.get k m ≡ last_with (λ t. t.id) k (task_2 ∷ task_1 ∷ task_2 ∷ []) none)
pipeline_tasks_received-last_example =
    pipeline_tasks_received-last (task_2 ∷ task_1 ∷ task_2 ∷ []) client

abbrev setts : Bool → Bool → Bool → PipelineSetts
setts visible selected changed = record {
  is_visible = visible;
  is_selected = selected;
  has_change_task = changed;
}

-- A parser for the settings of pipelines: it compares with each of the eight texts.
abbrev all_setts : List PipelineSetts
all_setts =
    setts true true true
    ∷ setts true true false
    ∷ setts true false true
    ∷ setts true false false
    ∷ setts false true true
    ∷ setts false true false
    ∷ setts false false true
    ∷ setts false false false
    ∷ []

abbrev look_up : Text → List PipelineSetts → Option PipelineSetts
look_up t [] = none
look_up t (s ∷ ss) = let rest = look_up t ss in if same_text t (json_text s) then some s else rest

abbrev parse : Text → Option PipelineSetts
parse t = look_up t all_setts

parse-json_text :
    (visible selected changed : Bool)
    → parse (json_text (setts visible selected changed)) ≡ some (setts visible selected changed)
parse-json_text true true true = refl
parse-json_text true true false = refl
parse-json_text true false true = refl
parse-json_text true false false = refl
parse-json_text false true true = refl
parse-json_text false true false = refl
parse-json_text false false true = refl
parse-json_text false false false = refl

abbrev page : Page
page = record {
  user_name = "";
  client = client;
  line = record { mess = ""; mess_type = MessType.ok; has_timeout = false };
}

pipelines_answered-printed_example :
    let ps = pipeline 5 true true ∷ pipeline 6 false false ∷ [] in
    let m =
      (pipelines_answered parse (response true (some (map printed ps))) page).client.pipelines in
    IsMap m
    × ((k : ℕ) → JsMap.get k m ≡ last_with (λ q. q.id) k ps none)
    × ((pipelines_answered parse (response true (some (map printed ps))) page).line ≡ page.line)
pipelines_answered-printed_example =
    pipelines_answered-printed parse true (pipeline 5 true true ∷ pipeline 6 false false ∷ []) page
      (λ s. parse-json_text s.is_visible s.is_selected s.has_change_task)
