-- ===== src/ServerApi/Fetch.antt =====
-- The calls of the browser's `fetch` in web/client/server_api, a function for each of the source's.
-- A URL is the list of its character codes. The body is the object that is given to
-- `JSON.stringify`; a request with a body has the header 'Content-Type', the others have none.
use Prim.Native.Char.{code}
use Prim.Native.String.{String}
use zmey.Base.{ℕ, Bool, Option, none, some, List, ◌++◌, if◌then◌else◌}
use zmey.DateFormat.{Text, to_string}
use zmey.Types.{Pipeline, TaskTemplate, PipelineTask, FormTask, Event}

pub data Method : Type 0 where
  get post put delete : Method

-- `start` is the object that startTask gets: the fields `pplTaskId`, `starterPplTaskId`,
-- `starterEventId`, `ttlId` and `params`.
pub data Body : Type 0 where
  pipeline : Pipeline → Body
  task_template : TaskTemplate → Body
  pipeline_task : PipelineTask → Body
  form_task : FormTask → Body
  event : Event → Body
  start : ℕ → ℕ → ℕ → ℕ → String → Body

-- What the answer is read by: `json_then` or `ok_then` of the parent module.
pub data Reading : Type 0 where
  by_json by_ok : Reading

pub record Fetch : Type 0 where
  pub method : Method
  pub url : Text
  pub body : Option Body
  pub reading : Reading

-- The codes of a text in the source.
abbrev pub codes : String → Text
codes String.[] = List.[]
codes (String.◌∷◌ c s) = List.◌∷◌ (code c) (codes s)

abbrev get_from : Text → Fetch
get_from url = record { method = get; url = url; body = none; reading = by_json }

abbrev post_to : Text → Body → Fetch
post_to url body = record { method = post; url = url; body = some body; reading = by_json }

abbrev put_to : Text → Body → Fetch
put_to url body = record { method = put; url = url; body = some body; reading = by_json }

-- Without an object.
abbrev put_only : Text → Fetch
put_only url = record { method = put; url = url; body = none; reading = by_ok }

abbrev delete_at : Text → Fetch
delete_at url = record { method = delete; url = url; body = none; reading = by_ok }

abbrev pub get_user : Fetch
get_user = get_from (codes "api/v1/users")

abbrev pub add_pipeline : Pipeline → Fetch
add_pipeline p = post_to (codes "api/v1/pipelines") (pipeline p)

abbrev pub change_pipeline : Pipeline → Fetch
change_pipeline p = put_to (codes "api/v1/pipelines/" ++ to_string p.id) (pipeline p)

abbrev pub del_pipeline : Pipeline → Fetch
del_pipeline p = delete_at (codes "api/v1/pipelines/" ++ to_string p.id)

abbrev pub get_all_pipelines : Fetch
get_all_pipelines = get_from (codes "api/v1/pipelines")

abbrev pub add_task_template : TaskTemplate → Fetch
add_task_template t = post_to (codes "api/v1/taskTemplates") (task_template t)

abbrev pub change_task_template : TaskTemplate → Fetch
change_task_template t = put_to (codes "api/v1/taskTemplates/" ++ to_string t.id) (task_template t)

abbrev pub del_task_template : TaskTemplate → Fetch
del_task_template t = delete_at (codes "api/v1/taskTemplates/" ++ to_string t.id)

abbrev pub get_all_task_templates : Fetch
get_all_task_templates = get_from (codes "api/v1/taskTemplates")

abbrev pub add_event : Event → Fetch
add_event e = post_to (codes "api/v1/events") (event e)

abbrev pub change_event : Event → Fetch
change_event e = put_to (codes "api/v1/events/" ++ to_string e.id) (event e)

abbrev pub del_event : Event → Fetch
del_event e = delete_at (codes "api/v1/events/" ++ to_string e.id)

abbrev pub get_all_events : Fetch
get_all_events = get_from (codes "api/v1/events")

abbrev pub add_pipeline_task : FormTask → Fetch
add_pipeline_task t = post_to (codes "api/v1/pipelineTasks") (form_task t)

-- `changePipelineTask` of the object from the dialog.
abbrev pub change_form_task : FormTask → Fetch
change_form_task t = put_to (codes "api/v1/pipelineTasks/" ++ to_string t.id) (form_task t)

abbrev pub change_pipeline_task : PipelineTask → Fetch
change_pipeline_task t = put_to (codes "api/v1/pipelineTasks/" ++ to_string t.id) (pipeline_task t)

abbrev pub del_pipeline_task : PipelineTask → Fetch
del_pipeline_task t = delete_at (codes "api/v1/pipelineTasks/" ++ to_string t.id)

abbrev pub get_all_pipeline_tasks : Fetch
get_all_pipeline_tasks = get_from (codes "api/v1/pipelineTasks")

abbrev pub start_task : ℕ → ℕ → ℕ → ℕ → String → Fetch
start_task ppl_task_id starter_ppl_task_id starter_event_id ttl_id params =
    post_to (codes "api/v1/tasks")
      (start ppl_task_id starter_ppl_task_id starter_event_id ttl_id params)

-- The next three read nothing of the run but its id.
abbrev pub continue_task : ℕ → Fetch
continue_task id = put_only (codes "api/v1/tasks/" ++ to_string id ++ codes "?continue")

abbrev pub pause_task : ℕ → Fetch
pause_task id = put_only (codes "api/v1/tasks/" ++ to_string id ++ codes "?pause")

abbrev pub stop_task : ℕ → Fetch
stop_task id = put_only (codes "api/v1/tasks/" ++ to_string id ++ codes "?stop")

unfoldable pub get_task_state : ℕ → Bool → Fetch
get_task_state ppl_task_id if_change =
    let param = if if_change then codes "?ifChange" else codes "" in
    get_from (codes "api/v1/tasks/" ++ to_string ppl_task_id ++ param)
