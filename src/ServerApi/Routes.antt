-- ===== src/ServerApi/Routes.antt =====
-- The requests of web/client/server_api: what is fetched for each, and what each is for.
use zmey.Base.{ℕ, ◌≡◌, refl, true, false, Option, none, some, [], ◌∷◌, ◌++◌, All, arith, ap, ◌∙◌}
use mathlib.Core.List.{append-nil}
use zmey.DateFormat.{Text, to_string}
use zmey.Client.{Request}
use zmey.Admin.ParseInt.{parse_int-to_string, is_digit, to_string-digits}
use zmey.ServerApi.Fetch
use zmey.ServerApi.Fetch.{
  Fetch, Method, Body, Reading, by_json, by_ok, get, post, put, delete, codes,
}
use zmey.ServerApi.Reader.{
  Resource, users, pipelines, task_templates, pipeline_tasks, events, tasks, to_continue, to_pause,
  to_stop, Route, list, create, change, remove, control, runs, split, read_item, read_id,
  read_parts, read_fetch,
}

-- What is fetched for a request.
unfoldable pub fetch_of : Request → Fetch
fetch_of Request.get_user = Fetch.get_user
fetch_of (Request.add_pipeline p) = Fetch.add_pipeline p
fetch_of (Request.change_pipeline p) = Fetch.change_pipeline p
fetch_of (Request.del_pipeline p) = Fetch.del_pipeline p
fetch_of (Request.add_task_template t) = Fetch.add_task_template t
fetch_of (Request.change_task_template t) = Fetch.change_task_template t
fetch_of (Request.del_task_template t) = Fetch.del_task_template t
fetch_of (Request.add_event e) = Fetch.add_event e
fetch_of (Request.change_event e) = Fetch.change_event e
fetch_of (Request.del_event e) = Fetch.del_event e
fetch_of (Request.add_pipeline_task t) = Fetch.add_pipeline_task t
fetch_of (Request.change_form_task t) = Fetch.change_form_task t
fetch_of (Request.change_pipeline_task t) = Fetch.change_pipeline_task t
fetch_of (Request.del_pipeline_task t) = Fetch.del_pipeline_task t
fetch_of Request.get_all_pipelines = Fetch.get_all_pipelines
fetch_of Request.get_all_task_templates = Fetch.get_all_task_templates
fetch_of Request.get_all_pipeline_tasks = Fetch.get_all_pipeline_tasks
fetch_of Request.get_all_events = Fetch.get_all_events
fetch_of (Request.start_task a b c d s) = Fetch.start_task a b c d s
fetch_of (Request.continue_task id) = Fetch.continue_task id
fetch_of (Request.pause_task id) = Fetch.pause_task id
fetch_of (Request.stop_task id) = Fetch.stop_task id
fetch_of (Request.get_task_state id changes) = Fetch.get_task_state id changes

-- What each request is for. A request to delete names the object by its id only.
abbrev pub route_of : Request → Route
route_of Request.get_user = list users
route_of (Request.add_pipeline p) = create pipelines (Body.pipeline p)
route_of (Request.change_pipeline p) = change pipelines p.id (Body.pipeline p)
route_of (Request.del_pipeline p) = remove pipelines p.id
route_of (Request.add_task_template t) = create task_templates (Body.task_template t)
route_of (Request.change_task_template t) = change task_templates t.id (Body.task_template t)
route_of (Request.del_task_template t) = remove task_templates t.id
route_of (Request.add_event e) = create events (Body.event e)
route_of (Request.change_event e) = change events e.id (Body.event e)
route_of (Request.del_event e) = remove events e.id
route_of (Request.add_pipeline_task t) = create pipeline_tasks (Body.form_task t)
route_of (Request.change_form_task t) = change pipeline_tasks t.id (Body.form_task t)
route_of (Request.change_pipeline_task t) = change pipeline_tasks t.id (Body.pipeline_task t)
route_of (Request.del_pipeline_task t) = remove pipeline_tasks t.id
route_of Request.get_all_pipelines = list pipelines
route_of Request.get_all_task_templates = list task_templates
route_of Request.get_all_pipeline_tasks = list pipeline_tasks
route_of Request.get_all_events = list events
route_of (Request.start_task a b c d s) = create tasks (Body.start a b c d s)
route_of (Request.continue_task id) = control to_continue id
route_of (Request.pause_task id) = control to_pause id
route_of (Request.stop_task id) = control to_stop id
route_of (Request.get_task_state id changes) = runs id changes

split-digits :
    (s : Text) → All (λ c. is_digit c ≡ true) s → split b'?' s ≡ record { before = s; after = none }
split-digits [] h = refl
split-digits (c ∷ s) h = ground (arith, split-digits s h.1)

split-digits_query :
    (s q : Text)
    → All (λ c. is_digit c ≡ true) s
    → split b'?' (s ++ b'?' ∷ q) ≡ record { before = s; after = some q }
split-digits_query [] q h = ground arith
split-digits_query (c ∷ s) q h = ground (arith, split-digits_query s q h.1)

module _ (r : Resource) (n : ℕ) (m : Method) (b : Option Body) (how : Reading) where
  read_parts-id : read_parts r (split b'?' (to_string n)) m b how ≡ read_item r n m none b how
  read_parts-id =
      ap (λ p. read_parts r p m b how) (split-digits (to_string n) (to_string-digits n))
      ∙ ap (λ i. read_id r i m none b how) (parse_int-to_string n)

  read_parts-query :
      (q : Text)
      → read_parts r (split b'?' (to_string n ++ b'?' ∷ q)) m b how ≡ read_item r n m (some q) b how
  read_parts-query q =
      ap (λ p. read_parts r p m b how) (split-digits_query (to_string n) q (to_string-digits n))
      ∙ ap (λ i. read_id r i m (some q) b how) (parse_int-to_string n)

-- A reader that does not know how the requests are made finds in the method, the URL, the
-- body and the way of reading the answer of each request what it is for: the resource, the
-- id, the object, the command, or whether only changes are asked for.
pub read_fetch-fetch_of : (r : Request) → read_fetch (fetch_of r) ≡ some (route_of r)
unfolding fetch_of Fetch.get_task_state
read_fetch-fetch_of (Request.add_pipeline p) = refl
read_fetch-fetch_of (Request.change_pipeline p) =
    read_parts-id pipelines p.id put (some (Body.pipeline p)) by_json
read_fetch-fetch_of (Request.del_pipeline p) = read_parts-id pipelines p.id delete none by_ok
read_fetch-fetch_of Request.get_all_pipelines = refl
read_fetch-fetch_of (Request.add_task_template t) = refl
read_fetch-fetch_of (Request.change_task_template t) =
    read_parts-id task_templates t.id put (some (Body.task_template t)) by_json
read_fetch-fetch_of (Request.del_task_template t) =
    read_parts-id task_templates t.id delete none by_ok
read_fetch-fetch_of Request.get_all_task_templates = refl
read_fetch-fetch_of (Request.add_event e) = refl
read_fetch-fetch_of (Request.change_event e) =
    read_parts-id events e.id put (some (Body.event e)) by_json
read_fetch-fetch_of (Request.del_event e) = read_parts-id events e.id delete none by_ok
read_fetch-fetch_of Request.get_all_events = refl
read_fetch-fetch_of (Request.add_pipeline_task t) = refl
read_fetch-fetch_of (Request.change_form_task t) =
    read_parts-id pipeline_tasks t.id put (some (Body.form_task t)) by_json
read_fetch-fetch_of (Request.change_pipeline_task t) =
    read_parts-id pipeline_tasks t.id put (some (Body.pipeline_task t)) by_json
read_fetch-fetch_of (Request.del_pipeline_task t) =
    read_parts-id pipeline_tasks t.id delete none by_ok
read_fetch-fetch_of Request.get_all_pipeline_tasks = refl
read_fetch-fetch_of Request.get_user = refl
read_fetch-fetch_of (Request.start_task a b c d s) = refl
read_fetch-fetch_of (Request.continue_task id) =
    read_parts-query tasks id put none by_ok (codes "continue")
read_fetch-fetch_of (Request.pause_task id) =
    read_parts-query tasks id put none by_ok (codes "pause")
read_fetch-fetch_of (Request.stop_task id) = read_parts-query tasks id put none by_ok (codes "stop")
read_fetch-fetch_of (Request.get_task_state id true) =
    read_parts-query tasks id get none by_json (codes "ifChange")
read_fetch-fetch_of (Request.get_task_state id false) =
    ap (λ (s : Text). read_parts tasks (split b'?' s) get none by_json) (append-nil (to_string id))
    ∙ read_parts-id tasks id get none by_json
