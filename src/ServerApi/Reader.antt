-- ===== src/ServerApi/Reader.antt =====
-- A reader of the requests to the server that does not know how web/client/server_api makes them:
-- which of the server's resources a method, a URL and a body ask for.
use zmey.Base.{ℕ, Bool, true, false, ◌&&◌, ◌==◌, Option, none, some, [], ◌∷◌, if◌then◌else◌}
use zmey.DateFormat.{Text}
use zmey.Admin.ParseInt.{parse_int}
use zmey.ServerApi.Fetch.{
  Fetch, Method, Body, Reading, by_json, by_ok, get, post, put, delete, codes,
}

pub data Resource : Type 0 where
  users pipelines task_templates pipeline_tasks events tasks : Resource

pub data Command : Type 0 where
  to_continue to_pause to_stop : Command

pub data Route : Type 0 where
  list : Resource → Route
  create : Resource → Body → Route
  change : Resource → ℕ → Body → Route
  remove : Resource → ℕ → Route
  control : Command → ℕ → Route
  runs : ℕ → Bool → Route

abbrev pub same_text : Text → Text → Bool
same_text [] [] = true
same_text [] (d ∷ t) = false
same_text (c ∷ s) [] = false
same_text (c ∷ s) (d ∷ t) = c == d && same_text s t

-- The text after a prefix.
abbrev pub strip : Text → Text → Option Text
strip [] s = some s
strip (p ∷ ps) [] = none
strip (p ∷ ps) (c ∷ s) = let rest = strip ps s in if p == c then rest else none

-- The text before the first separator, and the text after it if there is one.
pub record Split : Type 0 where
  pub before : Text
  pub after : Option Text

abbrev pub split : ℕ → Text → Split
split sep [] = record { before = []; after = none }
split sep (c ∷ s) =
    let rest = split sep s in
    if c == sep
    then record { before = []; after = some s }
    else record { before = c ∷ rest.before; after = rest.after }

abbrev pub resource_named : Text → Option Resource
resource_named name =
    if same_text name (codes "users")
    then some users
    else if same_text name (codes "pipelines")
    then some pipelines
    else if same_text name (codes "taskTemplates")
    then some task_templates
    else if same_text name (codes "pipelineTasks")
    then some pipeline_tasks
    else if same_text name (codes "events")
    then some events
    else if same_text name (codes "tasks")
    then some tasks
    else none

-- The answer to a request that deletes or controls has no object.
abbrev pub read_collection : Resource → Method → Option Body → Reading → Option Route
read_collection r get none by_json = some (list r)
read_collection r post (some b) by_json = some (create r b)
read_collection r _ _ _ = none

abbrev pub command_named : Text → Option Command
command_named s =
    if same_text s (codes "continue")
    then some to_continue
    else if same_text s (codes "pause")
    then some to_pause
    else if same_text s (codes "stop")
    then some to_stop
    else none

-- With the query of the URL.
abbrev pub read_item : Resource → ℕ → Method → Option Text → Option Body → Reading → Option Route
read_item tasks id get none none by_json = some (runs id false)
read_item tasks id get (some q) none by_json =
    if same_text q (codes "ifChange") then some (runs id true) else none
read_item tasks id put (some q) none by_ok = elim (command_named q) [
  | none ↦ none
  | some c ↦ some (control c id)
]
read_item r id put none (some b) by_json = some (change r id b)
read_item r id delete none none by_ok = some (remove r id)
read_item r _ _ _ _ _ = none

abbrev pub read_id :
    Resource → Option ℕ → Method → Option Text → Option Body → Reading → Option Route
read_id r none m q b how = none
read_id r (some id) m q b how = read_item r id m q b how

abbrev pub read_parts : Resource → Split → Method → Option Body → Reading → Option Route
read_parts r parts m b how = read_id r (parse_int parts.before) m parts.after b how

abbrev pub read_fetch : Fetch → Option Route
read_fetch f = elim (strip (codes "api/v1/") f.url) [
  | none ↦ none
  | some path ↦
      let parts = split b'/' path in
      elim (resource_named parts.before) [
        | none ↦ none
        | some r ↦ elim parts.after [
          | none ↦ read_collection r f.method f.body f.reading
          | some item ↦ read_parts r (split b'?' item) f.method f.body f.reading
        ]
      ]
]
