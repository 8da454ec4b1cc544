-- ===== src/Types.antt =====
-- web/client/types.tsx: the objects that the client keeps and exchanges with the server.
use zmey.Base.{ℕ, ℤ, String, Bool, List}

-- The numbers of `enum StateType` are the positions 0 to 9.
pub data StateType : Type 0 where
  undefined ready start running pause stop completed error cancel not_responding : StateType

abbrev pub state_number : StateType → ℕ
state_number undefined = 0
state_number ready = 1
state_number start = 2
state_number running = 3
state_number pause = 4
state_number stop = 5
state_number completed = 6
state_number error = 7
state_number cancel = 8
state_number not_responding = 9

unfoldable pub state_to_string : StateType → String
state_to_string undefined = "UNDEFINED"
state_to_string ready = "READY"
state_to_string start = "START"
state_to_string running = "RUNNING"
state_to_string pause = "PAUSE"
state_to_string stop = "STOP"
state_to_string completed = "COMPLETED"
state_to_string error = "ERROR"
state_to_string cancel = "CANCEL"
state_to_string not_responding = "NOT_RESPONDING"

pub record PipelineSetts : Type 0 where
  pub is_visible : Bool
  pub is_selected : Bool
  pub has_change_task : Bool

pub record Pipeline : Type 0 where
  pub id : ℕ
  pub name : String
  pub description : String
  pub setts : PipelineSetts

pub record TaskTemplate : Type 0 where
  pub id : ℕ
  pub aver_duration_sec : ℤ
  pub max_duration_sec : ℤ
  pub name : String
  pub description : String
  pub script : String

pub record Point : Type 0 where
  pub x : ℤ
  pub y : ℤ

pub record Rect : Type 0 where
  pub x : ℤ
  pub y : ℤ
  pub w : ℤ
  pub h : ℤ

pub data MessType : Type 0 where
  error ok : MessType

pub record TaskSetts : Type 0 where
  pub is_visible : Bool
  pub is_selected : Bool
  pub is_moved : Bool
  pub position_x : ℤ
  pub position_y : ℤ
  pub width : ℤ
  pub height : ℤ
  pub socket_in_rect : Rect
  pub socket_in_point : Point
  pub socket_out_rect : Rect
  pub socket_out_point : Point

pub record PipelineTask : Type 0 where
  pub id : ℕ
  pub ppl_id : ℕ
  pub tt_id : ℕ
  pub is_enabled : Bool
  pub next_tasks_id : List ℕ
  pub prev_tasks_id : List ℕ
  pub is_start_next : List ℕ
  pub params : String
  pub name : String
  pub description : String
  pub setts : TaskSetts

-- A task as the dialog of pipeline_task_dialog.tsx sends it: `pplId` and `ttId` are the values of two
-- select elements, which are texts.
pub record FormTask : Type 0 where
  pub id : ℕ
  pub ppl_id : List ℕ
  pub tt_id : List ℕ
  pub is_enabled : Bool
  pub next_tasks_id : List ℕ
  pub prev_tasks_id : List ℕ
  pub is_start_next : List ℕ
  pub params : String
  pub name : String
  pub description : String
  pub setts : TaskSetts

pub record Event : Type 0 where
  pub id : ℕ
  pub is_enabled : Bool
  pub time_start_once_of_day : List String
  pub time_start_every_sec : ℤ
  pub tasks_for_start : List ℕ
  pub name : String
  pub description : String

-- A task run. `state` is the server's number; it need not be one of `StateType`.
pub record Task : Type 0 where
  pub id : ℕ
  pub ppl_task_id : ℕ
  pub starter_ppl_task_id : ℕ
  pub starter_event_id : ℕ
  pub ttl_id : ℕ
  pub state : ℕ
  pub progress : ℕ
  pub params : String
  pub result : String
  pub create_time : String
  pub take_in_work_time : String
  pub start_time : String
  pub stop_time : String
