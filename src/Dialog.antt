-- ===== src/Dialog.antt =====
-- web/client/central_widget/*_dialog.tsx: the four dialogs that create and edit an object. They
-- share the status line with its timer, `m_hasAdded`, and the shape of `hSubmit`.
pub mod Templates
pub mod View
pub mod Unchanged
pub mod PipelineForm
pub mod TaskForm
pub mod Sent
pub mod Steps
pub mod Guard
pub mod Edit
pub mod EventRows
pub mod TaskRows
pub mod NewPipeline
pub mod Submit
pub mod EventForm
pub mod Times
use zmey.Base.{ℕ, Bool, true, false, Option, none, some, String}
use zmey.Client.{Client, Outcome}

-- The texts of the status line; `no_mess` is the empty string.
pub data Mess : Type 0 where
  no_mess name_empty script_empty not_select_pipeline not_select_task_template : Mess
  name_exists : String → Mess
  success_create error_create success_change error_change : Mess

-- The callback of a status message: none, or the one that hides the dialog and resets `m_hasAdded`.
pub data Callback : Type 0 where
  no_callback hide_and_reset : Callback

-- The running timeout, with its delay in seconds.
pub record Timer : Type 0 where
  pub delay_sec : ℕ
  pub cback : Callback

pub record Dialog : Type 0 where
  pub has_added : Bool
  pub shown : Bool
  pub status_mess : Mess
  pub timer : Option Timer

-- `setStatusMess`: a running timeout is cleared, and its callback with it.
unfoldable pub set_status_mess : Mess → ℕ → Callback → Dialog → Dialog
set_status_mess mess delay_sec cback d = record d {
  status_mess = mess;
  timer = some (record { delay_sec = delay_sec; cback = cback });
}

abbrev pub run_callback : Callback → Dialog → Dialog
run_callback no_callback d = d
run_callback hide_and_reset d = record d { shown = false; has_added = false }

-- The timeout fires.
unfoldable pub time_out : Dialog → Dialog
time_out d = elim d.timer [
  | none ↦ d
  | some t ↦ run_callback t.cback (record d { status_mess = no_mess; timer = none })
]

-- The dialog and the client after a handler.
pub record Submitted : Type 0 where
  pub dialog : Dialog
  pub outcome : Outcome

-- The callbacks that the dialogs hand to the server's functions, but for what they do to a store.
unfoldable pub on_add_success : Dialog → Dialog
unfolding set_status_mess
on_add_success d = set_status_mess success_create 1 hide_and_reset d

unfoldable pub on_add_error : Dialog → Dialog
unfolding set_status_mess
on_add_error d = record (set_status_mess error_create 3 no_callback d) { has_added = false }

unfoldable pub on_change_success : Dialog → Dialog
unfolding set_status_mess
on_change_success d = set_status_mess success_change 3 no_callback d

unfoldable pub on_change_error : Dialog → Dialog
unfolding set_status_mess
on_change_error d = set_status_mess error_change 3 no_callback d

abbrev pub reject : Mess → Dialog → Dialog
reject mess d = set_status_mess mess 3 no_callback d
