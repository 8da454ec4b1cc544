-- ===== src/Session/Run.antt =====
-- The store of tasks over a whole session.
use zmey.Base.{◌≡◌, refl, ap, subst, sym, ◌∙◌, arith, ◌==◌, inl, inr, Bool-cases, true}
use zmey.Types.{Point}
use zmey.Client.{Client, returns, final}
use zmey.Graph.Handlers.{Panel, h_mouse_up, h_socket_captured, h_task_select}
use zmey.Graph.Socket.{on_socket_down, on_body_down}
use zmey.Graph.Drop.{h_mouse_up-Connects}
use zmey.Graph.Consistent.{IsConsistent, Safe, set_moved-IsConsistent}
use zmey.Session.{
  State, Action, mouse_up, mouse_down, mouse_move, socket_down, body_down, mounted, dragged,
  dropped, hidden, run_task, next_deleted, prev_deleted, off_map, clicked_twice, task_deleted,
  submitted, task_added, task_changed, switched, act, Enabled, Reached, begin, after,
}
use zmey.Session.Moves.{
  h_mouse_move-returns, on_drag-Safe, on_stop-Safe, h_hide-Safe, component_did_mount-Safe,
  menu_handler-Safe, start-Safe,
}
use zmey.Session.Selects.{select-Safe, double_click_task-Safe}
use zmey.Session.Edits.{
  delete_next_connect-Safe, delete_prev_connect-Safe, delete_task_from_map-Safe,
  del_pipeline_task_success-Safe,
}
use zmey.Session.Answers.{h_submit-Safe, add_success-Safe, change_success-Safe, switch_task-Safe}

mouse_up-Safe :
    (mpos : Point) (p : Panel) (c : Client)
    → IsConsistent c.pipeline_tasks
    → Enabled (mouse_up mpos) p c
    → Safe (h_mouse_up mpos p c).outcome
unfolding h_mouse_up
mouse_up-Safe mpos p c h ready = elim (Bool-cases (p.captured_id == 0)) [
  | inl free ↦ (c, ground (arith, free), h)
  | inr held ↦
      let (stored, apart) = ready (ground arith) in
      let (c', run, domain, done) = h_mouse_up-Connects mpos p c h stored apart in
      (
        c',
        ap (λ s. s.outcome) run,
        record { domain = domain; linked = done.linked; keyed = done.keyed },
      )
]

-- A handler returns and keeps the store in order.
act-Safe :
    (a : Action) (p : Panel) (c : Client)
    → IsConsistent c.pipeline_tasks
    → Enabled a p c
    → Safe (act a p c).outcome
unfolding act on_socket_down h_socket_captured on_body_down h_task_select
act-Safe (mouse_up mpos) p c h ready = mouse_up-Safe mpos p c h ready
act-Safe (mouse_down which) p c h ready = (c, refl, h)
act-Safe (mouse_move which movement) p c h ready = (c, h_mouse_move-returns which movement p c h, h)
act-Safe (socket_down type id t dom) p c h ready =
    (_, refl, set_moved-IsConsistent id c.pipeline_tasks h true)
act-Safe (body_down button id) p c h stored = select-Safe id c h stored
act-Safe (mounted id dom) p c h stored = component_did_mount-Safe id dom c h stored
act-Safe (dragged id to dom) p c h ready = on_drag-Safe id to dom p c h
act-Safe (dropped id to) p c h stored = on_stop-Safe id to c h stored
act-Safe (hidden id) p c h stored = h_hide-Safe id c h stored
act-Safe (run_task id) p c h stored = menu_handler-Safe _ p (start-Safe id c h stored)
act-Safe (next_deleted props_id id) p c h shown =
    menu_handler-Safe _ p (delete_next_connect-Safe props_id id c h shown)
act-Safe (prev_deleted props_id id) p c h shown =
    menu_handler-Safe _ p (delete_prev_connect-Safe props_id id c h shown)
act-Safe (off_map id) p c h stored = menu_handler-Safe _ p (delete_task_from_map-Safe id c h stored)
act-Safe (clicked_twice id) p c h stored = double_click_task-Safe id c h stored
act-Safe (task_deleted sel) p c h stored = del_pipeline_task_success-Safe sel c h stored
act-Safe (submitted sel f d) p c h stored = h_submit-Safe sel f d c h stored
act-Safe (task_added resp d) p c h (nonzero, next, prev) =
    add_success-Safe resp d c h nonzero next prev
act-Safe (task_changed resp d) p c h (next, prev) = change_success-Safe resp d c h next prev
act-Safe (switched on sel) p c h (next, prev) = switch_task-Safe on sel c h next prev

Reached-IsConsistent :
    {s u : State}
    → Reached s u
    → IsConsistent s.client.pipeline_tasks
    → IsConsistent u.client.pipeline_tasks
Reached-IsConsistent begin h = h
Reached-IsConsistent (after {u = u} a p c before ready run) h =
    let (c', safe, h') = act-Safe a u.panel u.client (Reached-IsConsistent before h) ready in
    subst (λ o. IsConsistent (final o).pipeline_tasks) (sym safe ∙ ap (λ s. s.outcome) run) h'

-- Let the stores be filled, and the store of tasks be a consistent Map under the tasks' own
-- ids, none of them 0. Let the events of the panel, the double click in the list of tasks,
-- the consent to deletions, the button and the switch of the task dialog and the answers to
-- it follow one another under these conditions: the task or the connection that a handler is
-- called for is stored, as is the task of a captured socket, which is not dropped on its own
-- task; a created task has an id other than 0 and no connections; the task in the answer to
-- an edit, and the copy that the switch stores, have the connections that the store then has
-- for their id. The store is then such a Map again, and the next handler under these
-- conditions returns and leaves it so.
pub session-IsConsistent :
    (s u : State) (a : Action)
    → IsConsistent s.client.pipeline_tasks
    → Reached s u
    → Enabled a u.panel u.client
    → IsConsistent u.client.pipeline_tasks
      × ((c' : Client) × ((act a u.panel u.client).outcome ≡ returns c')
          × IsConsistent c'.pipeline_tasks)
session-IsConsistent s u a h reached ready =
    let h' = Reached-IsConsistent reached h in (h', act-Safe a u.panel u.client h' ready)
