-- ===== src/Central/Confirm.antt =====
-- A deletion in the central widget from the question to the server's consent.
use zmey.Base.{
  ℕ, ◌≡◌, ◌≢◌, refl, ap, true, not, ◌&&◌, none, some, [], ◌∷◌, ◌++◌, arith, sym, subst, ◌∙◌, ◌==◌,
  if◌then◌else◌,
}
use Prim.Native.String.{◌++◌ as ◌+s◌}
use zmey.JsMap
use zmey.JsMap.{JsMap}
use zmey.JsMap.Laws.{get_of_has, has-get}
use zmey.Store.Events
use zmey.Central
use zmey.Store.Laws.{get-task}
use zmey.Store.Refine.{get-del_shared}
use zmey.Types.{PipelineTask, Event}
use zmey.Client.{Client, returns, send, Request}
use zmey.Graph.Links.{Linked, IsKeyed, has_next}
use zmey.Central.Delete.{del_pipeline_task_success-Linked}
use zmey.Central.Widget.{
  Widget, AckDialog, del_pipeline_task, del_event, delete_pipeline_task, delete_event, edit_event,
  yes, on_deleted, hide_ack,
}

-- Asking, and the button Yes.
ask_lem :
    (id : ℕ) (w : Widget) (c : Client)
    → JsMap.has id c.pipeline_tasks ≡ true
    → (t : PipelineTask) × (w₁ : Widget) × (JsMap.get id c.pipeline_tasks ≡ some t)
      × (delete_pipeline_task id w c ≡ record { widget = w₁; outcome = returns c })
      × (w₁.sel_pipeline_task ≡ some t)
      × (w₁.is_show_ack ≡ true)
      × (yes del_pipeline_task w₁ c ≡ returns (send (Request.del_pipeline_task t) c))
unfolding delete_pipeline_task yes Central.del_pipeline_task_request
ask_lem id w c h =
    let (t, e) = get_of_has id c.pipeline_tasks h in
    let g = get-task id c.pipeline_tasks ∙ e in
    let ack : AckDialog = record {
      description = t.description;
      title = "Delete '" +s (t.name +s "' Pipeline Task?");
      on_yes = del_pipeline_task;
    } in
    (
      t,
      record w { sel_pipeline_task = some t; ack = some ack; is_show_ack = true },
      e,
      ground (arith, g),
      refl,
      refl,
      refl,
    )

-- Let a task be stored, and the tasks be under their own ids. `hDelete` of its row opens the
-- question, and Yes then sends the request to delete that task. If the task is still selected
-- as it was when the server consents, and the store is consistent and holds a task with the
-- id, then the question is closed, the task is gone, the store is consistent, and the
-- connections left are those that did not touch the task.
pub delete-confirmed :
    (id : ℕ) (w w₂ : Widget) (c c₂ : Client)
    → JsMap.has id c.pipeline_tasks ≡ true
    → IsKeyed c.pipeline_tasks
    → w₂.sel_pipeline_task ≡ (delete_pipeline_task id w c).widget.sel_pipeline_task
    → Linked c₂.pipeline_tasks
    → JsMap.has id c₂.pipeline_tasks ≡ true
    → (t : PipelineTask) × (w₁ : Widget) × (c₃ : Client) × (JsMap.get id c.pipeline_tasks ≡ some t)
      × (delete_pipeline_task id w c ≡ record { widget = w₁; outcome = returns c })
      × (w₁.is_show_ack ≡ true)
      × (yes del_pipeline_task w₁ c ≡ returns (send (Request.del_pipeline_task t) c))
      × (on_deleted del_pipeline_task w₂ c₂ ≡ record { widget = hide_ack w₂; outcome = returns c₃ })
      × (JsMap.get id c₃.pipeline_tasks ≡ none)
      × Linked c₃.pipeline_tasks
      × ((a b : ℕ)
          → has_next a b c₃.pipeline_tasks
            ≡ (has_next a b c₂.pipeline_tasks && (not (id == a) && not (id == b))))
unfolding on_deleted hide_ack
delete-confirmed id w w₂ c c₂ h keyed same linked h₂ =
    let (t, w₁, e, asked, sel, shown, sent) = ask_lem id w c h in
    let own = keyed id t e in
    let (c₃, run, gone, linked₃, edges) =
      del_pipeline_task_success-Linked t c₂ linked
        (subst (λ k. JsMap.has k c₂.pipeline_tasks ≡ true) (sym own) h₂) in
    (
      t,
      w₁,
      c₃,
      e,
      asked,
      shown,
      sent,
      ground (arith, same ∙ ap (λ s. s.widget.sel_pipeline_task) asked ∙ sel, run),
      subst (λ k. JsMap.get k c₃.pipeline_tasks ≡ none) own gone,
      linked₃,
      subst
          (λ k.
            (a b : ℕ)
            → has_next a b c₃.pipeline_tasks
              ≡ (has_next a b c₂.pipeline_tasks && (not (k == a) && not (k == b))))
          own edges,
    )

get-del :
    (id k : ℕ) (m : JsMap Event)
    → JsMap.get k (Events.del id m) ≡ (if id == k then none else JsMap.get k m)
unfolding Events.del
get-del id k m = get-del_shared id k m

pub get-event :
    (id : ℕ) (e : Event) (m : JsMap Event) → JsMap.get id m ≡ some e → Events.get id m ≡ some e
unfolding Events.get
get-event id e m h = ground (arith, h, has-get id m e h)

-- Let the question before the deletion of a stored event be answered with Yes and be hidden,
-- and let another stored event, which has its own id, be opened for editing before the server
-- consents. The request is for the first event, but the consent removes the second one from
-- the store, and the first one stays.
pub delete_event-mixed_up :
    (id k : ℕ) (w : Widget) (c : Client) (e f : Event)
    → JsMap.get id c.events ≡ some e
    → JsMap.get k c.events ≡ some f
    → f.id ≡ k
    → id ≢ k
    → (w₁ : Widget) × (c₁ c₂ : Client) × (delete_event id w c
        ≡ record { widget = w₁; outcome = returns c })
      × (yes del_event w₁ c ≡ returns c₁)
      × (c₁.sent ≡ c.sent ++ Request.del_event e ∷ [])
      × ((on_deleted del_event (edit_event k (hide_ack w₁) c₁) c₁).outcome ≡ returns c₂)
      × (JsMap.get id c₂.events ≡ some e)
      × (JsMap.get k c₂.events ≡ none)
unfolding delete_event yes on_deleted hide_ack edit_event Central.del_event_request
    Central.del_event_success
delete_event-mixed_up id k w c e f h h' own ne =
    let ack : AckDialog = record {
      description = e.description;
      title = "Delete '" +s (e.name +s "' Event?");
      on_yes = del_event;
    } in
    let c₁ = send (Request.del_event e) c in
    (
      record w { sel_event = some e; ack = some ack; is_show_ack = true },
      c₁,
      record c₁ { events = Events.del f.id c.events },
      ground (arith, get-event id e c.events h),
      refl,
      refl,
      ground (arith, get-event k f c.events h'),
      ground (arith, get-del f.id id c.events),
      ground (arith, get-del f.id k c.events),
    )
