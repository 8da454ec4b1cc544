-- ===== src/Session/Answers.antt =====
-- The dialog of a task and the server's answers to it keep the store of tasks in order.
use zmey.Base.{Bool, ℕ, ◌≡◌, ◌≢◌, refl, ap, true, [], arith, ◌==◌, inl, inr, Bool-cases}
use zmey.JsMap
use zmey.JsMap.{JsMap}
use zmey.JsMap.Laws.{get-set, has-set, get-eq-none, IsMap-set}
use zmey.Types.{PipelineTask}
use zmey.Client.{Client, returns, final, send, change_form_task, add_pipeline_task}
use zmey.Store.PipelineTasks
use zmey.Dialog.{Dialog}
use zmey.Dialog.TaskForm.{
  Form, Checked, h_submit, submit_edit, edited_task, new_task, add_success, change_success, check,
  invalid, valid,
}
use zmey.Dialog.TaskRows.{switch_task}
use zmey.Graph.Links.{SameLists, Linked-same, next_of, prev_of}
use zmey.Graph.Domain.{IsDomain, set-IsDomain}
use zmey.Graph.Consistent.{IsConsistent, Safe}
use zmey.Session.Edits.{del_all_connections-Safe}

submit_edit-Safe :
    (sel : PipelineTask) (ppl_id tt_id : ℕ) (f : Form) (c : Client)
    → IsConsistent c.pipeline_tasks
    → JsMap.has sel.id c.pipeline_tasks ≡ true
    → Safe (submit_edit sel ppl_id tt_id f c)
unfolding submit_edit
submit_edit-Safe sel ppl_id tt_id f c h stored =
    let edited = edited_task sel ppl_id tt_id f in
    elim (Bool-cases (ppl_id == sel.ppl_id)) [
      | inl stays ↦ (send (change_form_task edited) c, ground (arith, stays), h)
      | inr moves ↦
          let (c', run, h') = del_all_connections-Safe sel.id c h stored in
          (
            send (change_form_task (record edited { next_tasks_id = []; prev_tasks_id = [] })) c',
            ground (arith, moves, run),
            h',
          )
    ]

-- Every way through `hSubmit`.
pub h_submit-Safe :
    (sel : PipelineTask) (f : Form) (d : Dialog) (c : Client)
    → IsConsistent c.pipeline_tasks
    → (sel.id ≢ 0 → JsMap.has sel.id c.pipeline_tasks ≡ true)
    → Safe ((h_submit sel f d c).outcome)
unfolding h_submit
h_submit-Safe sel f d c h stored = by_check (check sel f c) refl
  where
    by_check : (r : Checked) → check sel f c ≡ r → Safe ((h_submit sel f d c).outcome)
    by_check (invalid mess) e = (c, ground (arith, e), h)
    by_check (valid ppl_id tt_id) e = elim (Bool-cases d.has_added) [
      | inl added ↦ (c, ground (arith, added), h)
      | inr fresh ↦ elim (Bool-cases (sel.id == 0)) [
        | inl new ↦
            (send (add_pipeline_task (new_task ppl_id tt_id f)) c, ground (arith, e, fresh, new), h)
        | inr old ↦
            let (c', run, h') = submit_edit-Safe sel ppl_id tt_id f c h (stored (ground arith)) in
            (c', ground (arith, e, fresh, old, run), h')
      ]
    ]

-- A task is stored under its id, with the connections that the store has for the id.
module _ (t : PipelineTask) (m : JsMap PipelineTask) (next : next_of t.id m ≡ t.next_tasks_id)
    (prev : prev_of t.id m ≡ t.prev_tasks_id) where
  same-put : SameLists m (JsMap.set t.id t m)
  same-put a = (
    ground (arith, get-set t.id a t m, next, ap (λ (j : ℕ). next_of j m)),
    ground (arith, get-set t.id a t m, prev, ap (λ (j : ℕ). prev_of j m)),
  )

  put-IsConsistent :
      IsDomain (JsMap.set t.id t m) → IsConsistent m → IsConsistent (JsMap.set t.id t m)
  put-IsConsistent domain h = record {
    domain = domain;
    linked = Linked-same m (JsMap.set t.id t m) same-put h.linked;
    keyed = λ k u e. ground (arith, e, get-set t.id k t m, h.keyed k u);
  }

pub add_success-Safe :
    (resp : PipelineTask) (d : Dialog) (c : Client)
    → IsConsistent c.pipeline_tasks
    → resp.id ≢ 0
    → resp.next_tasks_id ≡ []
    → resp.prev_tasks_id ≡ []
    → Safe ((add_success resp d c).outcome)
unfolding add_success PipelineTasks.add
add_success-Safe resp d c h nonzero next prev =
    let m = c.pipeline_tasks in
    elim (Bool-cases (JsMap.has resp.id m)) [
      | inl old ↦ (c, ground (arith, old), h)
      | inr new ↦
          let none_at = get-eq-none resp.id m new in
          (
            record c { pipeline_tasks = JsMap.set resp.id resp m },
            ground (arith, new),
            put-IsConsistent resp m (ground (arith, none_at, next)) (ground (arith, none_at, prev))
                (record {
                  is_map = IsMap-set resp.id resp m h.domain.is_map;
                  no_zero = ground (arith, has-set resp.id 0 resp m, h.domain.no_zero);
                })
                h,
          )
    ]

pub upd-IsConsistent :
    (t : PipelineTask) (m : JsMap PipelineTask)
    → IsConsistent m
    → next_of t.id m ≡ t.next_tasks_id
    → prev_of t.id m ≡ t.prev_tasks_id
    → IsConsistent (PipelineTasks.upd t m)
unfolding PipelineTasks.upd
upd-IsConsistent t m h next prev = elim (Bool-cases (JsMap.has t.id m)) [
  | inl old ↦
      ground (arith, old, put-IsConsistent t m next prev (set-IsDomain t.id t m old h.domain) h)
  | inr gone ↦ ground (arith, gone, h)
]

pub change_success-Safe :
    (resp : PipelineTask) (d : Dialog) (c : Client)
    → IsConsistent c.pipeline_tasks
    → next_of resp.id c.pipeline_tasks ≡ resp.next_tasks_id
    → prev_of resp.id c.pipeline_tasks ≡ resp.prev_tasks_id
    → Safe ((change_success resp d c).outcome)
unfolding change_success
change_success-Safe resp d c h next prev = (
  final ((change_success resp d c).outcome),
  refl,
  upd-IsConsistent resp c.pipeline_tasks h next prev,
)

pub switch_task-Safe :
    (on : Bool) (sel : PipelineTask) (c : Client)
    → IsConsistent c.pipeline_tasks
    → next_of sel.id c.pipeline_tasks ≡ sel.next_tasks_id
    → prev_of sel.id c.pipeline_tasks ≡ sel.prev_tasks_id
    → Safe (returns ((switch_task on sel c).1))
unfolding switch_task
switch_task-Safe on sel c h next prev = (
  (switch_task on sel c).1,
  refl,
  upd-IsConsistent (record sel { is_enabled = on }) c.pipeline_tasks h next prev,
)
