-- ===== src/Session/PipelineRun.antt =====
-- The store of pipelines over a whole session.
use zmey.Base.{
  ℕ, ◌≡◌, ◌⊎◌, refl, ap, false, sym, subst, ◌∙◌, true, some, List, [], ◌∷◌, arith, ◌==◌, inl, inr,
  Bool-cases, Option-cases,
}
use zmey.JsMap
use zmey.JsMap.{JsMap}
use zmey.Types.{Pipeline, PipelineTask}
use zmey.Client.{
  Client, Outcome, returns, throws, final, send, del_pipeline, add_pipeline, change_pipeline,
}
use zmey.Store.Pipelines
use zmey.Central.{select_pipeline, del_pipeline_request, del_pipeline_success}
use zmey.Central.Items.{entry, button, double_click_pipeline-target}
use zmey.Dialog.{Dialog, Timer, Callback, no_callback, hide_and_reset}
use zmey.Dialog.PipelineForm
use zmey.Dialog.PipelineForm.{Form, new_pipeline, error_of}
use zmey.Dialog.NewPipeline.{time_out_new}
use zmey.Dialog.TaskForm
use zmey.Session.Tabs.{IsTabbed, Tabs, select_pipeline-Tabs, hide_pipeline-Tabs}
use zmey.Session.TabStore.{add-IsTabbed, upd-IsTabbed, del-IsTabbed, set_change_task-IsTabbed}
use zmey.Session.Pipelines.{
  Action, selected, hidden, submitted, added, changed, timed_out, delete_asked, deleted,
  task_changed, clicked_twice, act, Enabled, Fails, Reached, begin, after,
}

h_submit-Tabs :
    (sel : Pipeline) (f : Form) (d : Dialog) (c : Client)
    → IsTabbed c.pipelines
    → Tabs ((PipelineForm.h_submit sel f d c).outcome)
unfolding PipelineForm.h_submit
h_submit-Tabs sel f d c h = elim (Bool-cases d.has_added) [
  | inl busy ↦ (c, ground (arith, busy), h)
  | inr free ↦ elim (Option-cases (error_of sel f c)) [
    | inr (mess, wrong) ↦ (c, ground (arith, free, wrong), h)
    | inl right ↦ elim (Bool-cases (sel.id == 0)) [
      | inl new ↦ (send (add_pipeline (new_pipeline sel f)) c, ground (arith, free, right, new), h)
      | inr old ↦
          (send (change_pipeline (new_pipeline sel f)) c, ground (arith, free, right, old), h)
    ]
  ]
]

-- A handler keeps the store in order, and returns or is one that may throw.
abbrev Keeps : Action → Client → Outcome → Type 0
Keeps a c o =
    IsTabbed (final o).pipelines × ((o ≡ returns (final o)) ⊎ (Fails a c × (o ≡ throws c)))

Tabs-Keeps : (a : Action) (c : Client) (o : Outcome) → Tabs o → Keeps a c o
Tabs-Keeps a c o (c', run, h') = (
  subst (λ o. IsTabbed (final o).pipelines) (sym run) h',
  inl (run ∙ ap (λ o. returns (final o)) (sym run)),
)

-- Choosing a pipeline, which is in the store or not.
select-Keeps :
    (a : Action) (id : ℕ) (c : Client)
    → IsTabbed c.pipelines
    → (JsMap.has id c.pipelines ≡ false → Fails a c)
    → Keeps a c (select_pipeline id c)
unfolding select_pipeline Pipelines.get
select-Keeps a id c h fails = elim (Bool-cases (JsMap.has id c.pipelines)) [
  | inl stored ↦ Tabs-Keeps a c _ (select_pipeline-Tabs id c h stored)
  | inr gone ↦
      let run : select_pipeline id c ≡ throws c = ground (arith, gone) in
      (subst (λ o. IsTabbed (final o).pipelines) (sym run) h, inr (fails gone, run))
]

time_out_new-Keeps :
    (resp : Pipeline) (d : Dialog) (c : Client)
    → IsTabbed c.pipelines
    → Keeps (timed_out resp d) c ((time_out_new resp d c).outcome)
unfolding time_out_new
time_out_new-Keeps resp d c h = elim (Option-cases d.timer) [
  | inl off ↦ Tabs-Keeps (timed_out resp d) c _ (c, ground (arith, off), h)
  | inr (t, on) ↦ by_callback t on t.cback refl
]
  where
    by_callback :
        (t : Timer)
        → d.timer ≡ some t
        → (b : Callback) → t.cback ≡ b
        → Keeps (timed_out resp d) c ((time_out_new resp d c).outcome)
    by_callback t on no_callback e = Tabs-Keeps (timed_out resp d) c _ (c, ground (arith, on, e), h)
    by_callback t on hide_and_reset e =
        let same : select_pipeline resp.id c ≡ (time_out_new resp d c).outcome =
          ground (arith, on, e) in
        subst (Keeps (timed_out resp d) c) same
          (select-Keeps (timed_out resp d) resp.id c h (λ gone. gone))

task_changed-Tabs :
    (resp : PipelineTask) (d : Dialog) (c : Client)
    → IsTabbed c.pipelines
    → Tabs ((TaskForm.change_success resp d c).outcome)
unfolding TaskForm.change_success
task_changed-Tabs resp d c h = (
  final ((TaskForm.change_success resp d c).outcome),
  refl,
  by_selected (Pipelines.get_selected c.pipelines),
)
  where
    by_selected :
        (ps : List Pipeline)
        → IsTabbed (elim ps [
          | [] ↦ c.pipelines
          | p ∷ ps ↦ Pipelines.set_change_task p.id true c.pipelines
        ])
    by_selected [] = h
    by_selected (p ∷ ps) = set_change_task-IsTabbed p.id true c.pipelines h

act-Keeps : (a : Action) (c : Client) → IsTabbed c.pipelines → Enabled a c → Keeps a c (act a c)
unfolding act PipelineForm.add_success PipelineForm.change_success del_pipeline_request
    del_pipeline_success
act-Keeps (selected id) c h ready = select-Keeps (selected id) id c h (λ gone. gone)
act-Keeps (clicked_twice id entry) c h ready =
    subst (Keeps (clicked_twice id entry) c) (sym ((double_click_pipeline-target id c).0))
      (select-Keeps (clicked_twice id entry) id c h (λ gone. gone))
act-Keeps (clicked_twice id button) c h ready =
    let run = (double_click_pipeline-target id c).1 in
    (subst (λ o. IsTabbed (final o).pipelines) (sym run) h, inr (tt, run))
act-Keeps (hidden id) c h stored = Tabs-Keeps (hidden id) c _ (hide_pipeline-Tabs id c h stored)
act-Keeps (submitted sel f d) c h ready =
    Tabs-Keeps (submitted sel f d) c _ (h_submit-Tabs sel f d c h)
act-Keeps (added resp d) c h tab = (add-IsTabbed resp c.pipelines tab h, inl refl)
act-Keeps (changed resp d) c h tab = (upd-IsTabbed resp c.pipelines tab h, inl refl)
act-Keeps (timed_out resp d) c h ready = time_out_new-Keeps resp d c h
act-Keeps (delete_asked sel) c h stored =
    let (c', run, h') = hide_pipeline-Tabs sel.id c h stored in
    Tabs-Keeps (delete_asked sel) c _ (send (del_pipeline sel) c', ground (arith, run), h')
act-Keeps (deleted sel) c h ready = (del-IsTabbed sel.id c.pipelines h, inl refl)
act-Keeps (task_changed resp d) c h ready =
    Tabs-Keeps (task_changed resp d) c _ (task_changed-Tabs resp d c h)

Reached-IsTabbed : {c u : Client} → Reached c u → IsTabbed c.pipelines → IsTabbed u.pipelines
Reached-IsTabbed begin h = h
Reached-IsTabbed (after {u = u} a before ready) h =
    (act-Keeps a u (Reached-IsTabbed before h) ready).0

-- Let the store of pipelines be a Map under their own ids, in which each selected pipeline is
-- visible. Let choosing pipelines, in the list or by a tab, double clicks, hiding pipelines,
-- asking to delete them, the dialog of a pipeline, the answers to it, its timeout, the
-- consent to deletions and the answers to edits of tasks follow one another, the session
-- going on after a handler that throws. If each pipeline that is hidden or asked to be
-- deleted is stored, and each one in an answer is visible if it is selected, then the store
-- is such a Map again after each of them. The next one returns, or it throws and leaves the
-- client as it was, which only happens if it selects a pipeline that is not stored or is a
-- double click on a button.
pub session-IsTabbed :
    (c u : Client) (a : Action)
    → IsTabbed c.pipelines
    → Reached c u
    → Enabled a u
    → IsTabbed u.pipelines
      × IsTabbed (final (act a u)).pipelines
      × ((act a u ≡ returns (final (act a u))) ⊎ (Fails a u × (act a u ≡ throws u)))
session-IsTabbed c u a h reached ready =
    let h' = Reached-IsTabbed reached h in
    let (kept, done) = act-Keeps a u h' ready in (h', kept, done)
