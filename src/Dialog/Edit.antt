-- ===== src/Dialog/Edit.antt =====
-- The edit of a pipeline task in web/client/central_widget/pipeline_task_dialog.tsx, from `hSubmit` to
-- the server's answer.
use zmey.Base.{
  ℕ, ◌≡◌, ◌≢◌, refl, sym, subst, ap, ◌∙◌, Bool, true, false, not, ◌&&◌, ◌||◌, some, arith, ◌==◌,
  inl, inr, Bool-cases,
}
use zmey.JsMap
use zmey.JsMap.{JsMap}
use zmey.JsMap.Laws.{get-set, has-get}
use zmey.Types.{PipelineTask}
use zmey.Client.{Client, final, returns, send, change_form_task}
use zmey.Store.Laws.{upd-task}
use zmey.Store.Connections.Detach.{isolated, del_all_connections_lem}
use zmey.Graph.Links.{
  Linked, IsKeyed, SameLists, Linked-same, has_next-same, has_next, next-Distinct_at,
  prev-Distinct_at, next_stored, prev_stored,
}
use zmey.Graph.Isolate.{Linked-isolate, has_next-isolate}
use zmey.Dialog.{Dialog}
use zmey.Dialog.Sent.{form_task, FollowsForm, with_form, set_flags-FlagsSet}
use zmey.Dialog.TaskForm.{Form, valid, check, h_submit, submit_edit, edited_task, change_success}

-- Another object in the place of a task, with the same connections.
module _ (k : ℕ) (u v : PipelineTask) (m : JsMap PipelineTask) (stored : JsMap.get k m ≡ some u)
    (same_next : v.next_tasks_id ≡ u.next_tasks_id)
    (same_prev : v.prev_tasks_id ≡ u.prev_tasks_id) where
  same-set : SameLists m (JsMap.set k v m)
  same-set a =
      ground (arith, get-set k a v m, stored, same_next, same_prev, ap (λ (j : ℕ). JsMap.get j m))

-- The answer puts the object in the task's place.
answer_lem :
    (id : ℕ) (u v : PipelineTask) (d : Dialog) (c : Client)
    → JsMap.get id c.pipeline_tasks ≡ some u
    → v.id ≡ id
    → v.next_tasks_id ≡ u.next_tasks_id
    → v.prev_tasks_id ≡ u.prev_tasks_id
    → Linked c.pipeline_tasks
    → (c' : Client) × ((change_success v d c).outcome ≡ returns c')
      × (JsMap.get id c'.pipeline_tasks ≡ some v)
      × Linked c'.pipeline_tasks
      × ((a b : ℕ) → has_next a b c'.pipeline_tasks ≡ has_next a b c.pipeline_tasks)
unfolding change_success
answer_lem id u v d c e own next prev linked =
    let m = c.pipeline_tasks in
    let has_own = subst (λ k. JsMap.has k m ≡ true) (sym own) (has-get id m u e) in
    let put = upd-task v m has_own ∙ ap (λ k. JsMap.set k v m) own in
    (
      final ((change_success v d c).outcome),
      refl,
      ap (JsMap.get id) put ∙ ground (arith, get-set id id v m),
      subst Linked (sym put) (Linked-same m _ (same-set id u v m e next prev) linked),
      λ a b. ap (has_next a b) put ∙ has_next-same m _ (same-set id u v m e next prev) a b,
    )

-- What is left of the connections of `m` if the task `id` has moved to another pipeline.
abbrev pub edges_left : Bool → ℕ → JsMap PipelineTask → ℕ → ℕ → Bool
edges_left stays id m a b = has_next a b m && (stays || (not (id == a) && not (id == b)))

-- On a consistent store with the tasks under their own ids let a stored task with an id other
-- than 0 be edited with a valid form, while `m_hasAdded` is false. `hSubmit` returns, and
-- sends the edited task last, with the ids of its pipeline and template as texts. That task
-- has the pipeline, the template, the name, the description and the parameters of the form,
-- for each of its next tasks the flag of its box, its old id, settings and enabling, and its
-- old lists of connections, or empty ones if it has moved to another pipeline. If the server
-- answers with that task, the ids as numbers, it is then stored, and the store is consistent.
-- The connections are those from before, without those of the task if it has moved.
pub edit-Linked :
    (id ppl_id tt_id : ℕ) (t : PipelineTask) (f : Form) (d : Dialog) (c : Client)
    → Linked c.pipeline_tasks
    → IsKeyed c.pipeline_tasks
    → JsMap.get id c.pipeline_tasks ≡ some t
    → id ≢ 0
    → d.has_added ≡ false
    → check t f c ≡ valid ppl_id tt_id
    → (t' : PipelineTask) × (c₀ c₁ : Client) × (h_submit t f d c
        ≡ record { dialog = d; outcome = returns (send (change_form_task (form_task t')) c₀) })
      × ((change_success t' d (send (change_form_task (form_task t')) c₀)).outcome ≡ returns c₁)
      × (JsMap.get id c₁.pipeline_tasks ≡ some t')
      × FollowsForm t t' ppl_id tt_id f (ppl_id == t.ppl_id)
      × Linked c₁.pipeline_tasks
      × ((a b : ℕ)
          → has_next a b c₁.pipeline_tasks
            ≡ edges_left (ppl_id == t.ppl_id) id c.pipeline_tasks a b)
unfolding h_submit submit_edit edited_task
edit-Linked id ppl_id tt_id t f d c linked keyed e ne added ok =
    let m = c.pipeline_tasks in
    let own = keyed id t e in
    let t₁ = with_form t ppl_id tt_id f in
    let flags = set_flags-FlagsSet f.checked t.next_tasks_id t.is_start_next in
    elim (Bool-cases (ppl_id == t.ppl_id)) [
      | inl stays ↦
          let (c₁, answered, at, linked₁, edges) =
            answer_lem id t t₁ d (send (change_form_task (form_task t₁)) c) e own refl refl
              linked in
          (
            t₁,
            c,
            c₁,
            ground arith,
            answered,
            at,
            record {
              id = refl;
              ppl = refl;
              template = refl;
              is_enabled = refl;
              next = ground arith;
              prev = ground arith;
              flags = flags;
              params = refl;
              name = refl;
              description = refl;
              setts = refl;
            },
            linked₁,
            λ a b. ground (arith, edges a b),
          )
      | inr moves ↦
          let t₂ = isolated t₁ in
          let (c₀, run, spec) =
            del_all_connections_lem id t c e (next-Distinct_at linked id t e)
              (prev-Distinct_at linked id t e) (λ n. next_stored linked id t n e)
              (λ n. prev_stored linked id t n e) (ground (arith, linked.symmetric id id)) in
          let m₀ = c₀.pipeline_tasks in
          let (c₁, answered, at, linked₁, edges) =
            answer_lem id (isolated t) t₂ d (send (change_form_task (form_task t₂)) c₀)
              (ground (arith, spec id)) own refl refl (Linked-isolate m m₀ linked id t e spec) in
          (
            t₂,
            c₀,
            c₁,
            ground (arith, run),
            answered,
            at,
            record {
              id = refl;
              ppl = refl;
              template = refl;
              is_enabled = refl;
              next = ground arith;
              prev = ground arith;
              flags = flags;
              params = refl;
              name = refl;
              description = refl;
              setts = refl;
            },
            linked₁,
            λ a b. ground (arith, edges a b, has_next-isolate m m₀ linked id t e spec a b),
          )
    ]
