-- ===== src/Graph/Consistent.antt =====
-- A store of tasks that is in order, and the methods that change the settings of a task.
use zmey.Base.{ℕ, ℤ, ◌≡◌, refl, Bool, some, arith, inl, inr, Option-cases, ap, ◌∙◌}
use zmey.JsMap
use zmey.JsMap.{JsMap, IsMap}
use zmey.JsMap.Laws.{has-get, has-set}
use zmey.Types.{PipelineTask, TaskSetts}
use zmey.Client.{Client, Outcome, returns}
use zmey.Store.PipelineTasks
use zmey.Store.PipelineTasks.{Socket}
use zmey.Store.Laws.{get-task_selected}
use zmey.Graph.Links.{Linked, IsKeyed}
use zmey.Graph.Domain.{IsDomain, set-IsDomain}
use zmey.Graph.Settings.{
  with_setts, moved, shown, placed, sized, socketed, Resets, set_moved-Resets, set_visible-Resets,
  set_position-Resets, set_size-Resets, set_sockets-Resets, Linked-Resets, IsKeyed-Resets,
}

-- A Map without the key 0, of tasks under their own ids, with each connection at both ends.
pub record IsConsistent (m : JsMap PipelineTask) : Type 0 where
  pub domain : IsDomain m
  pub linked : Linked m
  pub keyed : IsKeyed m

-- A run that returns and leaves the store in order.
abbrev pub Safe : Outcome → Type 0
Safe o = (c : Client) × (o ≡ returns c) × IsConsistent c.pipeline_tasks

abbrev chosen : Bool → TaskSetts → TaskSetts
chosen on s = record s { is_selected = on }

pub IsConsistent-Resets :
    (id : ℕ) (f : TaskSetts → TaskSetts) (m m' : JsMap PipelineTask)
    → Resets id f m m'
    → IsDomain m'
    → IsConsistent m
    → IsConsistent m'
IsConsistent-Resets id f m m' resets domain h = record {
  domain = domain;
  linked = Linked-Resets id f m m' resets h.linked;
  keyed = IsKeyed-Resets id f m m' resets h.keyed;
}

module _ (id : ℕ) (m : JsMap PipelineTask) (keyed : IsKeyed m) (h : IsDomain m) where
  -- The task that is read is stored under its own id.
  set_own :
      (t v : PipelineTask) → JsMap.get id m ≡ some t → v.id ≡ t.id → IsDomain (JsMap.set v.id v m)
  set_own t v e same =
      set-IsDomain v.id v m (ap (λ (j : ℕ). JsMap.has j m) (same ∙ keyed id t e) ∙ has-get id m t e)
        h

  store_setts-IsDomain :
      (t : PipelineTask) (s : TaskSetts)
      → JsMap.get id m ≡ some t
      → IsDomain (PipelineTasks.store_setts id t s m)
  store_setts-IsDomain t s e =
      let v = record t { setts = s } in
      let stored = has-get id m t e in
      set-IsDomain t.id v (JsMap.set id v m) (ground (arith, has-set id t.id v m, keyed id t e))
        (set-IsDomain id v m stored h)

  pub set_moved-IsDomain : (on : Bool) → IsDomain (PipelineTasks.set_moved id on m)
  unfolding PipelineTasks.set_moved
  set_moved-IsDomain on = elim (Option-cases (JsMap.get id m)) [
    | inl e ↦ ground (arith, e, h)
    | inr (t, e) ↦ ground (arith, e, h, store_setts-IsDomain t (moved on t.setts) e)
  ]

  pub set_visible-IsDomain : (on : Bool) → IsDomain (PipelineTasks.set_visible id on m)
  unfolding PipelineTasks.set_visible
  set_visible-IsDomain on = elim (Option-cases (JsMap.get id m)) [
    | inl e ↦ ground (arith, e, h)
    | inr (t, e) ↦ ground (arith, e, h, store_setts-IsDomain t (shown on t.setts) e)
  ]

  pub set_selected-IsDomain : (on : Bool) → IsDomain (PipelineTasks.set_selected id on m)
  unfolding PipelineTasks.set_selected
  set_selected-IsDomain on = elim (Option-cases (JsMap.get id m)) [
    | inl e ↦ ground (arith, e, h)
    | inr (t, e) ↦ ground (arith, e, h, store_setts-IsDomain t (chosen on t.setts) e)
  ]

  pub set_sockets-IsDomain : (i o : Socket) → IsDomain (PipelineTasks.set_sockets id i o m)
  unfolding PipelineTasks.set_sockets
  set_sockets-IsDomain i o = elim (Option-cases (JsMap.get id m)) [
    | inl e ↦ ground (arith, e, h)
    | inr (t, e) ↦ ground (arith, e, h, store_setts-IsDomain t (socketed i o t.setts) e)
  ]

  pub set_position-IsDomain : (x y : ℤ) → IsDomain (PipelineTasks.set_position id x y m)
  unfolding PipelineTasks.set_position
  set_position-IsDomain x y = elim (Option-cases (JsMap.get id m)) [
    | inl e ↦ ground (arith, e, h)
    | inr (t, e) ↦ ground (arith, e, h, set_own t (with_setts (placed x y) t) e refl)
  ]

  pub set_size-IsDomain : (w k : ℤ) → IsDomain (PipelineTasks.set_size id w k m)
  unfolding PipelineTasks.set_size
  set_size-IsDomain w k = elim (Option-cases (JsMap.get id m)) [
    | inl e ↦ ground (arith, e, h)
    | inr (t, e) ↦ ground (arith, e, h, set_own t (with_setts (sized w k) t) e refl)
  ]

module _ (id : ℕ) (m : JsMap PipelineTask) (h : IsConsistent m) where
  pub set_moved-IsConsistent : (on : Bool) → IsConsistent (PipelineTasks.set_moved id on m)
  set_moved-IsConsistent on =
      IsConsistent-Resets id (moved on) m _ (set_moved-Resets id m h.keyed on)
        (set_moved-IsDomain id m h.keyed h.domain on) h

  pub set_visible-IsConsistent : (on : Bool) → IsConsistent (PipelineTasks.set_visible id on m)
  set_visible-IsConsistent on =
      IsConsistent-Resets id (shown on) m _ (set_visible-Resets id m h.keyed on)
        (set_visible-IsDomain id m h.keyed h.domain on) h

  pub set_sockets-IsConsistent : (i o : Socket) → IsConsistent (PipelineTasks.set_sockets id i o m)
  set_sockets-IsConsistent i o =
      IsConsistent-Resets id (socketed i o) m _ (set_sockets-Resets id m h.keyed i o)
        (set_sockets-IsDomain id m h.keyed h.domain i o) h

  pub set_position-IsConsistent : (x y : ℤ) → IsConsistent (PipelineTasks.set_position id x y m)
  set_position-IsConsistent x y =
      IsConsistent-Resets id (placed x y) m _ (set_position-Resets id m h.keyed x y)
        (set_position-IsDomain id m h.keyed h.domain x y) h

  pub set_size-IsConsistent : (w k : ℤ) → IsConsistent (PipelineTasks.set_size id w k m)
  set_size-IsConsistent w k =
      IsConsistent-Resets id (sized w k) m _ (set_size-Resets id m h.keyed w k)
        (set_size-IsDomain id m h.keyed h.domain w k) h

  pub set_selected-IsConsistent : (on : Bool) → IsConsistent (PipelineTasks.set_selected id on m)
  set_selected-IsConsistent on =
      IsConsistent-Resets id (chosen on) m _ (λ k. get-task_selected id on m k h.keyed)
        (set_selected-IsDomain id m h.keyed h.domain on) h
