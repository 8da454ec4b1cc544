-- ===== src/Graph/Settings.antt =====
-- Methods of the store of tasks that change the settings of one task: what they leave of the
-- connections.
use zmey.Base.{ℕ, ℤ, ◌≡◌, ap, Bool, some, arith, ◌==◌, inl, inr, Option-cases}
use zmey.JsMap
use zmey.JsMap.{JsMap, IsMap, changed}
use zmey.JsMap.Laws.{get-set, IsMap-set}
use zmey.Types.{PipelineTask, TaskSetts}
use zmey.Store.PipelineTasks
use zmey.Store.PipelineTasks.{Socket}
use zmey.Graph.Links.{
  Linked, IsAligned, IsKeyed, has_next, next_of, prev_of, starts_of, SameLists, has_next-same,
  Linked-same,
}

abbrev pub with_setts : (TaskSetts → TaskSetts) → PipelineTask → PipelineTask
with_setts f t = record t { setts = f t.setts }

-- The settings of the task `id` are changed by `f`, and nothing else.
abbrev pub Resets : ℕ → (TaskSetts → TaskSetts) → JsMap PipelineTask → JsMap PipelineTask → Type 0
Resets id f m m' = (k : ℕ) → JsMap.get k m' ≡ changed (id == k) (with_setts f) (JsMap.get k m)

module _ (id : ℕ) (f : TaskSetts → TaskSetts) (m m' : JsMap PipelineTask)
    (resets : Resets id f m m') where
  lists-Resets :
      (a : ℕ)
      → (next_of a m' ≡ next_of a m)
        × (prev_of a m' ≡ prev_of a m)
        × (starts_of a m' ≡ starts_of a m)
  lists-Resets a = elim (Option-cases (JsMap.get a m)) [
    | inl e ↦ ground (arith, e, resets a)
    | inr (t, e) ↦ ground (arith, e, resets a)
  ]

  pub same-Resets : SameLists m m'
  same-Resets a = ((lists-Resets a).0, (lists-Resets a).1)

  pub has_next-Resets : (a b : ℕ) → has_next a b m' ≡ has_next a b m
  has_next-Resets = has_next-same m m' same-Resets

  pub Linked-Resets : Linked m → Linked m'
  Linked-Resets = Linked-same m m' same-Resets

  pub IsAligned-Resets : IsAligned m → IsAligned m'
  IsAligned-Resets aligned a = rw ((lists-Resets a).0, (lists-Resets a).2) (aligned a)

  pub IsKeyed-Resets : IsKeyed m → IsKeyed m'
  IsKeyed-Resets keyed k t e = elim (Option-cases (JsMap.get k m)) [
    | inl gone ↦ ground (arith, resets k, gone)
    | inr (u, found) ↦ ground (arith, resets k, found, keyed k u)
  ]

-- Storing under the given id and under the task's own id are one where the Map is keyed.
store_setts-Resets :
    (id : ℕ) (t : PipelineTask) (f : TaskSetts → TaskSetts) (m : JsMap PipelineTask)
    → IsKeyed m
    → JsMap.get id m ≡ some t
    → Resets id f m (PipelineTasks.store_setts id t (f t.setts) m)
store_setts-Resets id t f m keyed e k =
    let t' = with_setts f t in
    ground (
      arith,
      keyed id t e,
      get-set t.id k t' (JsMap.set id t' m),
      get-set id k t' m,
      ap (λ (j : ℕ). JsMap.get j m),
    )

abbrev pub moved : Bool → TaskSetts → TaskSetts
moved on s = record s { is_moved = on }

abbrev pub shown : Bool → TaskSetts → TaskSetts
shown on s = record s { is_visible = on }

abbrev pub placed : ℤ → ℤ → TaskSetts → TaskSetts
placed x y s = record s { position_x = x; position_y = y }

abbrev pub sized : ℤ → ℤ → TaskSetts → TaskSetts
sized w h s = record s { width = w; height = h }

abbrev pub socketed : Socket → Socket → TaskSetts → TaskSetts
socketed i o s = record s {
  socket_in_point = i.point;
  socket_in_rect = i.rect;
  socket_out_point = o.point;
  socket_out_rect = o.rect;
}

module _ (id : ℕ) (m : JsMap PipelineTask) (keyed : IsKeyed m) where
  pub set_moved-Resets : (on : Bool) → Resets id (moved on) m (PipelineTasks.set_moved id on m)
  unfolding PipelineTasks.set_moved
  set_moved-Resets on k = elim (Option-cases (JsMap.get id m)) [
    | inl e ↦ ground (arith, e, ap (λ (j : ℕ). JsMap.get j m))
    | inr (t, e) ↦
        ground
          (arith, e, store_setts-Resets id t (moved on) m keyed e k, ap (λ (j : ℕ). JsMap.get j m))
  ]

  pub set_visible-Resets : (on : Bool) → Resets id (shown on) m (PipelineTasks.set_visible id on m)
  unfolding PipelineTasks.set_visible
  set_visible-Resets on k = elim (Option-cases (JsMap.get id m)) [
    | inl e ↦ ground (arith, e, ap (λ (j : ℕ). JsMap.get j m))
    | inr (t, e) ↦
        ground
          (arith, e, store_setts-Resets id t (shown on) m keyed e k, ap (λ (j : ℕ). JsMap.get j m))
  ]

  pub set_position-Resets :
      (x y : ℤ) → Resets id (placed x y) m (PipelineTasks.set_position id x y m)
  unfolding PipelineTasks.set_position
  set_position-Resets x y k = elim (Option-cases (JsMap.get id m)) [
    | inl e ↦ ground (arith, e, ap (λ (j : ℕ). JsMap.get j m))
    | inr (t, e) ↦ ground (
      arith,
      e,
      keyed id t e,
      get-set t.id k (with_setts (placed x y) t) m,
      ap (λ (j : ℕ). JsMap.get j m),
    )
  ]

  pub set_size-Resets : (w h : ℤ) → Resets id (sized w h) m (PipelineTasks.set_size id w h m)
  unfolding PipelineTasks.set_size
  set_size-Resets w h k = elim (Option-cases (JsMap.get id m)) [
    | inl e ↦ ground (arith, e, ap (λ (j : ℕ). JsMap.get j m))
    | inr (t, e) ↦ ground (
      arith,
      e,
      keyed id t e,
      get-set t.id k (with_setts (sized w h) t) m,
      ap (λ (j : ℕ). JsMap.get j m),
    )
  ]

  pub set_sockets-Resets :
      (i o : Socket) → Resets id (socketed i o) m (PipelineTasks.set_sockets id i o m)
  unfolding PipelineTasks.set_sockets
  set_sockets-Resets i o k = elim (Option-cases (JsMap.get id m)) [
    | inl e ↦ ground (arith, e, ap (λ (j : ℕ). JsMap.get j m))
    | inr (t, e) ↦ ground (arith, e, store_setts-Resets id t (socketed i o) m keyed e k)
  ]

-- The Map stays one.
pub set_moved-IsMap :
    (id : ℕ) (on : Bool) (m : JsMap PipelineTask)
    → IsMap m
    → IsMap (PipelineTasks.set_moved id on m)
unfolding PipelineTasks.set_moved
set_moved-IsMap id on m h = elim (Option-cases (JsMap.get id m)) [
  | inl e ↦ ground (arith, e, h)
  | inr (t, e) ↦
      let t' = with_setts (moved on) t in
      ground (arith, e, h, IsMap-set t.id t' (JsMap.set id t' m) (IsMap-set id t' m h))
]

pub set_sockets-IsMap :
    (id : ℕ) (i o : Socket) (m : JsMap PipelineTask)
    → IsMap m
    → IsMap (PipelineTasks.set_sockets id i o m)
unfolding PipelineTasks.set_sockets
set_sockets-IsMap id i o m h = elim (Option-cases (JsMap.get id m)) [
  | inl e ↦ ground (arith, e, h)
  | inr (t, e) ↦
      let t' = with_setts (socketed i o) t in
      ground (arith, e, h, IsMap-set t.id t' (JsMap.set id t' m) (IsMap-set id t' m h))
]
