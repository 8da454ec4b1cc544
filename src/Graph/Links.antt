-- ===== src/Graph/Links.antt =====
-- The connections that the stored pipeline tasks describe, and what makes them consistent: each
-- connection stands in `nextTasksId` of one task and in `prevTasksId` of the other.
use zmey.Base.{
  true, arith, inl, inr, subst, sym, Option-cases, ℕ, ◌≡◌, Bool, Option, none, some, List, [],
  length,
}
use zmey.JsArray.{includes, Distinct}
use zmey.JsMap
use zmey.JsMap.Laws.{has-get}
use zmey.JsMap.{JsMap}
use zmey.Types.{PipelineTask}
pub use zmey.Store.Laws.{IsKeyed}

abbrev pub next_in : Option PipelineTask → List ℕ
next_in none = []
next_in (some t) = t.next_tasks_id

abbrev pub prev_in : Option PipelineTask → List ℕ
prev_in none = []
prev_in (some t) = t.prev_tasks_id

abbrev pub starts_in : Option PipelineTask → List ℕ
starts_in none = []
starts_in (some t) = t.is_start_next

abbrev pub next_of : ℕ → JsMap PipelineTask → List ℕ
next_of a m = next_in (JsMap.get a m)

abbrev pub prev_of : ℕ → JsMap PipelineTask → List ℕ
prev_of b m = prev_in (JsMap.get b m)

abbrev pub starts_of : ℕ → JsMap PipelineTask → List ℕ
starts_of a m = starts_in (JsMap.get a m)

-- Task `a` names `b` as a next task.
abbrev pub has_next : ℕ → ℕ → JsMap PipelineTask → Bool
has_next a b m = includes b (next_of a m)

-- Task `b` names `a` as a previous task.
abbrev pub has_prev : ℕ → ℕ → JsMap PipelineTask → Bool
has_prev b a m = includes a (prev_of b m)

-- A connection to a task that is not in the store would break `symmetric`.
pub record Linked (m : JsMap PipelineTask) : Type 0 where
  pub symmetric : (a b : ℕ) → has_next a b m ≡ has_prev b a m
  pub next_distinct : (a : ℕ) → Distinct (next_of a m)
  pub prev_distinct : (b : ℕ) → Distinct (prev_of b m)

-- Each connection has its flag.
abbrev pub IsAligned : JsMap PipelineTask → Type 0
IsAligned m = (a : ℕ) → length (starts_of a m) ≡ length (next_of a m)

module _ {m : JsMap PipelineTask} (linked : Linked m) (a : ℕ) (t : PipelineTask) where
  pub next-Distinct_at : JsMap.get a m ≡ some t → Distinct t.next_tasks_id
  next-Distinct_at e = subst (λ o. Distinct (next_in o)) e (linked.next_distinct a)

  pub prev-Distinct_at : JsMap.get a m ≡ some t → Distinct t.prev_tasks_id
  prev-Distinct_at e = subst (λ o. Distinct (prev_in o)) e (linked.prev_distinct a)

  -- The tasks that a stored task names are stored.
  pub next_stored :
      (b : ℕ) → JsMap.get a m ≡ some t → includes b t.next_tasks_id ≡ true → JsMap.has b m ≡ true
  unfolding includes
  next_stored b e h = elim (Option-cases (JsMap.get b m)) [
    | inl gone ↦ absurd (ground (arith, linked.symmetric a b))
    | inr (u, found) ↦ has-get b m u found
  ]

  pub prev_stored :
      (b : ℕ) → JsMap.get a m ≡ some t → includes b t.prev_tasks_id ≡ true → JsMap.has b m ≡ true
  unfolding includes
  prev_stored b e h = elim (Option-cases (JsMap.get b m)) [
    | inl gone ↦ absurd (ground (arith, linked.symmetric b a))
    | inr (u, found) ↦ has-get b m u found
  ]

pub has_of_next : (a b : ℕ) (m : JsMap PipelineTask) → has_next a b m ≡ true → JsMap.has a m ≡ true
unfolding includes
has_of_next a b m h = elim (Option-cases (JsMap.get a m)) [
  | inl gone ↦ absurd (ground (arith, gone))
  | inr (u, found) ↦ has-get a m u found
]

pub has_of_prev : (a b : ℕ) (m : JsMap PipelineTask) → has_prev b a m ≡ true → JsMap.has b m ≡ true
unfolding includes
has_of_prev a b m h = elim (Option-cases (JsMap.get b m)) [
  | inl gone ↦ absurd (ground (arith, gone))
  | inr (u, found) ↦ has-get b m u found
]

-- A store with the same connections.
abbrev pub SameLists : JsMap PipelineTask → JsMap PipelineTask → Type 0
SameLists m m' = (a : ℕ) → (next_of a m' ≡ next_of a m) × (prev_of a m' ≡ prev_of a m)

module _ (m m' : JsMap PipelineTask) (same : SameLists m m') where
  pub has_next-same : (a b : ℕ) → has_next a b m' ≡ has_next a b m
  has_next-same a b = rw (same a).0

  pub Linked-same : Linked m → Linked m'
  Linked-same linked = record {
    symmetric = λ a b. rw ((same a).0, (same b).1) (linked.symmetric a b);
    next_distinct = λ a. subst Distinct (sym (same a).0) (linked.next_distinct a);
    prev_distinct = λ b. subst Distinct (sym (same b).1) (linked.prev_distinct b);
  }
