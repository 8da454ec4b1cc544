-- ===== src/Graph/Loop.antt =====
-- The loop of `hMouseUp` in web/client/graph/graph_panel.tsx: which connections it adds.
use zmey.Base.{
  ℕ, ◌≡◌, ◌≢◌, refl, sym, ap, ◌∙◌, Bool, true, false, ◌&&◌, ◌||◌, some, List, [], ◌∷◌, All, arith,
  ◌==◌, inl, inr, if◌then◌else◌, Bool-cases,
}
use zmey.JsArray.{includes}
use zmey.JsArray.Laws.{truthy-find}
use zmey.JsMap
use zmey.JsMap.{JsMap, changed}
use zmey.JsMap.Laws.{has-get, get_of_has}
use zmey.Types.{Point, PipelineTask}
use zmey.Client.{Client, returns}
use zmey.Graph.Links.{has_next, Linked, IsAligned, IsKeyed}
use zmey.Graph.Panel.{
  SocketType, output, input, near_end, push_next, push_prev, is_over, known, connect_all,
}
use zmey.Graph.Connect.{
  Joined, source_of, target_of, join-Joined, has_next-join, Linked-join, IsAligned-join,
  IsKeyed-join,
}

-- The ids of the listed tasks whose socket is under the mouse.
abbrev pub over_ids : SocketType → Point → List PipelineTask → List ℕ
over_ids type mpos [] = []
over_ids type mpos (pt ∷ pts) =
    if is_over type mpos pt then pt.id ∷ over_ids type mpos pts else over_ids type mpos pts

-- The connection from `a` to `b` joins the captured task to one of the tasks under the mouse.
abbrev pub is_new : SocketType → ℕ → ℕ → ℕ → List ℕ → Bool
is_new output id a b ids = id == a && includes b ids
is_new input id a b ids = id == b && includes a ids

abbrev pub AllStored : List PipelineTask → JsMap PipelineTask → Type 0
AllStored pts m = All (λ pt. (JsMap.has pt.id m ≡ true) × (pt.id ≢ 0)) pts

-- What the loop keeps, with `task` for the local copy.
pub record Captured (id : ℕ) (task : PipelineTask) (m : JsMap PipelineTask) : Type 0 where
  pub linked : Linked m
  pub keyed : IsKeyed m
  pub fresh : JsMap.get id m ≡ some task

known-includes :
    (type : SocketType) (id : ℕ) (task pt : PipelineTask) (m : JsMap PipelineTask)
    → pt.id ≢ 0
    → JsMap.get id m ≡ some task
    → Linked m
    → known type task pt.id ≡ has_next (source_of type id pt.id) (target_of type id pt.id) m
known-includes output id task pt m h e l = rw (truthy-find pt.id task.next_tasks_id h, e)
known-includes input id task pt m h e l =
    rw (truthy-find pt.id task.prev_tasks_id h, l.symmetric pt.id id, e)

has-join :
    (k a₀ b₀ : ℕ) (m m' : JsMap PipelineTask)
    → Joined a₀ b₀ m m'
    → JsMap.has k m ≡ true
    → JsMap.has k m' ≡ true
has-join k a₀ b₀ m m' joined h =
    let (t, e) = get_of_has k m h in
    let t₁ = if a₀ == k then push_next b₀ t else t in
    has-get k m' (if b₀ == k then push_prev a₀ t₁ else t₁) (ground (arith, e, joined k))

AllStored-join :
    (pts : List PipelineTask) (a₀ b₀ : ℕ) (m m' : JsMap PipelineTask)
    → Joined a₀ b₀ m m'
    → AllStored pts m
    → AllStored pts m'
AllStored-join [] a₀ b₀ m m' joined h = tt
AllStored-join (pt ∷ pts) a₀ b₀ m m' joined h =
    ((has-join pt.id a₀ b₀ m m' joined h.0.0, h.0.1), AllStored-join pts a₀ b₀ m m' joined h.1)

has-source :
    (type : SocketType) (id pt_id : ℕ) (m : JsMap PipelineTask)
    → JsMap.has id m ≡ true
    → JsMap.has pt_id m ≡ true
    → (JsMap.has (source_of type id pt_id) m ≡ true)
      × (JsMap.has (target_of type id pt_id) m ≡ true)
has-source output id pt_id m h k = (h, k)
has-source input id pt_id m h k = (k, h)

-- After a branch that joins two different tasks the local copy is again what the store holds.
Captured-join :
    (type : SocketType) (id pt_id : ℕ) (task : PipelineTask) (m m' : JsMap PipelineTask)
    → Captured id task m
    → JsMap.has pt_id m ≡ true
    → (pt_id == id) ≡ false
    → has_next (source_of type id pt_id) (target_of type id pt_id) m ≡ false
    → Joined (source_of type id pt_id) (target_of type id pt_id) m m'
    → Captured id (near_end type pt_id task) m'
Captured-join type id pt_id task m m' held h other new joined =
    let ends = has-source type id pt_id m (has-get id m task held.fresh) h in
    record {
      linked = Linked-join _ _ m m' joined held.linked ends.0 ends.1 new;
      keyed = IsKeyed-join _ _ m m' joined held.keyed;
      fresh = fresh-near type (joined id);
    }
  where
    fresh-near :
        (type : SocketType)
        → JsMap.get id m'
          ≡ changed (target_of type id pt_id == id) (push_prev (source_of type id pt_id)) (
              changed
                (source_of type id pt_id == id)
                (push_next (target_of type id pt_id))
                (JsMap.get id m))
        → JsMap.get id m' ≡ some (near_end type pt_id task)
    fresh-near output e = ground (arith, held.fresh)
    fresh-near input e = ground (arith, held.fresh)

-- What the loop promises of the store before and after it. If each connection had its flag, it has
-- it afterwards.
pub record Connects (type : SocketType) (id : ℕ) (ids : List ℕ) (m m' : JsMap PipelineTask)
    : Type 0 where
  pub linked : Linked m'
  pub aligned : IsAligned m → IsAligned m'
  pub keyed : IsKeyed m'
  pub edges : (a b : ℕ) → has_next a b m' ≡ (has_next a b m || is_new type id a b ids)

is_new-nil : (type : SocketType) (id a b : ℕ) (old : Bool) → old ≡ (old || is_new type id a b [])
unfolding includes
is_new-nil output id a b old = ground arith
is_new-nil input id a b old = ground arith

is_new-old :
    (type : SocketType) (id pt_id a b : ℕ) (ids : List ℕ) (m : JsMap PipelineTask)
    → has_next (source_of type id pt_id) (target_of type id pt_id) m ≡ true
    → (has_next a b m || is_new type id a b ids)
      ≡ (has_next a b m || is_new type id a b (pt_id ∷ ids))
unfolding includes
is_new-old output id pt_id a b ids m h =
    ground (arith, ap (λ (j : ℕ). has_next j b m), ap (λ (j : ℕ). has_next id j m))
is_new-old input id pt_id a b ids m h =
    ground (arith, ap (λ (j : ℕ). has_next j b m), ap (λ (j : ℕ). has_next pt_id j m))

is_new-cons :
    (type : SocketType) (id pt_id a b : ℕ) (ids : List ℕ) (old : Bool)
    → ((old || (source_of type id pt_id == a && target_of type id pt_id == b))
        || is_new type id a b ids)
      ≡ (old || is_new type id a b (pt_id ∷ ids))
unfolding includes
is_new-cons output id pt_id a b ids old = ground arith
is_new-cons input id pt_id a b ids old = ground arith

-- Let the store be consistent, with the tasks under their own ids, and let the local copy be what
-- it holds for the captured task. If the listed tasks are stored, none has the id 0, and the
-- captured task is not among those under the mouse, the loop of `hMouseUp` returns, the store is as
-- consistent as before, and exactly the connections between the captured task and the tasks under
-- the mouse are added.
pub connect_all-Connects :
    (type : SocketType) (mpos : Point) (id : ℕ) (pts : List PipelineTask) (task : PipelineTask)
    (c : Client)
    → Captured id task c.pipeline_tasks
    → AllStored pts c.pipeline_tasks
    → includes id (over_ids type mpos pts) ≡ false
    → (c' : Client) × (connect_all type mpos task pts c ≡ returns c')
      × Connects type id (over_ids type mpos pts) c.pipeline_tasks c'.pipeline_tasks
unfolding connect_all includes
connect_all-Connects type mpos id [] task c held stored apart = (
  c,
  refl,
  record {
    linked = held.linked;
    aligned = λ h. h;
    keyed = held.keyed;
    edges = λ a b. is_new-nil type id a b (has_next a b c.pipeline_tasks);
  },
)
connect_all-Connects type mpos id (pt ∷ pts) task c held stored apart =
    elim (Bool-cases (is_over type mpos pt)) [
      | inr off ↦
          let (c', run, done) =
            connect_all-Connects type mpos id pts task c held stored.1 (ground arith) in
          (c', ground arith, rw off done)
      | inl on ↦ elim (Bool-cases (known type task pt.id)) [
        | inl old ↦
            let (c', run, done) =
              connect_all-Connects type mpos id pts task c held stored.1 (ground arith) in
            (
              c',
              ground arith,
              rw on (record {
                linked = done.linked;
                aligned = done.aligned;
                keyed = done.keyed;
                edges = λ a b.
                    done.edges a b
                    ∙ is_new-old type id pt.id a b (over_ids type mpos pts) c.pipeline_tasks (
                        sym (
                          known-includes type id task pt c.pipeline_tasks stored.0.1 held.fresh
                            held.linked)
                        ∙ old);
              }),
            )
        | inr new ↦
            let (c₁, joining, joined) =
              join-Joined type id pt.id task c held.keyed held.fresh stored.0.0 in
            let next =
              Captured-join type id pt.id task c.pipeline_tasks c₁.pipeline_tasks held stored.0.0
                (ground arith)
                (sym (
                    known-includes type id task pt c.pipeline_tasks stored.0.1 held.fresh
                      held.linked)
                  ∙ new)
                joined in
            let (c', run, done) =
              connect_all-Connects type mpos id pts (near_end type pt.id task) c₁ next
                (AllStored-join pts _ _ c.pipeline_tasks c₁.pipeline_tasks joined stored.1)
                (ground arith) in
            (
              c',
              ground arith,
              rw on (record {
                linked = done.linked;
                aligned = λ h.
                    done.aligned (IsAligned-join _ _ c.pipeline_tasks c₁.pipeline_tasks joined h);
                keyed = done.keyed;
                edges = λ a b.
                    done.edges a b
                    ∙ ap (λ (e : Bool). e || is_new type id a b (over_ids type mpos pts))
                        (has_next-join _ _ c.pipeline_tasks c₁.pipeline_tasks joined a b
                          (has-source type id pt.id c.pipeline_tasks
                            (has-get id c.pipeline_tasks task held.fresh) stored.0.0).0)
                    ∙ is_new-cons type id pt.id a b (over_ids type mpos pts)
                        (has_next a b c.pipeline_tasks);
              }),
            )
      ]
    ]
