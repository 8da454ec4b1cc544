-- ===== src/Admin/Schedulers.antt =====
-- What the tables of web/server/static/js/admin.js show, and what a click on a row selects.

use zmey.Base.{
  ℕ, ◌==◌, ◌≡◌, ◌≢◌, refl, Bool, some, List, [], ◌∷◌, ◌++◌, All, arith, if◌then◌else◌, inl, inr,
  Bool-cases,
}
use zmey.DateFormat.{Text, Date, to_string}
use zmey.Admin.{
  Scheduler, Worker, Row, Page, scheduler_cells, worker_cells, add_scheds, fill_scheds,
  h_select_schedr, h_select_worker, get_schedulers,
}
use zmey.Admin.ParseInt.{parse_int-to_string}

-- The scheduler that is selected once the table is filled.
abbrev pub selected_after : ℕ → List Scheduler → ℕ
selected_after n [] = n
selected_after n (s ∷ ss) = if n == 0 then s.id else n

module _ (local_date : Text → Date) where
  abbrev pub row_for : ℕ → Scheduler → Row
  row_for selected s = record { marked = s.id == selected; cells = scheduler_cells local_date s }

  -- The rows, the last scheduler on top.
  abbrev pub rows_for : ℕ → List Scheduler → List Row → List Row
  rows_for selected [] below = below
  rows_for selected (s ∷ ss) below = rows_for selected ss (row_for selected s ∷ below)

  add_scheds-selected :
      (ss : List Scheduler) (p : Page)
      → p.schedr_selected ≢ 0
      → add_scheds local_date ss p
        ≡ record p { schedr_rows = rows_for p.schedr_selected ss p.schedr_rows }
  unfolding add_scheds
  add_scheds-selected [] p e = refl
  add_scheds-selected (s ∷ ss) p e = ground (
    arith,
    add_scheds-selected ss (record p { schedr_rows = row_for p.schedr_selected s ∷ p.schedr_rows })
        e,
  )

  -- With schedulers whose ids are not 0 the table shows them all, the last on top, and marks
  -- the rows of the selected scheduler. A selection stays as it is, also if that scheduler is
  -- not among them; if there was none, the first scheduler is selected.
  pub fill_scheds-rows :
      (ss : List Scheduler) (p : Page)
      → All (λ s. s.id ≢ 0) ss
      → let q = fill_scheds local_date ss p in
        (q.schedr_selected ≡ selected_after p.schedr_selected ss)
        × (q.schedr_rows ≡ rows_for (selected_after p.schedr_selected ss) ss [])
  unfolding fill_scheds
  fill_scheds-rows [] p h = (refl, refl)
  fill_scheds-rows (s ∷ ss) p h = elim (Bool-cases (p.schedr_selected == 0)) [
    | inl unset ↦
        let q = record p { schedr_selected = s.id; schedr_rows = row_for s.id s ∷ [] } in
        ground (arith, add_scheds-selected ss q h.0)
    | inr chosen ↦
        let q = record p { schedr_rows = row_for p.schedr_selected s ∷ [] } in
        ground (arith, add_scheds-selected ss q (ground arith))
  ]

  -- A click on a scheduler's row selects that scheduler, puts its address, capacity, name and
  -- description into the inputs and requests the schedulers, provided that the browser returns
  -- the texts of these cells and of the id as they were written.
  pub h_select_schedr-row :
      (text_content : Text → Text) (s : Scheduler) (selected : ℕ) (p : Page)
      → text_content (to_string s.id) ≡ to_string s.id
      → text_content s.connect_pnt ≡ s.connect_pnt
      → text_content (to_string s.capacity_task) ≡ to_string s.capacity_task
      → text_content s.name ≡ s.name
      → text_content s.description ≡ s.description
      → h_select_schedr text_content (row_for selected s) p
        ≡ some (record p {
          schedr_selected = s.id;
          schedr_inputs = record {
            ip_addr = s.connect_pnt;
            capacity_task = to_string s.capacity_task;
            name = s.name;
            descr = s.description;
          };
          requests = p.requests ++ get_schedulers ∷ [];
        })
  unfolding h_select_schedr
  h_select_schedr-row text_content s selected p h₁ h₂ h₃ h₄ h₅ =
      ground (arith, parse_int-to_string s.id)

  -- A click on a worker's row selects that worker, puts its address, capacity, name and
  -- description into the inputs and requests the schedulers, provided that the browser returns
  -- the texts of these cells and of the id as they were written.
  h_select_worker-row :
      (text_content : Text → Text) (w : Worker) (marked : Bool) (p : Page)
      → text_content (to_string w.id) ≡ to_string w.id
      → text_content w.connect_pnt ≡ w.connect_pnt
      → text_content (to_string w.capacity_task) ≡ to_string w.capacity_task
      → text_content w.name ≡ w.name
      → text_content w.description ≡ w.description
      → h_select_worker text_content
          (record { marked = marked; cells = worker_cells local_date w })
          p
        ≡ some (record p {
          worker_selected = w.id;
          worker_inputs = record {
            ip_addr = w.connect_pnt;
            capacity_task = to_string w.capacity_task;
            name = w.name;
            descr = w.description;
          };
          requests = p.requests ++ get_schedulers ∷ [];
        })
  unfolding h_select_worker
  h_select_worker-row text_content w marked p h₁ h₂ h₃ h₄ h₅ =
      ground (arith, parse_int-to_string w.id)
