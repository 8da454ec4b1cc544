-- ===== src/Admin.antt =====
-- web/server/static/js/admin.js: the administrator's page with its tables of schedulers and
-- workers. A table is the list of its rows, the first on top; a row is its marked background and
-- the texts of its cells. Times are formatted by `dateFormat`; that a Date is made from a server's
-- text, and its shift by the time zone, is the parameter `local_date`. `text_content` is what the
-- browser returns as the `textContent` of a cell that was written with a text as its HTML.
pub mod ParseInt
pub mod Schedulers
use zmey.Base.{
  ℕ, zero, suc, ◌==◌, Bool, true, false, Option, none, some, List, [], ◌∷◌, ◌++◌, if◌then◌else◌,
  get_elem?,
}
use zmey.DateFormat.{Text, Date, to_string, date_format}
use zmey.DateFormat.Pattern.{pattern_seconds}
use zmey.Admin.ParseInt.{parse_int}

pub record Scheduler : Type 0 where
  pub id : ℕ
  pub connect_pnt : Text
  pub state : Text
  pub capacity_task : ℕ
  pub active_task : ℕ
  pub start_time : Text
  pub stop_time : Text
  pub ping_time : Text
  pub name : Text
  pub description : Text

pub record Worker : Type 0 where
  pub id : ℕ
  pub connect_pnt : Text
  pub state : Text
  pub load : ℕ
  pub capacity_task : ℕ
  pub active_task : ℕ
  pub start_time : Text
  pub stop_time : Text
  pub ping_time : Text
  pub name : Text
  pub description : Text

pub record Row : Type 0 where
  pub marked : Bool
  pub cells : List Text

-- The inputs below a table.
pub record Inputs : Type 0 where
  pub ip_addr : Text
  pub capacity_task : Text
  pub name : Text
  pub descr : Text

-- The requests; `post` and `put` carry the inputs, those for workers also the scheduler's id.
pub data Request : Type 0 where
  get_schedulers : Request
  get_workers : ℕ → Request
  post_scheduler : Inputs → Request
  put_scheduler : ℕ → Inputs → Request
  delete_scheduler : ℕ → Request
  post_worker : ℕ → Inputs → Request
  put_worker : ℕ → ℕ → Inputs → Request
  delete_worker : ℕ → Request

-- `m_schedrSelected.id` and `m_workerSelected.id`, the two tables with their inputs, and what was
-- requested, oldest first.
pub record Page : Type 0 where
  pub schedr_selected : ℕ
  pub worker_selected : ℕ
  pub schedr_rows : List Row
  pub worker_rows : List Row
  pub schedr_inputs : Inputs
  pub worker_inputs : Inputs
  pub requests : List Request

abbrev pub request : Request → Page → Page
request r p = record p { requests = p.requests ++ r ∷ [] }

unfoldable pub req_workers : Page → Page
req_workers p = if p.schedr_selected == 0 then p else request (get_workers p.schedr_selected) p

unfoldable pub req_schers : Page → Page
req_schers p = request get_schedulers p

module _ (local_date : Text → Date) where
  abbrev pub time_cell : Text → Text
  time_cell t = date_format (local_date t) pattern_seconds

  abbrev pub scheduler_cells : Scheduler → List Text
  scheduler_cells s =
      to_string s.id
      ∷ s.connect_pnt
      ∷ s.state
      ∷ to_string s.capacity_task
      ∷ to_string s.active_task
      ∷ time_cell s.start_time
      ∷ time_cell s.stop_time
      ∷ time_cell s.ping_time
      ∷ s.name
      ∷ s.description
      ∷ []

  abbrev pub worker_cells : Worker → List Text
  worker_cells w =
      to_string w.id
      ∷ w.connect_pnt
      ∷ w.state
      ∷ to_string w.load
      ∷ to_string w.capacity_task
      ∷ to_string w.active_task
      ∷ time_cell w.start_time
      ∷ time_cell w.stop_time
      ∷ time_cell w.ping_time
      ∷ w.name
      ∷ w.description
      ∷ []

  -- The loop of `fillScheds`: the first scheduler is selected if none is; a row goes to the top.
  unfoldable pub add_scheds : List Scheduler → Page → Page
  add_scheds [] p = p
  add_scheds (s ∷ ss) p =
      let selected = if p.schedr_selected == 0 then s.id else p.schedr_selected in
      add_scheds ss (record p {
        schedr_selected = selected;
        schedr_rows =
            record { marked = s.id == selected; cells = scheduler_cells s } ∷ p.schedr_rows;
      })

  unfoldable pub fill_scheds : List Scheduler → Page → Page
  unfolding add_scheds
  fill_scheds scheds p = add_scheds scheds (record p { schedr_rows = [] })

  unfoldable pub add_workers : List Worker → Page → Page
  add_workers [] p = p
  add_workers (w ∷ ws) p = add_workers ws (record p {
    worker_rows =
        record { marked = w.id == p.worker_selected; cells = worker_cells w } ∷ p.worker_rows;
  })

  unfoldable pub fill_workers : List Worker → Page → Page
  unfolding add_workers
  fill_workers workers p = add_workers workers (record p { worker_rows = [] })

  -- `reqSchers` when its answer has come: the table, then the request for the workers.
  unfoldable pub schers_received : List Scheduler → Page → Page
  unfolding fill_scheds req_workers
  schers_received scheds p = req_workers (fill_scheds scheds p)

-- The buttons.
unfoldable pub append_schedr : Page → Page
append_schedr p = request (post_scheduler p.schedr_inputs) p

unfoldable pub change_schedr : Page → Page
change_schedr p = request (put_scheduler p.schedr_selected p.schedr_inputs) p

unfoldable pub delete_schedr : Page → Page
delete_schedr p = request (delete_scheduler p.schedr_selected) p

unfoldable pub append_worker : Page → Page
append_worker p = request (post_worker p.schedr_selected p.worker_inputs) p

unfoldable pub change_worker : Page → Page
change_worker p = request (put_worker p.worker_selected p.schedr_selected p.worker_inputs) p

-- The request of `deleteWorker`.
unfoldable pub delete_worker_request : Page → Page
delete_worker_request p = request (delete_worker p.worker_selected) p

module _ (text_content : Text → Text) where
  -- `cells[i].textContent`; a row has all the cells that are read.
  cell : ℕ → Row → Text
  cell i r = elim (get_elem? r.cells i) [ none ↦ [] | some t ↦ text_content t ]

  -- The id of a selection is NaN in the source if the text is no number: `none` here.
  unfoldable pub h_select_schedr : Row → Page → Option Page
  unfolding cell req_schers
  h_select_schedr r p = elim (parse_int (cell 0 r)) [
    | none ↦ none
    | some id ↦ some (
        req_schers (record p {
          schedr_selected = id;
          schedr_inputs = record {
            ip_addr = cell 1 r;
            capacity_task = cell 3 r;
            name = cell 8 r;
            descr = cell 9 r;
          };
        }))
  ]

  unfoldable pub h_select_worker : Row → Page → Option Page
  unfolding cell req_schers
  h_select_worker r p = elim (parse_int (cell 0 r)) [
    | none ↦ none
    | some id ↦ some (
        req_schers (record p {
          worker_selected = id;
          worker_inputs = record {
            ip_addr = cell 1 r;
            capacity_task = cell 4 r;
            name = cell 9 r;
            descr = cell 10 r;
          };
        }))
  ]
