-- ===== src/Tests/Pages.antt =====
-- The theorems on dates and on the administrator's page, at concrete inputs.
use zmey.Base.{String, ℕ, ◌≡◌, refl, List, [], ◌∷◌, arith}
use zmey.DateFormat.{Text, Date, to_string, print_digits, two_digits}
use zmey.Types.{Task}
use zmey.Status.{Row}
use zmey.Status.Cells.{cells_of, printed, cells_of-times}
use zmey.Admin.{Scheduler, Page, Inputs, fill_scheds}
use zmey.Admin.Schedulers.{row_for, fill_scheds-rows}

-- 5 March 2021, 07:08:09.004
abbrev march : Date
march = record {
  full_year = 2021;
  month = 2;
  date = 5;
  hours = 7;
  minutes = 8;
  seconds = 9;
  milliseconds = 4;
}

-- A run that has ended; 4 milliseconds are written as 04.
abbrev run : Task
run = record {
  id = 7;
  ppl_task_id = 1;
  starter_ppl_task_id = 1;
  starter_event_id = 0;
  ttl_id = 1;
  state = 6;
  progress = 100;
  params = "";
  result = "";
  create_time = "";
  take_in_work_time = "";
  start_time = "2021-03-05 07:08:09.004";
  stop_time = "2021-03-05 07:08:09.004";
}

abbrev shifted : String → Date
shifted text = march

abbrev row : Row
row = record { id = 7; starter_name = "t"; task = run }

printed-march :
    printed march
    ≡ b'2' ∷ b'0' ∷ b'2' ∷ b'1' ∷ b'-' ∷ b'0' ∷ b'3' ∷ b'-' ∷ b'0' ∷ b'5' ∷ b' ' ∷ b'0' ∷ b'7'
      ∷ b':' ∷ b'0' ∷ b'8' ∷ b':' ∷ b'0' ∷ b'9' ∷ b'.' ∷ b'0' ∷ b'4' ∷ []
unfolding to_string print_digits two_digits
printed-march = refl

cells_of-times_example :
    ((cells_of shifted row).start_time ≡ printed march)
    × ((cells_of shifted row).stop_time ≡ printed march)
cells_of-times_example = cells_of-times shifted row refl (omega arith) refl (omega arith)

abbrev local_date : Text → Date
local_date t = march

abbrev scheduler : ℕ → Scheduler
scheduler id = record {
  id = id;
  connect_pnt = b'h' ∷ b':' ∷ b'1' ∷ [];
  state = b'R' ∷ [];
  capacity_task = 12;
  active_task = 3;
  start_time = [];
  stop_time = [];
  ping_time = [];
  name = b's' ∷ [];
  description = b'd' ∷ [];
}

abbrev no_inputs : Inputs
no_inputs = record { ip_addr = []; capacity_task = []; name = []; descr = [] }

abbrev page : ℕ → Page
page selected = record {
  schedr_selected = selected;
  worker_selected = 0;
  schedr_rows = [];
  worker_rows = [];
  schedr_inputs = no_inputs;
  worker_inputs = no_inputs;
  requests = [];
}

abbrev schedulers : List Scheduler
schedulers = scheduler 4 ∷ scheduler 5 ∷ []

-- Scheduler 9 is selected, and not among the schedulers.
fill_scheds-rows_example :
    ((fill_scheds local_date schedulers (page 9)).schedr_selected ≡ 9)
    × ((fill_scheds local_date schedulers (page 9)).schedr_rows
        ≡ row_for local_date 9 (scheduler 5) ∷ row_for local_date 9 (scheduler 4) ∷ [])
fill_scheds-rows_example =
    fill_scheds-rows local_date schedulers (page 9) ((λ e. ground arith), ((λ e. ground arith), tt))
