-- ===== src/Fractal/Tasks.antt =====
-- "03. Parallel Programming/fractaltask.c": threads take tasks, which are bands of the image, from a
-- list under a mutex. The threads take their steps in any order.
pub mod Invariant
pub mod Finished
pub mod Deadlock
use c_coding_examples_operat.Common.{
  ℕ, zero, suc, ◌+◌, ◌≡◌, ◌≢◌, Option, none, some, List, [], ◌∷◌, update, ltb, if◌then◌else◌,
}
use c_coding_examples_operat.Common.Run.{Run, ok}
use c_coding_examples_operat.Bitmap.{Bitmap}
use c_coding_examples_operat.Fractal.Draw.{Coloring, Cursor, draw}
use c_coding_examples_operat.Fractal.Bands.{Floats, y_start, y_end}

-- The rows of a task. The bitmap, the coordinates and `max` are the same in all tasks: they are in
-- the coloring.
pub record Task : Type 0 where
  pub first_row : ℕ
  pub end_row : ℕ

abbrev pub task_create : ℕ → ℕ → Task
task_create first_row end_row = record { first_row = first_row; end_row = end_row }

-- The loop of main that puts each new task before the others: the rounds left, and `i`.
unfoldable pub add_tasks : Floats → ℕ → ℕ → ℕ → ℕ → List Task → List Task
add_tasks fl height count zero i head = head
add_tasks fl height count (suc k) i head =
    add_tasks fl height count k (i + 1)
      (task_create (y_start fl height count i) (y_end fl height count i) ∷ head)

-- Where a thread is in compute_image, with what its local variables hold there.
pub data Pc : Type 0 where
  testing : Pc  -- at the test of the loop
  locking : Pc  -- before pthread_mutex_lock
  inside : Pc  -- at the first test under the mutex
  taken : Task → Pc  -- before pthread_mutex_unlock
  drawing : Cursor → Pc
  last_test : Pc  -- after free
  returned : Pc

abbrev pub cursor_of : Task → Cursor
cursor_of t = record { column = 0; row = t.first_row; stop = t.end_row }

-- The list, TASK_NUM, the thread that holds the mutex, the image and the threads.
pub record System : Type 0 where
  pub tasks : List Task
  pub task_num : ℕ
  pub holder : Option ℕ
  pub image : Bitmap
  pub pc : ℕ → Pc

abbrev pub go : System → ℕ → Pc → System
go s i p = record s { pc = update s.pc i p }

abbrev pub after_draw : Option Cursor → Pc
after_draw none = last_test
after_draw (some c) = drawing c

-- One step of thread `i`. The test under the mutex and the removal of the task are one step, since
-- only the holder of the mutex changes the list. A thread that finds the list empty under the mutex
-- returns, and does not unlock it.
pub data Move (color : Coloring) (s : System) (i : ℕ) : System → Type 0 where
  enter : s.pc i ≡ testing → s.tasks ≢ [] → Move color s i (go s i locking)
  leave : s.pc i ≡ testing → s.tasks ≡ [] → Move color s i (go s i returned)
  lock :
      s.pc i ≡ locking
      → s.holder ≡ none
      → Move color s i (record (go s i inside) { holder = some i })
  give_up : s.pc i ≡ inside → s.tasks ≡ [] → Move color s i (go s i returned)
  dequeue :
      (t : Task) (ts : List Task)
      → s.pc i ≡ inside
      → s.tasks ≡ t ∷ ts
      → Move color s i (record (go s i (taken t)) { tasks = ts; task_num = s.task_num + 1 })
  unlock :
      (t : Task)
      → s.pc i ≡ taken t
      → Move color s i (record (go s i (drawing (cursor_of t))) { holder = none })
  paint :
      (c : Cursor) (o : Option Cursor) (m : Bitmap)
      → s.pc i ≡ drawing c
      → draw color c s.image ≡ ok o m
      → Move color s i (record (go s i (after_draw o)) { image = m })
  again : s.pc i ≡ last_test → s.tasks ≢ [] → Move color s i (go s i testing)
  done : s.pc i ≡ last_test → s.tasks ≡ [] → Move color s i (go s i returned)

-- main has made the tasks and created the threads below `threads`.
abbrev pub main_start : Floats → ℕ → ℕ → Bitmap → System
main_start fl count threads m = record {
  tasks = add_tasks fl m.height count count 0 [];
  task_num = 1;
  holder = none;
  image = m;
  pc = λ i. if ltb i threads then testing else returned;
}

pub data Steps (color : Coloring) : System → System → Type 0 where
  stay : {s : System} → Steps color s s
  later : {s t u : System} (i : ℕ) → Steps color s t → Move color t i u → Steps color s u

-- main comes behind its loop of pthread_join: each thread has returned, as those that main has not
-- created have from the start.
abbrev pub Joined : System → Type 0
Joined s = (i : ℕ) → s.pc i ≡ returned
