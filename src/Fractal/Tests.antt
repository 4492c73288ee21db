-- ===== src/Fractal/Tests.antt =====
-- An image of one pixel, drawn by two threads, and the theorems at it.
use c_coding_examples_operat.Common.{
  ℕ, ◌+◌, ◌-◌, ◌*◌, ◌/◌, pos_part, leb, ◌≤◌, ◌≡◌, refl, ltb, if◌then◌else◌, pos, none, some, true,
  List, [], ◌∷◌, arith, update, subst,
}
use c_coding_examples_operat.Common.Run.{Run, ok, Returns}
use c_coding_examples_operat.Bitmap.{
  Bitmap, wrap_down, wrap_up, wrap, cell_index, set_cell, bitmap_set,
}
use c_coding_examples_operat.Fractal.Draw.{
  Coloring, set_color, set_pixel, compute_image, Cursor, draw,
}
use c_coding_examples_operat.Fractal.Draw.Serial.{Complete}
use c_coding_examples_operat.Fractal.Bands.{Floats, y_start, y_end}
use c_coding_examples_operat.Fractal.Threads.{Threads, create_threads, Step, pick, Reach, start}
use c_coding_examples_operat.Fractal.Threads.Termination.{Steps, total, threads_terminate}
use c_coding_examples_operat.Fractal.Tasks.{
  add_tasks, Pc, testing, locking, inside, taken, drawing, last_test, returned, cursor_of, go, Task,
  System, Move, enter, leave, lock, give_up, dequeue, unlock, paint, done, main_start,
}
use c_coding_examples_operat.Fractal.Tasks
use c_coding_examples_operat.Fractal.Threads
use c_coding_examples_operat.Fractal.Tasks.Deadlock.{Lost, Steps-Joined}
use c_coding_examples_operat.Fractal.Color.{Doubles, compute_point, view_of, coloring}
use c_coding_examples_operat.Fractal.Color.Gray.{fractal_image-Complete}
use c_coding_examples_operat.Fractal.Main.{
  Saving, saves, Settings, default_settings, set_option, set_options, main,
}
use c_coding_examples_operat.Fractal.Main.Saved.{Saved, main-Saved}
use c_coding_examples_operat.Fractal.Equivalence.{SameImage, threads-SameImage, tasks-SameImage}

abbrev red : Coloring
red i j = some (pos 7)

abbrev exactly : Floats
exactly = record { round = λ n. n; exact = λ n h. refl }

abbrev dot : Bitmap
dot = record { width = 1; height = 1; cells = λ _. pos 0 }

abbrev painted : Bitmap
painted = record dot { cells = update dot.cells 0 (pos 7) }

abbrev cursor_0 : Cursor
cursor_0 = record { column = 0; row = 0; stop = 1 }

abbrev cursor_1 : Cursor
cursor_1 = record { column = 1; row = 0; stop = 1 }

abbrev cursor_2 : Cursor
cursor_2 = record { column = 0; row = 1; stop = 1 }

draw_0 : draw red cursor_0 dot ≡ ok (some cursor_1) painted
unfolding draw set_pixel set_color bitmap_set set_cell cell_index wrap wrap_down wrap_up
draw_0 = refl

draw_1 : draw red cursor_1 painted ≡ ok (some cursor_2) painted
unfolding draw
draw_1 = refl

draw_2 : draw red cursor_2 painted ≡ ok none painted
unfolding draw
draw_2 = refl

-- Thread 0 has no rows, thread 1 has one.
first_threads : Threads
first_threads = create_threads exactly 2 dot

idle_band : draw red (record { column = 0; row = 0; stop = 0 }) dot ≡ ok none dot
unfolding draw
idle_band = refl

abbrev after_threads : Threads
after_threads = record {
  image = painted;
  cursor =
      update
        (update (update (update (create_threads exactly 2 dot).cursor 0 none) 1 (some cursor_1)) 1
          (some cursor_2))
        1 none;
}

after_threads-Reach : Reach red exactly 2 dot after_threads
unfolding y_start y_end
after_threads-Reach =
    Threads.later
      (Threads.later
        (Threads.later
          (Threads.later start
            (pick 0 (record { column = 0; row = 0; stop = 0 }) none dot refl idle_band))
          (pick 1 cursor_0 (some cursor_1) painted refl draw_0))
        (pick 1 cursor_1 (some cursor_2) painted refl draw_1))
      (pick 1 cursor_2 none painted refl draw_2)

threads-SameImage_example : Returns (λ _ t. SameImage dot t painted) (compute_image red dot)
threads-SameImage_example =
    threads-SameImage red exactly 2 dot after_threads (omega arith) (omega arith) (omega arith)
      (λ x y a b e. cc) after_threads-Reach (λ i. ground arith)

threads_terminate_example :
    ((n : ℕ) (t : Threads) → Steps red after_threads n t → n ≤ total 1 2 after_threads.cursor)
    × ((i : ℕ) (c : Cursor)
        → after_threads.cursor i ≡ some c
        → (t : Threads) × Step red after_threads t)
threads_terminate_example =
    threads_terminate red exactly 2 dot after_threads (omega arith) (omega arith) (omega arith)
      (λ x y a b e. cc) after_threads-Reach

-- One task.
abbrev task : Task
task = record { first_row = 0; end_row = 1 }

abbrev begin : ℕ → System
begin threads = record {
  tasks = task ∷ [];
  task_num = 1;
  holder = none;
  image = dot;
  pc = λ i. if ltb i threads then testing else returned;
}

begin-main_start : (threads : ℕ) → begin threads ≡ main_start exactly 1 threads dot
unfolding add_tasks y_start y_end
begin-main_start threads = refl

-- Thread 0 draws the task, and thread 1 comes when the list is empty.
abbrev all_drawn : System
all_drawn =
    go
      (go
        (record (go
          (record (go
            (record (go
              (record (go
                (record (go (record (go (go (begin 2) 0 locking) 0 inside) { holder = some 0 }) 0
                  (taken task)) { tasks = []; task_num = 2 })
                0 (drawing cursor_0)) { holder = none })
              0 (drawing cursor_1)) { image = painted })
            0 (drawing cursor_2)) { image = painted })
          0 last_test) { image = painted })
        0 returned)
      1 returned

all_drawn-Steps : Tasks.Steps red (begin 2) all_drawn
all_drawn-Steps =
    Tasks.later 1
      (Tasks.later 0
        (Tasks.later 0
          (Tasks.later 0
            (Tasks.later 0
              (Tasks.later 0
                (Tasks.later 0
                  (Tasks.later 0 (Tasks.later 0 Tasks.stay (enter refl (λ e. cc))) (lock refl refl))
                  (dequeue task [] refl refl))
                (unlock task refl))
              (paint cursor_0 (some cursor_1) painted refl draw_0))
            (paint cursor_1 (some cursor_2) painted refl draw_1))
          (paint cursor_2 none painted refl draw_2))
        (done refl refl))
      (leave refl refl)

tasks-SameImage_example : Returns (λ _ t. SameImage dot t painted) (compute_image red dot)
tasks-SameImage_example =
    tasks-SameImage red exactly 1 2 dot all_drawn (omega arith) (omega arith) (omega arith)
      (omega arith) (λ x y a b e. cc)
      (subst (λ s. Tasks.Steps red s all_drawn) (begin-main_start 2) all_drawn-Steps)
      (λ i. ground arith)

-- Three threads come to the mutex. Thread 0 takes the only task, thread 1 comes under the mutex, and
-- thread 2 waits.
abbrev waiting : System
waiting =
    (record (go
      (record (go
        (record (go
          (record (go (go (go (go (begin 3) 0 locking) 1 locking) 2 locking) 0 inside) {
            holder = some 0;
          })
          0 (taken task)) { tasks = []; task_num = 2 })
        0 (drawing cursor_0)) { holder = none })
      1 inside) { holder = some 1 })

-- Thread 1 returns with the mutex.
abbrev stuck : System
stuck = go waiting 1 returned

waiting-Steps : Tasks.Steps red (begin 3) waiting
waiting-Steps =
    (Tasks.later 1
      (Tasks.later 0
        (Tasks.later 0
          (Tasks.later 0
            (Tasks.later 2
              (Tasks.later 1 (Tasks.later 0 Tasks.stay (enter refl (λ e. cc)))
                (enter refl (λ e. cc)))
              (enter refl (λ e. cc)))
            (lock refl refl))
          (dequeue task [] refl refl))
        (unlock task refl))
      (lock refl refl))

abbrev still_stuck : System
still_stuck = record (go stuck 0 (drawing cursor_1)) { image = painted }

Steps-Joined_example : Lost 1 2 still_stuck × (¬ Tasks.Joined still_stuck)
Steps-Joined_example =
    Steps-Joined red exactly 1 3 dot 1 2 waiting stuck still_stuck
      (subst (λ s. Tasks.Steps red s waiting) (begin-main_start 3) waiting-Steps) refl refl refl
      (give_up refl refl)
      (Tasks.later 0 Tasks.stay (paint cursor_0 (some cursor_1) painted refl draw_0))

-- Natural numbers in place of doubles.
abbrev naturals : Doubles
naturals = record {
  Real = ℕ;
  Complex = ℕ × ℕ;
  of_int = pos_part;
  add = ◌+◌;
  sub = ◌-◌;
  mul = ◌*◌;
  div = ◌/◌;
  lt = ltb;
  le = leb;
  complex = λ x y. (x, y);
  csub = λ z w. (z.0 - w.0, z.1 - w.1);
  cmul = λ z w. (z.0 * w.0 - z.1 * w.1, z.0 * w.1 + z.1 * w.0);
  cdiv = λ z w. (z.0 / w.0, z.1 / w.0);
  cpow = λ z w. (z.0 * z.0 - z.1 * z.1, 2 * z.0 * z.1);
  cabs = λ z. z.0 + z.1;
  to_int = λ z. some (pos z.0);
}

fractal_image-Complete_example :
    Returns
      (λ _ t.
        Complete
          (coloring naturals (compute_point naturals) (view_of naturals 0 0 4 (pos 100)) 1 1)
          dot
          t)
      (compute_image
        (coloring naturals (compute_point naturals) (view_of naturals 0 0 4 (pos 100)) 1 1)
        dot)
fractal_image-Complete_example =
    fractal_image-Complete naturals (view_of naturals 0 0 4 (pos 100)) 100 dot refl (omega arith)
      (omega arith)

-- fractal -W 8 -H 8 -o a
abbrev arguments : List (ℕ × List ℕ)
arguments = (b'W', b'8' ∷ []) ∷ (b'H', b'8' ∷ []) ∷ (b'o', b'a' ∷ []) ∷ []

abbrev eight : Settings naturals
eight = record (default_settings naturals) {
  outfile = b'a' ∷ [];
  image_width = pos 8;
  image_height = pos 8;
}

eight-set_options :
    set_options naturals (λ _. 1) (λ _. pos 8) arguments (default_settings naturals) ≡ some eight
unfolding set_options set_option
eight-set_options = refl

main-Saved_example :
    (r : Run Bitmap Saving) × (main naturals
        (λ _. 1)
        (λ _. pos 8)
        true
        (λ _. true)
        (λ _. pos 0)
        arguments
      ≡ saves (b'a' ∷ []) r)
    × Returns
        (λ out _.
          Saved naturals
            (view_of naturals 0 0 4 (pos 100))
            8
            8
            (λ _. 0)
            (λ _. true)
            (λ _. pos 0)
            out)
        r
main-Saved_example =
    main-Saved naturals (λ _. 1) (λ _. pos 8) arguments eight 8 8 100 (λ _. 0) (λ _. true)
      (λ _. pos 0) eight-set_options refl refl refl (omega arith) (omega arith) refl (omega arith)
      (omega arith) (omega arith) refl refl
