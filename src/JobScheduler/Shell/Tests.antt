-- ===== src/JobScheduler/Shell/Tests.antt =====
-- Lines and commands of the shell, with a job that runs.
use c_coding_examples_operat.Common.{
  ◌≡◌, ◌≢◌, refl, true, false, pos, negsuc, none, some, [], ◌∷◌, All,
}
use c_coding_examples_operat.Common.Run.{ok}
use c_coding_examples_operat.JobScheduler.Job.{Word, run, done, Job, Scheduler, new_job}
use c_coding_examples_operat.JobScheduler.Queue.{completed, complete_in, job_complete, set_njobs}
use c_coding_examples_operat.JobScheduler.Shell.{
  ready, exited, drain_walk, jobs_from, find_job, Session, status, background, completes, woken,
  spins, During, begins, goes_on, drain, wait_for,
}
use c_coding_examples_operat.JobScheduler.Shell.Commands.{
  sets_njobs, tokens, store_words, stale_words, same_string, command_of, decimal, skip_spaces,
  number_of, run_command, main_line,
}
use c_coding_examples_operat.JobScheduler.Shell.Drained.{IsDone, SoonReady, drain-IsDone}
use c_coding_examples_operat.JobScheduler.Shell.Waited.{HasDone, wait_for-HasDone}

abbrev command : Word
command = 108 ∷ 115 ∷ []

abbrev running_job : Job
running_job = record (new_job 1 command (command ∷ [])) { state = run; pid = pos 70 }

abbrev one_job : Scheduler
one_job = record {
  jobs = running_job ∷ [];
  njobs = 1;
  jobid = 2;
  outputs = λ _. true;
  top_outputs = λ _. false;
}

abbrev one_done : Scheduler
one_done = record one_job { jobs = completed (pos 0) running_job ∷ [] }

completing : job_complete (pos 70) (pos 0) one_job ≡ ok (pos 0) one_done
unfolding job_complete complete_in
completing = refl

statuses :
    status (running_job ∷ one_done.jobs)
    ≡ (1, run, none, command) ∷ (1, done, some (pos 0), command) ∷ []
unfolding status
statuses = refl

abbrev at_end : Session
at_end = record { scheduler = one_done; place = ready }

draining_over : During (drain one_job) at_end
unfolding drain_walk jobs_from
draining_over =
    goes_on (goes_on begins (background (λ e. cc) (completes (pos 70) (pos 0) completing)))
      (woken 0)

waiting_over : During (wait_for 1 one_job) at_end
unfolding find_job
waiting_over =
    goes_on (goes_on begins (background (λ e. cc) (completes (pos 70) (pos 0) completing)))
      (spins 0)

drain-IsDone_example :
    (at_end.place ≡ ready → All IsDone one_done.jobs)
    × (All IsDone one_done.jobs → SoonReady at_end)
drain-IsDone_example = drain-IsDone one_job at_end draining_over

wait_for-HasDone_example :
    (at_end.place ≡ ready → HasDone 1 one_done.jobs)
    × (at_end.place ≢ exited → All IsDone one_done.jobs → SoonReady at_end)
wait_for-HasDone_example = wait_for-HasDone 1 one_job at_end waiting_over

-- "njobs 3"
abbrev three : Word
three = b'3' ∷ []

three_number : number_of three ≡ pos 3
unfolding number_of decimal skip_spaces
three_number = refl

-- "-1" is the int -1, as is "4294967295".
minus_one_number :
    (number_of (b'-' ∷ b'1' ∷ []) ≡ negsuc 0)
    × (number_of (b'4' ∷ b'2' ∷ b'9' ∷ b'4' ∷ b'9' ∷ b'6' ∷ b'7' ∷ b'2' ∷ b'9' ∷ b'5' ∷ [])
        ≡ negsuc 0)
unfolding number_of decimal skip_spaces
minus_one_number = (refl, refl)

-- A line of blanks between the words, and the cell behind them
two_tokens :
    main_line
      (λ _. command)
      command
      (b' ' ∷ b'n' ∷ b'j' ∷ b'o' ∷ b'b' ∷ b's' ∷ b'\t' ∷ b' ' ∷ b'3' ∷ b'\n' ∷ [])
      (none ∷ none ∷ some command ∷ [])
      one_job
    ≡ ok
        (ready, (some (b'n' ∷ b'j' ∷ b'o' ∷ b'b' ∷ b's' ∷ []) ∷ some three ∷ some command ∷ []))
        (record one_job { njobs = 3 })
unfolding main_line tokens store_words stale_words command_of same_string run_command number_of
    decimal skip_spaces set_njobs
two_tokens = refl

set_three :
    run_command command 2 (some three) (some three ∷ none ∷ []) sets_njobs one_job
    ≡ ok ready (record one_job { njobs = 3 })
unfolding run_command set_njobs number_of decimal skip_spaces
set_three = refl
