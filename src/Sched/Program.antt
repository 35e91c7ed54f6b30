-- ===== src/Sched/Program.antt =====
-- main of scheduler.c as a whole: the input, the three algorithms, and what is printed.
pub mod Theorems
pub mod Tests
use cs.Base.{ℕ, Option, some, List, ◌++◌, Text, codes}
use cs.Sched.{Process, Sim, ◌>>=◌}
use cs.Sched.Input.{read_input}
use cs.Sched.Rounds.{Reports, main}
use cs.Sched.Fcfs.Result.{init}
use cs.Sched.Report.{print_start, print_final, print_process_specifics}
use cs.Sched.Summary.{Double, print_summary_data}

-- TOTAL_FINISHED_PROCESSES, which nothing counts up.
abbrev pub total_finished_processes : ℕ
total_finished_processes = 0

-- The report behind a loop, between its two lines.
unfoldable pub report {ℓ} : (W : Type ℓ) ⦃d : Double W⦄ → Text → Text → Sim → Text
report W opening closing s =
    opening
    ++ (print_start s.process_list
        ++ (print_final total_finished_processes s.process_list
            ++ (print_process_specifics s.process_list ++ (print_summary_data W s ++ closing))))

unfoldable pub report_fcfs {ℓ} : (W : Type ℓ) ⦃d : Double W⦄ → Sim → Text
unfolding report
report_fcfs W s =
    report W
      (codes
        "######################### START OF FIRST COME FIRST SERVE #########################\n")
      (codes "######################### END OF FIRST COME FIRST SERVE #########################\n")
      s

unfoldable pub report_sjf {ℓ} : (W : Type ℓ) ⦃d : Double W⦄ → Sim → Text
unfolding report
report_sjf W s =
    report W
      (codes "######################### START OF SHORTEST JOB FIRST #########################\n")
      (codes "######################### END OF SHORST JOB FIRST #########################\n") s

unfoldable pub report_rr {ℓ} : (W : Type ℓ) ⦃d : Double W⦄ → Sim → Text
unfolding report
report_rr W s =
    report W
      (codes
        "######################### START OF FIRST COME ROUND ROBIN #########################\n")
      (codes "######################### END OF FIRST COME ROUND ROBIN #########################\n")
      s

unfoldable pub print_reports {ℓ} : (W : Type ℓ) ⦃d : Double W⦄ → Reports → Text
unfolding report_fcfs report_sjf report_rr
print_reports W r =
    report_fcfs W r.first_come ++ (report_sjf W r.shortest ++ report_rr W r.round_robin)

-- From the numbers of the file random-numbers and the first line of the input, where both are
-- there, to the output.
unfoldable pub run_program {ℓ} : (W : Type ℓ) ⦃d : Double W⦄ → ℕ → List ℕ → Text → Option Text
unfolding read_input main init print_reports
run_program W fuel random line = do
  ps ← read_input random line
  r ← main fuel random (init ps)
  some (print_reports W r)
