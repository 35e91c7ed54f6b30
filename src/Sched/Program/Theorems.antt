-- ===== src/Sched/Program/Theorems.antt =====
-- What scheduler.c prints for an input.
use cs.Base.{
  ℕ, suc, ◌+◌, ◌<◌, ◌≤◌, ◌≡◌, refl, sym, ap, ◌∙◌, some, List, [], ◌∷◌, ◌++◌, Text, codes, length,
  arith, signed_decimal, get_elem?,
}
use cs.Sched.{u32, dec, Process, Sim}
use cs.Sched.Input.{read_input, allocated}
use cs.Sched.Reading.{Usable, read_input-Started}
use cs.Sched.Rounds.{reset}
use cs.Sched.Skipped.{main-skips}
use cs.Sched.Fcfs.{work}
use cs.Sched.Fcfs.Result.{AllFresh, IsDone, Completed, init}
use cs.Sched.Report.{print_start, bracketed, four_numbers}
use cs.Sched.Summary.{Double, summary}
use cs.Sched.Summary.Sums.{Exact, sum_of, AllSmall, total_from-of}
use cs.Sched.Keeps.{Numbers, numbers, all_numbers}
use cs.Sched.Keeps.Loops.{main-AllKeep}
use cs.Sched.Program.{report_fcfs, report_sjf, report_rr, print_reports, run_program}

-- The first lines of a report depend on the numbers alone.
four_of : Text → Numbers → Text
four_of between (a, b, c, m, i) =
    signed_decimal a
    ++ (between
        ++ (signed_decimal b ++ (between ++ (signed_decimal c ++ (between ++ signed_decimal m)))))

bracketed_of : List Numbers → Text
bracketed_of [] = []
bracketed_of (n ∷ ns) = codes " ( " ++ (four_of (codes " ") n ++ (codes ")" ++ bracketed_of ns))

bracketed-numbers : (ps : List Process) → bracketed ps ≡ bracketed_of (all_numbers ps)
unfolding bracketed four_numbers bracketed_of four_of
bracketed-numbers [] = refl
bracketed-numbers (p ∷ ps) =
    ap (λ t. codes " ( " ++ (four_numbers (codes " ") p ++ (codes ")" ++ t))) (bracketed-numbers ps)

length-all_numbers : (ps : List Process) → length (all_numbers ps) ≡ length ps
length-all_numbers [] = refl
length-all_numbers (p ∷ ps) = ap suc (length-all_numbers ps)

print_start-numbers :
    (ps qs : List Process) → all_numbers qs ≡ all_numbers ps → print_start qs ≡ print_start ps
unfolding print_start
print_start-numbers ps qs e =
    let size : length qs ≡ length ps =
      sym (length-all_numbers qs) ∙ ap length e ∙ length-all_numbers ps in
    let same : bracketed qs ≡ bracketed ps =
      bracketed-numbers qs ∙ ap bracketed_of e ∙ sym (bracketed-numbers ps) in
    rw (print_start, size, same) refl

-- When all processes are done, their CPU time is what the input asks for.
head_eq : (m n : Numbers) (ms ns : List Numbers) → m ∷ ms ≡ n ∷ ns → (m ≡ n) × (ms ≡ ns)
head_eq m n ms ns e = (cc, cc)

run_total :
    (last i : ℕ) (ps qs : List Process)
    → all_numbers qs ≡ all_numbers ps
    → ((j : ℕ) (q : Process) → get_elem? qs j ≡ some q → IsDone q)
    → AllFresh last i ps
    → AllSmall (λ q. q.current_cpu_time_run) qs
      × (sum_of (λ q. q.current_cpu_time_run) qs ≡ sum_of (λ p. p.c) ps)
run_total last i [] [] e all_done fresh = (tt, refl)
run_total last i [] (q ∷ qs) e all_done fresh = cc
run_total last i (p ∷ ps) [] e all_done fresh = cc
run_total last i (p ∷ ps) (q ∷ qs) e all_done (f, fresh) =
    let (same, rest) = head_eq (numbers q) (numbers p) (all_numbers qs) (all_numbers ps) e in
    let (small, total) =
      run_total last (i + 1) ps qs rest (λ j r at. all_done (suc j) r at) fresh in
    let d = all_done 0 q refl in
    let c : q.c ≡ p.c = ap (λ (n : Numbers). n.2) same in
    ((omega (arith, d.run, c, f.c_lt), small), omega (arith, d.run, c, total))

-- What the program prints, and what stands in it.
pub record Printed {ℓ} (W : Type ℓ) (d : Double W) (cycles fuel : ℕ) (random : List ℕ) (line : Text)
    (ps : List Process) : Type ℓ where
  pub last_state : Sim
  pub run :
      run_program W ⦃d = d⦄ fuel random line
      ≡ some (
          report_fcfs W ⦃d = d⦄ last_state
          ++ (report_sjf W ⦃d = d⦄ (reset last_state) ++ report_rr W ⦃d = d⦄ (reset last_state)))
  pub completed : Completed ps cycles last_state
  pub original : print_start last_state.process_list ≡ print_start ps
  pub cpu_util :
      (summary ⦃d = d⦄ last_state).cpu_util
      ≡ d.div (d.of (sum_of (λ p. p.c) ps)) (d.of (dec last_state.current_cycle))

cpu_util_lem {ℓ} :
    {W : Type ℓ} ⦃d : Double W⦄ (exact : Exact d) (last : ℕ) (ps : List Process) (s : Sim)
    → all_numbers s.process_list ≡ all_numbers ps
    → ((j : ℕ) (q : Process) → get_elem? s.process_list j ≡ some q → IsDone q)
    → AllFresh last 0 ps
    → length s.process_list ≤ allocated
    → (summary s).cpu_util ≡ d.div (d.of (sum_of (λ p. p.c) ps)) (d.of (dec s.current_cycle))
unfolding summary
cpu_util_lem ⦃d⦄ exact last ps s e all_done fresh few =
    let (small, total) = run_total last 0 ps s.process_list e all_done fresh in
    ap (λ w. d.div w (d.of (dec s.current_cycle)))
      (total_from-of exact (λ q. q.current_cpu_time_run) 0 s.process_list small (omega (arith, few))
        ∙ ap d.of (omega (arith, total)))

-- Where the line of the input has processes `ps` that need CPU time and arrive by `last`, the
-- numbers stay below 2^32, the fuel exceeds their CPU time + `last` + 1, and sums of whole numbers
-- up to 2^53 are exact, the program prints the reports of FCFS, SJF and round robin, all of the
-- state that FCFS ends in, the latter two with the blocked cycles at 0. In that state every
-- process is terminated with exactly its CPU time, the processes are printed with the numbers of
-- the input, and the CPU utilisation is the CPU time that the input asks for by the last cycle.
pub run_program-Printed {ℓ} :
    {W : Type ℓ} (d : Double W) (last fuel : ℕ) (random : List ℕ) (line : Text) (ps : List Process)
    → Exact d
    → read_input random line ≡ some ps
    → Usable last ps
    → work ps + last + 2 < u32
    → work ps + last + 1 < fuel
    → Printed W d (work ps + last + 1) fuel random line ps
unfolding run_program print_reports init
run_program-Printed {W = W} d last fuel random line ps exact read usable small enough =
    let (fresh, few) = read_input-Started last random line ps read usable in
    let (s, completed, run) =
      main-skips last fuel random ps fresh (omega (arith, few)) small enough in
    let kept = main-AllKeep fuel random (init ps) _ run in
    record {
      last_state = s;
      run = rw (run_program, read, run) refl;
      completed = completed;
      original = print_start-numbers ps s.process_list kept.first_come;
      cpu_util =
          cpu_util_lem ⦃d = d⦄ exact last ps s kept.first_come completed.all_done fresh
            (omega (arith, few, completed.size));
    }
