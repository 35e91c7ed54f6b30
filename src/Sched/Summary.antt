-- ===== src/Sched/Summary.antt =====
-- printSummaryData of scheduler.c. What it does with numbers of type `double` is a parameter.
pub mod Sums
use cs.Base.{ℕ, ◌+◌, ◌-◌, ◌%◌, List, [], ◌∷◌, ◌++◌, Text, codes, length, signed_decimal}
use cs.Sched.{u32, dec, Process, Sim}

-- The value of a `uint32_t`, the operators, and the text for `%6f`.
pub record Double {ℓ} (W : Type ℓ) : Type ℓ where
  pub of : ℕ → W
  pub add : W → W → W
  pub mul : W → W → W
  pub div : W → W → W
  pub fixed : W → Text

abbrev pub turnaround : Process → ℕ
turnaround p = (p.finishing_time + u32 - p.a) % u32

-- The loop that adds a field of every process up, from `sum` on.
unfoldable pub total_from {ℓ} : {W : Type ℓ} ⦃d : Double W⦄ → (Process → ℕ) → W → List Process → W
total_from field sum [] = sum
total_from ⦃d⦄ field sum (p ∷ ps) = total_from field (d.add sum (d.of (field p))) ps

pub record Summary {ℓ} (W : Type ℓ) : Type ℓ where
  pub cpu_util : W
  pub io_util : W
  pub throughput : W
  pub avg_turnaround_time : W
  pub avg_waiting_time : W

unfoldable pub summary {ℓ} : {W : Type ℓ} ⦃d : Double W⦄ → Sim → Summary W
unfolding total_from
summary ⦃d⦄ s = record {
  cpu_util =
      d.div (total_from (λ p. p.current_cpu_time_run) (d.of 0) s.process_list)
        (d.of (dec s.current_cycle));
  io_util = d.div (d.of s.cycles_blocked) (d.of (dec s.current_cycle));
  throughput = d.mul (d.of 100) (d.div (d.of (length s.process_list)) (d.of (dec s.current_cycle)));
  avg_turnaround_time =
      d.div (total_from turnaround (d.of 0) s.process_list) (d.of (length s.process_list));
  avg_waiting_time =
      d.div (total_from (λ p. p.current_waiting_time) (d.of 0) s.process_list)
        (d.of (length s.process_list));
}

unfoldable pub summary_text {ℓ} : {W : Type ℓ} ⦃d : Double W⦄ → ℕ → Summary W → Text
summary_text ⦃d⦄ finishing_time f =
    codes "Summary Data:\n\tFinishing time: "
    ++ (signed_decimal finishing_time
        ++ (codes "\n\tCPU Utilisation: "
            ++ (d.fixed f.cpu_util
                ++ (codes "\n\tI/O Utilisation: "
                    ++ (d.fixed f.io_util
                        ++ (codes "\n\tThroughput: "
                            ++ (d.fixed f.throughput
                                ++ (codes
                                      " processes per hundred cycles\n\tAverage turnaround time: "
                                    ++ (d.fixed f.avg_turnaround_time
                                        ++ (codes "\n\tAverage waiting time: "
                                            ++ (d.fixed f.avg_waiting_time ++ codes "\n")))))))))))

unfoldable pub print_summary_data {ℓ} : (W : Type ℓ) ⦃d : Double W⦄ → Sim → Text
unfolding summary summary_text
print_summary_data W s = summary_text (dec s.current_cycle) (summary {W = W} s)
