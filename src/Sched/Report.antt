-- ===== src/Sched/Report.antt =====
-- The printing helpers. The summary's floating-point figures are left out.
use cs.Base.{ℕ, zero, suc, ◌+◌, ◌-◌, ◌%◌, List, [], ◌∷◌, ◌++◌, Text, codes, length, signed_decimal}
use cs.Sched.{u32, Process}

-- `" ( %i %i %i %i)"` for each process.
unfoldable pub four_numbers : Text → Process → Text
four_numbers between p =
    signed_decimal p.a
    ++ (between
        ++ (signed_decimal p.b
            ++ (between ++ (signed_decimal p.c ++ (between ++ signed_decimal p.m)))))

unfoldable pub bracketed : List Process → Text
unfolding four_numbers
bracketed [] = []
bracketed (p ∷ ps) = codes " ( " ++ (four_numbers (codes " ") p ++ (codes ")" ++ bracketed ps))

unfoldable pub print_start : List Process → Text
unfolding bracketed
print_start ps =
    codes "The original input was: " ++ (signed_decimal (length ps) ++ (bracketed ps ++ codes "\n"))

-- The processes up to the number that the loop of printFinal counts to.
unfoldable pub first_of : ℕ → List Process → List Process
first_of zero ps = []
first_of (suc n) [] = []
first_of (suc n) (p ∷ ps) = p ∷ first_of n ps

unfoldable pub print_final : ℕ → List Process → Text
unfolding bracketed first_of
print_final finished ps =
    codes "The (sorted) input is: "
    ++ (signed_decimal (length ps) ++ (bracketed (first_of finished ps) ++ codes "\n"))

unfoldable pub specifics : Process → Text
unfolding four_numbers
specifics p =
    codes "Process "
    ++ (signed_decimal p.process_id
        ++ (codes ":\n\t(A,B,C,M) = ("
            ++ (four_numbers (codes ",") p
                ++ (codes ")\n\tFinishing time: "
                    ++ (signed_decimal p.finishing_time
                        ++ (codes "\n\tTurnaround time: "
                            ++ (signed_decimal ((p.finishing_time + u32 - p.a) % u32)
                                ++ (codes "\n\tI/O time: "
                                    ++ (signed_decimal p.current_io_blocked_time
                                        ++ (codes "\n\tWaiting time: "
                                            ++ (signed_decimal p.current_waiting_time
                                                ++ codes "\n\n")))))))))))

unfoldable pub all_specifics : List Process → Text
unfolding specifics
all_specifics [] = []
all_specifics (p ∷ ps) = specifics p ++ all_specifics ps

unfoldable pub print_process_specifics : List Process → Text
unfolding all_specifics
print_process_specifics ps = codes "\n" ++ all_specifics ps
