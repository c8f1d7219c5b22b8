-- ===== src/Examples/Logger.antt =====
-- service_mylog.c: its theorems at concrete hours.
use mathlib.Core.List.{reverse}
use skynet_slg.Prelude.{◌≡◌, ◌≢◌, refl, arith, [], ◌∷◌, Bool, true, false}
use skynet_slg.Logger.{Hour, file, running, crashed, wrote, log_message, log_all, logger_init}
use skynet_slg.Logger.Hours.{IsFileLogger, file_logger, lines_in_hour, day_ignored, unopened_crash}

abbrev noon : Hour
noon = record { year = 2016; month = 5; day = 1; hour = 12 }

abbrev one : Hour
one = record { year = 2016; month = 5; day = 1; hour = 13 }

abbrev next_noon : Hour
next_noon = record { year = 2016; month = 5; day = 2; hour = 12 }

abbrev all_opens : Hour → Bool
all_opens t = true

abbrev no_opens : Hour → Bool
no_opens t = false

lines_in_hour_example :
    ((logger_init all_opens true noon).1 ≡ 0)
    × IsFileLogger (reverse ((noon, 1 ∷ []) ∷ (one, 2 ∷ []) ∷ [])) (
        log_all all_opens (logger_init all_opens true noon).0 ((noon, 1 ∷ []) ∷ (one, 2 ∷ []) ∷ []))
lines_in_hour_example =
    lines_in_hour all_opens (λ t. refl) noon ((noon, 1 ∷ []) ∷ (one, 2 ∷ []) ∷ [])

day_ignored_example :
    (log_message all_opens (running (file_logger noon) []) next_noon (1 ∷ [])
      ≡ running (file_logger noon) (wrote (file noon) next_noon (1 ∷ []) ∷ []))
    × (file noon ≢ file next_noon)
day_ignored_example = day_ignored all_opens noon next_noon [] (1 ∷ []) refl (omega arith)

unopened_crash_example : log_message no_opens (running (file_logger noon) []) one (1 ∷ []) ≡ crashed
unopened_crash_example = unopened_crash no_opens noon one [] (1 ∷ []) refl (omega arith)
