-- ===== src/Tests/TimerWheel.antt =====
-- Runs of the timer wheel.
use zls.Base.{◌≡◌, refl, true, false, none, some, [], ◌∷◌, if◌then◌else◌, leb, arith}
use zls.Base.Tables.{row_of, put_row, remove_row}
use zls.Net.TimerWheel.{
  TimerWheel, new_wheel, add_timer, at_least_one, insert_entry, push_back, tick, run_bucket,
  add_again, set_bucket, cancel_timer, cancel_found, cancel_in,
}
use zls.Net.TimerWheel.Live.{is_live, has}
use zls.Net.TimerWheel.Due.{
  IsNumbered, second, adding, ticks, first_run, ticks_until_run, first_run-add_timer,
}

abbrev wheel : TimerWheel
wheel = new_wheel 3

wheel-IsNumbered : IsNumbered wheel
unfolding new_wheel is_live
wheel-IsNumbered = record { current_is = omega arith; quiet = λ slot. refl }

first_run-add_timer_example :
    first_run wheel.next_timer_id 0
      (second ∷ adding 1 true ∷ second ∷ [])
      (add_timer 2 false wheel).1
    ≡ (if leb (ticks_until_run 2 wheel.wheel_size) (ticks (second ∷ adding 1 true ∷ second ∷ []))
        then some (ticks_until_run 2 wheel.wheel_size)
        else none)
first_run-add_timer_example =
    first_run-add_timer 2 false (second ∷ adding 1 true ∷ second ∷ []) wheel wheel-IsNumbered

-- A delay of 5 seconds on a wheel of 3 slots is over after 2.
long_delay : first_run 1 0 (second ∷ second ∷ []) (add_timer 5 false wheel).1 ≡ some 2
unfolding first_run has new_wheel add_timer at_least_one insert_entry push_back tick run_bucket
    add_again set_bucket
long_delay = refl

-- A cancelled timer is not run.
cancelled_timer :
    first_run 1 0 (second ∷ second ∷ []) (cancel_timer 1 (add_timer 2 false wheel).1) ≡ none
unfolding first_run has new_wheel add_timer at_least_one insert_entry push_back tick run_bucket
    add_again set_bucket cancel_timer cancel_found cancel_in row_of put_row remove_row
cancelled_timer = refl
