-- ===== src/Processes/Scheduler.antt =====
-- The loop of the scheduler over the table.
pub mod Starts
use xesual.Base.{ℕ, List, zero, suc, ◌<◌, ◌≡◌, refl, false, lt→ltb}
use xesual.Machine.{Machine, out_of_fuel, Cmd}
use xesual.Console.{LogLine}
use xesual.Processes.{process_count, is_runnable, schedule_loop}

-- At an entry that is not runnable the loop turns for ever, whatever the fuel and whatever the other
-- entries are: its step does not lead to the next entry.
pub schedule_loop-stuck :
    (printed : LogLine → List ℕ) (pause : Cmd (Unit {0})) (fuel i p : ℕ) (m : Machine)
    → p < process_count
    → is_runnable (m.processes p).state ≡ false
    → schedule_loop printed pause fuel i p m ≡ out_of_fuel
unfolding schedule_loop
schedule_loop-stuck printed pause zero i p m h e = refl
schedule_loop-stuck printed pause (suc fuel) i p m h e =
    rw (lt→ltb p process_count h, e) (schedule_loop-stuck printed pause fuel i p m h e)
