-- ===== src/Net/TimerWheel.antt =====
-- src/net/epoll/timer_wheel.h and timer_wheel.cpp, `TimerWheel`. A `shared_ptr` to an entry lies in one
-- bucket at a time, so a bucket is a list of entries; `serial` tells the objects apart, and
-- `timer_map_` keeps the serial of an identifier's entry. A callback is the report that it is run;
-- callbacks that call the wheel are left out. A delay of zero stands for all that are not positive.
pub mod Live
pub mod Due
use zls.Base.{
  ℕ, zero, suc, ◌+◌, ◌%◌, Bool, true, false, not, ◌&&◌, ◌||◌, Option, none, some, List, [], ◌∷◌,
  ◌++◌, if◌then◌else◌, ◌==◌, ltb,
}
use zls.Base.Tables.{Table, nat_key, row_of, put_row, remove_row}

pub record TimerEntry : Type 0 where
  pub serial : ℕ
  pub id : ℕ
  pub interval : ℕ
  pub repeats : Bool
  pub cancelled : Bool

abbrev pub Bucket : Type 0
Bucket = List TimerEntry

-- `wheel` gives the bucket of each slot below `wheel_size`.
pub record TimerWheel : Type 0 where
  pub wheel_size : ℕ
  pub current_slot : ℕ
  pub wheel : ℕ → Bucket
  pub timer_map : Table ℕ ℕ
  pub next_timer_id : ℕ
  pub next_serial : ℕ

unfoldable pub new_wheel : ℕ → TimerWheel
new_wheel size = record {
  wheel_size = size;
  current_slot = 0;
  wheel = λ slot. [];
  timer_map = [];
  next_timer_id = 1;
  next_serial = 0;
}

unfoldable pub push_back : ℕ → TimerEntry → (ℕ → Bucket) → ℕ → Bucket
push_back target e wheel slot = if slot == target then wheel slot ++ (e ∷ []) else wheel slot

unfoldable pub set_bucket : ℕ → Bucket → (ℕ → Bucket) → ℕ → Bucket
set_bucket target b wheel slot = if slot == target then b else wheel slot

unfoldable pub at_least_one : ℕ → ℕ
at_least_one delay = if delay == 0 then 1 else delay

-- A new entry in the bucket that lies its interval ahead.
unfoldable pub insert_entry : TimerEntry → TimerWheel → TimerWheel
insert_entry e w = record w {
  wheel = push_back ((w.current_slot + e.interval) % w.wheel_size) e w.wheel;
  timer_map = put_row e.id e.serial w.timer_map;
  next_serial = w.next_serial + 1;
}

unfoldable pub add_timer : ℕ → Bool → TimerWheel → ℕ × TimerWheel
add_timer delay repeats w =
    let e : TimerEntry = record {
      serial = w.next_serial;
      id = w.next_timer_id;
      interval = at_least_one delay;
      repeats = repeats;
      cancelled = false;
    } in
    (w.next_timer_id, insert_entry e (record w { next_timer_id = w.next_timer_id + 1 }))

-- `entry->cancelled = true` for the entry with a serial.
unfoldable pub cancel_in : ℕ → Bucket → Bucket
cancel_in serial [] = []
cancel_in serial (e ∷ es) =
    (if e.serial == serial then record e { cancelled = true } else e) ∷ cancel_in serial es

unfoldable pub cancel_found : ℕ → Option ℕ → TimerWheel → TimerWheel
cancel_found id none w = w
cancel_found id (some serial) w = record w {
  wheel = λ slot. cancel_in serial (w.wheel slot);
  timer_map = remove_row id w.timer_map;
}

unfoldable pub cancel_timer : ℕ → TimerWheel → TimerWheel
cancel_timer id w = cancel_found id (row_of id w.timer_map) w

-- `it->second.lock()`: the entry with a serial, searched in the slots below `n`.
unfoldable pub find_in : ℕ → Bucket → Option TimerEntry
find_in serial [] = none
find_in serial (e ∷ es) = if e.serial == serial then some e else find_in serial es

unfoldable pub or_else : Option TimerEntry → Option TimerEntry → Option TimerEntry
or_else (some e) o = some e
or_else none o = o

unfoldable pub lock : ℕ → ℕ → (ℕ → Bucket) → Option TimerEntry
lock serial zero wheel = none
lock serial (suc n) wheel = or_else (find_in serial (wheel n)) (lock serial n wheel)

unfoldable pub refresh_entry : ℕ → Option TimerEntry → TimerWheel → TimerWheel
refresh_entry delay none w = w
refresh_entry delay (some e) w =
    if e.cancelled
    then w
    else insert_entry
        (record e { serial = w.next_serial; interval = if ltb 0 delay then delay else e.interval })
        (record w { wheel = λ slot. cancel_in e.serial (w.wheel slot) })

unfoldable pub refresh_found : ℕ → Option ℕ → TimerWheel → TimerWheel
refresh_found delay none w = w
refresh_found delay (some serial) w = refresh_entry delay (lock serial w.wheel_size w.wheel) w

unfoldable pub refresh_timer : ℕ → ℕ → TimerWheel → TimerWheel
refresh_timer id delay w = refresh_found delay (row_of id w.timer_map) w

-- The loop of `Tick` over a bucket: the timers that are run, the entries to add again, and the map.
unfoldable pub run_bucket : Bucket → Table ℕ ℕ → List ℕ × (Bucket × Table ℕ ℕ)
run_bucket [] timers = ([], ([], timers))
run_bucket (e ∷ es) timers =
    if e.cancelled
    then run_bucket es timers
    else (let (fired, (again, rest)) =
          run_bucket es (if e.repeats then timers else remove_row e.id timers) in
        (e.id ∷ fired, (if e.repeats then e ∷ again else again, rest)))

unfoldable pub add_again : ℕ → ℕ → Bucket → (ℕ → Bucket) → ℕ → Bucket
add_again current size [] wheel = wheel
add_again current size (e ∷ es) wheel =
    add_again current size es (push_back ((current + e.interval) % size) e wheel)

-- `Tick`: the timers that are run, and the wheel.
unfoldable pub tick : TimerWheel → List ℕ × TimerWheel
tick w =
    let current = (w.current_slot + 1) % w.wheel_size in
    let (fired, (again, timers)) = run_bucket (w.wheel current) w.timer_map in
    (
      fired,
      record w {
        current_slot = current;
        wheel = add_again current w.wheel_size again (set_bucket current [] w.wheel);
        timer_map = timers;
      },
    )
