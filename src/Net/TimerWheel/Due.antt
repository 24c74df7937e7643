-- ===== src/Net/TimerWheel/Due.antt =====
-- When a timer is run.
use zls.Base.{
  ℕ, suc, ◌+◌, ◌-◌, ◌%◌, ◌≡◌, ◌≤◌, ◌<◌, inl, inr, refl, sym, ap, subst, ◌∙◌, Bool, true, false,
  Option, none, some, List, [], ◌∷◌, if◌then◌else◌, if-cases, Bool-cases, ◌==◌, ==_iff, leb, arith,
}
use native.Mathlib.Nat.{mod-lt, add-mod-mod}
use zls.Base.Tables.{nat_key}
use zls.Net.TimerWheel.{
  TimerEntry, Bucket, TimerWheel, push_back, at_least_one, insert_entry, add_timer, tick,
}
use zls.Net.TimerWheel.Live.{
  is_live, has, slots_differ, is_live-append, is_live-push_back, IsScheduled, has-tick,
  IsScheduled-tick,
}

-- A second passes, or another timer is added.
pub data Event : Type 0 where
  second : Event
  adding : ℕ → Bool → Event

unfoldable pub ticks : List Event → ℕ
ticks [] = 0
ticks (second ∷ evs) = suc (ticks evs)
ticks (adding d r ∷ evs) = ticks evs

-- The tick that runs the timer first; `n` ticks have gone by.
unfoldable pub first_run : ℕ → ℕ → List Event → TimerWheel → Option ℕ
first_run id n [] w = none
first_run id n (adding d r ∷ evs) w = first_run id n evs (add_timer d r w).1
first_run id n (second ∷ evs) w =
    let (fired, w') = tick w in
    let later = first_run id (n + 1) evs w' in if has id fired then some (n + 1) else later

IsScheduled-insert_entry :
    (id k : ℕ) (e : TimerEntry) (w : TimerWheel)
    → (e.id == id) ≡ false
    → IsScheduled id k w
    → IsScheduled id k (insert_entry e w)
unfolding insert_entry
IsScheduled-insert_entry id k e w h s = record {
  current_is = s.current_is;
  alone = λ j hj jw.
      is_live-push_back id ((w.current_slot + e.interval) % w.wheel_size) e w.wheel
        ((w.current_slot + j) % w.wheel_size) (ground (arith, h))
      ∙ s.alone j hj jw;
  numbered = s.numbered;
}

IsScheduled-add_timer :
    (id k d : ℕ) (r : Bool) (w : TimerWheel)
    → IsScheduled id k w
    → IsScheduled id k (add_timer d r w).1
unfolding add_timer
IsScheduled-add_timer id k d r w s =
    IsScheduled-insert_entry id k _ (record w { next_timer_id = w.next_timer_id + 1 })
      (ground (arith, s.numbered))
      (record { current_is = s.current_is; alone = s.alone; numbered = omega (arith, s.numbered) })

wheel_size-add_timer :
    (d : ℕ) (r : Bool) (w : TimerWheel) → (add_timer d r w).1.wheel_size ≡ w.wheel_size
unfolding add_timer insert_entry
wheel_size-add_timer d r w = refl

wheel_size-tick : (w : TimerWheel) → (tick w).1.wheel_size ≡ w.wheel_size
unfolding tick
wheel_size-tick w = refl

-- A timer that lies `k` ticks ahead is run by the `k`-th tick, and by none before.
first_run-IsScheduled :
    (id k n : ℕ) (evs : List Event) (w : TimerWheel)
    → IsScheduled id k w
    → 1 ≤ k
    → k ≤ w.wheel_size
    → first_run id n evs w ≡ (if leb k (ticks evs) then some (n + k) else none)
unfolding first_run ticks
first_run-IsScheduled id k n [] w s hk kw = ground (arith, hk)
first_run-IsScheduled id k n (adding d r ∷ evs) w s hk kw =
    first_run-IsScheduled id k n evs (add_timer d r w).1 (IsScheduled-add_timer id k d r w s) hk
      (rw (wheel_size-add_timer d r w) kw)
first_run-IsScheduled id k n (second ∷ evs) w s hk kw =
    by_next (has id (tick w).0) (has-tick id k w s hk kw) λ h2.
      first_run-IsScheduled id (k - 1) (n + 1) evs (tick w).1 (IsScheduled-tick id k w s hk kw h2)
        (omega (arith, h2)) (subst (λ x. k - 1 ≤ x) (sym (wheel_size-tick w)) (omega (arith, kw)))
  where
    by_next :
        (b : Bool)
        → b ≡ (1 == k)
        → (2 ≤ k
            → first_run id (n + 1) evs (tick w).1
              ≡ (if leb (k - 1) (ticks evs) then some (n + 1 + (k - 1)) else none))
        → (if b then some (n + 1) else first_run id (n + 1) evs (tick w).1)
          ≡ (if leb k (suc (ticks evs)) then some (n + k) else none)
    by_next true e rest = let one : k ≡ 1 = ground (arith, e) in rw one (ground arith)
    by_next false e rest =
        let more : 2 ≤ k = ground (arith, e, hk) in rest more ∙ ground (arith, more)

-- No live entry has the next identifier.
pub record IsNumbered (w : TimerWheel) : Type 0 where
  pub current_is : w.current_slot < w.wheel_size
  pub quiet : (slot : ℕ) → is_live w.next_timer_id (w.wheel slot) ≡ false

-- How many ticks after it was added a timer is run.
unfoldable pub ticks_until_run : ℕ → ℕ → ℕ
ticks_until_run delay size = (at_least_one delay - 1) % size + 1

at_least_one-le : (delay : ℕ) → 1 ≤ at_least_one delay
unfolding at_least_one
at_least_one-le delay = ground arith

target_ahead : (c delay n : ℕ) → (c + at_least_one delay) % n ≡ (c + ticks_until_run delay n) % n
unfolding ticks_until_run
target_ahead c delay n =
    let d : ℕ = at_least_one delay in
    ap (λ x. x % n) {x = c + d} {y = c + 1 + (d - 1)} (omega (arith, at_least_one-le delay))
    ∙ sym (add-mod-mod (c + 1) (d - 1) n)
    ∙ ap (λ x. x % n) {x = c + 1 + (d - 1) % n} {y = c + ((d - 1) % n + 1)} (omega arith)

ticks_until_run-bounds :
    (delay n : ℕ) → 1 ≤ n → (1 ≤ ticks_until_run delay n) × (ticks_until_run delay n ≤ n)
unfolding ticks_until_run
ticks_until_run-bounds delay n h = (omega arith, omega (arith, mod-lt (at_least_one delay - 1) h))

IsScheduled-fresh :
    (delay : ℕ) (r : Bool) (w : TimerWheel)
    → IsNumbered w
    → IsScheduled w.next_timer_id (ticks_until_run delay w.wheel_size) (add_timer delay r w).1
unfolding add_timer insert_entry push_back
IsScheduled-fresh delay r w h = record {
  current_is = h.current_is;
  alone = λ j hj jw.
      let k : ℕ = ticks_until_run delay w.wheel_size in
      let slot : ℕ = (w.current_slot + j) % w.wheel_size in
      let e : TimerEntry = record {
        serial = w.next_serial;
        id = w.next_timer_id;
        interval = at_least_one delay;
        repeats = r;
        cancelled = false;
      } in
      if-cases (λ (b : Bucket). is_live w.next_timer_id b ≡ (j == k))
        (slot == (w.current_slot + at_least_one delay) % w.wheel_size)
        (λ same.
          let kb = ticks_until_run-bounds delay w.wheel_size (omega (arith, hj, jw)) in
          let jk : j ≡ k =
            slots_differ w.wheel_size w.current_slot j k h.current_is hj jw kb.0 kb.1
              ((==_iff _ _).0 same ∙ target_ahead w.current_slot delay w.wheel_size) in
          is_live-append w.next_timer_id (w.wheel slot) e ∙ ground (arith, h.quiet slot, jk))
        (λ other. h.quiet slot ∙ elim (Bool-cases (j == k)) [
          | inl found ↦
              let there : slot ≡ (w.current_slot + at_least_one delay) % w.wheel_size =
                ap (λ x. (w.current_slot + x) % w.wheel_size) ((==_iff j k).0 found)
                ∙ sym (target_ahead w.current_slot delay w.wheel_size) in
              absurd (cc (other, (==_iff _ _).1 there))
          | inr not_there ↦ sym not_there
        ]);
  numbered = omega arith;
}

-- A timer that is added to a wheel where no live entry has the next identifier, while seconds pass
-- and other timers are added: it is run first by the tick that comes `(delay - 1) % wheel_size + 1`
-- ticks later, with 1 for a delay of 0, and by none before. For a delay up to the size of the wheel
-- this is the delay, for a longer one it is less.
pub first_run-add_timer :
    (delay : ℕ) (r : Bool) (evs : List Event) (w : TimerWheel)
    → IsNumbered w
    → first_run w.next_timer_id 0 evs (add_timer delay r w).1 ≡ (
        if leb (ticks_until_run delay w.wheel_size) (ticks evs)
        then some (ticks_until_run delay w.wheel_size)
        else none)
first_run-add_timer delay r evs w h =
    let kb = ticks_until_run-bounds delay w.wheel_size (omega (arith, h.current_is)) in
    first_run-IsScheduled w.next_timer_id (ticks_until_run delay w.wheel_size) 0 evs
      (add_timer delay r w).1 (IsScheduled-fresh delay r w h) kb.0
      (subst (λ x. ticks_until_run delay w.wheel_size ≤ x) (sym (wheel_size-add_timer delay r w))
        kb.1)
    ∙ ap (λ x. if leb (ticks_until_run delay w.wheel_size) (ticks evs) then some x else none)
        {x = 0 + ticks_until_run delay w.wheel_size} {y = ticks_until_run delay w.wheel_size}
        (omega arith)
