-- ===== src/Net/TimerWheel/Live.antt =====
-- Live entries, and how far ahead of the current slot they lie.
use zls.Base.{
  ℕ, ◌+◌, ◌-◌, ◌%◌, ◌≡◌, ◌≤◌, ◌<◌, ◌⊎◌, inl, inr, refl, sym, ap, ◌∙◌, Bool, false, not, ◌&&◌, ◌||◌,
  List, [], ◌∷◌, ◌++◌, if-cases, Bool-cases, ltb→lt, ◌==◌, ==_iff, ltb, arith,
}
use native.Mathlib.Nat.{mod-lt, mod-add-mod, mod-eq_of_lt, mod-eq-sub-mod, add-mod_right}
use zls.Base.Tables.{Table, nat_key, remove_row}
use zls.Net.TimerWheel.{
  TimerEntry, Bucket, TimerWheel, push_back, set_bucket, run_bucket, add_again, tick,
}

-- An entry of the timer that is not cancelled.
unfoldable pub is_live : ℕ → Bucket → Bool
is_live id [] = false
is_live id (e ∷ es) = ((e.id == id) && not e.cancelled) || is_live id es

unfoldable pub has : ℕ → List ℕ → Bool
has id [] = false
has id (i ∷ is) = (i == id) || has id is

pub mod_once : (x n : ℕ) → x < n + n → ((x % n ≡ x) × (x < n)) ⊎ ((x % n + n ≡ x) × (n ≤ x))
mod_once x n h = elim (Bool-cases (ltb x n)) [
  | inl small ↦ inl (mod-eq_of_lt (ltb→lt x n small), ltb→lt x n small)
  | inr big ↦
      let le : n ≤ x = ground arith in
      let less : x - n < n = omega (arith, h, le) in
      inr (omega (arith, le, mod-eq-sub-mod le ∙ mod-eq_of_lt less), le)
]

-- Two slots ahead of the current one, less than a turn apart.
pub slots_differ :
    (n c a b : ℕ) → c < n → 1 ≤ a → a ≤ n → 1 ≤ b → b ≤ n → (c + a) % n ≡ (c + b) % n → a ≡ b
slots_differ n c a b hc ha ka hb kb e = elim (mod_once (c + a) n (omega (arith, hc, ka))) [
  | inl (p, q) ↦ elim (mod_once (c + b) n (omega (arith, hc, kb))) [
    | inl (r, s) ↦ omega (arith, e, p, r)
    | inr (r, s) ↦ omega (arith, e, p, r, hc, ha, kb)
  ]
  | inr (p, q) ↦ elim (mod_once (c + b) n (omega (arith, hc, kb))) [
    | inl (r, s) ↦ omega (arith, e, p, r, hb, ka)
    | inr (r, s) ↦ omega (arith, e, p, r)
  ]
]

pub is_live-append :
    (id : ℕ) (b : Bucket) (e : TimerEntry)
    → is_live id (b ++ (e ∷ [])) ≡ (is_live id b || ((e.id == id) && not e.cancelled))
unfolding is_live
is_live-append id [] e = ground arith
is_live-append id (x ∷ b) e = ground (arith, is_live-append id b e)

has-run_bucket : (id : ℕ) (b : Bucket) (t : Table ℕ ℕ) → has id (run_bucket b t).0 ≡ is_live id b
unfolding has run_bucket is_live
has-run_bucket id [] t = refl
has-run_bucket id (e ∷ b) t =
    ground (arith, has-run_bucket id b t, has-run_bucket id b (remove_row e.id t))

again-run_bucket :
    (id : ℕ) (b : Bucket) (t : Table ℕ ℕ)
    → is_live id b ≡ false
    → is_live id ((run_bucket b t).1.0) ≡ false
unfolding run_bucket is_live
again-run_bucket id [] t h = refl
again-run_bucket id (e ∷ b) t h =
    ground (arith, again-run_bucket id b t, again-run_bucket id b (remove_row e.id t))

pub is_live-push_back :
    (id target : ℕ) (e : TimerEntry) (wheel : ℕ → Bucket) (slot : ℕ)
    → ((e.id == id) && not e.cancelled) ≡ false
    → is_live id (push_back target e wheel slot) ≡ is_live id (wheel slot)
unfolding push_back
is_live-push_back id target e wheel slot h =
    if-cases (λ (b : Bucket). is_live id b ≡ is_live id (wheel slot)) (slot == target)
      (λ _. ground (arith, h, is_live-append id (wheel slot) e)) (λ _. refl)

is_live-add_again :
    (id c n : ℕ) (b : Bucket) (wheel : ℕ → Bucket) (slot : ℕ)
    → is_live id b ≡ false
    → is_live id (add_again c n b wheel slot) ≡ is_live id (wheel slot)
unfolding add_again is_live
is_live-add_again id c n [] wheel slot h = refl
is_live-add_again id c n (e ∷ b) wheel slot h =
    is_live-add_again id c n b (push_back ((c + e.interval) % n) e wheel) slot (ground (arith, h))
    ∙ is_live-push_back id ((c + e.interval) % n) e wheel slot (ground (arith, h))

-- The timer `id` lies `k` ticks ahead and nowhere else.
pub record IsScheduled (id k : ℕ) (w : TimerWheel) : Type 0 where
  pub current_is : w.current_slot < w.wheel_size
  pub alone :
      (j : ℕ)
      → 1 ≤ j
      → j ≤ w.wheel_size
      → is_live id (w.wheel ((w.current_slot + j) % w.wheel_size)) ≡ (j == k)
  pub numbered : id < w.next_timer_id

module _ (id k : ℕ) (w : TimerWheel) (s : IsScheduled id k w) (hk : 1 ≤ k)
    (kw : k ≤ w.wheel_size) where
  -- The next tick runs the timer if it is the next one, and no sooner.
  pub has-tick : has id (tick w).0 ≡ (1 == k)
  unfolding tick
  has-tick =
      has-run_bucket id (w.wheel ((w.current_slot + 1) % w.wheel_size)) w.timer_map
      ∙ s.alone 1 (omega arith) (omega (arith, hk, kw))

  slot_ahead :
      (j : ℕ)
      → ((w.current_slot + 1) % w.wheel_size + j) % w.wheel_size
        ≡ (w.current_slot + (j + 1)) % w.wheel_size
  slot_ahead j =
      mod-add-mod (w.current_slot + 1) w.wheel_size j
      ∙ ap (λ x. x % w.wheel_size) {x = w.current_slot + 1 + j} {y = w.current_slot + (j + 1)}
          (omega arith)

  -- The slot that is cleared is a whole turn ahead.
  within :
      (j : ℕ)
      → j ≤ w.wheel_size
      → ((w.current_slot + (j + 1)) % w.wheel_size == (w.current_slot + 1) % w.wheel_size) ≡ false
      → j + 1 ≤ w.wheel_size
  within j jw other = elim (Bool-cases (ltb j w.wheel_size)) [
    | inl less ↦ omega (arith, ltb→lt j w.wheel_size less)
    | inr full ↦
        let turn : j ≡ w.wheel_size = ground (arith, jw) in
        let same : (w.current_slot + (j + 1)) % w.wheel_size ≡ (w.current_slot + 1) % w.wheel_size =
          ap (λ x. x % w.wheel_size) {x = w.current_slot + (j + 1)}
            {y = w.current_slot + 1 + w.wheel_size} (omega (arith, turn))
          ∙ add-mod_right (w.current_slot + 1) w.wheel_size in
        absurd (cc (other, (==_iff _ _).1 same))
  ]

  -- The bucket `j` ticks ahead of the next slot, once that is cleared.
  is_live-cleared :
      (j : ℕ)
      → 1 ≤ j
      → j ≤ w.wheel_size
      → 2 ≤ k
      → is_live id (
          set_bucket
            ((w.current_slot + 1) % w.wheel_size)
            []
            w.wheel
            ((w.current_slot + (j + 1)) % w.wheel_size))
        ≡ (j == k - 1)
  unfolding set_bucket is_live
  is_live-cleared j hj jw h2 =
      if-cases (λ (b : Bucket). is_live id b ≡ (j == k - 1))
        ((w.current_slot + (j + 1)) % w.wheel_size == (w.current_slot + 1) % w.wheel_size)
        (λ same. elim (Bool-cases (j == k - 1)) [
          | inl last ↦
              let jk : j ≡ k - 1 = (==_iff j (k - 1)).0 last in
              let one : j + 1 ≡ 1 =
                slots_differ w.wheel_size w.current_slot (j + 1) 1 s.current_is (omega arith)
                  (omega (arith, jk, h2, kw)) (omega arith) (omega (arith, hk, kw))
                  ((==_iff _ _).0 same) in
              absurd (omega (arith, one, hj))
          | inr not_last ↦ sym not_last
        ])
        (λ other.
          let inside : j + 1 ≤ w.wheel_size = within j jw other in
          s.alone (j + 1) (omega arith) inside ∙ ground (arith, h2))

  pub IsScheduled-tick : 2 ≤ k → IsScheduled id (k - 1) (tick w).1
  unfolding tick
  IsScheduled-tick h2 = record {
    current_is = mod-lt (w.current_slot + 1) (omega (arith, hk, kw));
    alone = λ j hj jw.
        let current : ℕ = (w.current_slot + 1) % w.wheel_size in
        let late : (1 == k) ≡ false = ground (arith, h2) in
        ap
          (λ x. is_live id (
            add_again current w.wheel_size (run_bucket (w.wheel current) w.timer_map).1.0
              (set_bucket current [] w.wheel) x))
          (slot_ahead j)
        ∙ is_live-add_again id current w.wheel_size (run_bucket (w.wheel current) w.timer_map).1.0
            (set_bucket current [] w.wheel) ((w.current_slot + (j + 1)) % w.wheel_size)
            (again-run_bucket id (w.wheel current) w.timer_map
              (s.alone 1 (omega arith) (omega (arith, hk, kw)) ∙ late))
        ∙ is_live-cleared j hj jw h2;
    numbered = s.numbered;
  }
