-- ===== src/Lottery/Share.antt =====
-- How often `pick_next_task_lottery` of kernel/sched/lottery.c selects a task: counted over the
-- values that `get_random_bytes` can deliver.
use lottery_scheduler.Base.{
  ℕ, ◌+◌, ◌*◌, ◌/◌, ◌%◌, ◌≤◌, ◌≡◌, refl, ◌∙◌, ap, sym, Bool, true, false, Option, none, some, List,
  [], ◌∷◌, arith, has, distinct, sum_by, get_elem?, get_elem?-replicate, get_elem?-replicate_rest,
  u32_mod, ◌==◌, if◌then◌else◌, count_below, count_below-ext, count_below-add, count_below-const,
  count_below_mono, count_below-rounds,
}
use native.Mathlib.Nat.{mod-eq_of_lt, mod-lt, div-add-mod', le_of_lt}
use lottery_scheduler.Task.{Tasks}
use lottery_scheduler.Machine.{Kernel, State, members}
use lottery_scheduler.Lottery.Hooks.{winner}
use lottery_scheduler.Lottery.Queue.{tickets_of}
use lottery_scheduler.Lottery.Draw.{book, IsDrawable, winner-book, total-eq-sum}

-- Whether the task is `p`.
abbrev pub is_task : ℕ → Option ℕ → Bool
is_task p none = false
is_task p (some q) = p == q

-- The number of lines of the book that name `p`.
abbrev lines : Tasks → List ℕ → ℕ → ℕ
lines m xs p = count_below (sum_by (tickets_of m) xs) (λ i. is_task p (get_elem? (book m xs) i))

lines-cons :
    (m : Tasks) (x : ℕ) (xs : List ℕ) (p : ℕ)
    → lines m (x ∷ xs) p ≡ (if p == x then (m x).tickets else 0) + lines m xs p
lines-cons m x xs p =
    let t = (m x).tickets in
    count_below-add t (sum_by (tickets_of m) xs) (λ i. is_task p (get_elem? (book m (x ∷ xs)) i))
    ∙ omega (
      arith,
      count_below-ext t (λ i. is_task p (get_elem? (book m (x ∷ xs)) i)) (λ _. p == x)
          (λ i lt. ap (is_task p) (get_elem?-replicate t x (book m xs) i lt)),
      count_below-const t (p == x),
      count_below-ext (sum_by (tickets_of m) xs)
          (λ i. is_task p (get_elem? (book m (x ∷ xs)) (t + i)))
          (λ i. is_task p (get_elem? (book m xs) i))
          (λ i lt. ap (is_task p) (get_elem?-replicate_rest t x (book m xs) i)),
    )

lines-absent : (m : Tasks) (xs : List ℕ) (p : ℕ) → has p xs ≡ false → lines m xs p ≡ 0
unfolding count_below
lines-absent m [] p out = refl
lines-absent m (x ∷ xs) p out = ground (arith, lines-cons m x xs p, lines-absent m xs p)

lines-tickets :
    (m : Tasks) (xs : List ℕ) (p : ℕ)
    → distinct xs ≡ true
    → has p xs ≡ true
    → lines m xs p ≡ (m p).tickets
lines-tickets m [] p once there = cc
lines-tickets m (x ∷ xs) p once there =
    ground (arith, lines-cons m x xs p, lines-absent m xs p, lines-tickets m xs p)

module _ {K : Kernel} {s : State K} (d : IsDrawable s) (p : ℕ)
    (there : has p (members s) ≡ true) where
  names_p : ℕ → Bool
  names_p i = is_task p (get_elem? (book s.tasks (members s)) i)

  wins-book :
      (n : ℕ)
      → count_below n (λ r. is_task p (winner s r))
        ≡ count_below n (λ r. names_p (r % s.rq.ltr.total_tickets))
  unfolding names_p
  wins-book n = count_below-ext n _ _ (λ r lt. ap (is_task p) (winner-book d r))

  lines-round : count_below s.rq.ltr.total_tickets names_p ≡ (s.tasks p).tickets
  unfolding names_p
  lines-round =
      ap (λ n. count_below n names_p) (total-eq-sum d)
      ∙ lines-tickets s.tasks (members s) p d.coherent.once there

  -- Over one round of the tickets, a task of a drawable queue is selected once for each ticket that
  -- it holds.
  pub wins-round :
      count_below s.rq.ltr.total_tickets (λ r. is_task p (winner s r)) ≡ (s.tasks p).tickets
  wins-round =
      wins-book s.rq.ltr.total_tickets
      ∙ count_below-ext s.rq.ltr.total_tickets _ names_p (λ r lt. ap names_p (mod-eq_of_lt lt))
      ∙ lines-round

  -- Over all values of a random `unsigned int`, a task of a drawable queue is selected at least once
  -- for each of its tickets and each full round of the tickets that fits into 2^32, and at most as
  -- often as in one round more.
  pub wins-share :
      let rounds = u32_mod / s.rq.ltr.total_tickets in
      let wins = count_below u32_mod (λ r. is_task p (winner s r)) in
      (rounds * (s.tasks p).tickets ≤ wins) × (wins ≤ (rounds + 1) * (s.tasks p).tickets)
  wins-share =
      let total = s.rq.ltr.total_tickets in
      let rounds = u32_mod / total in
      let part = u32_mod % total in
      let whole : u32_mod ≡ rounds * total + part = sym (div-add-mod' u32_mod total) in
      let short : part ≤ total =
        le_of_lt (mod-lt u32_mod (omega (arith, total-eq-sum d, d.some_tickets))) in
      let wins =
        wins-book u32_mod
        ∙ ap (λ n. count_below n (λ r. names_p (r % total))) whole
        ∙ count_below-rounds total rounds part names_p short in
      let each : rounds * count_below total names_p ≡ rounds * (s.tasks p).tickets =
        ap (λ (n : ℕ). rounds * n) lines-round in
      let rest = count_below_mono part total names_p short in
      (omega (arith, wins, each), omega (arith, wins, each, rest, lines-round))
