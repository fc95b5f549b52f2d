-- ===== src/Lottery/Draw.antt =====
-- What `pick_next_task_lottery` of kernel/sched/lottery.c selects, against a book of tickets.
use lottery_scheduler.Base.{
  ℕ, ◌+◌, ◌-◌, ◌%◌, ◌≤◌, ◌<◌, ◌≡◌, ◌≢◌, ◌⊎◌, inl, inr, refl, ◌∙◌, ap, sym, Bool, true, false,
  Option, none, some, List, [], ◌∷◌, ◌++◌, arith, has, length, sum_by, get_elem?, replicate,
  get_elem?-replicate, get_elem?-replicate_rest, get_elem?-some, length-append, length-replicate,
  is_nil, u32_mod, add32, Bool-cases, ltb, leb, ◌&&◌, if◌then◌else◌, ◌==◌, dec_lt,
}
use lottery_scheduler.Task.{Tasks, sched_lottery}
use lottery_scheduler.Machine.{Kernel, Op, State, members, with_ext}
use lottery_scheduler.Lottery.Hooks.{draw, winner, pick_next_task_lottery, log_event, select}
use lottery_scheduler.Lottery.Queue.{tickets_of, IsCoherent}

-- The book of a queue: each task is written down once for each of its tickets, in queue order.
abbrev pub book : Tasks → List ℕ → List ℕ
book m [] = []
book m (x ∷ xs) = replicate (m x).tickets x ++ book m xs

pub length-book : (m : Tasks) (xs : List ℕ) → length (book m xs) ≡ sum_by (tickets_of m) xs
length-book m [] = refl
length-book m (x ∷ xs) = omega (
  arith,
  length-append (replicate (m x).tickets x) (book m xs),
  length-replicate (m x).tickets x,
  length-book m xs,
)

-- Every task of the queue has the lottery policy.
abbrev pub AllLottery : Tasks → List ℕ → Type 0
AllLottery m [] = Unit
AllLottery m (x ∷ xs) = ((m x).policy ≡ sched_lottery) × AllLottery m xs

module _ (m : Tasks) (x : ℕ) (xs : List ℕ) (lucky cnt : ℕ) (task : Option ℕ)
    (listed : (m x).policy ≡ sched_lottery) (fits : cnt + (m x).tickets < u32_mod) where
  draw-stop : cnt ≤ lucky → lucky < cnt + (m x).tickets → draw m lucky cnt task (x ∷ xs) ≡ some x
  unfolding draw add32
  draw-stop lo hi = ground arith

  draw-pass :
      cnt + (m x).tickets ≤ lucky
      → draw m lucky cnt task (x ∷ xs) ≡ draw m lucky (cnt + (m x).tickets) (some x) xs
  unfolding draw add32
  draw-pass hi =
      let next : add32 cnt (m x).tickets ≡ cnt + (m x).tickets = omega arith in
      let listed' : ((m x).policy == sched_lottery) ≡ true = ground arith in
      let below : ltb lucky (cnt + (m x).tickets) ≡ false = ground arith in
      rw (next, listed', below)

-- With `cnt` tickets passed, the walk stops at the owner of the ticket `d` places further on.
draw-book :
    (m : Tasks) (xs : List ℕ) (cnt d : ℕ) (task : Option ℕ)
    → AllLottery m xs
    → d < sum_by (tickets_of m) xs
    → cnt + sum_by (tickets_of m) xs < u32_mod
    → draw m (cnt + d) cnt task xs ≡ get_elem? (book m xs) d
draw-book m [] cnt d task all h fits = absurd (omega arith)
draw-book m (x ∷ xs) cnt d task all h fits = elim (dec_lt d (m x).tickets) [
  | yes here ↦
      draw-stop m x xs (cnt + d) cnt task all.0 (omega arith) (omega arith) (omega arith)
      ∙ sym (get_elem?-replicate (m x).tickets x (book m xs) d here)
  | no later ↦
      let t = (m x).tickets in
      let d' = d - (m x).tickets in
      let at : d ≡ t + d' = omega arith in
      let sum : cnt + d ≡ cnt + t + d' = omega arith in
      draw-pass m x xs (cnt + d) cnt task all.0 (omega arith) (omega arith)
      ∙ ap (λ l. draw m l (cnt + t) (some x) xs) sum
      ∙ draw-book m xs (cnt + t) d' (some x) all.1 (omega arith) (omega arith)
      ∙ sym (get_elem?-replicate_rest t x (book m xs) d')
      ∙ ap (get_elem? (book m (x ∷ xs))) (sym at)
]

module _ {K : Kernel} where
  -- The queue is coherent, all in it have the lottery policy, and they hold some tickets, fewer than
  -- an `unsigned int` can count.
  pub record IsDrawable (s : State K) : Type 0 where
    pub coherent : IsCoherent s
    pub all : AllLottery s.tasks (members s)
    pub some_tickets : 0 < sum_by (tickets_of s.tasks) (members s)
    pub fits : sum_by (tickets_of s.tasks) (members s) < u32_mod

  module _ {s : State K} (d : IsDrawable s) where
    pub total-eq-sum : s.rq.ltr.total_tickets ≡ sum_by (tickets_of s.tasks) (members s)
    total-eq-sum = omega (arith, d.coherent.tallied, d.fits)

    -- The random number `r` selects the owner of ticket `r % total_tickets` of the book.
    pub winner-book :
        (r : ℕ) → winner s r ≡ get_elem? (book s.tasks (members s)) (r % s.rq.ltr.total_tickets)
    unfolding winner
    winner-book r =
        let i = r % s.rq.ltr.total_tickets in
        let at : i ≡ 0 + i = omega arith in
        ap (λ l. draw s.tasks l 0 none (members s)) at
        ∙ draw-book s.tasks (members s) 0 i none d.all (omega (arith, total-eq-sum, d.some_tickets))
            (omega (arith, d.fits))

    nonempty : K.lists.list_empty s.links ≡ false
    nonempty = K.lists.list_empty_lem s.links d.coherent.linked ∙ go (members s) d.some_tickets
      where
        go : (xs : List ℕ) → 0 < sum_by (tickets_of s.tasks) xs → is_nil xs ≡ false
        go [] h = absurd (omega arith)
        go (x ∷ xs) h = refl

    -- Picking from a drawable queue returns the owner of the drawn ticket, logs it, and changes
    -- nothing else but the source of randomness.
    pub pick-book :
        let (r, e) = K.get_random_u32 s.ext in
        let drawn = get_elem? (book s.tasks (members s)) (r % s.rq.ltr.total_tickets) in
        (p : ℕ) × (drawn ≡ some p)
        × (pick_next_task_lottery s ≡ (some p, log_event (with_ext s e) p Op.select))
    unfolding pick_next_task_lottery
    pick-book =
        let (r, e) = K.get_random_u32 s.ext in
        let i = r % s.rq.ltr.total_tickets in
        let total = total-eq-sum in
        let positive : (s.rq.ltr.total_tickets == 0) ≡ false =
          ground (arith, total, d.some_tickets) in
        let (p, owner) =
          get_elem?-some (book s.tasks (members s)) i
            (omega (arith, total, d.some_tickets, length-book s.tasks (members s))) in
        let won : winner s r ≡ some p = winner-book r ∙ owner in
        (p, owner, rw (positive, nonempty) (ap (select (with_ext s e)) won))

-- Without any condition on policies or tickets: the walk ends at a task of the queue.
draw-has :
    (m : Tasks) (lucky cnt : ℕ) (task : Option ℕ) (x : ℕ) (xs : List ℕ)
    → (p : ℕ) × (draw m lucky cnt task (x ∷ xs) ≡ some p) × (has p (x ∷ xs) ≡ true)
unfolding draw
draw-has m lucky cnt task x [] = (x, ground arith, ground arith)
draw-has m lucky cnt task x (y ∷ ys) =
    let counts = (m x).policy == sched_lottery in
    let next = add32 cnt (m x).tickets in
    let cnt' = if counts then next else cnt in
    let (p, e, h) = draw-has m lucky cnt' (some x) y ys in
    let end = λ (b : Bool). if b then some x else draw m lucky cnt' (some x) (y ∷ ys) in
    elim (Bool-cases (counts && (ltb lucky next && leb cnt lucky))) [
      | inl hit ↦ (x, ap end hit, ground arith)
      | inr miss ↦ (p, ap end miss ∙ e, ground arith)
    ]

module _ {K : Kernel} where
  abbrev pub NothingPicked : State K → Type 0
  NothingPicked s =
      ((s.rq.ltr.total_tickets ≡ 0) ⊎ (members s ≡ [])) × (pick_next_task_lottery s ≡ (none, s))

  abbrev pub MemberPicked : State K → Type 0
  MemberPicked s =
      (p : ℕ) × (s.rq.ltr.total_tickets ≢ 0)
      × (has p (members s) ≡ true)
      × ((pick_next_task_lottery s).0 ≡ some p)

  module _ {s : State K} (inv : IsCoherent s)
      (counted : (s.rq.ltr.total_tickets == 0) ≡ false) where
    pick-nil : members s ≡ [] → NothingPicked s
    unfolding pick_next_task_lottery
    pick-nil e = (inr e, rw (counted, K.lists.list_empty_lem s.links inv.linked ∙ ap is_nil e))

    pick-cons : (x : ℕ) (xs : List ℕ) → members s ≡ x ∷ xs → MemberPicked s
    unfolding pick_next_task_lottery winner
    pick-cons x xs e =
        let (r, ext) = K.get_random_u32 s.ext in
        let lucky = r % s.rq.ltr.total_tickets in
        let (p, w, h) = draw-has s.tasks lucky 0 none x xs in
        let won : winner s r ≡ some p = ap (draw s.tasks lucky 0 none) e ∙ w in
        let filled = K.lists.list_empty_lem s.links inv.linked ∙ ap is_nil e in
        (
          p,
          ground arith,
          rw e h,
          rw (counted, filled) (ap (λ o. (select (with_ext s ext) o).0) won),
        )

  -- Picking from a coherent queue answers on every branch, whatever the policies and tickets: NULL,
  -- with nothing changed, if the tickets count zero or the queue is empty, and otherwise a task of
  -- the queue.
  pub pick-total : {s : State K} → IsCoherent s → NothingPicked s ⊎ MemberPicked s
  unfolding pick_next_task_lottery
  pick-total {s} inv = elim (Bool-cases (s.rq.ltr.total_tickets == 0)) [
    | inl uncounted ↦ inl (inl (ground arith), rw uncounted)
    | inr counted ↦ by_members counted (members s) refl
  ]
    where
      by_members :
          (s.rq.ltr.total_tickets == 0) ≡ false
          → (xs : List ℕ) → members s ≡ xs
          → NothingPicked s ⊎ MemberPicked s
      by_members counted [] e = inl (pick-nil inv counted e)
      by_members counted (x ∷ xs) e = inr (pick-cons inv counted x xs e)
