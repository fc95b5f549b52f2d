-- ===== src/Core/Keeps.antt =====
-- The lottery queue's invariants do not see a step that keeps the frame.
use lottery_scheduler.Base.{
  ℕ, ◌≡◌, ◌∙◌, ap, sym, List, [], ◌∷◌, sum_by, sum_by-ext, u32_mod, ◌%◌, length,
}
use lottery_scheduler.Task.{Tasks}
use lottery_scheduler.Machine.{Kernel, State, members}
use lottery_scheduler.Lottery.Queue.{tickets_of, IsCoherent}
use lottery_scheduler.Lottery.Draw.{AllLottery, IsDrawable}
use lottery_scheduler.Core.Frame.{Frame, SameTask}

AllLottery-ext :
    (m n : Tasks) (xs : List ℕ)
    → ((q : ℕ) → SameTask (m q) (n q))
    → AllLottery m xs
    → AllLottery n xs
AllLottery-ext m n [] same all = tt
AllLottery-ext m n (x ∷ xs) same all = ((same x).policy ∙ all.0, AllLottery-ext m n xs same all.1)

module _ {K : Kernel} {s t : State K} (f : Frame s t) where
  pub Frame-members : members t ≡ members s
  Frame-members = ap K.lists.entries f.links

  pub Frame-sum : sum_by (tickets_of t.tasks) (members t) ≡ sum_by (tickets_of s.tasks) (members s)
  Frame-sum =
      ap (sum_by (tickets_of t.tasks)) Frame-members
      ∙ sum_by-ext (tickets_of t.tasks) (tickets_of s.tasks) (members s) (λ q. (f.tasks q).tickets)

  pub Frame-IsCoherent : IsCoherent s → IsCoherent t
  Frame-IsCoherent c = record {
    linked = rw f.links c.linked;
    once = rw Frame-members c.once;
    counted =
        ap (λ l. l.nr_running) f.ltr
        ∙ c.counted
        ∙ ap (λ xs. length xs % u32_mod) (sym Frame-members);
    tallied = ap (λ l. l.total_tickets) f.ltr ∙ c.tallied ∙ ap (λ n. n % u32_mod) (sym Frame-sum);
  }

  pub Frame-IsDrawable : IsDrawable s → IsDrawable t
  Frame-IsDrawable d = record {
    coherent = Frame-IsCoherent d.coherent;
    all = rw Frame-members (AllLottery-ext s.tasks t.tasks (members s) f.tasks d.all);
    some_tickets = rw Frame-sum d.some_tickets;
    fits = rw Frame-sum d.fits;
  }
