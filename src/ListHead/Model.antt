-- ===== src/ListHead/Model.antt =====
-- A memory of links that has the documented behaviour: the queue from head to tail, and the entries
-- whose links point back to themselves; `stopped` says that other links have been followed.
use lottery_scheduler.Base.{
  ℕ, ◌≡◌, refl, true, false, ◌++◌, List, [], ◌∷◌, arith, has, remove, is_nil, distinct,
  distinct-remove, has-remove_self, distinct-snoc, ◌==◌, ◌||◌, not, Bool, if◌then◌else◌,
}
use lottery_scheduler.ListHead.Api.{ListApi}

pub record Queue : Type 0 where
  pub linked : List ℕ
  pub detached : List ℕ
  pub stopped : Bool

abbrev pub without : ℕ → List ℕ → List ℕ
without p [] = []
without p (x ∷ xs) = if p == x then without p xs else x ∷ without p xs

pub has-without : (p : ℕ) (xs : List ℕ) → has p (without p xs) ≡ false
has-without p [] = refl
has-without p (x ∷ xs) = ground (arith, has-without p xs)

pub unlink-running :
    (p : ℕ) (l : Queue)
    → l.stopped ≡ false
    → has p l.linked ≡ true
    → (l.stopped || not (has p l.linked || has p l.detached)) ≡ false
unlink-running p l runs there = ground (arith, runs, there)

pub unlink-stopped :
    (b : Bool) (p : ℕ) (l : Queue)
    → distinct l.linked ≡ true
    → (b || not (has p (remove p l.linked) || has p (without p l.detached))) ≡ true
unlink-stopped b p l once =
    ground (arith, has-remove_self p l.linked once, has-without p l.detached)

abbrev pub model : ListApi
model = record {
  Links = Queue;
  IsLinked = λ l. (distinct l.linked ≡ true) × (l.stopped ≡ false);
  entries = λ l. l.linked;
  faulted = λ l. l.stopped;
  init_list_head = λ l. record { linked = []; detached = l.detached; stopped = false };
  list_add_tail = λ p l. record {
    linked = l.linked ++ p ∷ [];
    detached = without p l.detached;
    stopped = l.stopped;
  };
  list_del = λ p l. record {
    linked = remove p l.linked;
    detached = without p l.detached;
    stopped = l.stopped || not (has p l.linked || has p l.detached);
  };
  list_empty = λ l. is_nil l.linked;
  list_empty_entry = λ p l. has p l.detached;
  IsLinked-faulted = λ l h. h.1;
  IsLinked-init = λ l. (refl, refl);
  entries-init = λ l. refl;
  IsLinked-add = λ p l h out. (distinct-snoc p l.linked h.0 out, h.1);
  entries-add = λ p l _ _. refl;
  IsLinked-del = λ p l h there. (distinct-remove p l.linked h.0, unlink-running p l h.1 there);
  entries-del = λ p l _ _. refl;
  list_empty_lem = λ l _. refl;
  list_empty_entry-del = λ p l _ _. has-without p l.detached;
  list_del-poisoned =
      λ p l h _. unlink-stopped (l.stopped || not (has p l.linked || has p l.detached)) p l h.0;
}
