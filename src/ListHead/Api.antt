-- ===== src/ListHead/Api.antt =====
-- The interface to include/linux/list.h.
use lottery_scheduler.Base.{ℕ, ◌≡◌, Bool, true, false, List, [], ◌∷◌, ◌++◌, has, remove, is_nil}

-- `Links` is the contents of all `prev` and `next` fields. `entries` is what `list_for_each` visits
-- from the head, each entry given by the task that embeds it. `IsLinked` says that the fields form
-- one circle through the head. `faulted` says that the pointers of an entry have been followed after
-- list_del had poisoned them: the kernel has stopped with a page fault, and what a function does after
-- that does not happen.
pub record ListApi : Type 1 where
  pub Links : Type 0
  pub IsLinked : Links → Type 0
  pub entries : Links → List ℕ
  pub faulted : Links → Bool
  -- INIT_LIST_HEAD, list_add_tail, list_del on the head and an entry
  pub init_list_head : Links → Links
  pub list_add_tail : ℕ → Links → Links
  pub list_del : ℕ → Links → Links
  -- list_empty on the head, and on an entry
  pub list_empty : Links → Bool
  pub list_empty_entry : ℕ → Links → Bool
  pub IsLinked-faulted : (l : Links) → IsLinked l → faulted l ≡ false
  -- An initialised head is an empty circle.
  pub IsLinked-init : (l : Links) → IsLinked (init_list_head l)
  pub entries-init : (l : Links) → entries (init_list_head l) ≡ []
  -- An entry that is not linked is put before the head, which is the last place.
  pub IsLinked-add :
      (p : ℕ) (l : Links) → IsLinked l → has p (entries l) ≡ false → IsLinked (list_add_tail p l)
  pub entries-add :
      (p : ℕ) (l : Links)
      → IsLinked l
      → has p (entries l) ≡ false
      → entries (list_add_tail p l) ≡ entries l ++ p ∷ []
  -- An entry that is linked is taken out.
  pub IsLinked-del :
      (p : ℕ) (l : Links) → IsLinked l → has p (entries l) ≡ true → IsLinked (list_del p l)
  pub entries-del :
      (p : ℕ) (l : Links)
      → IsLinked l
      → has p (entries l) ≡ true
      → entries (list_del p l) ≡ remove p (entries l)
  pub list_empty_lem : (l : Links) → IsLinked l → list_empty l ≡ is_nil (entries l)
  -- "list_empty() on entry does not return true after this, the entry is in an undefined state."
  pub list_empty_entry-del :
      (p : ℕ) (l : Links)
      → IsLinked l
      → has p (entries l) ≡ true
      → list_empty_entry p (list_del p l) ≡ false
  -- include/linux/poison.h, on LIST_POISON1 and LIST_POISON2: "These are non-NULL pointers that will
  -- result in page faults under normal circumstances".
  pub list_del-poisoned :
      (p : ℕ) (l : Links)
      → IsLinked l
      → has p (entries l) ≡ true
      → faulted (list_del p (list_del p l)) ≡ true
