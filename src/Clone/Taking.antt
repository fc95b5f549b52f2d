-- ===== src/Clone/Taking.antt =====
-- What each step of `copy_process` of kernel/fork.c adds to the debts of the child.
use lottery_scheduler.Base.{
  ℕ, ◌+◌, ◌≡◌, refl, sym, ap, ◌∙◌, true, false, Option, none, some, List, ◌∷◌, arith, ◌==◌, leb,
}
use lottery_scheduler.Machine.{Kernel, Errno}
use lottery_scheduler.Clone.World.{
  Resource, io_context, Service, Services, IsBalanced, ForkState, Step, current, resource_index,
  indicator, with_users, with_world, point, bump, write_at, write_member, and_then, at_label,
}
use lottery_scheduler.Clone.Copy.{take}
use lottery_scheduler.Clone.Debts.{
  Debt, service, object, owed_service, owed_object, owes_object, Owes, owed_object-write_member,
}

module _ {K : Kernel} {V : Services} where
  -- The end of a step: one predicate of the state for an error, one for none.
  unfoldable pub Ends : (bad good : ForkState K V → Type 0) → Option Errno × ForkState K V → Type 0
  Ends bad good (some e, s) = bad s
  Ends bad good (none, s) = good s

  pub at_label-Ends :
      {bad : ForkState K V → Type 0} (bad' good : ForkState K V → Type 0)
      (label : ForkState K V → ForkState K V)
      → ((s : ForkState K V) → bad s → bad' (label s))
      → (r : Option Errno × ForkState K V) → Ends bad good r
      → Ends bad' good (at_label label r)
  unfolding Ends at_label
  at_label-Ends bad' good label h (some e, s) b = h s b
  at_label-Ends bad' good label h (none, s) g = g

  pub and_then-Ends :
      {mid : ForkState K V → Type 0} (bad good : ForkState K V → Type 0) (m : Step K V)
      → ((s : ForkState K V) → mid s → Ends bad good (m s))
      → (r : Option Errno × ForkState K V) → Ends bad mid r
      → Ends bad good (and_then m r)
  unfolding Ends and_then
  and_then-Ends bad good m h (some e, s) b = b
  and_then-Ends bad good m h (none, s) g = h s g

module _ {K : Kernel} {V : Services} (L : IsBalanced V) (p : ℕ) (s0 : ForkState K V) where
  -- A child that is half made: its debts, and the members that still have the parent's objects, which
  -- are those from number `k` up to `sighand`.
  pub record Half (k : ℕ) (xs : List Debt) (s : ForkState K V) : Type 0 where
    pub owes : Owes L p s0 xs s
    pub other : (current s == p) ≡ false
    pub inherits :
        (r : Resource)
        → leb k (resource_index r) ≡ true
        → leb 4 (resource_index r) ≡ false
        → s.resources p r ≡ s.resources (current s) r
    -- from number 1 on, an io context that is not owed is NULL
    pub bare : leb 1 k ≡ true → owes_object io_context xs ≡ false → s.resources p io_context ≡ 0

  pub acquired-Ends :
      {xs : List Debt} {s : ForkState K V} (x : Service) (flags : ℕ)
      → Owes L p s0 xs s
      → (r : Option Errno × V.World) → V.acquire x flags p s.world ≡ r
      → Ends (Owes L p s0 xs) (Owes L p s0 (service true x ∷ xs)) (r.0, with_world s r.1)
  unfolding Ends owed_service owed_object
  acquired-Ends {xs} {s} x flags o (none, w) e = record {
    services = λ v. ground (
      arith,
      o.services v,
      ap (λ r. L.held v r.1) e,
      L.acquired x v flags p s.world (ap (λ r. r.0) e),
    );
    objects = o.objects;
  }
  acquired-Ends {xs} {s} x flags o (some c, w) e = record {
    services = λ v. ground (
      arith,
      o.services v,
      ap (λ r. L.held v r.1) e,
      L.not_acquired x v flags p s.world c (ap (λ r. r.0) e),
    );
    objects = o.objects;
  }

  -- A step that keeps the parent and the members keeps the rest.
  Ends-Half :
      {k : ℕ} {xs : List Debt} {s : ForkState K V} (ys : List Debt)
      → owes_object io_context ys ≡ owes_object io_context xs
      → (w : Option Errno × V.World) → Half k xs s
      → Ends (Owes L p s0 xs) (Owes L p s0 ys) (w.0, with_world s w.1)
      → Ends (Owes L p s0 xs) (Half k ys) (w.0, with_world s w.1)
  unfolding Ends
  Ends-Half ys io (some e, w) h b = b
  Ends-Half ys io (none, w) h o = record {
    owes = o;
    other = h.other;
    inherits = h.inherits;
    bare = λ lo off. h.bare lo (sym io ∙ off);
  }

  pub take-Ends :
      {k : ℕ} {xs : List Debt} {s : ForkState K V} (x : Service) (flags : ℕ)
      → Half k xs s
      → Ends (Owes L p s0 xs) (Half k (service true x ∷ xs)) (take x flags p s)
  unfolding take owes_object
  take-Ends {k} {xs} {s} x flags h =
      let r = V.acquire x flags p s.world in
      Ends-Half (service true x ∷ xs) refl r h (acquired-Ends x flags h.owes r refl)

  -- The object that the parent's member points to gets one user more.
  pub share-Owes :
      {xs : List Debt} {s : ForkState K V} (r : Resource)
      → Owes L p s0 xs s
      → Owes L p s0 (object r ∷ xs) (bump s (s.resources p r))
  unfolding bump write_at owed_service owed_object
  share-Owes r o = record { services = o.services; objects = λ a h. ground (arith, o.objects a h) }

  -- An object of the child's own, at an address that nothing uses.
  pub made-Owes :
      {xs : List Debt} {s : ForkState K V} (r : Resource)
      → owes_object r xs ≡ false
      → Owes L p s0 xs s
      → (w : V.World) → ((v : Service) → L.held v w ≡ L.held v s.world)
      → (a : ℕ) → s.users a ≡ 0
      → Owes L p s0
          (object r ∷ xs)
          (point (with_users (with_world s w) (write_at s.users a 1)) p r a)
  unfolding point write_at owed_service owed_object write_member
  made-Owes {xs} {s} r off o w same a fresh = record {
    services = λ v. ground (arith, o.services v, same v);
    objects = λ b h.
        ground (arith, o.objects b h, fresh, owed_object-write_member (s.resources p) r a b xs off);
  }

  -- A use that is counted, and the member that points to the object.
  pub shared-Owes :
      {xs : List Debt} {s : ForkState K V} (r : Resource)
      → owes_object r xs ≡ false
      → Owes L p s0 xs s
      → (a : ℕ) (u : ℕ → ℕ) → ((b : ℕ) → u b ≡ s.users b + indicator (a == b))
      → Owes L p s0 (object r ∷ xs) (point (with_users s u) p r a)
  unfolding point write_at owed_service owed_object write_member
  shared-Owes {xs} {s} r off o a u counted = record {
    services = o.services;
    objects = λ b h.
        ground
          (arith, o.objects b h, counted b, owed_object-write_member (s.resources p) r a b xs off);
  }

  pub kept-Owes :
      {xs : List Debt} {s : ForkState K V}
      → Owes L p s0 xs s
      → (w : V.World) → ((v : Service) → L.held v w ≡ L.held v s.world)
      → Owes L p s0 xs (with_world s w)
  kept-Owes o w same = record { services = λ v. same v ∙ o.services v; objects = o.objects }
