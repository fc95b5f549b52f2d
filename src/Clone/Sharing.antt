-- ===== src/Clone/Sharing.antt =====
-- A child of `copy_process` of kernel/fork.c gets one more object: the parent's, its own, or none.
use lottery_scheduler.Base.{
  ℕ, ◌+◌, ◌≡◌, refl, sym, ap, subst, ◌∙◌, true, false, List, ◌∷◌, arith, ◌&&◌, not, ◌==◌, leb,
}
use lottery_scheduler.Machine.{Kernel}
use lottery_scheduler.Core.Setscheduler.Request.{Outcome, refuse, pass}
use lottery_scheduler.Clone.World.{
  Resource, Service, io_context, Services, IsBalanced, ForkState, current, same_resource,
  resource_index, indicator, with_users, with_world, point, bump, write_at, write_member,
}
use lottery_scheduler.Clone.Copy.{own, own_or_null}
use lottery_scheduler.Clone.Debts.{
  Debt, object, owed_service, owed_object, owes_object, Owes, Owes-point,
}
use lottery_scheduler.Clone.Taking.{Ends, Half, share-Owes, made-Owes, shared-Owes, kept-Owes}

module _ {K : Kernel} {V : Services} (L : IsBalanced V) (p : ℕ) (s0 : ForkState K V) where
  -- The member `r` is set from number `k` on, and the others stay.
  abbrev Beyond : ℕ → ℕ → Resource → Type 0
  Beyond k k' r =
      (leb k k' ≡ true) × ((leb k' (resource_index r) && not (leb 4 (resource_index r))) ≡ false)

  pub Half-point :
      {k k' : ℕ} {xs ys : List Debt} {s : ForkState K V} (t : ForkState K V) (r : Resource) (a : ℕ)
      → Beyond k k' r
      → Half L p s0 k xs s
      → t.resources ≡ s.resources
      → current t ≡ current s
      → (owes_object io_context ys ≡ false
          → (owes_object io_context xs ≡ false) × (same_resource io_context r ≡ false))
      → leb 1 k ≡ true
      → Owes L p s0 ys (point t p r a)
      → Half L p s0 k' ys (point t p r a)
  unfolding point write_at write_member
  Half-point {k} {k'} {xs} {ys} {s} t r a b h rs cs io set_up o = record {
    owes = o;
    other = rw cs h.other;
    inherits = λ q lo hi.
        ground (arith, h.inherits q (ground (arith, b.0, lo)) hi, b.1, h.other, rs, cs, lo, hi);
    bare = λ up off. let less = io off in ground (arith, rs, h.bare set_up less.0, less.1);
  }

  module _ {k : ℕ} {xs : List Debt} {s : ForkState K V} (k' : ℕ) (r : Resource)
      (off : owes_object r xs ≡ false) (b : Beyond k k' r) (set_up : leb 1 k ≡ true)
      (h : Half L p s0 k xs s) where
    same_held :
        (d : Outcome ℕ × V.World)
        → V.duplicate r p s.users s.world ≡ d
        → (v : Service) → L.held v d.1 ≡ L.held v s.world
    same_held d e v = sym (ap (λ d. L.held v d.1) e) ∙ L.duplicate-held v r p s.users s.world

    pub own-Ends :
        (d : Outcome ℕ × V.World)
        → V.duplicate r p s.users s.world ≡ d
        → Ends (Owes L p s0 xs) (Half L p s0 k' (object r ∷ xs)) (own s r p d)
    unfolding own Ends owes_object
    own-Ends (refuse c, w) e = kept-Owes L p s0 h.owes w (same_held _ e)
    own-Ends (pass a, w) e =
        let fresh = L.duplicate-fresh r p s.users s.world a (ap (λ d. d.0) e) in
        Half-point (with_users (with_world s w) (write_at s.users a 1)) r a b h refl refl
          (λ off. (ground (arith, off), ground (arith, off))) set_up
          (made-Owes L p s0 r off h.owes w (same_held _ e) a fresh.1)

    pub own_or_null-Ends :
        (d : Outcome ℕ × V.World)
        → V.duplicate r p s.users s.world ≡ d
        → Ends (Owes L p s0 xs) (Half L p s0 k' (object r ∷ xs)) (own_or_null s r p d)
    unfolding own_or_null Ends
    own_or_null-Ends (refuse c, w) e =
        Owes-point L p s0 (kept-Owes L p s0 h.owes w (same_held _ e)) r 0 off
    own_or_null-Ends (pass a, w) e = own-Ends (pass a, w) e

    -- The child's member is set to an object that has one user more.
    pub shared-Half :
        (a : ℕ) (u : ℕ → ℕ)
        → ((c : ℕ) → u c ≡ s.users c + indicator (a == c))
        → Half L p s0 k' (object r ∷ xs) (point (with_users s u) p r a)
    unfolding owes_object
    shared-Half a u counted =
        Half-point (with_users s u) r a b h refl refl
          (λ off. (ground (arith, off), ground (arith, off))) set_up
          (shared-Owes L p s0 r off h.owes a u counted)

    -- The child has the parent's object, whose users are one more.
    pub share-Half :
        leb k (resource_index r) ≡ true
        → leb 4 (resource_index r) ≡ false
        → Half L p s0 k' (object r ∷ xs) (bump s (s.resources (current s) r))
    unfolding bump owes_object
    share-Half lo hi = record {
      owes =
          subst (λ a. Owes L p s0 (object r ∷ xs) (bump s a)) (h.inherits r lo hi)
            (share-Owes L p s0 r h.owes);
      other = h.other;
      inherits = λ q from to. h.inherits q (ground (arith, b.0, from)) to;
      bare = λ up io. h.bare set_up (ground (arith, io));
    }

  pub bump-users :
      (s : ForkState K V) (a c : ℕ) → (bump s a).users c ≡ s.users c + indicator (a == c)
  unfolding bump write_at
  bump-users s a c = ground arith

  pub point-null : (s : ForkState K V) (r : Resource) → ((point s p r 0).resources p r == 0) ≡ true
  unfolding point write_at write_member
  point-null s r = ground arith

  -- A NULL stands for no use.
  pub Half-null :
      {k : ℕ} {xs : List Debt} {s : ForkState K V} (k' : ℕ) (r : Resource)
      → leb k k' ≡ true
      → leb 1 k ≡ true
      → (s.resources p r == 0) ≡ true
      → Half L p s0 k xs s
      → Half L p s0 k' (object r ∷ xs) s
  unfolding owed_object owed_service owes_object
  Half-null k' r up set_up null h = record {
    owes = record {
      services = λ v. h.owes.services v;
      objects = λ a live. ground (arith, h.owes.objects a live, null, live);
    };
    other = h.other;
    inherits = λ q from to. h.inherits q (ground (arith, up, from)) to;
    bare = λ lo io. h.bare set_up (ground (arith, io));
  }
