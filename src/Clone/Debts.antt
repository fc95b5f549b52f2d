-- ===== src/Clone/Debts.antt =====
-- What a half-made task holds, as a list of debts: each cleanup of kernel/fork.c pays one of them.
use lottery_scheduler.Base.{
  ℕ, ◌+◌, ◌≡◌, refl, sym, ap, ◌∙◌, Bool, true, false, List, [], ◌∷◌, arith, ◌&&◌, ◌||◌, ◌==◌,
  Bool-cases, inl, inr,
}
use lottery_scheduler.Machine.{Kernel}
use lottery_scheduler.Clone.World.{
  Resource, Service, Services, IsBalanced, ForkState, same_service, same_resource, indicator, point,
  write_at, write_member, sighand, mm,
}
use lottery_scheduler.Clone.Unwind.{
  give, give_if, cleanup_sighand, put_mm, drop_object, exit_object,
}

-- A service, if the test holds, or a use of the object that a member points to.
pub data Debt : Type 0 where
  service : Bool → Service → Debt
  object : Resource → Debt

unfoldable pub owed_service : Service → List Debt → ℕ
owed_service v [] = 0
owed_service v (service b x ∷ xs) = indicator (b && same_service x v) + owed_service v xs
owed_service v (object r ∷ xs) = owed_service v xs

unfoldable pub owed_object : (Resource → ℕ) → ℕ → List Debt → ℕ
owed_object links a [] = 0
owed_object links a (service b x ∷ xs) = owed_object links a xs
owed_object links a (object r ∷ xs) = indicator (links r == a) + owed_object links a xs

unfoldable pub owes_object : Resource → List Debt → Bool
owes_object r [] = false
owes_object r (service b x ∷ xs) = owes_object r xs
owes_object r (object q ∷ xs) = same_resource q r || owes_object r xs

pub owed_object-write_member :
    (links : Resource → ℕ) (r : Resource) (v a : ℕ) (xs : List Debt)
    → owes_object r xs ≡ false
    → owed_object (write_member links r v) a xs ≡ owed_object links a xs
unfolding owed_object owes_object write_member
owed_object-write_member links r v a [] off = refl
owed_object-write_member links r v a (service b x ∷ xs) off =
    owed_object-write_member links r v a xs off
owed_object-write_member links r v a (object q ∷ xs) off =
    let rest : owes_object r xs ≡ false = ground (arith, off) in
    ground (arith, off, owed_object-write_member links r v a xs rest)

module _ {K : Kernel} {V : Services} (L : IsBalanced V) (p : ℕ) (s0 : ForkState K V) where
  -- Against the state `s0`, just the debts are held. NULL has no users.
  pub record Owes (xs : List Debt) (s : ForkState K V) : Type 0 where
    pub services : (v : Service) → L.held v s.world ≡ L.held v s0.world + owed_service v xs
    pub objects :
        (a : ℕ) → (a == 0) ≡ false → s.users a ≡ s0.users a + owed_object (s.resources p) a xs

  -- Only the world, the users and the child's members matter.
  pub Owes-same :
      {xs : List Debt} {s t : ForkState K V}
      → t.world ≡ s.world
      → t.users ≡ s.users
      → t.resources p ≡ s.resources p
      → Owes xs s
      → Owes xs t
  Owes-same {xs} w u r o = record {
    services = λ v. ap (L.held v) w ∙ o.services v;
    objects =
        λ a h. ap (λ f. f a) u ∙ o.objects a h ∙ ap (λ f. s0.users a + owed_object f a xs) (sym r);
  }

  module _ {xs : List Debt} {s : ForkState K V} (o : Owes xs s) where
    pub Owes-point : (r : Resource) (a : ℕ) → owes_object r xs ≡ false → Owes xs (point s p r a)
    unfolding point write_at
    Owes-point r v off = record {
      services = o.services;
      objects = λ a h.
          ground (arith, o.objects a h, owed_object-write_member (s.resources p) r v a xs off);
    }

  pub give-Owes :
      {xs : List Debt} {s : ForkState K V} (x : Service)
      → Owes (service true x ∷ xs) s
      → Owes xs (give x p s)
  unfolding give owed_service owed_object
  give-Owes {xs} {s} x o = record {
    services = λ v. ground (arith, o.services v, L.released x v p s.world);
    objects = o.objects;
  }

  pub give_if-Owes :
      {xs : List Debt} {s : ForkState K V} (b : Bool) (x : Service)
      → Owes (service b x ∷ xs) s
      → Owes xs (give_if b x p s)
  unfolding give_if owed_service owed_object
  give_if-Owes true x o = give-Owes x o
  give_if-Owes false x o = record {
    services = λ v. omega (arith, o.services v);
    objects = o.objects;
  }

  pub drop_object-Owes :
      {xs : List Debt} {s : ForkState K V} (r : Resource)
      → Owes (object r ∷ xs) s
      → Owes xs (drop_object r p s)
  unfolding drop_object owed_service owed_object
  drop_object-Owes {xs} {s} r o = elim (Bool-cases (s.resources p r == 0)) [
    | inl null ↦
        rw null (record {
          services = o.services;
          objects = λ a h. ground (arith, o.objects a h, null, h);
        })
    | inr live ↦ rw live (record {
      services = o.services;
      objects = λ a h. ground (arith, o.objects a h, L.put r (s.resources p r) s.users a);
    })
  ]

  pub put_mm-Owes :
      {xs : List Debt} {s : ForkState K V} → Owes (object mm ∷ xs) s → Owes xs (put_mm p s)
  unfolding put_mm write_at owed_service owed_object
  put_mm-Owes {xs} {s} o = elim (Bool-cases (s.resources p mm == 0)) [
    | inl null ↦
        rw null (record {
          services = o.services;
          objects = λ a h. ground (arith, o.objects a h, null, h);
        })
    | inr live ↦
        rw live (record { services = o.services; objects = λ a h. ground (arith, o.objects a h) })
  ]

  pub exit_object-Owes :
      {xs : List Debt} {s : ForkState K V} (r : Resource)
      → owes_object r xs ≡ false
      → Owes (object r ∷ xs) s
      → Owes xs (exit_object r p s)
  unfolding exit_object
  exit_object-Owes r off o = Owes-point (drop_object-Owes r o) r 0 off

  pub cleanup_sighand-Owes :
      {xs : List Debt} {s : ForkState K V}
      → Owes (object sighand ∷ xs) s
      → Owes xs (cleanup_sighand p s)
  unfolding cleanup_sighand write_at owed_service owed_object
  cleanup_sighand-Owes {xs} {s} o = record {
    services = o.services;
    objects = λ a h. ground (arith, o.objects a h);
  }
