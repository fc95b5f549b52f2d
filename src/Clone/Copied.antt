-- ===== src/Clone/Copied.antt =====
-- `copy_files`, `copy_fs`, `copy_sighand`, `copy_signal`, `copy_mm` and `copy_io` of kernel/fork.c: each adds
-- the use of one object to what the child holds.
use lottery_scheduler.Base.{
  ℕ, ◌≡◌, refl, ap, ◌∙◌, true, false, List, ◌∷◌, arith, not, ◌==◌, Bool-cases, inl, inr,
}
use lottery_scheduler.Task.{test_bits}
use lottery_scheduler.Machine.{Kernel}
use lottery_scheduler.Clone.Flags.{
  clone_vm, clone_fs, clone_files, clone_sighand, clone_io, clone_thread,
}
use lottery_scheduler.Clone.World.{
  Service, signal, mm, files, fs, sighand, io_context, Services, IsBalanced, ForkState, current,
  resource_index, bump,
}
use lottery_scheduler.Clone.Copy.{copy_files, copy_fs, copy_sighand, copy_signal, copy_mm, copy_io}
use lottery_scheduler.Clone.Debts.{
  Debt, service, object, owed_service, owed_object, owes_object, Owes, Owes-point,
}
use lottery_scheduler.Clone.Sharing.{
  Half-point, share-Half, shared-Half, own-Ends, own_or_null-Ends, Half-null, bump-users,
  point-null,
}
use lottery_scheduler.Clone.Taking.{Ends, Half, take-Ends}

module _ {K : Kernel} {V : Services} (L : IsBalanced V) (p : ℕ) (s0 : ForkState K V) where
  pub copy_files-Ends :
      {xs : List Debt} {s : ForkState K V} (flags : ℕ)
      → owes_object files xs ≡ false
      → Half L p s0 1 xs s
      → Ends (Owes L p s0 xs) (Half L p s0 2 (object files ∷ xs)) (copy_files flags p s)
  unfolding copy_files Ends resource_index owed_object owed_service
  copy_files-Ends {xs} {s} flags off h = elim (Bool-cases (s.resources (current s) files == 0)) [
    | inl none_open ↦ rw none_open (
        Half-null L p s0 2 files refl refl
          (ap (λ a. a == 0) (h.inherits files refl refl) ∙ none_open) h)
    | inr open_files ↦ elim (Bool-cases (test_bits flags clone_files)) [
      | inl shares ↦
          rw (open_files, shares) (share-Half L p s0 2 files off (refl, refl) refl h refl refl)
      | inr copies ↦
          rw (open_files, copies) (own-Ends L p s0 2 files off (refl, refl) refl h _ refl)
    ]
  ]

  pub copy_fs-Ends :
      {xs : List Debt} {s : ForkState K V} (flags : ℕ)
      → owes_object fs xs ≡ false
      → Half L p s0 2 xs s
      → Ends (Owes L p s0 xs) (Half L p s0 3 (object fs ∷ xs)) (copy_fs flags p s)
  unfolding copy_fs Ends resource_index
  copy_fs-Ends {xs} {s} flags off h = elim (Bool-cases (test_bits flags clone_fs)) [
    | inr copies ↦ rw copies (own_or_null-Ends L p s0 3 fs off (refl, refl) refl h _ refl)
    | inl shares ↦ elim (Bool-cases (V.in_exec (s.resources (current s) fs) s.world)) [
      | inl busy ↦ rw (shares, busy) h.owes
      | inr free ↦ rw (shares, free) (share-Half L p s0 3 fs off (refl, refl) refl h refl refl)
    ]
  ]

  pub copy_sighand-Ends :
      {xs : List Debt} {s : ForkState K V} (flags : ℕ)
      → owes_object sighand xs ≡ false
      → Half L p s0 3 xs s
      → Ends (Owes L p s0 xs) (Half L p s0 4 (object sighand ∷ xs)) (copy_sighand flags p s)
  unfolding copy_sighand Ends resource_index
  copy_sighand-Ends {xs} {s} flags off h = elim (Bool-cases (test_bits flags clone_sighand)) [
    | inr copies ↦ rw copies (own_or_null-Ends L p s0 4 sighand off (refl, refl) refl h _ refl)
    | inl shares ↦ rw shares (share-Half L p s0 4 sighand off (refl, refl) refl h refl refl)
  ]

  pub Half-no_service :
      {k : ℕ} {xs : List Debt} {s : ForkState K V} (x : Service)
      → Half L p s0 k xs s
      → Half L p s0 k (service false x ∷ xs) s
  unfolding owed_service owed_object owes_object
  Half-no_service x h = record {
    owes = record { services = λ v. omega (arith, h.owes.services v); objects = h.owes.objects };
    other = h.other;
    inherits = h.inherits;
    bare = h.bare;
  }

  pub copy_signal-Ends :
      {xs : List Debt} {s : ForkState K V} (flags : ℕ)
      → Half L p s0 4 xs s
      → Ends
          (Owes L p s0 xs)
          (Half L p s0 4 (service (not (test_bits flags clone_thread)) signal ∷ xs))
          (copy_signal flags p s)
  unfolding copy_signal Ends
  copy_signal-Ends {xs} {s} flags h = elim (Bool-cases (test_bits flags clone_thread)) [
    | inl joins ↦ rw joins (Half-no_service signal h)
    | inr leads ↦ rw leads (take-Ends L p s0 signal flags h)
  ]

  pub copy_mm-Ends :
      {xs : List Debt} {s : ForkState K V} (flags : ℕ)
      → owes_object mm xs ≡ false
      → Half L p s0 4 xs s
      → Ends (Owes L p s0 xs) (Half L p s0 4 (object mm ∷ xs)) (copy_mm flags p s)
  unfolding copy_mm Ends resource_index bump owes_object
  copy_mm-Ends {xs} {s} flags off h =
      let oldmm = s.resources (current s) mm in
      let h0 =
        Half-point L p s0 {k' = 4} s mm 0 (refl, refl) h refl refl (λ io. (io, refl)) refl
          (Owes-point L p s0 h.owes mm 0 off) in
      elim (Bool-cases (s.resources (current s) mm == 0)) [
        | inl kthread ↦ rw kthread (Half-null L p s0 4 mm refl refl (point-null L p s0 s mm) h0)
        | inr user ↦ elim (Bool-cases (test_bits flags clone_vm)) [
          | inr copies ↦
              rw (user, copies) (own_or_null-Ends L p s0 4 mm off (refl, refl) refl h0 _ refl)
          | inl shares ↦
              rw (user, shares)
                (shared-Half L p s0 4 mm off (refl, refl) refl h0 oldmm (bump s oldmm).users
                  (bump-users L p s0 s oldmm))
        ]
      ]

  pub copy_io-Ends :
      {xs : List Debt} {s : ForkState K V} (flags : ℕ)
      → owes_object io_context xs ≡ false
      → Half L p s0 4 xs s
      → Ends (Owes L p s0 xs) (Half L p s0 4 (object io_context ∷ xs)) (copy_io flags p s)
  unfolding copy_io Ends resource_index owes_object
  copy_io-Ends {xs} {s} flags off h =
      let null : (s.resources p io_context == 0) ≡ true = ground (arith, h.bare refl off) in
      elim (Bool-cases (s.resources (current s) io_context == 0)) [
        | inl none_there ↦ rw none_there (Half-null L p s0 4 io_context refl refl null h)
        | inr there ↦ elim (Bool-cases (test_bits flags clone_io)) [
          | inl shares ↦
              rw (there, shares)
                (shared-Half L p s0 4 io_context off (refl, refl) refl h
                  (s.resources (current s) io_context) _
                  (L.linked (s.resources (current s) io_context) s.users))
          | inr own_one ↦
              elim (Bool-cases (V.ioprio_valid (s.resources (current s) io_context) s.world)) [
                | inl valid ↦
                    rw (there, own_one, valid)
                      (own_or_null-Ends L p s0 4 io_context off (refl, refl) refl h _ refl)
                | inr invalid ↦
                    rw (there, own_one, invalid) (Half-null L p s0 4 io_context refl refl null h)
              ]
        ]
      ]
