-- ===== src/Lthread/Create/Failed.antt =====
-- lthread_create of src/sched/lthread.c where a call on the way fails
use rkt_io.Common.{
  ℕ, true, Option, none, some, List, ◌∷◌, ◌≡◌, ◌≢◌, ◌⊎◌, inl, inr, arith, refl, sym, ap, ◌∙◌, subst,
  ℕ_discrete,
}
use rkt_io.Lthread.Create.{
  LthreadAttr, Answers, Spawner, Created, failed, mmap, remove, stack_size_of, stack_of, start,
  with_tls, with_stack, lthread_create,
}

-- A call that fails: nothing is on a queue, no thread is counted, and the result is errno.
abbrev pub LeavesWorld : Answers → Spawner → Spawner × Created → Type 0
LeavesWorld a s r =
    (r.0.world ≡ s.world) × (r.0.spawned_lthreads ≡ s.spawned_lthreads) × (r.1 ≡ failed a.errno)

-- What is mapped behind it, from what was mapped before: as it was; with the stack, where the TLS image is not mapped; or with the TLS
-- image and without the stack, where its set-up fails.
abbrev pub LeavesMapped : Answers → ℕ → ℕ → List (ℕ × ℕ) → Spawner × Created → Type 0
LeavesMapped a size stack before r =
    (r.0.mapped ≡ before)
    ⊎ ((a.init_utp_fails ≡ true)
        × (itls : ℕ) × (a.mmap_tls ≡ some itls)
        × (r.0.mapped ≡ remove stack size ((itls, a.tls_size) ∷ before)))

with_tls_failed :
    (m : Option ℕ) (a : Answers) (attr : Option LthreadAttr) (t stack : ℕ) (s : Spawner) (e : ℕ)
    → a.mmap_tls ≡ m
    → (with_tls a attr t stack s).1 ≡ failed e
    → LeavesWorld a s (with_tls a attr t stack s)
      × ((a.mmap_tls ≡ none) ⊎ (a.init_utp_fails ≡ true))
      × LeavesMapped a (stack_size_of a attr) stack s.mapped (with_tls a attr t stack s)
unfolding with_tls start
with_tls_failed none a attr t stack s e m h =
    (ground (arith, h, m), inl m, inl (ground (arith, h, m)))
with_tls_failed (some itls) a attr t stack s e m h =
    let fails : a.init_utp_fails ≡ true = ground (arith, h, m) in
    (ground (arith, h, m), inr fails, inr (fails, itls, m, ground (arith, h, m, fails)))

-- The three ways: nothing is mapped, with a stack of the caller's, and with a new one
abbrev pub Leaves : Answers → Option LthreadAttr → ℕ → Spawner → Spawner × Created → Type 0
Leaves a attr own s r =
    LeavesWorld a s r
    × ((r.0.mapped ≡ s.mapped)
        ⊎ ((own ≢ 0) × LeavesMapped a (stack_size_of a attr) own s.mapped r)
        ⊎ ((own ≡ 0)
            × (stack : ℕ) × (a.mmap_stack ≡ some stack)
            × LeavesMapped a (stack_size_of a attr) stack ((stack, stack_size_of a attr) ∷ s.mapped)
                r))

with_stack_failed :
    (m : Option ℕ) (a : Answers) (attr : Option LthreadAttr) (t own : ℕ) (s : Spawner) (e : ℕ)
    → a.mmap_stack ≡ m
    → (with_stack a attr t own s).1 ≡ failed e
    → Leaves a attr own s (with_stack a attr t own s)
unfolding with_stack
with_stack_failed m a attr t own s e area h = elim (ℕ_discrete own 0) [
  | no given ↦
      let same : with_stack a attr t own s ≡ with_tls a attr t own s = ground (arith, given) in
      let (world, why, mapped) =
        with_tls_failed a.mmap_tls a attr t own s e refl (sym (ap (λ r. r.1) same) ∙ h) in
      subst (Leaves a attr own s) (sym same) (world, inr (inl (given, mapped)))
  | yes new ↦ new_stack m area new
]
  where
    new_stack :
        (m : Option ℕ)
        → a.mmap_stack ≡ m
        → own ≡ 0
        → Leaves a attr own s (with_stack a attr t own s)
    new_stack none area new =
        let same : with_stack a attr t own s ≡ (s, failed a.errno) = ground (arith, new, area) in
        subst (Leaves a attr own s) (sym same) ((refl, refl, refl), inl refl)
    new_stack (some stack) area new =
        let s1 = mmap stack (stack_size_of a attr) s in
        let same : with_stack a attr t own s ≡ with_tls a attr t stack s1 =
          ground (arith, new, area) in
        let (world, why, mapped) =
          with_tls_failed a.mmap_tls a attr t stack s1 e refl (sym (ap (λ r. r.1) same) ∙ h) in
        subst (Leaves a attr own s) (sym same) (world, inr (inr (new, stack, area, mapped)))

-- Where lthread_create fails, the world of threads is as it was, no number is used up, and the result is errno. Mapped is what was mapped
-- before; or also a stack that lthread_create has mapped itself and leaves behind; or, where the TLS image is mapped and cannot be set up,
-- also the image, without the bytes of the stack's address and size, be it a new stack or the caller's own.
pub lthread_create_failed :
    (a : Answers) (attr : Option LthreadAttr) (s : Spawner) (e : ℕ)
    → (lthread_create a attr s).1 ≡ failed e
    → Leaves a attr (stack_of attr) s (lthread_create a attr s)
unfolding lthread_create
lthread_create_failed a attr s e h = by_struct a.calloc refl
  where
    by_struct :
        (c : Option ℕ) → a.calloc ≡ c → Leaves a attr (stack_of attr) s (lthread_create a attr s)
    by_struct none c =
        let same : lthread_create a attr s ≡ (s, failed a.errno) = ground (arith, c) in
        subst (Leaves a attr (stack_of attr) s) (sym same) ((refl, refl, refl), inl refl)
    by_struct (some t) c =
        let same : lthread_create a attr s ≡ with_stack a attr t (stack_of attr) s =
          ground (arith, c) in
        subst (Leaves a attr (stack_of attr) s) (sym same) (
          with_stack_failed a.mmap_stack a attr t (stack_of attr) s e refl
            (sym (ap (λ r. r.1) same) ∙ h))
