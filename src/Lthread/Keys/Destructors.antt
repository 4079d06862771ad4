-- ===== src/Lthread/Keys/Destructors.antt =====
-- Which destructors lthread_rundestructors of src/sched/lthread.c calls.
use rkt_io.Common.{
  ℕ, true, ◌≡◌, ◌≢◌, ◌^◌, ◌+◌, ◌⊎◌, refl, arith, some, ◌%◌, subst, ℕ_discrete, inl, inr, ◌<◌, List,
  [], ◌∷◌,
}
use rkt_io.Lthread.State.{LthreadTls, LthreadTlsDestructors, World, Event, call}
use rkt_io.Lthread.Keys.{
  lthread_key_create, lthread_key_delete, lthread_finddestr, lthread_rundestructors,
}

-- Every key of the list is below the bound, and none is there twice.
pub data AreKeys : ℕ → List LthreadTlsDestructors → Type 0 where
  no_keys : {n : ℕ} → AreKeys n []
  one_key :
      {n : ℕ} {d : LthreadTlsDestructors} {ds : List LthreadTlsDestructors}
      → d.key < n
      → lthread_finddestr ds d.key ≡ 0
      → AreKeys n ds
      → AreKeys n (d ∷ ds)

-- What lthread_rundestructors calls, one slot after the other
pub data Calls (ds : List LthreadTlsDestructors) : List LthreadTls → List Event → Type 0 where
  finished : Calls ds [] []
  called :
      {d : LthreadTls} {tls : List LthreadTls} {es : List Event}
      → d.data_ptr ≢ 0
      → lthread_finddestr ds d.key ≢ 0
      → Calls ds tls es
      → Calls ds (d ∷ tls) (call (lthread_finddestr ds d.key) d.data_ptr ∷ es)
  skipped :
      {d : LthreadTls} {tls : List LthreadTls} {es : List Event}
      → (d.data_ptr ≡ 0) ⊎ (lthread_finddestr ds d.key ≡ 0)
      → Calls ds tls es
      → Calls ds (d ∷ tls) es

above :
    (n : ℕ) (ds : List LthreadTlsDestructors) (key : ℕ)
    → AreKeys n ds
    → n < key + 1
    → lthread_finddestr ds key ≡ 0
unfolding lthread_finddestr
above n [] key a h = refl
above n (d ∷ ds) key (one_key small new a) h = ground (arith, above n ds key a h)

deleted_other :
    (ds : List LthreadTlsDestructors) (key other : ℕ)
    → other ≢ key
    → lthread_finddestr (lthread_key_delete key ds).0 other ≡ lthread_finddestr ds other
unfolding lthread_finddestr lthread_key_delete
deleted_other [] key other h = refl
deleted_other (d ∷ ds) key other h = ground (arith, deleted_other ds key other h)

deleted_same :
    (n : ℕ) (ds : List LthreadTlsDestructors) (key : ℕ)
    → AreKeys n ds
    → lthread_finddestr (lthread_key_delete key ds).0 key ≡ 0
unfolding lthread_finddestr lthread_key_delete
deleted_same n [] key a = refl
deleted_same n (d ∷ ds) key (one_key small new a) = ground (arith, deleted_same n ds key a)

raised : (n : ℕ) (ds : List LthreadTlsDestructors) → AreKeys n ds → AreKeys (n + 1) ds
raised n [] no_keys = no_keys
raised n (d ∷ ds) (one_key small new a) = one_key (omega arith) new (raised n ds a)

-- As long as the counter of keys has not wrapped, and keys have been used once each: lthread_key_create
-- gives a key whose destructor is the one asked for and leaves the destructors of other keys; to delete the
-- key again, or any other key, leaves no destructor for it and those of other keys as they are.
pub lthread_key_delete-lthread_key_create :
    (w : World) (destructor : ℕ)
    → AreKeys w.global_count w.destructors
    → w.global_count + 1 < 2 ^ 32
    → let (w', k) = lthread_key_create true destructor w in
      (k ≡ some w.global_count)
      × (lthread_finddestr w'.destructors w.global_count ≡ destructor)
      × ((other : ℕ)
          → other ≢ w.global_count
          → lthread_finddestr w'.destructors other ≡ lthread_finddestr w.destructors other)
      × AreKeys w'.global_count w'.destructors
      × ((key : ℕ)
          → (lthread_finddestr (lthread_key_delete key w'.destructors).0 key ≡ 0)
            × ((other : ℕ)
                → other ≢ key
                → lthread_finddestr (lthread_key_delete key w'.destructors).0 other
                  ≡ lthread_finddestr w'.destructors other))
unfolding lthread_finddestr lthread_key_delete lthread_key_create
lthread_key_delete-lthread_key_create w destructor a small =
    let keys : AreKeys ((w.global_count + 1) % 2 ^ 32)
        (record { key = w.global_count; destructor = destructor } ∷ w.destructors) =
      subst
        (λ n. AreKeys n (record { key = w.global_count; destructor = destructor } ∷ w.destructors))
        (omega arith)
        (one_key (omega arith) (above w.global_count w.destructors w.global_count a (omega arith))
          (raised w.global_count w.destructors a)) in
    (
      refl,
      ground arith,
      λ other h. ground arith,
      keys,
      λ key. (
        deleted_same ((w.global_count + 1) % 2 ^ 32)
            (record { key = w.global_count; destructor = destructor } ∷ w.destructors) key keys,
        λ other h.
            deleted_other (record { key = w.global_count; destructor = destructor } ∷ w.destructors)
              key other h,
      ),
    )

-- lthread_rundestructors calls, slot by slot in order, the destructor of the key on the data where
-- neither is null, and nothing else.
pub lthread_rundestructors_lem :
    (ds : List LthreadTlsDestructors) (tls : List LthreadTls)
    → Calls ds tls (lthread_rundestructors ds tls)
unfolding lthread_rundestructors
lthread_rundestructors_lem ds [] = finished
lthread_rundestructors_lem ds (d ∷ tls) =
    let rest = lthread_rundestructors_lem ds tls in
    let here = call (lthread_finddestr ds d.key) d.data_ptr ∷ lthread_rundestructors ds tls in
    elim (ℕ_discrete d.data_ptr 0) [
      | yes p ↦
          let step : lthread_rundestructors ds tls ≡ lthread_rundestructors ds (d ∷ tls) =
            ground arith in
          subst (Calls ds (d ∷ tls)) step (skipped (inl p) rest)
      | no p ↦ elim (ℕ_discrete (lthread_finddestr ds d.key) 0) [
        | yes q ↦
            let step : lthread_rundestructors ds tls ≡ lthread_rundestructors ds (d ∷ tls) =
              ground arith in
            subst (Calls ds (d ∷ tls)) step (skipped (inr q) rest)
        | no q ↦
            let step : here ≡ lthread_rundestructors ds (d ∷ tls) = ground arith in
            subst (Calls ds (d ∷ tls)) step (called p q rest)
      ]
    ]
