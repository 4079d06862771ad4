-- ===== src/Lthread/Keys/Slots.antt =====
-- What lthread_setspecific of src/sched/lthread.c stores, lthread_getspecific finds.
use rkt_io.Common.{
  ℕ, Bool, true, false, ◌≡◌, ◌≢◌, ◌⊎◌, refl, arith, none, some, List, [], ◌∷◌, Option-cases, inl,
  inr,
}
use rkt_io.Lthread.State.{LthreadTls}
use rkt_io.Lthread.Keys.{
  lthread_findtlsslot, store_slot, lthread_getspecific, lthread_setspecific, lthread_addtlsslot,
  enomem,
}

find_same :
    (tls : List LthreadTls) (key value p : ℕ)
    → lthread_findtlsslot tls key ≡ some p
    → lthread_findtlsslot (store_slot tls key value) key ≡ some value
unfolding lthread_findtlsslot
find_same [] key value p h = ground arith
find_same (d ∷ tls) key value p h = ground (arith, find_same tls key value p)

find_other :
    (tls : List LthreadTls) (key value other : ℕ)
    → other ≢ key
    → lthread_findtlsslot (store_slot tls key value) other ≡ lthread_findtlsslot tls other
unfolding lthread_findtlsslot
find_other [] key value other h = refl
find_other (d ∷ tls) key value other h = ground (arith, find_other tls key value other h)

-- lthread_setspecific either returns 0, and then lthread_getspecific gives the value for the key and
-- what it gave before for every other key, or it returns ENOMEM, and then the slots are as before, the key had no slot
-- and there was no memory.
pub lthread_getspecific-lthread_setspecific :
    (room : Bool) (key value : ℕ) (tls : List LthreadTls)
    → let (tls', rc) = lthread_setspecific room key value tls in
      ((rc ≡ 0)
        × (lthread_getspecific tls' key ≡ value)
        × ((other : ℕ)
            → other ≢ key
            → lthread_getspecific tls' other ≡ lthread_getspecific tls other))
      ⊎ ((rc ≡ enomem) × (tls' ≡ tls) × (lthread_findtlsslot tls key ≡ none) × (room ≡ false))
unfolding lthread_getspecific lthread_setspecific lthread_addtlsslot lthread_findtlsslot
lthread_getspecific-lthread_setspecific true key value tls =
    elim (Option-cases (lthread_findtlsslot tls key)) [
      | inl e ↦ inl (ground arith, ground arith, λ other h. ground arith)
      | inr (p, e) ↦ inl (
        ground arith,
        ground (arith, find_same tls key value p e),
        λ other h. ground (arith, find_other tls key value other h),
      )
    ]
lthread_getspecific-lthread_setspecific false key value tls =
    elim (Option-cases (lthread_findtlsslot tls key)) [
      | inl e ↦ inr (ground arith, ground arith, e, refl)
      | inr (p, e) ↦ inl (
        ground arith,
        ground (arith, find_same tls key value p e),
        λ other h. ground (arith, find_other tls key value other h),
      )
    ]
