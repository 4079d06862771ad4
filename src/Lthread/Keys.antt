-- ===== src/Lthread/Keys.antt =====
-- Thread-specific data: lthread_key_create, lthread_key_delete, lthread_getspecific and
-- lthread_setspecific of src/sched/lthread.c, on the lists of slots and of destructors.
pub mod Slots
pub mod Destructors
use rkt_io.Common.{
  ℕ, Bool, true, false, not, ◌&&◌, Option, none, some, List, [], ◌∷◌, ◌++◌, ◌≡◌, ◌≢◌, ◌<◌, ◌≤◌,
  refl, if◌then◌else◌, ◌==◌, ◌%◌, ◌+◌, ◌^◌, arith, ◌↔◌,
}
use rkt_io.Lthread.State.{LthreadTls, LthreadTlsDestructors, Event, call, World}

abbrev pub enomem : ℕ
enomem = 12

-- `lthread_findtlsslot`, the data of the slot
unfoldable pub lthread_findtlsslot : List LthreadTls → ℕ → Option ℕ
lthread_findtlsslot [] key = none
lthread_findtlsslot (d ∷ tls) key =
    if d.key == key then some (d.data_ptr) else lthread_findtlsslot tls key

-- `d->data = value` on the slot that is found
abbrev pub store_slot : List LthreadTls → ℕ → ℕ → List LthreadTls
store_slot [] key value = []
store_slot (d ∷ tls) key value =
    if d.key == key then record d { data_ptr = value } ∷ tls else d ∷ store_slot tls key value

-- `room` is whether calloc finds memory.
unfoldable pub lthread_addtlsslot : Bool → ℕ → ℕ → List LthreadTls → List LthreadTls × ℕ
lthread_addtlsslot room key data_ptr tls =
    if room then (record { key = key; data_ptr = data_ptr } ∷ tls, 0) else (tls, enomem)

unfoldable pub lthread_getspecific : List LthreadTls → ℕ → ℕ
unfolding lthread_findtlsslot
lthread_getspecific tls key = elim (lthread_findtlsslot tls key) [ none ↦ 0 | some p ↦ p ]

unfoldable pub lthread_setspecific : Bool → ℕ → ℕ → List LthreadTls → List LthreadTls × ℕ
unfolding lthread_findtlsslot lthread_addtlsslot
lthread_setspecific room key value tls = elim (lthread_findtlsslot tls key) [
  | none ↦ lthread_addtlsslot room key value tls
  | some p ↦ (store_slot tls key value, 0)
]

unfoldable pub lthread_key_create : Bool → ℕ → World → World × Option ℕ
lthread_key_create room destructor w =
    if room
    then (
      record w {
        destructors = record { key = w.global_count; destructor = destructor } ∷ w.destructors;
        global_count = (w.global_count + 1) % 2 ^ 32;
      },
      some (w.global_count),
    )
    else (w, none)

-- The list without the first entry of the key, and whether there was one.
unfoldable pub lthread_key_delete :
    ℕ → List LthreadTlsDestructors → List LthreadTlsDestructors × Bool
lthread_key_delete key [] = ([], false)
lthread_key_delete key (d ∷ ds) =
    let (rest, found) = lthread_key_delete key ds in
    if d.key == key then (ds, true) else (d ∷ rest, found)

unfoldable pub lthread_finddestr : List LthreadTlsDestructors → ℕ → ℕ
lthread_finddestr [] key = 0
lthread_finddestr (d ∷ ds) key = if d.key == key then d.destructor else lthread_finddestr ds key

-- The destructors that are called for the slots, in order.
unfoldable pub lthread_rundestructors : List LthreadTlsDestructors → List LthreadTls → List Event
unfolding lthread_finddestr
lthread_rundestructors ds [] = []
lthread_rundestructors ds (d ∷ tls) =
    let destr = lthread_finddestr ds (d.key) in
    if not (d.data_ptr == 0) && not (destr == 0)
    then call destr (d.data_ptr) ∷ lthread_rundestructors ds tls
    else lthread_rundestructors ds tls
