-- ===== src/Mpmc/System/Solo.antt =====
-- A mpmc_enqueue of src/shared/mpmc_queue.c from whatever other threads have left it with, where no other thread moves until it
-- returns and the exchange does not fail without a reason
use rkt_io.Common.{
  ℕ, ◌+◌, ◌%◌, ◌^◌, ◌<◌, ◌≡◌, ◌⊎◌, inl, inr, refl, ap, ◌∙◌, arith, true, false, dec_lt, List, [],
  ◌∷◌, ◌++◌, length,
}
use rkt_io.Mpmc.{Mpmcq, size_t, write}
use rkt_io.Mpmc.System.{
  Pc, enq_start, enq_look, enq_swap, enq_write, enq_publish, enq_returned, cell, access, State,
  note_claim, go,
}
use rkt_io.Mpmc.System.Order.{claims_out, cell-mod}
use rkt_io.Mpmc.System.Inv.{update_own}
use rkt_io.Mpmc.System.Reached.{Reach, Reach-Inv, Reach-Held}
use rkt_io.Mpmc.System.Somebody.{Somebody}
use native.Mathlib.Nat.{add-mod_right}

-- The queue, where thread `t` stands, and the values put in
pub record At (t : ℕ) (s : State) (q : Mpmcq) (pc : Pc) (claimed : List ℕ) : Type 0 where
  pub queue : s.queue ≡ q
  pub stands : s.pc t ≡ pc
  pub values : s.claimed ≡ claimed

pub At-go :
    (t : ℕ) (s : State) (q q' : Mpmcq) (pc pc' : Pc) (claimed : List ℕ)
    → At t s q pc claimed
    → access false q pc ≡ (q', pc')
    → At t (go false t s) q' pc' (note_claim pc pc' claimed)
unfolding go
At-go t s q q' pc pc' claimed here e =
    let same : access false s.queue (s.pc t) ≡ (q', pc') =
      ap (λ z. access false z (s.pc t)) here.queue ∙ ap (access false q) here.stands ∙ e in
    record {
      queue = ap (λ r. r.0) same;
      stands = update_own s.pc t (access false s.queue (s.pc t)).1 ∙ ap (λ r. r.1) same;
      values =
          ap (λ r. note_claim (s.pc t) r.1 s.claimed) same
          ∙ ap (λ z. note_claim z pc' s.claimed) here.stands
          ∙ ap (note_claim pc pc') here.values;
    }

abbrev pub go5 : ℕ → State → State
go5 t s = go false t (go false t (go false t (go false t (go false t s))))

module _ (t x p : ℕ) (s : State) (start : At t s s.queue (enq_start x) s.claimed)
    (tail : s.queue.enqueue_pos ≡ p) (mine : p < 2 ^ 63) where
  looks : At t (go false t s) s.queue (enq_look x p) s.claimed
  unfolding access
  looks =
      At-go t s s.queue s.queue (enq_start x) (enq_look x p) s.claimed start
        (ap (λ z. (s.queue, enq_look x z)) tail)

  -- Where the cell is free the value is put in.
  puts_in :
      s.queue.seq (cell s.queue p) ≡ p
      → (q : Mpmcq) × At t (go5 t s) q (enq_returned true) (s.claimed ++ (x ∷ []))
  unfolding access
  puts_in free =
      let q = s.queue in
      let q1 = record q { enqueue_pos = size_t (p + 1) } in
      let q2 = record q1 { data_ptr = write q.data_ptr (cell q p) x } in
      let q3 = record q2 { seq = write q.seq (cell q p) (size_t (p + 1)) } in
      let swaps =
        At-go t _ q q (enq_look x p) (enq_swap x p) s.claimed looks (ground (arith, free)) in
      let writes =
        At-go t _ q q1 (enq_swap x p) (enq_write x p) s.claimed swaps (ground (arith, tail)) in
      let publishes =
        At-go t _ q1 q2 (enq_write x p) (enq_publish p) (s.claimed ++ (x ∷ [])) writes refl in
      (
        q3,
        At-go t _ q2 q3 (enq_publish p) (enq_returned true) (s.claimed ++ (x ∷ [])) publishes refl,
      )

  -- Where the number of the cell is less it is refused.
  gives_up :
      s.queue.seq (cell s.queue p) < p → At t (go5 t s) s.queue (enq_returned false) s.claimed
  unfolding access
  gives_up less =
      let q = s.queue in
      let stay = λ (r : State) (h : At t r q (enq_returned false) s.claimed).
        At-go t r q q (enq_returned false) (enq_returned false) s.claimed h refl in
      stay _ (
        stay _ (
          stay _ (
            At-go t _ q q (enq_look x p) (enq_returned false) s.claimed looks
              (ground (arith, less)))))

abbrev pub RoundBefore : ℕ → State → ℕ → Type 0
RoundBefore k s p = (r : ℕ) × (r + 2 ^ k ≡ p) × Somebody claims_out s.pc r

-- From whatever other threads have left the queue in, with fewer than 2^63 values put in: a mpmc_enqueue whose accesses follow one
-- another, with no spurious failure of the exchange, returns after five of them at most. Either it returns 1, there was room, and the
-- value is put in behind the others; or it returns 0, queue and values are as before, and the queue was full or a thread
-- is between claiming and giving back, in mpmc_dequeue, the place one round before.
pub Reach-enqueue_alone :
    (k : ℕ) (s : State)
    → Reach k s
    → (t x : ℕ) → s.pc t ≡ enq_start x
    → let s' = go5 t s in
      let room = s.queue.dequeue_pos + 2 ^ k in
      ((s'.pc t ≡ enq_returned true)
        × (s'.claimed ≡ s.claimed ++ (x ∷ []))
        × (length s.claimed < room))
      ⊎ ((s'.pc t ≡ enq_returned false)
          × (s'.queue ≡ s.queue)
          × (s'.claimed ≡ s.claimed)
          × ((length s.claimed ≡ room) ⊎ RoundBefore k s (length s.claimed)))
Reach-enqueue_alone k s reached t x e =
    let sh = (Reach-Inv k s reached).shared in
    let p = length s.claimed in
    let start : At t s s.queue (enq_start x) s.claimed = record {
      queue = refl;
      stands = e;
      values = refl;
    } in
    let mine : p < 2 ^ 63 = omega (arith, sh.few, sh.size) in
    let here : s.queue.seq (cell s.queue p) ≡ s.queue.seq (p % 2 ^ k) =
      ap s.queue.seq (cell-mod sh p) in
    let refuses : s.queue.seq (cell s.queue p) < p
        → (p ≡ s.queue.dequeue_pos + 2 ^ k) ⊎ RoundBefore k s p
        → ((go5 t s).pc t ≡ enq_returned false)
          × ((go5 t s).queue ≡ s.queue)
          × ((go5 t s).claimed ≡ s.claimed)
          × ((p ≡ s.queue.dequeue_pos + 2 ^ k) ⊎ RoundBefore k s p) =
      λ less why.
        let h = gives_up t x p s start sh.tail mine less in (h.stands, h.queue, h.values, why) in
    elim (dec_lt p (s.queue.dequeue_pos + 2 ^ k)) [
      | no above ↦
          let full : p ≡ s.queue.dequeue_pos + 2 ^ k = omega (arith, sh.room) in
          let round : p % 2 ^ k ≡ s.queue.dequeue_pos % 2 ^ k =
            ap (λ z. z % 2 ^ k) full ∙ add-mod_right s.queue.dequeue_pos (2 ^ k) in
          let older = ap s.queue.seq round in
          inr (
            refuses
              (ground (
                arith,
                here,
                older,
                full,
                sh.size,
                sh.used s.queue.dequeue_pos (omega arith) (omega (arith, sh.size)),
              ))
              (inl full))
      | yes room ↦ elim (sh.free p (omega arith) room) [
        | inl free ↦
            let (q, h) = puts_in t x p s start sh.tail mine (here ∙ free) in
            inl (h.stands, h.values, room)
        | inr read ↦ inr (
            refuses (omega (arith, here, read, sh.size))
              (inr ((Reach-Held k s reached).leaving p (omega arith) room read)))
      ]
    ]
