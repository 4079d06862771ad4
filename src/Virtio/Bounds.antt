-- ===== src/Virtio/Bounds.antt =====
-- The requests that src/lkl/virtio_queue.c gathers
use rkt_io.Common.{
  ℕ, zero, suc, ◌+◌, ◌%◌, ◌^◌, ◌<◌, ◌≤◌, ◌≡◌, ◌⊎◌, inl, inr, refl, arith, ◌||◌, ◌==◌, if◌then◌else◌,
  Option, some, none, List, [], ◌∷◌, ◌++◌, length, length-append, Bool-cases, Option-cases,
}
use rkt_io.Disk.{Iovec}
use rkt_io.Virtio.{
  Desc, Queue, Req, virtio_req_max_bufs, vring_desc_at_avail_idx, get_next_desc,
  add_dev_buf_from_vring_desc, stop_merge, gather, empty_req, chained, virtio_request,
}

abbrev pub sum_len : List Iovec → ℕ
sum_len [] = 0
sum_len (b ∷ bs) = b.iov_len + sum_len bs

sum_len-append : (bs cs : List Iovec) → sum_len (bs ++ cs) ≡ sum_len bs + sum_len cs
sum_len-append [] cs = omega arith
sum_len-append (b ∷ bs) cs = omega (arith, sum_len-append bs cs)

-- Buffers that are there and not empty
abbrev pub AllUsable : List Iovec → Type 0
AllUsable [] = Unit {0}
AllUsable (b ∷ bs) = (0 < b.iov_base) × (0 < b.iov_len) × AllUsable bs

AllUsable-append :
    (bs : List Iovec) (b : Iovec)
    → AllUsable bs
    → 0 < b.iov_base
    → 0 < b.iov_len
    → AllUsable (bs ++ (b ∷ []))
AllUsable-append [] b all p q = (p, q, _)
AllUsable-append (c ∷ bs) b (r, s, all) p q = (r, s, AllUsable-append bs b all p q)

-- A request of a number of buffers
abbrev pub Sums : Req → Type 0
Sums req = (req.total_len ≡ sum_len req.buf % 2 ^ 32) × AllUsable req.buf

add_cases :
    (req : Req) (d : Desc)
    → Sums req
    → (add_dev_buf_from_vring_desc req d ≡ none)
      ⊎ ((more : Req) × (add_dev_buf_from_vring_desc req d ≡ some more)
          × (length more.buf ≡ suc (length req.buf))
          × Sums more)
unfolding add_dev_buf_from_vring_desc
add_cases req d (sums, all) = elim (Bool-cases (d.addr == 0 || d.len == 0)) [
  | inl e ↦ inl (simp (e))
  | inr e ↦
      let b : Iovec = record { iov_base = d.addr; iov_len = d.len } in
      inr (
        record { buf = req.buf ++ (b ∷ []); total_len = (req.total_len + d.len) % 2 ^ 32 },
        simp (e),
        omega (arith, length-append req.buf (b ∷ [])),
        (
          omega (arith, sum_len-append req.buf (b ∷ []), sums),
          AllUsable-append req.buf b all (ground (arith, e)) (ground (arith, e)),
        ),
      )
]

-- At most `room` more buffers than the request has with its next one, or a panic
abbrev pub Gathers : ℕ → Option (Req × Option Desc) → Type 0
Gathers most r =
    (r ≡ none)
    ⊎ ((req : Req) × (last : Option Desc) × (r ≡ some (req, last))
        × (0 < length req.buf)
        × (length req.buf ≤ most)
        × Sums req)

gather-Gathers :
    (room : ℕ) (q : Queue) (req : Req) (d : Desc) (idx most : ℕ)
    → Sums req
    → length req.buf + suc room ≤ most
    → Gathers most (gather room q req d idx)
unfolding gather
gather-Gathers zero q req d idx most sums fits = elim (add_cases req d sums) [
  | inl e ↦ inl (simp (e))
  | inr (more, e, long, fine) ↦ inr (
    more,
    (if stop_merge q more then some d else (get_next_desc q d idx).0),
    simp (e),
    omega arith,
    omega arith,
    fine,
  )
]
gather-Gathers (suc room) q req d idx most sums fits = elim (add_cases req d sums) [
  | inl e ↦ inl (simp (e))
  | inr (more, e, long, fine) ↦ elim (Bool-cases (stop_merge q more)) [
    | inl stop ↦ inr (more, some d, ground (arith, e, stop), omega arith, omega arith, fine)
    | inr on ↦ elim (Option-cases (get_next_desc q d idx).0) [
      | inl end ↦ inr (more, none, ground (arith, e, on, end), omega arith, omega arith, fine)
      | inr (n, next) ↦
          let rest =
            gather-Gathers room q more n (get_next_desc q d idx).1 most fine (omega arith) in
          elim rest [
            | inl panics ↦ inl (ground (arith, e, on, next, panics))
            | inr (done, last, ends, some_buf, few, good) ↦
                inr (done, last, ground (arith, e, on, next, ends), some_buf, few, good)
          ]
    ]
  ]
]

-- Whatever the driver has put on its rings, the gathering of a request ends; either it panics, or the request has at least one
-- buffer and at most the 19 that there is room for, none of them at 0 or empty, and its length is the sum of theirs (modulo 2^32).
pub virtio_request_lem :
    (q : Queue)
    → (virtio_request q ≡ none)
      ⊎ ((req : Req) × (virtio_request q ≡ some req)
          × (0 < length req.buf)
          × (length req.buf ≤ virtio_req_max_bufs)
          × Sums req)
unfolding virtio_request
virtio_request_lem q =
    elim (gather-Gathers 18 q empty_req (vring_desc_at_avail_idx q q.last_queued_idx)
      q.last_queued_idx 19 (refl, _) (omega arith)) [
        | inl panics ↦ inl (simp (panics))
        | inr (req, last, ends, some_buf, few, good) ↦ elim (Bool-cases (chained last)) [
          | inl more ↦ inl (simp (ends, more))
          | inr stop ↦ inr (req, simp (ends, stop), some_buf, few, good)
        ]
      ]
