-- ===== src/Virtio.antt =====
-- src/lkl/virtio_queue.c: gathering the requests that the driver has made available on a virtio queue. The host is
-- little-endian, so that le16toh changes nothing. The driver's rings are as they were read; the device is an argument.
pub mod Bounds
mod Tests
use rkt_io.Common.{
  ℕ, zero, suc, ◌+◌, ◌-◌, ◌%◌, ◌^◌, Bool, true, false, not, ◌&&◌, ◌||◌, ltb, ◌==◌, bit_and,
  if◌then◌else◌, Option, some, none, ◌>>=◌, List, [], ◌∷◌, ◌++◌, length,
}
use rkt_io.Disk.{Iovec}

-- `struct lkl_vring_desc`
pub record Desc : Type 0 where
  pub addr : ℕ
  pub len : ℕ
  pub flags : ℕ
  pub next : ℕ

-- `struct virtio_queue`, the fields that the processing uses, with avail->ring and avail->idx
pub record Queue : Type 0 where
  pub num : ℕ
  pub ready : Bool
  pub max_merge_len : ℕ
  pub desc : ℕ → Desc
  pub ring : ℕ → ℕ
  pub avail_idx : ℕ
  pub last_queued_idx : ℕ

-- `struct virtio_req`, whose `buf_count` is the length of `buf`
pub record Req : Type 0 where
  pub buf : List Iovec
  pub total_len : ℕ

-- 65536 / 4096 + 1 and 2
abbrev pub virtio_req_max_bufs : ℕ
virtio_req_max_bufs = 19

abbrev pub mask : Queue → ℕ
mask q = (q.num + 2 ^ 32 - 1) % 2 ^ 32

abbrev pub has_next : Desc → Bool
has_next d = not (bit_and d.flags 1 == 0)

abbrev pub vring_desc_at_le_idx : Queue → ℕ → Desc
vring_desc_at_le_idx q le_idx = q.desc (bit_and le_idx (mask q))

abbrev pub vring_desc_at_avail_idx : Queue → ℕ → Desc
vring_desc_at_avail_idx q idx = vring_desc_at_le_idx q (q.ring (bit_and idx (mask q)))

-- The descriptor, or NULL, and `*idx`
unfoldable pub get_next_desc : Queue → Desc → ℕ → Option Desc × ℕ
get_next_desc q d idx =
    let after = (idx + 1) % 2 ^ 16 in
    if not (q.max_merge_len == 0)
    then (if after == q.avail_idx
        then (none, after)
        else (some (vring_desc_at_avail_idx q after), after))
    else if not (has_next d)
    then (none, idx)
    else (some (vring_desc_at_le_idx q d.next), idx)

-- `none` is virtio_panic.
unfoldable pub add_dev_buf_from_vring_desc : Req → Desc → Option Req
add_dev_buf_from_vring_desc req d =
    if d.addr == 0 || d.len == 0
    then none
    else some (record {
      buf = req.buf ++ (record { iov_base = d.addr; iov_len = d.len } ∷ []);
      total_len = (req.total_len + d.len) % 2 ^ 32;
    })

abbrev pub stop_merge : Queue → Req → Bool
stop_merge q req = not (q.max_merge_len == 0) && ltb q.max_merge_len req.total_len

-- The loop over the descriptors, which may take `room` more of them behind this one; the result has the descriptor that was
-- reached last, if there is one. `none` is virtio_panic.
unfoldable pub gather : ℕ → Queue → Req → Desc → ℕ → Option (Req × Option Desc)
unfolding get_next_desc add_dev_buf_from_vring_desc
gather zero q req d idx = do
  more ← add_dev_buf_from_vring_desc req d
  (let next = get_next_desc q d idx in some (more, (if stop_merge q more then some d else next.0)))
gather (suc room) q req d idx = do
  more ← add_dev_buf_from_vring_desc req d
  (let next = get_next_desc q d idx in
      if stop_merge q more
      then some (more, some d)
      else elim next.0 [ none ↦ some (more, none) | some e ↦ gather room q more e next.1 ])

abbrev pub empty_req : Req
empty_req = record { buf = []; total_len = 0 }

abbrev pub chained : Option Desc → Bool
chained none = false
chained (some d) = has_next d

-- The request that is handed to the device
unfoldable pub virtio_request : Queue → Option Req
unfolding gather
virtio_request q = do
  gathered ←
      gather (virtio_req_max_bufs - 1) q empty_req (vring_desc_at_avail_idx q q.last_queued_idx)
        q.last_queued_idx
  if chained gathered.1 then none else some gathered.0

-- What the enqueue of a device returns, with its state: a negative number, or how many entries it took
pub data Taken : Type 0 where
  refused : Taken
  took : ℕ → Taken

-- With the requests so far, the last first, as the state of the device
unfoldable pub virtio_process_one :
    (List Req → Req → Taken) → Queue → List Req → Option (List Req × Taken)
unfolding virtio_request
virtio_process_one enqueue q reqs = do req ← virtio_request q; some (req ∷ reqs, enqueue reqs req)

-- The loop, with fuel; `none` is virtio_panic or no fuel.
unfoldable pub queue_loop :
    ℕ → (List Req → Req → Taken) → Queue → List Req → Option (Queue × List Req)
unfolding virtio_process_one
queue_loop zero enqueue q reqs = none
queue_loop (suc fuel) enqueue q reqs =
    if q.last_queued_idx == q.avail_idx then some (q, reqs) else (do
      one ← virtio_process_one enqueue q reqs
      elim one.1 [
        | refused ↦ some (q, one.0)
        | took n ↦
            queue_loop fuel enqueue
              (record q { last_queued_idx = (q.last_queued_idx + n) % 2 ^ 16 }) one.0
      ])

unfoldable pub async_virtio_process_queue :
    ℕ → (List Req → Req → Taken) → Queue → List Req → Option (Queue × List Req)
unfolding queue_loop
async_virtio_process_queue fuel enqueue q reqs =
    let done = queue_loop fuel enqueue q reqs in if not q.ready then some (q, reqs) else done
