-- ===== src/Virtio/Tests.antt =====
-- The theorem on src/lkl/virtio_queue.c at a queue whose first request is a chain of two descriptors.
use rkt_io.Common.{◌<◌, ◌≤◌, ◌≡◌, ◌⊎◌, refl, ◌==◌, true, if◌then◌else◌, some, none, [], ◌∷◌, length}
use rkt_io.Virtio.{
  Queue, Req, took, virtio_req_max_bufs, virtio_request, async_virtio_process_queue,
}
use rkt_io.Virtio.Bounds.{Sums, virtio_request_lem}

abbrev two_chained : Queue
two_chained = record {
  num = 4;
  ready = true;
  max_merge_len = 0;
  desc = λ i.
      if i == 0
      then record { addr = 0x1000; len = 16; flags = 1; next = 2 }
      else record { addr = 0x2000; len = 512; flags = 0; next = 0 };
  ring = λ i. 0;
  avail_idx = 1;
  last_queued_idx = 0;
}

abbrev both : Req
both = record {
  buf =
      record { iov_base = 0x1000; iov_len = 16 } ∷ record { iov_base = 0x2000; iov_len = 512 } ∷ [];
  total_len = 528;
}

one_processed :
    async_virtio_process_queue 2 (λ reqs req. took 1) two_chained []
    ≡ some (record two_chained { last_queued_idx = 1 }, both ∷ [])
unfolding async_virtio_process_queue
one_processed = refl

virtio_request_lem_example :
    (virtio_request two_chained ≡ none)
    ⊎ ((req : Req) × (virtio_request two_chained ≡ some req)
        × (0 < length req.buf)
        × (length req.buf ≤ virtio_req_max_bufs)
        × Sums req)
virtio_request_lem_example = virtio_request_lem two_chained
