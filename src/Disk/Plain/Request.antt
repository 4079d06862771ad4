-- ===== src/Disk/Plain/Request.antt =====
-- do_plain_rw and blk_request of src/lkl/disk.c
use rkt_io.Common.{
  ℕ, suc, ◌+◌, ◌*◌, ◌%◌, ◌^◌, ◌<◌, ◌≡◌, ◌⊎◌, inl, inr, refl, sym, ap, ◌∙◌, subst, arith, Bool, true,
  false, Option, none, some, List, [], ◌∷◌, Bool-cases,
}
use rkt_io.Disk.{
  DiskConfig, Iovec, ReqType, read, write, Status, ok, ioerr, Ssize, got, minus, through_int,
}
use rkt_io.Disk.Plain.{
  Direction, pread, pwrite, Io, Host, move_loop, set_pinned, must_wait, is_positive, rw_loop,
  do_plain_rw, status_of, blk_request, called,
}
use rkt_io.Disk.Plain.Moves.{
  Obeys, Pieces, moved, Moves, all_moved, one_moved, stopped, contents, move_loop_lem,
}

-- Every buffer is shorter than 2 ^ 31 bytes and than the fuel.
abbrev pub AllShort : ℕ → List Iovec → Type 0
AllShort fuel [] = Unit {0}
AllShort fuel (b ∷ bufs) = (b.iov_len < 2 ^ 31) × (b.iov_len < fuel) × AllShort fuel bufs

-- The value that is returned, from the last one before
abbrev pub LastOf : Ssize → Option Ssize → Ssize → Type 0
LastOf ret none last = (last ≡ ret) ⊎ (is_positive last ≡ true)
LastOf ret (some r) last = last ≡ r

-- What the loop over the buffers comes to
record Ends (host : Host) (fn : Direction) (fuel : ℕ) (disks : List DiskConfig) (fd : ℕ)
    (bufs : List Iovec) (off : ℕ) (ret : Ssize) (io : Io) : Type 0 where
  pub after : Io
  pub last : Ssize
  pub end : Option Ssize
  pub ends : rw_loop host fn fuel disks fd bufs off ret io ≡ some (after, last)
  pub moves : Moves host fn io.calls off bufs (contents io) after.calls (contents after) end
  pub returned : LastOf ret end last
  pub state_back : after.state ≡ io.state

pinned-contents : (w : Bool) (io : Io) → contents (set_pinned w io) ≡ contents io
pinned-contents true io = refl
pinned-contents false io = refl

pinned-calls : (w : Bool) (io : Io) → (set_pinned w io).calls ≡ io.calls
pinned-calls true io = refl
pinned-calls false io = refl

later_last :
    (ret first last : Ssize) (end : Option Ssize)
    → is_positive first ≡ true
    → LastOf first end last
    → LastOf ret end last
later_last ret first last none good (inl e) = inr (ap is_positive e ∙ good)
later_last ret first last none good (inr e) = inr e
later_last ret first last (some r) good e = e

rw_loop_lem :
    (host : Host) (fn : Direction) (fuel : ℕ) (disks : List DiskConfig) (fd : ℕ) (bufs : List Iovec)
    (off : ℕ) (ret : Ssize) (io : Io)
    → Obeys host
    → AllShort fuel bufs
    → Ends host fn fuel disks fd bufs off ret io
unfolding rw_loop
rw_loop_lem host fn fuel disks fd [] off ret io obeys short = record {
  after = io;
  last = ret;
  end = none;
  ends = refl;
  moves = all_moved;
  returned = inl refl;
  state_back = refl;
}
rw_loop_lem host fn fuel disks fd (b ∷ bufs) off ret io obeys (small, enough, short) =
    let io' = set_pinned (must_wait disks fd) io in
    let len : through_int b.iov_len ≡ b.iov_len = ground arith in
    let first = move_loop_lem host fn fuel b.iov_base b.iov_len off io' obeys small enough in
    let back = record (first.after) { state = io.state } in
    let made : contents back ≡ moved fn b.iov_base off first.n (contents io) =
      first.made ∙ ap (moved fn b.iov_base off first.n) (pinned-contents (must_wait disks fd) io) in
    let pieces : Pieces host io.calls b.iov_len first.c1 first.n =
      subst (λ c. Pieces host c b.iov_len first.c1 first.n) (pinned-calls (must_wait disks fd) io)
        first.pieces in
    elim first.ended [
      | inr (short_of, stop, count, bad) ↦ record {
        after = back;
        last = first.ret;
        end = some first.ret;
        ends = ground (arith, first.ends, len, bad);
        moves =
            subst
              (λ c.
                Moves host fn io.calls off (b ∷ bufs) (contents io) c (contents back)
                  (some first.ret))
              (sym count) (stopped first.n first.ret short_of pieces stop bad made);
        returned = refl;
        state_back = refl;
      }
      | inl (full, some_left, count, good) ↦
          let rest =
            rw_loop_lem host fn fuel disks fd bufs (off + first.n) first.ret back obeys short in
          let rest_moves : Moves host fn first.c1 (off + first.n) bufs
              (moved fn b.iov_base off first.n (contents io)) rest.after.calls (contents rest.after)
              rest.end =
            subst
              (λ c.
                Moves host fn c (off + first.n) bufs (moved fn b.iov_base off first.n (contents io))
                  rest.after.calls (contents rest.after) rest.end)
              count
              (subst
                (λ mf.
                  Moves host fn back.calls (off + first.n) bufs mf rest.after.calls
                    (contents rest.after) rest.end)
                made rest.moves) in
          record {
            after = rest.after;
            last = rest.last;
            end = rest.end;
            ends = ground (arith, first.ends, len, good, rest.ends);
            moves =
                one_moved some_left (subst (Pieces host io.calls b.iov_len first.c1) full pieces) (
                  subst
                    (λ n.
                      Moves host fn first.c1 (off + n) bufs
                        (moved fn b.iov_base off n (contents io)) rest.after.calls
                        (contents rest.after) rest.end)
                    full rest_moves);
            returned = later_last ret first.ret rest.last rest.end good rest.returned;
            state_back = rest.state_back;
          }
    ]

-- The type of a request for each direction
abbrev pub type_of : Direction → ReqType
type_of pread = read
type_of pwrite = write

blk_request-do_plain_rw :
    (host : Host) (fn : Direction) (sync r : Ssize) (fuel : ℕ) (disks : List DiskConfig)
    (fd sector : ℕ) (bufs : List Iovec) (io io' : Io)
    → rw_loop host fn fuel disks fd bufs (sector * 512 % 2 ^ 64) (got 0) io ≡ some (io', r)
    → blk_request host sync fuel disks fd
        (record { type = type_of fn; sector = sector; buf = bufs })
        io
      ≡ some (io', status_of r)
unfolding blk_request do_plain_rw
blk_request-do_plain_rw host pread sync r fuel disks fd sector bufs io io' e = ground arith
blk_request-do_plain_rw host pwrite sync r fuel disks fd sector bufs io io' e = ground arith

-- OK where all was moved or the last call gave 0, the end of the file, and IOERR where it gave an error
abbrev pub status_at : Option Ssize → Status
status_at none = ok
status_at (some (got n)) = ok
status_at (some (minus n)) = ioerr

status_last :
    (end : Option Ssize) (last : Ssize) → LastOf (got 0) end last → status_of last ≡ status_at end
status_last none last (inl e) = ap status_of e
status_last none (got n) (inr e) = refl
status_last none (minus n) (inr e) = absurd (ground arith)
status_last (some (got n)) last e = ap status_of e
status_last (some (minus n)) last e = ap status_of e

-- Where no system call moves more than it is asked for, and every buffer is shorter than 2 ^ 31 bytes and than the fuel, a read or write request
-- ends. It makes one call after the other, each for what is left of a buffer, and moves the bytes between the file from the sector on and
-- the buffers in order: all of them, where every call gives a positive number and no buffer is empty, and otherwise those before the first
-- call that does not, which is the last. The status is IOERR if that call gives an error, and OK if it gives 0 or all is moved. The
-- thread's state bits are as they were.
pub blk_request_rw :
    (host : Host) (fn : Direction) (sync : Ssize) (fuel : ℕ) (disks : List DiskConfig)
    (fd sector : ℕ) (bufs : List Iovec) (io : Io)
    → Obeys host
    → AllShort fuel bufs
    → (io' : Io) × (end : Option Ssize) × (blk_request host sync fuel disks fd
          (record { type = type_of fn; sector = sector; buf = bufs })
          io
        ≡ some (io', status_at end))
      × Moves host fn io.calls
          (sector * 512 % 2 ^ 64)
          bufs
          (contents io)
          io'.calls
          (contents io')
          end
      × (io'.state ≡ io.state)
blk_request_rw host fn sync fuel disks fd sector bufs io obeys short =
    let r = rw_loop_lem host fn fuel disks fd bufs (sector * 512 % 2 ^ 64) (got 0) io obeys short in
    let ends =
      blk_request-do_plain_rw host fn sync r.last fuel disks fd sector bufs io r.after r.ends in
    (
      r.after,
      r.end,
      ends ∙ ap (λ st. some (r.after, st)) (status_last r.end r.last r.returned),
      r.moves,
      r.state_back,
    )

-- A read request whose first system call moves nothing because the file is at its end has the status OK, although no byte of the file was moved.
pub blk_request_eof :
    (host : Host) (sync : Ssize) (fuel : ℕ) (disks : List DiskConfig) (fd sector : ℕ) (b : Iovec)
    (bufs : List Iovec) (io : Io)
    → host io.calls (through_int b.iov_len) ≡ got 0
    → (io' : Io) × (blk_request host sync
          (suc fuel)
          disks
          fd
          (record { type = read; sector = sector; buf = b ∷ bufs })
          io
        ≡ some (io', ok))
      × (contents io' ≡ contents io)
unfolding blk_request do_plain_rw rw_loop move_loop
blk_request_eof host sync fuel disks fd sector b bufs io eof =
    elim (Bool-cases (must_wait disks fd)) [
      | inl w ↦ (record (called (set_pinned true io)) { state = io.state }, ground arith, refl)
      | inr w ↦ (record (called io) { state = io.state }, ground arith, refl)
    ]
