-- ===== src/Disk/Plain/Moves.antt =====
-- What src/lkl/disk.c moves when the host moves fewer bytes than asked for.
use rkt_io.Common.{
  ℕ, zero, suc, ◌+◌, ◌-◌, ◌^◌, ◌≤◌, ◌<◌, ◌≡◌, refl, sym, ap, ◌∙◌, arith, true, false, Option, none,
  some, ◌⊎◌, inl, inr, subst, List, [], ◌∷◌, dec_lt,
}
use mathlib.Core.Path.{fun_ext}
use rkt_io.Disk.{Iovec, Ssize, got, minus, transfer}
use rkt_io.Disk.Plain.{Direction, pread, pwrite, Io, move, called, Host, move_loop, is_positive}

-- What the system calls promise: they do not move more than they are asked for.
abbrev pub Obeys : Host → Type 0
Obeys host = (call len n : ℕ) → host call len ≡ got n → n ≤ len

pub transfer-transfer :
    (from to : ℕ → ℕ) (src dst n m : ℕ)
    → transfer from (src + n) (transfer from src to dst n) (dst + n) m
      ≡ transfer from src to dst (n + m)
unfolding transfer
transfer-transfer from to src dst n m = fun_ext λ a. ground arith

-- `n` bytes between memory at `addr` and the file at `off`, in one piece
unfoldable pub moved : Direction → ℕ → ℕ → ℕ → (ℕ → ℕ) × (ℕ → ℕ) → (ℕ → ℕ) × (ℕ → ℕ)
moved pread addr off n (mem, file) = (transfer file off mem addr n, file)
moved pwrite addr off n (mem, file) = (mem, transfer mem addr file off n)

moved-moved :
    (fn : Direction) (addr off n m : ℕ) (mf : (ℕ → ℕ) × (ℕ → ℕ))
    → moved fn (addr + n) (off + n) m (moved fn addr off n mf) ≡ moved fn addr off (n + m) mf
unfolding moved
moved-moved pread addr off n m (mem, file) =
    ap (λ f. (f, file)) (transfer-transfer file mem off addr n m)
moved-moved pwrite addr off n m (mem, file) =
    ap (λ f. (mem, f)) (transfer-transfer mem file addr off n m)

-- Calls one after the other, from call `c` on up to call `c'`, each for what is left of `len` bytes, that have moved `n` of them
pub data Pieces (host : Host) : ℕ → ℕ → ℕ → ℕ → Type 0 where
  no_piece : {c len : ℕ} → Pieces host c len c 0
  piece :
      {c len c' n : ℕ} (m : ℕ)
      → host c len ≡ got (suc m)
      → Pieces host (c + 1) (len - suc m) c' n
      → Pieces host c len c' (suc m + n)

-- The bytes of the buffers in order, from the offset on, with the calls from `c` up to `c'` that move them: all bytes (`none`), or up to
-- the call, the last, that moved nothing, and what it returned
pub data Moves (host : Host) (fn : Direction)
    : ℕ → ℕ → List Iovec → (ℕ → ℕ) × (ℕ → ℕ) → ℕ → (ℕ → ℕ) × (ℕ → ℕ) → Option Ssize → Type 0 where
  all_moved : {c off : ℕ} {mf : (ℕ → ℕ) × (ℕ → ℕ)} → Moves host fn c off [] mf c mf none
  one_moved :
      {c off c1 c' : ℕ} {b : Iovec} {bufs : List Iovec} {mf mf' : (ℕ → ℕ) × (ℕ → ℕ)}
      {end : Option Ssize}
      → 0 < b.iov_len
      → Pieces host c b.iov_len c1 b.iov_len
      → Moves host fn c1 (off + b.iov_len) bufs (moved fn b.iov_base off b.iov_len mf) c' mf' end
      → Moves host fn c off (b ∷ bufs) mf c' mf' end
  stopped :
      {c off c1 : ℕ} {b : Iovec} {bufs : List Iovec} {mf mf' : (ℕ → ℕ) × (ℕ → ℕ)} (n : ℕ)
      (r : Ssize)
      → (n ≡ 0) ⊎ (n < b.iov_len)
      → Pieces host c b.iov_len c1 n
      → host c1 (b.iov_len - n) ≡ r
      → is_positive r ≡ false
      → mf' ≡ moved fn b.iov_base off n mf
      → Moves host fn c off (b ∷ bufs) mf (c1 + 1) mf' (some r)

abbrev pub contents : Io → (ℕ → ℕ) × (ℕ → ℕ)
contents io = (io.mem, io.file)

contents-move :
    (fn : Direction) (addr off n : ℕ) (io : Io)
    → contents (move fn addr off n io) ≡ moved fn addr off n (contents io)
unfolding move moved
contents-move pread addr off n io = refl
contents-move pwrite addr off n io = refl

state-move : (fn : Direction) (addr off n : ℕ) (io : Io) → (move fn addr off n io).state ≡ io.state
unfolding move
state-move pread addr off n io = refl
state-move pwrite addr off n io = refl

moved-zero : (fn : Direction) (addr off : ℕ) (mf : (ℕ → ℕ) × (ℕ → ℕ)) → moved fn addr off 0 mf ≡ mf
unfolding moved transfer
moved-zero pread addr off (mem, file) = ap (λ f. (f, file)) (fun_ext λ a. ground arith)
moved-zero pwrite addr off (mem, file) = ap (λ f. (mem, f)) (fun_ext λ a. ground arith)

calls-move : (fn : Direction) (addr off n : ℕ) (io : Io) → (move fn addr off n io).calls ≡ io.calls
unfolding move
calls-move pread addr off n io = refl
calls-move pwrite addr off n io = refl

-- How the inner loop ends behind `n` bytes and the calls up to `c1`: with the whole buffer, or with a call that moved nothing
abbrev pub Ended : Host → ℕ → ℕ → ℕ → ℕ → Ssize → Type 0
Ended host len n c1 calls ret =
    ((n ≡ len) × (0 < len) × (calls ≡ c1) × (is_positive ret ≡ true))
    ⊎ (((n ≡ 0) ⊎ (n < len))
        × (host c1 (len - n) ≡ ret)
        × (calls ≡ c1 + 1)
        × (is_positive ret ≡ false))

-- What the inner loop comes to
pub record LoopEnds (host : Host) (fn : Direction) (fuel addr len off : ℕ) (io : Io) : Type 0 where
  pub after : Io
  pub ret : Ssize
  pub n : ℕ
  pub c1 : ℕ
  pub ends : move_loop host fn fuel addr len off io ≡ some (after, ret, off + n)
  pub made : contents after ≡ moved fn addr off n (contents io)
  pub pieces : Pieces host io.calls len c1 n
  pub ended : Ended host len n c1 after.calls ret
  pub same_state : after.state ≡ io.state

-- A further piece in front
Ended-piece :
    (host : Host) (m len n c1 calls : ℕ) (ret : Ssize)
    → suc m < len
    → Ended host (len - suc m) n c1 calls ret
    → Ended host len (suc m + n) c1 calls ret
Ended-piece host m len n c1 calls ret p (inl (whole, some_left, count, good)) =
    inl (omega (arith, whole), omega arith, count, good)
Ended-piece host m len n c1 calls ret p (inr (short, stop, count, bad)) =
    let left : len - suc m - n ≡ len - (suc m + n) = omega arith in
    inr (
      elim short [ inl z ↦ inr (omega (arith, z)) | inr z ↦ inr (omega (arith, z)) ],
      subst (λ k. host c1 k ≡ ret) left stop,
      count,
      bad,
    )

pub move_loop_lem :
    (host : Host) (fn : Direction) (fuel addr len off : ℕ) (io : Io)
    → Obeys host
    → len < 2 ^ 31
    → len < fuel
    → LoopEnds host fn fuel addr len off io
unfolding move_loop
move_loop_lem host fn zero addr len off io obeys small enough = absurd (omega arith)
move_loop_lem host fn (suc fuel) addr len off io obeys small enough =
    by_answer (λ a l o i p q. move_loop_lem host fn fuel a l o i obeys p q) (host io.calls len) refl
  where
    nothing :
        (r : Ssize)
        → host io.calls len ≡ r
        → is_positive r ≡ false
        → move_loop host fn (suc fuel) addr len off io ≡ some (called io, r, off + 0)
        → LoopEnds host fn (suc fuel) addr len off io
    nothing r e bad ends =
        let all_left : len - 0 ≡ len = omega arith in
        record {
          after = called io;
          ret = r;
          n = 0;
          c1 = io.calls;
          ends = ends;
          made = sym (moved-zero fn addr off (contents io));
          pieces = no_piece;
          ended = inr (inl refl, ap (host io.calls) all_left ∙ e, refl, bad);
          same_state = refl;
        }

    by_answer :
        ((a l o : ℕ) (i : Io) → l < 2 ^ 31 → l < fuel → LoopEnds host fn fuel a l o i)
        → (r : Ssize) → host io.calls len ≡ r
        → LoopEnds host fn (suc fuel) addr len off io
    by_answer rest (minus n) e = nothing (minus n) e refl (ground arith)
    by_answer rest (got zero) e = nothing (got 0) e refl (ground arith)
    by_answer rest (got (suc n)) e =
        let fits = obeys io.calls len (suc n) e in
        let io' = move fn addr off (suc n) (called io) in
        let made' : contents io' ≡ moved fn addr off (suc n) (contents io) =
          contents-move fn addr off (suc n) (called io) in
        let count : io'.calls ≡ io.calls + 1 = calls-move fn addr off (suc n) (called io) in
        elim (dec_lt (suc n) len) [
          | no p ↦
              let all : suc n + 0 ≡ suc n = omega arith in
              record {
                after = io';
                ret = got (suc n);
                n = suc n;
                c1 = io.calls + 1;
                ends = ground arith;
                made = made';
                pieces = subst (Pieces host io.calls len (io.calls + 1)) all (piece n e no_piece);
                ended = inl (omega (arith, fits), omega (arith, fits), count, refl);
                same_state = state-move fn addr off (suc n) (called io);
              }
          | yes p ↦
              let next =
                rest (addr + suc n) (len - suc n) (off + suc n) io' (omega arith) (omega arith) in
              let far : off + suc n + next.n ≡ off + (suc n + next.n) = omega arith in
              record {
                after = next.after;
                ret = next.ret;
                n = suc n + next.n;
                c1 = next.c1;
                ends = ground (arith, next.ends, far);
                made =
                    next.made
                    ∙ ap (moved fn (addr + suc n) (off + suc n) next.n) made'
                    ∙ moved-moved fn addr off (suc n) next.n (contents io);
                pieces =
                    piece n e
                      (subst (λ c. Pieces host c (len - suc n) next.c1 next.n) count next.pieces);
                ended =
                    Ended-piece host n len next.n next.c1 next.after.calls next.ret p next.ended;
                same_state = next.same_state ∙ state-move fn addr off (suc n) (called io);
              }
        ]
