-- ===== src/Message.antt =====
-- kernel/msg.c: messages between processes, over the list of requests that wait.
pub mod Balance
mod Examples
use chouryos.Base.{
  ℕ, ◌+◌, ◌-◌, ◌^◌, min, bit_and, bit_or, Bool, true, false, ◌&&◌, ◌||◌, Option, none, some, List,
  [], ◌∷◌, ◌++◌, ◌==◌, if◌then◌else◌, u32,
}
use chouryos.Base.Int.{ℤ, to_int}
use chouryos.Process.{Table, Dev, block, unblock}

abbrev pub blocking : ℕ
blocking = 1

abbrev pub compelet : ℕ
compelet = 2

-- `struct wmlist`, with its address.
pub record Request : Type 0 where
  pub address : ℕ
  pub from : ℕ
  pub to : ℕ
  pub buff : ℕ
  pub left : ℕ
  pub flags : ℕ

-- The list behind `wmhead`, the process table, the memory of the processes, and whether interrupts
-- are let through.
pub record Mail (M : Type 0) : Type 0 where
  pub requests : List Request
  pub table : Table
  pub memory : M
  pub interrupts : Bool

-- What a walk over the list has done: `left` and `buff` of the caller, and whether it is to return.
pub record Walk (M : Type 0) : Type 0 where
  pub returns : Bool
  pub left : ℕ
  pub buff : ℕ
  pub requests : List Request
  pub table : Table
  pub memory : M

abbrev pub is_open : Request → Bool
is_open t = bit_and t.flags compelet == 0

-- A request that `n` bytes are moved for is complete, if it does not block or has none left.
abbrev pub is_served : Request → ℕ → Bool
is_served t n = (bit_and t.flags blocking == 0) || (t.left - n == 0)

abbrev pub served : Request → ℕ → Request
served t n = record t {
  left = t.left - n;
  buff = u32 (t.buff + n);
  flags = if is_served t n then bit_or t.flags compelet else t.flags;
}

-- A request leaves the list.
abbrev pub unlink : ℕ → List Request → List Request
unlink address [] = []
unlink address (t ∷ ts) =
    let rest = unlink address ts in if t.address == address then ts else t ∷ rest

-- How a call ends: with a result, or blocked with a request in the list.
pub data Call (M : Type 0) : Type 0 where
  returned : ℤ → Mail M → Call M
  blocked : Mail M → Call M

module _ {M : Type 0} where
  abbrev pub keep : Request → Walk M → Walk M
  keep t w = record w { requests = t ∷ w.requests }

  -- The loop of `msg_read` and of `msg_write`: which requests it serves, `cpysize`, the copy, and
  -- the process that is woken.
  unfoldable pub walk :
      (Request → Bool)
      → (ℕ → Request → ℕ)
      → (ℕ → Request → ℕ → M → M)
      → (Request → ℕ)
      → ℕ
      → List Request
      → ℕ
      → ℕ
      → Table
      → M
      → Walk M
  walk serves cpysize move owner flags [] left buff k m = record {
    returns = false;
    left = left;
    buff = buff;
    requests = [];
    table = k;
    memory = m;
  }
  walk serves cpysize move owner flags (t ∷ ts) left buff k m =
      let n = cpysize left t in
      let t' = served t n in
      let k' = if is_served t n then unblock (owner t) k else k in
      let m' = move buff t n m in
      let left' = u32 (left + 2 ^ 32 - n) in
      let stop : Walk M = record {
        returns = true;
        left = left';
        buff = u32 (buff + n);
        requests = t' ∷ ts;
        table = k';
        memory = m';
      } in
      let on = keep t' (walk serves cpysize move owner flags ts left' (u32 (buff + n)) k' m') in
      let skip = keep t (walk serves cpysize move owner flags ts left buff k m) in
      if serves t
      then (if (bit_and flags blocking == 0) || (left' == 0) then stop else on)
      else skip

  -- The end of the two calls. A call that returns from the loop has not called `sti`; else the
  -- request goes to the end of the list and the process blocks, with `fuel` rounds for `schedule`.
  abbrev pub wait_for : ℕ → ℕ → (ℕ → ℕ → Request) → Walk M → Option (Call M)
  wait_for fuel len request w =
      let waits = λ (k : Table). blocked (record {
        requests = w.requests ++ (request w.buff w.left ∷ []);
        table = k;
        memory = w.memory;
        interrupts = true;
      }) in
      let sleeps : Option (Call M) = elim (block fuel w.table.curpid Dev.msg w.table) [
        | none ↦ none
        | some k ↦ some (waits k)
      ] in
      if w.returns
      then some (
          returned (to_int (u32 (len + 2 ^ 32 - w.left))) (record {
            requests = w.requests;
            table = w.table;
            memory = w.memory;
            interrupts = false;
          }))
      else sleeps

  -- What follows in either call once the process runs again: `ret`, and the request leaves the list.
  unfoldable pub resumed : ℕ → Request → Mail M → ℤ × Mail M
  resumed len tmp x = (
    to_int (u32 (len + 2 ^ 32 - tmp.left)),
    record x { requests = unlink tmp.address x.requests; interrupts = true },
  )

  -- `umemcpy` copies between the memories of two processes: to, its address, from, its address, size.
  module _ (umemcpy : ℕ → ℕ → ℕ → ℕ → ℕ → M → M) where
    -- `msg_read`; `address` is what `malloc` gives.
    unfoldable pub msg_read : ℕ → ℕ → ℕ → ℕ → ℕ → ℕ → Mail M → Option (Call M)
    msg_read fuel address from buff len flags x =
        let me = x.table.curpid in
        let serves =
          λ (t : Request). (t.to == me) && ((t.from == from) || (from == 0)) && is_open t in
        let request : ℕ → ℕ → Request = λ buff left. record {
          address = address;
          from = from;
          to = me;
          buff = buff;
          left = left;
          flags = flags;
        } in
        wait_for fuel len request (
          walk serves (λ left t. min left t.left) (λ buff t n. umemcpy me buff t.from t.buff n)
            (λ t. t.from) flags x.requests len buff x.table x.memory)

    -- `msg_write`, whose `cpysize` goes by `len`.
    unfoldable pub msg_write : ℕ → ℕ → ℕ → ℕ → ℕ → ℕ → Mail M → Option (Call M)
    msg_write fuel address to buff len flags x =
        let me = x.table.curpid in
        let serves =
          λ (t : Request). ((t.from == me) || (t.from == 0)) && (t.to == to) && is_open t in
        let request : ℕ → ℕ → Request = λ buff left. record {
          address = address;
          from = me;
          to = to;
          buff = buff;
          left = left;
          flags = flags;
        } in
        wait_for fuel len request (
          walk serves (λ left t. min len t.left) (λ buff t n. umemcpy t.to t.buff me buff n)
            (λ t. t.to) flags x.requests len buff x.table x.memory)
