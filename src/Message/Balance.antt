-- ===== src/Message/Balance.antt =====
-- No byte of a request is lost: what the requests of the list have left goes down by what a call
-- moves.
use chouryos.Base.{
  ℕ, ◌+◌, ◌-◌, ◌^◌, ◌≤◌, ◌<◌, ◌≡◌, refl, ap, ◌∙◌, min, bit_and, Bool, Bool-cases, Option-cases,
  subst, false, ◌||◌, ◌&&◌, List, [], ◌∷◌, ◌++◌, Option, none, some, ◌==◌, if◌then◌else◌, u32,
  arith, inl, inr,
}
use chouryos.Base.Int.{pos, to_int, to_int-pos}
use chouryos.Process.{Table, Dev, block, unblock}
use chouryos.Message.{
  Request, Mail, Walk, Call, returned, blocked, walk, wait_for, is_served, blocking, msg_read,
  is_open,
}

-- What the requests have left.
abbrev pub total : List Request → ℕ
total [] = 0
total (t ∷ ts) = t.left + total ts

total-append : (xs ys : List Request) → total (xs ++ ys) ≡ total xs + total ys
total-append [] ys = omega arith
total-append (t ∷ ts) ys = omega (arith, total-append ts ys)

module _ {M : Type 0} (serves : Request → Bool) (move : ℕ → Request → ℕ → M → M)
    (owner : Request → ℕ) (flags : ℕ) where
  -- The walk of a read.
  walk-total :
      (ts : List Request) (left buff : ℕ) (k : Table) (m : M)
      → left < 2 ^ 32
      → ((walk serves (λ left t. min left t.left) move owner flags ts left buff k m).left ≤ left)
        × (total ts
              + (walk serves (λ left t. min left t.left) move owner flags ts left buff k m).left
            ≡ total
                (walk serves (λ left t. min left t.left) move owner flags ts left buff k m).requests
              + left)
  unfolding walk
  walk-total [] left buff k m h = (omega arith, omega arith)
  walk-total (t ∷ ts) left buff k m h =
      let n = min left t.left in
      let left' : u32 (left + 2 ^ 32 - n) ≡ left - n = omega arith in
      let k' = if is_served t n then unblock (owner t) k else k in
      let on =
        walk-total ts (u32 (left + 2 ^ 32 - n)) (u32 (buff + n)) k' (move buff t n m)
          (omega arith) in
      let skip = walk-total ts left buff k m h in
      elim (Bool-cases (serves t)) [
        | inr e ↦ rw e (skip.0, omega (arith, skip.1))
        | inl e ↦
            elim (Bool-cases ((bit_and flags blocking == 0) || (u32 (left + 2 ^ 32 - n) == 0))) [
              | inl stops ↦ rw (e, stops) (omega arith, omega arith)
              | inr goes ↦ rw (e, goes) (omega (arith, on.0), omega (arith, on.1))
            ]
      ]

-- What a read of `len` bytes moves: `n` of them are gone from the list when it returns, and its own
-- request, behind the others, is for those that are left when it blocks.
abbrev pub Ended : {M : Type 0} → Mail M → (ℕ → ℕ → Request) → ℕ → Call M → Type 0
Ended x request len (returned r x') =
    (n : ℕ) × (r ≡ pos n)
    × (n ≤ len)
    × (total x.requests ≡ total x'.requests + n)
    × (x'.interrupts ≡ false)
Ended x request len (blocked x') =
    (n : ℕ) × (n ≤ len)
    × (ts : List Request) × (buff : ℕ) × (x'.requests ≡ ts ++ (request buff (len - n) ∷ []))
    × (total x.requests ≡ total ts + n)

module _ {M : Type 0} (x : Mail M) (fuel len : ℕ) (small : len < 2 ^ 31)
    (request : ℕ → ℕ → Request) where
  abbrev Ends : Option (Call M) → Type 0
  Ends none = len ≡ len
  Ends (some c) = Ended x request len c

  wait_for-Ends :
      (w : Walk M)
      → w.left ≤ len
      → total x.requests + w.left ≡ total w.requests + len
      → Ends (wait_for fuel len request w)
  wait_for-Ends w le sum = elim (Bool-cases w.returns) [
    | inl e ↦
        let moved : u32 (len + 2 ^ 32 - w.left) ≡ len - w.left = omega arith in
        let ret : to_int (u32 (len + 2 ^ 32 - w.left)) ≡ pos (len - w.left) =
          ap to_int moved ∙ to_int-pos (len - w.left) (omega arith) in
        rw e (len - w.left, ret, omega arith, omega arith, refl)
    | inr e ↦ elim (Option-cases (block fuel w.table.curpid Dev.msg w.table)) [
      | inl none_left ↦ rw (e, none_left) refl
      | inr (k, waits) ↦
          let rest : w.left ≡ len - (len - w.left) = omega arith in
          rw (e, waits)
            (
              len - w.left,
              omega arith,
              w.requests,
              w.buff,
              ap (λ l. w.requests ++ (request w.buff l ∷ [])) rest,
              omega arith,
            )
    ]
  ]

  wait_for-Ended :
      (w : Walk M)
      → w.left ≤ len
      → total x.requests + w.left ≡ total w.requests + len
      → (c : Call M) → wait_for fuel len request w ≡ some c
      → Ended x request len c
  wait_for-Ended w le sum c e = subst Ends e (wait_for-Ends w le sum)

-- The request of a read by `me`.
abbrev pub reading : ℕ → ℕ → ℕ → ℕ → ℕ → ℕ → Request
reading address from me flags buff left = record {
  address = address;
  from = from;
  to = me;
  buff = buff;
  left = left;
  flags = flags;
}

-- A `msg_read` of less than 2 ^ 31 bytes that ends, whatever requests wait and whoever they are for:
-- when it returns, its result is what all the requests of the list have lost together; when it
-- blocks, the requests that are left have lost together some `n` bytes, at most `len`, and behind them
-- the list ends in its own request, from and to whom it reads, for the `len - n` bytes that it did not get.
-- When it returns from within the list, interrupts stay disabled.
pub msg_read-Ended :
    {M : Type 0} (umemcpy : ℕ → ℕ → ℕ → ℕ → ℕ → M → M) (fuel address from buff len flags : ℕ)
    (x : Mail M) (c : Call M)
    → len < 2 ^ 31
    → msg_read umemcpy fuel address from buff len flags x ≡ some c
    → Ended x (reading address from x.table.curpid flags) len c
unfolding msg_read
msg_read-Ended umemcpy fuel address from buff len flags x c h e =
    let me = x.table.curpid in
    let serves = λ (t : Request). (t.to == me) && ((t.from == from) || (from == 0)) && is_open t in
    let (le, sum) =
      walk-total serves (λ buff t n. umemcpy me buff t.from t.buff n) (λ t. t.from) flags x.requests
        len buff x.table x.memory (omega arith) in
    wait_for-Ended x fuel len h (reading address from me flags) _ le sum c e
