-- ===== src/Message/Examples.antt =====
-- A writer that waits, and a read of its message.
use chouryos.Base.{
  ℕ, ◌+◌, ◌-◌, ◌≡◌, refl, arith, ◌&&◌, true, false, some, [], ◌∷◌, ◌==◌, ltb, leb, if◌then◌else◌,
}
use chouryos.Base.Int.{pos}
use chouryos.Process.{Table, Dev, ready, waiting, unblock}
use chouryos.Message.{Request, Mail, Call, returned, msg_read, walk}
use chouryos.Message.Balance.{Ended, reading, msg_read-Ended}

-- The memories of processes, without pages.
abbrev copy_between : ℕ → ℕ → ℕ → ℕ → ℕ → (ℕ → ℕ → ℕ) → ℕ → ℕ → ℕ
copy_between to a from b n m p i =
    if (p == to) && leb a i && ltb i (a + n) then m from (b + (i - a)) else m p i

abbrev procs : Table
procs = record {
  curpid = 1;
  protable = λ i. record {
    pid = i;
    ppid = 0;
    status = if i == 2 then waiting else ready;
    ret = 0;
    waitfor = Dev.msg;
    signals = [];
  };
}

abbrev letter : Request
letter = record { address = 1; from = 2; to = 1; buff = 100; left = 5; flags = 1 }

abbrev post : Mail (ℕ → ℕ → ℕ)
post = record { requests = letter ∷ []; table = procs; memory = λ p i. p + i; interrupts = true }

abbrev read_all : Call (ℕ → ℕ → ℕ)
read_all = returned (pos 5) (record {
  requests = record letter { buff = 105; left = 0; flags = 3 } ∷ [];
  table = unblock 2 procs;
  memory = copy_between 1 40 2 100 5 (λ p i. p + i);
  interrupts = false;
})

reads_all : msg_read copy_between 10 7 0 40 8 0 post ≡ some read_all
unfolding msg_read walk
reads_all = refl

msg_read-Ended_example : Ended post (reading 7 0 1 0) 8 read_all
msg_read-Ended_example =
    msg_read-Ended copy_between 10 7 0 40 8 0 post read_all (omega arith) reads_all
