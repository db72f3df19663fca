-- ===== src/Files/Calls/Descriptors.antt =====
-- Descriptors: which one a call takes, and what a closed one is good for.
use chouryos.Base.{
  ℕ, zero, suc, ◌+◌, ◌≤◌, ◌<◌, ◌≡◌, ◌≢◌, ◌⊎◌, inl, inr, refl, sym, ap, subst, ◌∙◌, arith, Bool,
  Bool-cases, leb, Option, none, some, true, false, ◌==◌, ◌||◌, update, update_self, update_ne,
}
use chouryos.Base.Int.{ℤ, pos, negsuc}
use chouryos.Hd.{Sector, WriteHd}
use chouryos.Filedes.{Filedes, Filetype, nomal_file, tty, msg, max_fd}
use chouryos.Fat.{Geometry, Volume}
use chouryos.Files.{Whence, minus_one, file_close}
use chouryos.Process.{is_unuse, status_of}
use chouryos.Files.Calls.{
  Kernel, ebadf, emfile, esrch, set_errno, set_file, is_bad, free_fd, sys_isatty, sys_message,
  message_file, sys_close, close_by, sys_lseek, sys_read, sys_write, closed,
}

-- The lowest free descriptor.
pub record IsLowest (file : ℕ → Filedes) (fd : ℕ) : Type 0 where
  pub in_table : fd < max_fd
  pub free : (file fd).isused ≡ false
  pub below : (i : ℕ) → i < fd → (file i).isused ≡ true

record IsFree (file : ℕ → Filedes) (left i fd : ℕ) : Type 0 where
  pub range : (i ≤ fd) × (fd < i + left)
  pub free : (file fd).isused ≡ false
  pub below : (j : ℕ) → i ≤ j → j < fd → (file j).isused ≡ true

abbrev AllUsed : (ℕ → Filedes) → ℕ → ℕ → Type 0
AllUsed file left i = (j : ℕ) → i ≤ j → j < i + left → (file j).isused ≡ true

free_fd_cases :
    (left i : ℕ) (file : ℕ → Filedes)
    → ((free_fd left i file ≡ none) × AllUsed file left i)
      ⊎ ((fd : ℕ) × (free_fd left i file ≡ some fd) × IsFree file left i fd)
unfolding free_fd
free_fd_cases zero i file = inl (refl, λ j a b. absurd (omega arith))
free_fd_cases (suc left) i file = elim (Bool-cases (file i).isused) [
  | inr e ↦ inr (
    i,
    rw e refl,
    record { range = (omega arith, omega arith); free = e; below = λ j a b. absurd (omega arith) },
  )
  | inl e ↦
      let here : (j : ℕ) → i ≤ j → j < i + 1 → (file j).isused ≡ true =
        λ j a b. subst (λ (x : ℕ). (file x).isused ≡ true) (omega arith) e in
      elim (free_fd_cases left (i + 1) file) [
        | inl (none_left, used) ↦ inl (
          rw e none_left,
          λ j a b. elim (Bool-cases (i == j)) [
            | inl p ↦ here j a (ground arith)
            | inr p ↦ used j (ground arith) (omega arith)
          ],
        )
        | inr (fd, found, f) ↦ inr (
          fd,
          rw e found,
          record {
            range = (omega (arith, f.range), omega (arith, f.range));
            free = f.free;
            below = λ j a b. elim (Bool-cases (i == j)) [
              | inl p ↦ here j a (ground arith)
              | inr p ↦ f.below j (ground arith) b
            ];
          },
        )
      ]
]

pub free_fd-IsLowest :
    (file : ℕ → Filedes)
    → ((free_fd max_fd 0 file ≡ none) × ((i : ℕ) → i < max_fd → (file i).isused ≡ true))
      ⊎ ((fd : ℕ) × (free_fd max_fd 0 file ≡ some fd) × IsLowest file fd)
free_fd-IsLowest file = elim (free_fd_cases max_fd 0 file) [
  | inl (e, used) ↦ inl (e, λ i l. used i (omega arith) (omega arith))
  | inr (fd, e, f) ↦ inr (
    fd,
    e,
    record {
      in_table = omega (arith, f.range);
      free = f.free;
      below = λ i l. f.below i (omega arith) l;
    },
  )
]

-- A result of a call: a number and the state behind it.
abbrev Fails : ℕ → ℤ × Kernel → Kernel → Type 0
Fails e r k = r ≡ (minus_one, set_errno e k)

-- `sys_message` fails with EMFILE where all ten descriptors are in use, and with ESRCH where the
-- process does not exist; else it gives the lowest free descriptor, which then is a file of messages
-- for the process, and leaves the other descriptors as they are.
pub sys_message-IsLowest :
    (pid flags : ℕ) (k : Kernel)
    → (((i : ℕ) → i < max_fd → (k.file i).isused ≡ true) × Fails emfile (sys_message pid flags k) k)
      ⊎ ((fd : ℕ) × IsLowest k.file fd
          × (((is_unuse (status_of k.table pid) ≡ true) × Fails esrch (sys_message pid flags k) k)
              ⊎ ((is_unuse (status_of k.table pid) ≡ false)
                  × ((sys_message pid flags k).0 ≡ pos fd)
                  × ((sys_message pid flags k).1.file fd ≡ message_file pid flags (k.file fd))
                  × ((x : ℕ) → fd ≢ x → (sys_message pid flags k).1.file x ≡ k.file x))))
unfolding sys_message
sys_message-IsLowest pid flags k = elim (free_fd-IsLowest k.file) [
  | inl (e, used) ↦ inl (used, rw (e, sys_message) refl)
  | inr (fd, e, low) ↦ inr (
    fd,
    low,
    elim (Bool-cases (is_unuse (status_of k.table pid))) [
      | inl gone ↦ inl (gone, rw (e, gone, sys_message) refl)
      | inr there ↦
          let file = update k.file fd (message_file pid flags (k.file fd)) in
          inr (
            there,
            rw (e, there, sys_message) refl,
            rw (e, there, sys_message) (update_self k.file fd (message_file pid flags (k.file fd))),
            λ x ne.
                rw (e, there, sys_message)
                  (update_ne k.file fd x (message_file pid flags (k.file fd)) ne),
          )
    ],
  )
]

-- The test of a descriptor in the state of a result.
abbrev bad_after : ℤ → Option (ℤ × Kernel) → Bool
bad_after fd none = true
bad_after fd (some (r, k)) = is_bad fd k

or_true : (b : Bool) → b || true ≡ true
or_true false = refl
or_true true = refl

bad_after-closed :
    (fd : ℕ) (o : Option (ℤ × Volume)) (k : Kernel)
    → (k.file fd).isused ≡ false
    → bad_after (pos fd) (closed o k) ≡ true
bad_after-closed fd none k h = refl
bad_after-closed fd (some (r, v)) k h = rw h (or_true (leb max_fd fd))

module _ (write_hd : WriteHd) (g : Geometry) (fuel : ℕ) (buff : Sector) where
  bad_after-close_by :
      (t : Filetype) (fd : ℕ) (f : Filedes) (k : Kernel)
      → (k.file fd).isused ≡ false
      → bad_after (pos fd) (close_by write_hd g fuel buff t f k) ≡ true
  bad_after-close_by nomal_file fd f k h =
      bad_after-closed fd (file_close write_hd g fuel buff f k.store.volume) k h
  bad_after-close_by tty fd f k h = rw h (or_true (leb max_fd fd))
  bad_after-close_by msg fd f k h = rw h (or_true (leb max_fd fd))

  bad_after-sys_close :
      (fd : ℤ) (k : Kernel) → bad_after fd (sys_close write_hd g fuel buff fd k) ≡ true
  unfolding sys_close
  bad_after-sys_close (negsuc n) k = refl
  bad_after-sys_close (pos fd) k = elim (Bool-cases (is_bad (pos fd) k)) [
    | inl bad ↦ rw bad bad
    | inr good ↦ rw good (
        let f = record (k.file fd) { isused = false } in
        let free : (update k.file fd f fd).isused ≡ false =
          ap (λ (x : Filedes). x.isused) (update_self k.file fd f) in
        bad_after-close_by f.filetype fd f (set_file fd f k) free)
  ]

-- Once `sys_close` has returned, whatever its result, the descriptor is closed: another `sys_close`,
-- a `sys_lseek`, a `sys_read` and a `sys_write` of it give -1 with EBADF and change nothing but
-- `errno`, and `sys_isatty` gives 0 with EBADF.
pub sys_close-sys_close :
    (write_hd : WriteHd) (g : Geometry) (fuel fuel' now len : ℕ) (buff ptr : Sector)
    (msg_read : ℕ → Sector → ℕ → ℕ → Kernel → Option (ℤ × Sector × Kernel))
    (msg_write : ℕ → Sector → ℕ → ℕ → Kernel → Option (ℤ × Kernel)) (fd offset r : ℤ)
    (whence : Whence) (k k' : Kernel)
    → sys_close write_hd g fuel buff fd k ≡ some (r, k')
    → (sys_close write_hd g fuel' buff fd k' ≡ some (minus_one, set_errno ebadf k'))
      × (sys_lseek write_hd g fuel' buff fd offset whence k' ≡ some (minus_one, set_errno ebadf k'))
      × (sys_read write_hd g fuel' buff msg_read fd ptr len k'
          ≡ some (minus_one, ptr, set_errno ebadf k'))
      × (sys_write write_hd g fuel' buff msg_write now fd ptr len k'
          ≡ some (minus_one, set_errno ebadf k'))
      × (sys_isatty fd k' ≡ (pos 0, set_errno ebadf k'))
unfolding sys_close sys_lseek sys_read sys_write sys_isatty
sys_close-sys_close write_hd g fuel fuel' now len buff ptr msg_read msg_write fd offset r whence k
      k' e =
    let bad : is_bad fd k' ≡ true =
      ap (bad_after fd) (sym e) ∙ bad_after-sys_close write_hd g fuel buff fd k in
    (rw bad refl, rw bad refl, rw bad refl, rw bad refl, rw bad refl)
