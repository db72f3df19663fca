-- ===== src/Memory/Copy.antt =====
-- `umemcpy` of kernel/memory.c: a copy between the memories of two processes. Frames are reached
-- directly, where the code maps them into the window of Memory/Window; the memory of the current
-- process is reached through its page tables too, and the tables themselves are apart from the bytes.
use chouryos.Base.{
  ℕ, zero, suc, ◌+◌, ◌-◌, ◌%◌, ◌^◌, ◌≤◌, ◌<◌, ◌≡◌, refl, ap, ◌∙◌, arith, min, Bool-cases, inl, inr,
  false, Option, none, some, ◌&&◌, ◌==◌, if◌then◌else◌, u32,
}
use chouryos.Memory.Window.{Ptable, getpagec, getpagei}

-- The page directory of each process, the page tables by frame and index, and the bytes of frames.
pub record Space : Type 0 where
  pub curpid : ℕ
  pub pde : ℕ → ℕ
  pub table : ℕ → ℕ → Ptable
  pub bytes : ℕ → ℕ → ℕ

-- The frame of an address, through the directory and a table of the process.
abbrev pub frame_of : Space → ℕ → ℕ → ℕ
frame_of s pid a = (s.table (s.table (s.pde pid) (getpagec a)).base (getpagei a)).base

-- Where a byte stands: its frame, and the offset in it.
abbrev pub place : Space → ℕ → ℕ → ℕ × ℕ
place s pid a = (frame_of s pid a, a % 4096)

abbrev pub store : (ℕ → ℕ → ℕ) → ℕ × ℕ → ℕ → ℕ → ℕ → ℕ
store bytes (f, o) v g i = if (f == g) && (o == i) then v else bytes g i

-- `memcpy`, from the first byte on.
unfoldable pub memcpy : (ℕ → ℕ × ℕ) → (ℕ → ℕ × ℕ) → ℕ → (ℕ → ℕ → ℕ) → ℕ → ℕ → ℕ
memcpy dest src zero bytes = bytes
memcpy dest src (suc n) bytes =
    memcpy (λ i. dest (i + 1)) (λ i. src (i + 1)) n
      (store bytes (dest 0) (bytes (src 0).0 (src 0).1))

-- The bytes of a page from an address on, in its frame; and those of the current process.
abbrev pub in_page : Space → ℕ → ℕ → ℕ → ℕ × ℕ
in_page s pid a i = (frame_of s pid a, a % 4096 + i)

-- Here the access of the processor faults where the page is absent, or is written and must not be.
-- The fault, which is in Paging, is not part of this: the frame is that of a page that is mapped.
abbrev pub own : Space → ℕ → ℕ → ℕ → ℕ × ℕ
own s pid a i = place s pid (a + i)

-- The bytes from an address to the end of its page.
abbrev pub to_end : ℕ → ℕ
to_end a = a - a % 4096 + 4096 - a

-- The three loops: `cpc` of a round, and how the two sides are reached.
unfoldable pub copy_loop :
    (ℕ → ℕ → ℕ → ℕ)
    → (ℕ → ℕ → ℕ × ℕ)
    → (ℕ → ℕ → ℕ × ℕ)
    → ℕ
    → ℕ
    → ℕ
    → ℕ
    → (ℕ → ℕ → ℕ)
    → Option (ℕ → ℕ → ℕ)
copy_loop cpc to from zero dest src len bytes = if len == 0 then some bytes else none
copy_loop cpc to from (suc fuel) dest src len bytes =
    let c = cpc dest src len in
    let rest =
      copy_loop cpc to from fuel (u32 (dest + c)) (u32 (src + c)) (len - c)
        (memcpy (to dest) (from src) c bytes) in
    if len == 0 then some bytes else rest

unfoldable pub umemcpy : ℕ → ℕ → ℕ → ℕ → ℕ → ℕ → Space → Option (ℕ → ℕ → ℕ)
umemcpy fuel dpid dest spid src len s =
    if dpid == s.curpid
    then copy_loop (λ dest src len. min len (to_end src)) (own s dpid) (in_page s spid) fuel dest
        src len s.bytes
    else if spid == s.curpid
    then copy_loop (λ dest src len. min len (to_end dest)) (in_page s dpid) (own s spid) fuel dest
        src len s.bytes
    else copy_loop (λ dest src len. min (min len (to_end src)) (to_end dest)) (in_page s dpid)
        (in_page s spid) fuel dest src len s.bytes

memcpy-ext :
    (dest dest' src src' : ℕ → ℕ × ℕ) (n : ℕ) (bytes : ℕ → ℕ → ℕ)
    → ((i : ℕ) → i < n → dest i ≡ dest' i)
    → ((i : ℕ) → i < n → src i ≡ src' i)
    → memcpy dest src n bytes ≡ memcpy dest' src' n bytes
unfolding memcpy
memcpy-ext dest dest' src src' zero bytes p q = refl
memcpy-ext dest dest' src src' (suc n) bytes p q =
    let d = p 0 (omega arith) in
    let r = q 0 (omega arith) in
    (λ j.
      memcpy (λ i. dest (i + 1)) (λ i. src (i + 1)) n (store bytes (d j) (bytes (r j).0 (r j).1)))
    ∙ memcpy-ext (λ i. dest (i + 1)) (λ i. dest' (i + 1)) (λ i. src (i + 1)) (λ i. src' (i + 1)) n
        (store bytes (dest' 0) (bytes (src' 0).0 (src' 0).1)) (λ i l. p (i + 1) (omega arith))
        (λ i l. q (i + 1) (omega arith))

-- Two copies one behind the other are one.
memcpy-add :
    (dest src : ℕ → ℕ × ℕ) (m n : ℕ) (bytes : ℕ → ℕ → ℕ)
    → memcpy (λ i. dest (m + i)) (λ i. src (m + i)) n (memcpy dest src m bytes)
      ≡ memcpy dest src (m + n) bytes
unfolding memcpy
memcpy-add dest src zero n bytes =
    let zero_left : n ≡ 0 + n = omega arith in
    memcpy-ext _ dest _ src n bytes (λ i l. ap dest (omega arith)) (λ i l. ap src (omega arith))
    ∙ ap (λ k. memcpy dest src k bytes) zero_left
memcpy-add dest src (suc m) n bytes =
    let carry : suc (m + n) ≡ suc m + n = omega arith in
    let next = store bytes (dest 0) (bytes (src 0).0 (src 0).1) in
    let dest' = λ (i : ℕ). dest (i + 1) in
    let src' = λ (i : ℕ). src (i + 1) in
    memcpy-ext _ (λ i. dest' (m + i)) _ (λ i. src' (m + i)) n (memcpy dest' src' m next)
      (λ i l. ap dest (omega arith)) (λ i l. ap src (omega arith))
    ∙ memcpy-add dest' src' m n next
    ∙ ap (λ k. memcpy dest src k bytes) carry

-- Within a page an address and its place go on together.
in_page-place : (s : Space) (pid a i : ℕ) → i < to_end a → in_page s pid a i ≡ place s pid (a + i)
in_page-place s pid a i h =
    let c : getpagec a ≡ getpagec (a + i) = omega arith in
    let p : getpagei a ≡ getpagei (a + i) = omega arith in
    let o : a % 4096 + i ≡ (a + i) % 4096 = omega arith in
    (λ j. ((s.table (s.table (s.pde pid) (c j)).base (p j)).base, o j))

-- What a loop needs: a round moves something, and reaches both sides where they stand.
record IsRound (s : Space) (dpid spid : ℕ) (cpc : ℕ → ℕ → ℕ → ℕ) (to from : ℕ → ℕ → ℕ × ℕ)
    : Type 0 where
  pub some_bytes : (dest src len : ℕ) → 0 < len → 0 < cpc dest src len
  pub short : (dest src len : ℕ) → cpc dest src len ≤ len
  pub writes : (dest src len i : ℕ) → i < cpc dest src len → to dest i ≡ own s dpid dest i
  pub reads : (dest src len i : ℕ) → i < cpc dest src len → from src i ≡ own s spid src i

copy_loop-memcpy :
    (s : Space) (dpid spid : ℕ) (cpc : ℕ → ℕ → ℕ → ℕ) (to from : ℕ → ℕ → ℕ × ℕ)
    (fuel dest src len : ℕ) (bytes : ℕ → ℕ → ℕ)
    → IsRound s dpid spid cpc to from
    → len ≤ fuel
    → dest + len < 2 ^ 32
    → src + len < 2 ^ 32
    → copy_loop cpc to from fuel dest src len bytes
      ≡ some (memcpy (own s dpid dest) (own s spid src) len bytes)
unfolding copy_loop memcpy
copy_loop-memcpy s dpid spid cpc to from zero dest src zero bytes r h d f = refl
copy_loop-memcpy s dpid spid cpc to from zero dest src (suc len) bytes r h d f =
    absurd (omega arith)
copy_loop-memcpy s dpid spid cpc to from (suc fuel) dest src zero bytes r h d f = refl
copy_loop-memcpy s dpid spid cpc to from (suc fuel) dest src (suc len) bytes r h d f =
    let c = cpc dest src (suc len) in
    let some_bytes = r.some_bytes dest src (suc len) (omega arith) in
    let short = r.short dest src (suc len) in
    let more : (suc len == 0) ≡ false = ground arith in
    let to_next : u32 (dest + c) ≡ dest + c = omega arith in
    let from_next : u32 (src + c) ≡ src + c = omega arith in
    let all : c + (suc len - c) ≡ suc len = omega arith in
    let d' = own s dpid dest in
    let s' = own s spid src in
    let round : memcpy (to dest) (from src) c bytes ≡ memcpy d' s' c bytes =
      memcpy-ext (to dest) d' (from src) s' c bytes (r.writes dest src (suc len))
        (r.reads dest src (suc len)) in
    rw (more, to_next, from_next)
      (copy_loop-memcpy s dpid spid cpc to from fuel (dest + c) (src + c) (suc len - c)
          (memcpy (to dest) (from src) c bytes) r (omega arith) (omega arith) (omega arith)
        ∙ ap some (
            ap (memcpy (own s dpid (dest + c)) (own s spid (src + c)) (suc len - c)) round
            ∙ memcpy-ext (own s dpid (dest + c)) (λ i. d' (c + i)) (own s spid (src + c))
                (λ i. s' (c + i)) (suc len - c) (memcpy d' s' c bytes)
                (λ i l. ap (place s dpid) (omega arith)) (λ i l. ap (place s spid) (omega arith))
            ∙ memcpy-add d' s' c (suc len - c) bytes
            ∙ ap (λ k. memcpy d' s' k bytes) all))

-- The entries of the directory and of the page table for an address.
abbrev pub entries_of : Space → ℕ → ℕ → Ptable × Ptable
entries_of s pid a =
    let directory = s.table (s.pde pid) (getpagec a) in
    (directory, s.table directory.base (getpagei a))

-- Every byte of a range is mapped, so that no access to it is a page fault; and to be written.
abbrev pub IsMapped : Space → ℕ → ℕ → ℕ → Type 0
IsMapped s pid a len =
    (i : ℕ) → i < len → ((entries_of s pid (a + i)).0.p ≡ 1) × ((entries_of s pid (a + i)).1.p ≡ 1)

abbrev pub IsWritable : Space → ℕ → ℕ → ℕ → Type 0
IsWritable s pid a len =
    (i : ℕ)
    → i < len
    → ((entries_of s pid (a + i)).0.r_w ≡ 1) × ((entries_of s pid (a + i)).1.r_w ≡ 1)

-- `umemcpy` of bytes that do not wrap around 2 ^ 32, from one process to another or to itself: in
-- each of its three cases, and however the two ranges lie over their pages, the memory is as if the
-- bytes were copied one by one, each from where the page tables of the one process have it to where
-- those of the other have it. Every byte of both ranges is in a page that is present, with a table
-- that is, and those of the destination may be written, so that no access of the current process is a
-- page fault. As many rounds as bytes are enough.
pub umemcpy-memcpy :
    (s : Space) (fuel dpid dest spid src len : ℕ)
    → len ≤ fuel
    → dest + len < 2 ^ 32
    → src + len < 2 ^ 32
    → IsMapped s dpid dest len
    → IsMapped s spid src len
    → IsWritable s dpid dest len
    → umemcpy fuel dpid dest spid src len s
      ≡ some (memcpy (own s dpid dest) (own s spid src) len s.bytes)
unfolding umemcpy
umemcpy-memcpy s fuel dpid dest spid src len h d f _ _ _ = elim (Bool-cases (dpid == s.curpid)) [
  | inl e ↦ rw e (
      copy_loop-memcpy s dpid spid (λ dest src len. min len (to_end src)) (own s dpid)
        (in_page s spid) fuel dest src len s.bytes
        (record {
          some_bytes = λ dest src len l. omega arith;
          short = λ dest src len. omega arith;
          writes = λ dest src len i l. refl;
          reads = λ dest src len i l. in_page-place s spid src i (omega arith);
        })
        h d f)
  | inr e ↦ elim (Bool-cases (spid == s.curpid)) [
    | inl e' ↦
        rw (e, e')
          (copy_loop-memcpy s dpid spid (λ dest src len. min len (to_end dest)) (in_page s dpid)
            (own s spid) fuel dest src len s.bytes
            (record {
              some_bytes = λ dest src len l. omega arith;
              short = λ dest src len. omega arith;
              writes = λ dest src len i l. in_page-place s dpid dest i (omega arith);
              reads = λ dest src len i l. refl;
            })
            h d f)
    | inr e' ↦
        rw (e, e')
          (copy_loop-memcpy s dpid spid (λ dest src len. min (min len (to_end src)) (to_end dest))
            (in_page s dpid) (in_page s spid) fuel dest src len s.bytes
            (record {
              some_bytes = λ dest src len l. omega arith;
              short = λ dest src len. omega arith;
              writes = λ dest src len i l. in_page-place s dpid dest i (omega arith);
              reads = λ dest src len i l. in_page-place s spid src i (omega arith);
            })
            h d f)
  ]
]
