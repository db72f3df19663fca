-- ===== src/Memory/Share.antt =====
-- `sharepage` and `devpage` of kernel/memory.c: the frames that several processes use, read-only
-- until one writes. A frame's page table is reached directly; the code maps it into the window of
-- Memory/Window for the time of the call.
pub mod Pair
mod Examples
use chouryos.Base.{
  ℕ, zero, suc, ◌+◌, ◌-◌, ◌^◌, ◌%◌, Bool, true, false, Option, none, some, ◌==◌, if◌then◌else◌, u16,
  update,
}
use chouryos.Memory.Frames.{PageShrList}
use chouryos.Memory.Window.{Ptable}

-- `PSL`, and the page tables by their frame and the index in them.
pub record Sharing : Type 0 where
  pub psl : ℕ → PageShrList
  pub table : ℕ → ℕ → Ptable

-- `MAX_SHRLC`, 0x100000 bytes of 8 to an element.
abbrev pub max_shrlc : ℕ
max_shrlc = 0x20000

-- `for (i = …; PSL[i].pagec != x && i < MAX_SHRLC; ++i);`, with `left` rounds to go.
unfoldable pub find_pagec : ℕ → ℕ → ℕ → (ℕ → PageShrList) → ℕ
find_pagec zero i x psl = i
find_pagec (suc left) i x psl =
    let rest = find_pagec left (i + 1) x psl in if (psl i).pagec == x then i else rest

abbrev pub find_from : ℕ → ℕ → (ℕ → PageShrList) → ℕ
find_from i x psl = find_pagec (max_shrlc - i) i x psl

-- The two fields of an element are 16 bits.
abbrev pub put : ℕ → ℕ → ℕ → ℕ → (ℕ → PageShrList) → (ℕ → PageShrList)
put i pagec index next psl =
    update psl i (record { pagec = pagec; index = u16 index; next = u16 next })

abbrev pub set_pagec : ℕ → ℕ → (ℕ → PageShrList) → (ℕ → PageShrList)
set_pagec i pagec psl = update psl i (record (psl i) { pagec = pagec })

abbrev pub set_next : ℕ → ℕ → (ℕ → PageShrList) → (ℕ → PageShrList)
set_next i next psl = update psl i (record (psl i) { next = u16 next })

abbrev pub set_index : ℕ → ℕ → (ℕ → PageShrList) → (ℕ → PageShrList)
set_index i index psl = update psl i (record (psl i) { index = u16 index })

-- `AVL` and `R_W` of an entry.
abbrev pub mark : ℕ → ℕ → ℕ → ℕ → Sharing → Sharing
mark frame i avl r_w s = record s {
  table =
      update s.table frame
        (update (s.table frame) i (record (s.table frame i) { avl = avl; r_w = r_w }));
}

-- The last element of a list from `j` on.
unfoldable pub last_of : ℕ → ℕ → (ℕ → PageShrList) → Option ℕ
last_of zero j psl = none
last_of (suc fuel) j psl =
    let rest = last_of fuel (psl j).next psl in if (psl j).next == 0 then some j else rest

-- A frame that is shared already gets one more element, at the end of its list.
abbrev pub add_share : ℕ → ℕ → ℕ → ℕ → (ℕ → PageShrList) → Option (ℕ → PageShrList)
add_share fuel base pagecb pageib psl0 =
    let i0 = find_from 1 base psl0 in
    let psl = set_index i0 ((psl0 i0).index + 1) psl0 in
    let i = find_from 1 0 psl in
    elim (last_of fuel (psl i0).next psl) [
      | some j ↦ some (put i pagecb pageib 0 (set_next j i psl))
      | none ↦ none
    ]

-- A frame that is not shared yet: the head of a list, with the number of its users, and two
-- elements.
abbrev pub new_share : ℕ → ℕ → ℕ → ℕ → ℕ → (ℕ → PageShrList) → (ℕ → PageShrList)
new_share base pageca pageia pagecb pageib psl0 =
    let i = find_from 1 0 psl0 in
    let psl1 = update psl0 i (record (psl0 i) { pagec = base; index = 2 }) in
    let j = find_from (i + 1) 0 psl1 in
    let psl2 = set_next i j psl1 in
    let psl3 = update psl2 j (record (psl2 j) { pagec = pageca; index = u16 pageia }) in
    let k = find_from (j + 1) 0 psl3 in put k pagecb pageib 0 (set_next j k psl3)

abbrev mark_both : ℕ → ℕ → ℕ → ℕ → Sharing → Option (ℕ → PageShrList) → Option Sharing
mark_both pageca pageia pagecb pageib s none = none
mark_both pageca pageia pagecb pageib s (some psl) =
    some (mark pagecb pageib 1 0 (mark pageca pageia 1 0 (record s { psl = psl })))

-- `sharepage`, with at most `fuel` rounds of the loop to the end of a list.
unfoldable pub sharepage : ℕ → ℕ → ℕ → ℕ → ℕ → Sharing → Option Sharing
sharepage fuel pageca pageia pagecb pageib s =
    let e = s.table pageca pageia in
    mark_both pageca pageia pagecb pageib s (
      if e.avl == 1
      then add_share fuel e.base pagecb pageib s.psl
      else some (new_share e.base pageca pageia pagecb pageib s.psl))

-- The element of a list before the one of this page table, from `j` on.
unfoldable pub before : ℕ → ℕ → ℕ → (ℕ → PageShrList) → Option ℕ
before zero j pagec psl = none
before (suc fuel) j pagec psl =
    let rest = before fuel (psl j).next pagec psl in
    if (psl (psl j).next).pagec == pagec then some j else rest

-- The list of head `i` and elements `j` and `k` goes, and its frame is `other`'s alone.
unfoldable pub unlist : ℕ → ℕ → ℕ → PageShrList → Sharing → Sharing
unlist i j k other s =
    mark other.pagec other.index 0 1
      (record s { psl = set_pagec i 0 (set_pagec j 0 (set_pagec k 0 s.psl)) })

-- With two users the other becomes the only one.
unfoldable pub end_share : ℕ → ℕ → Sharing → Sharing
end_share i pagec s =
    let j = (s.psl i).next in
    let k = (s.psl j).next in unlist i j k (s.psl (if (s.psl j).pagec == pagec then k else j)) s

abbrev pub drop_share : ℕ → ℕ → ℕ → Sharing → Option Sharing
drop_share fuel i pagec s =
    let psl = set_index i ((s.psl i).index + 2 ^ 16 - 1) s.psl in
    elim (before fuel i pagec psl) [
      | some j ↦
          let k = (psl j).next in
          let freed = set_pagec k 0 psl in some (record s { psl = set_next j (freed k).next freed })
      | none ↦ none
    ]

abbrev own : ℕ → ℕ → Option Sharing → Option Sharing
own pagec pagei none = none
own pagec pagei (some s) = some (mark pagec pagei 0 1 s)

-- `devpage`, with at most `fuel` rounds of the loop along a list.
unfoldable pub devpage : ℕ → ℕ → ℕ → Sharing → Option Sharing
devpage fuel pagec pagei s =
    let i = find_from 1 (s.table pagec pagei).base s.psl in
    own pagec pagei
      (if (s.psl i).index == 2 then some (end_share i pagec s) else drop_share fuel i pagec s)
