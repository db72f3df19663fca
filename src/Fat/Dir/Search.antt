-- ===== src/Fat/Dir/Search.antt =====
-- The search of `Fat_open` through the root directory of FAT12 and FAT16.
use chouryos.Base.{
  ℕ, zero, suc, ◌+◌, ◌*◌, ◌/◌, ◌≤◌, ◌<◌, ◌≡◌, ◌⊎◌, inl, inr, refl, sym, ap, ◌∙◌, arith, Bool-cases,
  true, false, Bool, none, some, subst, List, [], ◌∷◌, length, take, length-append, ◌==◌, ltb,
  ==_iff, u32,
}
use mathlib.Core.Bool.{true≢false}
use chouryos.Hd.{Sector, Disk}
use chouryos.Filedes.{Filedes}
use chouryos.Fat.{Geometry, Volume, read_sector, get16, get32, dir_start_sec}
use chouryos.Fat.Table.Entry.{IsCoherent, HasRead, read_sector-HasRead, HasRead-IsCoherent}
use chouryos.Fat.Path.{cmpname, before_dot, behind_dot, padded, short_name, splitpath}
use chouryos.Fat.Path.Names.{HasName, cmpname-HasName, length-padded}
use chouryos.Fat.Dir.{dir_bytes, open_entry, open_root, find_name}

-- The bytes of a sector on the disk.
abbrev pub sector_at : Geometry → Disk → ℕ → Sector
sector_at g d i = d (u32 (i + g.partition_sec))

-- Entry `j` of sector `i` on the disk has the name.
abbrev pub HasEntry : Geometry → Disk → List ℕ → ℕ → ℕ → Type 0
HasEntry g d name i j = HasName name (sector_at g d i) (j * 32)

-- The file has the first cluster and the length that the entry gives, the low bytes first.
abbrev pub IsOf : Geometry → Disk → ℕ → ℕ → Filedes → Type 0
IsOf g d i j f =
    let b = sector_at g d i in
    let at = j * 32 in
    (f.startnode ≡ get16 b (at + 20) * 65536 + get16 b (at + 26)) × (f.length ≡ get32 b (at + 28))

-- Of the sectors from `lo` up to `hi` an entry has the name, and the file is that of the entry.
abbrev pub IsFound : Geometry → Disk → List ℕ → ℕ → ℕ → Filedes → Type 0
IsFound g d name lo hi f =
    (i : ℕ) × (j : ℕ) × (lo ≤ i) × (i < hi) × (j < 16) × HasEntry g d name i j × IsOf g d i j f

-- No entry of these sectors has it.
abbrev pub IsMissing : Geometry → Disk → List ℕ → ℕ → ℕ → Type 0
IsMissing g d name lo hi = (i j : ℕ) → lo ≤ i → i < hi → j < 16 → ¬ HasEntry g d name i j

abbrev pub Searched : Geometry → Disk → List ℕ → ℕ → ℕ → Filedes → Bool × Filedes × Volume → Type 0
Searched g d name lo hi file (found, f, v) =
    ((found ≡ true) × IsFound g d name lo hi f)
    ⊎ ((found ≡ false) × (f ≡ file) × IsMissing g d name lo hi)

length_take_le : (n : ℕ) (cs : List ℕ) → length (take n cs) ≤ n
length_take_le zero cs = omega arith
length_take_le (suc n) [] = omega arith
length_take_le (suc n) (c ∷ cs) = omega (arith, length_take_le n cs)

length-short_name : (cs : List ℕ) → length (short_name cs) ≤ 8
length-short_name cs = elim (Bool-cases (ltb 8 (length cs))) [
  | inl e ↦ rw e (omega (arith, length-append (take 6 cs) (b'~' ∷ b'1' ∷ []), length_take_le 6 cs))
  | inr e ↦
      let short : length cs ≤ 8 = ground (arith, e) in
      rw e (omega (arith, length-padded cs 8 short))
]

-- The name has no more than the 11 bytes of an entry.
pub length-splitpath : (path : List ℕ) → length (splitpath path) ≤ 11
unfolding splitpath
length-splitpath path =
    let base = short_name (before_dot path) in
    let ext = take 3 (behind_dot path) in
    omega (
      arith,
      length-append base (padded 3 ext),
      length-short_name (before_dot path),
      length-padded ext 3 (length_take_le 3 (behind_dot path)),
    )

find_name_lem :
    (name : List ℕ) (b : Sector) (left j : ℕ)
    → ((find_name name b left j ≡ none)
        × ((k : ℕ) → j ≤ k → k < j + left → cmpname name b (k * 32) ≡ false))
      ⊎ ((k : ℕ) × (find_name name b left j ≡ some k)
          × (k < j + left)
          × (cmpname name b (k * 32) ≡ true))
unfolding find_name
find_name_lem name b zero j = inl (refl, λ k a l. absurd (omega arith))
find_name_lem name b (suc left) j = elim (Bool-cases (cmpname name b (j * dir_bytes))) [
  | inl e ↦ inr (j, rw e refl, omega arith, e)
  | inr e ↦ elim (find_name_lem name b left (j + 1)) [
    | inl (gone, h) ↦ inl (
      rw e gone,
      λ k a l. elim (Bool-cases (j == k)) [
        | inl q ↦ let at : j ≡ k = (==_iff _ _).0 q in rw (← at) e
        | inr q ↦ h k (ground arith) (omega arith)
      ],
    )
    | inr (k, found, l, h) ↦ inr (k, rw e found, omega arith, h)
  ]
]

-- A sector in the buffer that was read from the disk.
module _ (g : Geometry) (d : Disk) (name : List ℕ) (short : length name ≤ 11) (i : ℕ) (b : Sector)
    (same : (p : ℕ) → p < 512 → b p ≡ sector_at g d i p) where
  on_disk : (j : ℕ) → j < 16 → cmpname name b (j * 32) ≡ true → HasEntry g d name i j
  on_disk j l e p q =
      sym (same (j * 32 + p) (omega arith)) ∙ (cmpname-HasName name b (j * 32)).0 e p q

  in_buffer : (j : ℕ) → j < 16 → HasEntry g d name i j → cmpname name b (j * 32) ≡ true
  in_buffer j l h =
      (cmpname-HasName name b (j * 32)).1 (λ p q. same (j * 32 + p) (omega arith) ∙ h p q)

  open_entry-IsOf : (n j : ℕ) (file : Filedes) → j < 16 → IsOf g d i j (open_entry g n j b file)
  unfolding open_entry
  open_entry-IsOf n j file l =
      let at : (p : ℕ) → p < 32 → b (j * 32 + p) ≡ sector_at g d i (j * 32 + p) =
        λ p q. same (j * 32 + p) (omega arith) in
      let word : (p : ℕ) → p < 31 → get16 b (j * 32 + p) ≡ get16 (sector_at g d i) (j * 32 + p) =
        λ p q t. same (j * 32 + p) (omega arith) t + same (j * 32 + p + 1) (omega arith) t * 256 in
      (
        λ t. word 20 (omega arith) t * 65536 + word 26 (omega arith) t,
        λ t.
            same (j * 32 + 28) (omega arith) t
            + same (j * 32 + 28 + 1) (omega arith) t * 256
            + same (j * 32 + 28 + 2) (omega arith) t * 65536
            + same (j * 32 + 28 + 3) (omega arith) t * 16777216,
      )

Searched-next :
    (g : Geometry) (d : Disk) (name : List ℕ) (i hi : ℕ) (file : Filedes)
    (x : Bool × Filedes × Volume)
    → ((j : ℕ) → j < 16 → ¬ HasEntry g d name i j)
    → Searched g d name (i + 1) hi file x
    → Searched g d name i hi file x
Searched-next g d name i hi file x none_here (inl (t, (a, j, lo, l, m, h, o))) =
    inl (t, (a, j, omega arith, l, m, h, o))
Searched-next g d name i hi file x none_here (inr (t, same, missing)) = inr (
  t,
  same,
  λ a j lo l m. elim (Bool-cases (i == a)) [
    | inl q ↦ let at : i ≡ a = (==_iff _ _).0 q in rw (← at) (none_here j m)
    | inr q ↦ missing a j (ground arith) l m
  ],
)

-- The search through `left` sectors from `i` on finds an entry of the disk with the name, or there is
-- none.
pub open_root-Searched :
    (g : Geometry) (d : Disk) (name : List ℕ) (left i : ℕ) (file : Filedes) (v : Volume)
    → g.bytes_per_sec ≡ 512
    → length name ≤ 11
    → v.disk ≡ d
    → IsCoherent g v
    → Searched g d name i (i + left) file (open_root g name left i file v)
unfolding open_root
open_root-Searched g d name zero i file v sector short on h =
    inr (refl, refl, λ a j lo l m. absurd (omega arith))
open_root-Searched g d name (suc left) i file v sector short on h =
    let v' = read_sector g i v in
    let r : HasRead g i v v' = read_sector-HasRead g i v h in
    let entries : g.bytes_per_sec / dir_bytes ≡ 16 = ap (λ b. b / dir_bytes) sector in
    let same : (p : ℕ) → p < 512 → v'.buffer_fat p ≡ sector_at g d i p =
      λ p l. r.bytes p l ∙ ap (λ (y : Disk). y (u32 (i + g.partition_sec)) p) on in
    let ends : i + suc left ≡ i + 1 + left = omega arith in
    elim (find_name_lem name v'.buffer_fat 16 0) [
      | inl (gone, absent) ↦
          let end_there : find_name name v'.buffer_fat (g.bytes_per_sec / dir_bytes) 0 ≡ none =
            ap (λ n. find_name name v'.buffer_fat n 0) entries ∙ gone in
          rw (end_there, open_root)
            (subst (λ hi. Searched g d name i hi file (open_root g name left (i + 1) file v'))
              (sym ends)
              (Searched-next g d name i (i + 1 + left) file (open_root g name left (i + 1) file v')
                (λ j l e. true≢false (
                  sym (in_buffer g d name short i v'.buffer_fat same j l e)
                  ∙ absent j (omega arith) (omega arith)))
                (open_root-Searched g d name left (i + 1) file v' sector short (r.same_disk ∙ on)
                  (HasRead-IsCoherent g i v v' r))))
      | inr (j, found, l, e) ↦
          let found_there : find_name name v'.buffer_fat (g.bytes_per_sec / dir_bytes) 0 ≡ some j =
            ap (λ n. find_name name v'.buffer_fat n 0) entries ∙ found in
          rw (found_there, open_root)
            (inl (
              refl,
              (
                i,
                j,
                omega arith,
                omega arith,
                omega arith,
                on_disk g d name short i v'.buffer_fat same j (omega arith) e,
                open_entry-IsOf g d name short i v'.buffer_fat same (i + dir_start_sec g) j file
                    (omega arith),
              ),
            ))
    ]
