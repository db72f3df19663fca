-- ===== src/Fat/Data/Read.antt =====
-- `Fat_read` gives the bytes of a file.
use chouryos.Base.{
  ℕ, zero, suc, ◌+◌, ◌-◌, ◌*◌, ◌/◌, ◌%◌, ◌^◌, ◌≤◌, ◌<◌, ◌≡◌, ◌⊎◌, inl, inr, refl, sym, ap, subst,
  ◌∙◌, u32, arith, Bool-cases, ltb, some, true, false, not, ◌&&◌, ◌==◌, ==_iff, ltb→lt,
}
use native.Mathlib.Nat.{
  div-eq_of_lt, mul-add-div_right, mul-add-mod_self_right, mod-eq_of_lt, mod-add-div', mod-lt,
  zero-div, div-lt_iff_lt-mul,
}
use chouryos.Base.Int.{pos, to_int, to_int-pos}
use chouryos.Hd.{Sector, Disk}
use chouryos.Filedes.{Filedes}
use chouryos.Fat.{Geometry, Volume, read_clus}
use chouryos.Fat.Table.Entry.{InTable}
use chouryos.Fat.Table.Map.{HasTable, getnextclus-HasTable}
use chouryos.Fat.Data.{Reading, chunk, next_node, read_round, read_from, fat_read}
use chouryos.Fat.Data.Clusters.{data_sec, InData, read_clus-HasTable, copy_in, copy_out}

-- The cluster `k` steps behind `a` in the table.
abbrev pub node : (ℕ → ℕ) → ℕ → ℕ → ℕ
node t a zero = a
node t a (suc k) = t (node t a k)

-- Byte `p` of the file that starts at cluster `a`.
unfoldable pub file_byte : Geometry → (ℕ → ℕ) → Disk → ℕ → ℕ → ℕ
file_byte g t d a p =
    let at = p % g.clus_bytes in
    d (g.partition_sec + data_sec g (node t a (p / g.clus_bytes)) + at / 512) (at % 512)

-- The first `k` clusters of the file have entries in the table, and their sectors on the disk.
abbrev pub HasNodes : Geometry → (ℕ → ℕ) → ℕ → ℕ → Type 0
HasNodes g t a k = (i : ℕ) → i < k → InTable g (node t a i) × InData g (node t a i)

-- A cluster has whole sectors of 512 bytes, and not none.
pub record IsClustered (g : Geometry) : Type 0 where
  pub size : g.clus_bytes ≡ g.sec_per_clus * 512
  pub some_bytes : 0 < g.clus_bytes

-- `curnode` is the cluster of the last byte before `offset`, or the first one at offset 0: a read
-- goes on to the next cluster only when it starts.
pub record IsAt (g : Geometry) (t : ℕ → ℕ) (a k : ℕ) (f : Filedes) : Type 0 where
  pub curnode : f.curnode ≡ node t a k
  pub above : (k * g.clus_bytes < f.offset) ⊎ ((k ≡ 0) × (f.offset ≡ 0))
  pub below : f.offset ≤ suc k * g.clus_bytes

div_mod_at : (m k j : ℕ) → 0 < m → j < m → ((k * m + j) / m ≡ k) × ((k * m + j) % m ≡ j)
div_mod_at m k j h l =
    let small : j / m ≡ 0 = div-eq_of_lt l in
    (mul-add-div_right h k j ∙ omega (arith, small), mul-add-mod_self_right k m j ∙ mod-eq_of_lt l)

module _ (g : Geometry) (t : ℕ → ℕ) (d : Disk) (c : IsClustered g) (a n : ℕ)
    (hs : HasNodes g t a n) where
  -- Where a round reads: the file at the cluster of the byte at `offset`.
  abbrev HasNode : Filedes → Filedes × Volume → Type 0
  HasNode f (f', v) =
      HasTable g t d v × (f' ≡ record f { curnode = node t a (f.offset / g.clus_bytes) })

  node_stays :
      (v : Volume) (k : ℕ) (f : Filedes)
      → HasTable g t d v
      → f.curnode ≡ node t a k
      → f.offset / g.clus_bytes ≡ k
      → (f.offset % g.clus_bytes == 0) && not (f.offset == 0) ≡ false
      → HasNode f (next_node g f v)
  node_stays v k f h at q test =
      let same : f.curnode ≡ node t a (f.offset / g.clus_bytes) = at ∙ ap (node t a) (sym q) in
      rw test (h, ap (λ x. record f { curnode = x }) same)

  node_moves :
      (v : Volume) (k : ℕ) (f : Filedes)
      → HasTable g t d v
      → InTable g (node t a k)
      → f.curnode ≡ node t a k
      → f.offset / g.clus_bytes ≡ suc k
      → (f.offset % g.clus_bytes == 0) && not (f.offset == 0) ≡ true
      → HasNode f (next_node g f v)
  node_moves v k f h i at q test =
      let (v', e, h') = getnextclus-HasTable g t d v (node t a k) h i in
      rw (test, at, e) (h', ap (λ x. record f { curnode = node t a x }) (sym q))

  next_node-HasNode :
      (v : Volume) (k : ℕ) (f : Filedes)
      → HasTable g t d v
      → IsAt g t a k f
      → f.offset < n * g.clus_bytes
      → HasNode f (next_node g f v)
  next_node-HasNode v k f h at l = elim at.above [
    | inr (e, z) ↦
        let q : f.offset / g.clus_bytes ≡ k = ap (λ o. o / g.clus_bytes) z ∙ zero-div _ ∙ sym e in
        node_stays v k f h at.curnode q (ground arith)
    | inl above ↦ elim (Bool-cases (f.offset == suc k * g.clus_bytes)) [
      | inl e ↦
          let last : f.offset ≡ suc k * g.clus_bytes = (==_iff _ _).0 e in
          let (q, r) = div_mod_at g.clus_bytes (suc k) 0 c.some_bytes c.some_bytes in
          let o : f.offset ≡ suc k * g.clus_bytes + 0 = omega (arith, last) in
          let q' : f.offset / g.clus_bytes ≡ suc k = ap (λ o. o / g.clus_bytes) o ∙ q in
          let r' : f.offset % g.clus_bytes ≡ 0 = ap (λ o. o % g.clus_bytes) o ∙ r in
          let inside : suc k < n = subst (λ x. x < n) q' ((div-lt_iff_lt-mul c.some_bytes).1 l) in
          node_moves v k f h (hs k (omega arith)).0 at.curnode q' (ground arith)
      | inr e ↦
          let within : f.offset < suc k * g.clus_bytes = ground (arith, at.below) in
          let (q, r) =
            div_mod_at g.clus_bytes k (f.offset - k * g.clus_bytes) c.some_bytes (omega arith) in
          let o : f.offset ≡ k * g.clus_bytes + (f.offset - k * g.clus_bytes) = omega arith in
          let q' : f.offset / g.clus_bytes ≡ k = ap (λ o. o / g.clus_bytes) o ∙ q in
          let r' : f.offset % g.clus_bytes ≡ f.offset - k * g.clus_bytes =
            ap (λ o. o % g.clus_bytes) o ∙ r in
          node_stays v k f h at.curnode q' (ground arith)
    ]
  ]

  -- What reading `m` bytes does.
  record Progress (m : ℕ) (r r' : Reading) : Type 0 where
    pub file_eq :
        r'.file ≡ record (r.file) { curnode = r'.file.curnode; offset = r.file.offset + m }
    pub count : r'.readlen ≡ r.readlen + m
    pub before : (i : ℕ) → i < r.readlen → r'.ptr i ≡ r.ptr i
    pub bytes : (i : ℕ) → i < m → r'.ptr (r.readlen + i) ≡ file_byte g t d a (r.file.offset + i)
    pub table : HasTable g t d r'.volume
    pub cluster : (k : ℕ) × IsAt g t a k r'.file

  read_round-Progress :
      (len k : ℕ) (r : Reading)
      → HasTable g t d r.volume
      → IsAt g t a k r.file
      → 0 < len
      → r.file.offset < n * g.clus_bytes
      → r.file.offset + len < 2 ^ 32
      → Progress (chunk g r.file len) r (read_round g len r)
  unfolding read_round file_byte
  read_round-Progress len k r h at some_left l w =
      let f = r.file in
      let cb = g.clus_bytes in
      let q = f.offset / cb in
      let s = f.offset % cb in
      let m = chunk g f len in
      let x = next_node g f r.volume in
      let (h1, e) : HasNode f x = next_node-HasNode r.volume k f h at l in
      let inside : q < n = (div-lt_iff_lt-mul c.some_bytes).1 l in
      let whole : s + q * cb ≡ f.offset = mod-add-div' f.offset cb in
      let low : s < cb = mod-lt f.offset c.some_bytes in
      let some_chunk : 0 < m = ground arith in
      let fits : s + m ≤ cb = ground arith in
      let short : m ≤ len = ground arith in
      let here : x.0.curnode ≡ node t a q = ap (λ (y : Filedes). y.curnode) e in
      let (h2, bytes) =
        read_clus-HasTable g t d x.1 x.0.curnode r.buff h1
          (subst (λ y. InData g y) (sym here) (hs q inside).1) in
      let to : u32 (f.offset + m) ≡ f.offset + m = omega arith in
      record {
        file_eq = λ i. record (e i) { offset = to i; curnode = x.0.curnode };
        count = refl;
        before =
            λ i lt. copy_out (read_clus g x.0.curnode r.buff x.1).0 r.ptr s r.readlen m i (inl lt);
        bytes = λ i lt.
            let (q', s') = div_mod_at cb q (s + i) c.some_bytes (omega arith) in
            let o : f.offset + i ≡ q * cb + (s + i) = omega arith in
            let there : x.0.curnode ≡ node t a ((f.offset + i) / cb) =
              here ∙ ap (node t a) (sym q' ∙ ap (λ y. y / cb) (sym o)) in
            let place : s + i ≡ (f.offset + i) % cb = sym s' ∙ ap (λ y. y % cb) (sym o) in
            copy_in (read_clus g x.0.curnode r.buff x.1).0 r.ptr s r.readlen m (r.readlen + i)
              (omega arith) (omega arith)
            ∙ ap (read_clus g x.0.curnode r.buff x.1).0 (omega arith)
            ∙ bytes (s + i) (omega (arith, c.size))
            ∙ (λ j. d (g.partition_sec + data_sec g (there j) + place j / 512) (place j % 512));
        table = h2;
        cluster = (
          q,
          record { curnode = here; above = inl (omega (arith, to)); below = omega (arith, to) },
        );
      }

  none_read :
      (r : Reading) → HasTable g t d r.volume → (k : ℕ) × IsAt g t a k r.file → Progress 0 r r
  none_read r h at =
      let stays : r.file.offset ≡ r.file.offset + 0 = omega arith in
      record {
        file_eq = λ i. record (r.file) { offset = stays i };
        count = omega arith;
        before = λ i l. refl;
        bytes = λ i l. absurd (omega arith);
        table = h;
        cluster = at;
      }

  Progress-trans :
      (m n : ℕ) (r r1 r2 : Reading) → Progress m r r1 → Progress n r1 r2 → Progress (m + n) r r2
  Progress-trans m n r r1 r2 p q =
      let o : r1.file.offset ≡ r.file.offset + m = ap (λ (f : Filedes). f.offset) p.file_eq in
      let sum : r1.file.offset + n ≡ r.file.offset + (m + n) = omega (arith, o) in
      record {
        file_eq =
            q.file_eq ∙ (λ i. record (p.file_eq i) { curnode = r2.file.curnode; offset = sum i });
        count = omega (arith, p.count, q.count);
        before = λ i l. q.before i (omega (arith, p.count)) ∙ p.before i l;
        bytes = λ i l. elim (Bool-cases (ltb i m)) [
          | inl lt ↦ q.before (r.readlen + i) (ground (arith, p.count)) ∙ p.bytes i (ltb→lt i m lt)
          | inr ge ↦
              let behind : m ≤ i = ground arith in
              ap r2.ptr (omega (arith, p.count))
              ∙ q.bytes (i - m) (omega arith)
              ∙ ap (file_byte g t d a) (omega (arith, o))
        ];
        table = q.table;
        cluster = q.cluster;
      }

  chunk_bounds : (len : ℕ) (f : Filedes) → 0 < len → (0 < chunk g f len) × (chunk g f len ≤ len)
  chunk_bounds len f h = let low = mod-lt f.offset c.some_bytes in (ground arith, ground arith)

  read_from-zero : (fuel : ℕ) (r : Reading) → read_from g fuel 0 r ≡ some r
  unfolding read_from
  read_from-zero zero r = refl
  read_from-zero (suc fuel) r = refl

  read_from-Progress :
      (fuel len : ℕ) (r : Reading)
      → HasTable g t d r.volume
      → (k : ℕ) × IsAt g t a k r.file
      → len ≤ fuel
      → r.file.offset + len ≤ n * g.clus_bytes
      → r.file.offset + len < 2 ^ 32
      → (r' : Reading) × (read_from g fuel len r ≡ some r') × Progress len r r'
  unfolding read_from
  read_from-Progress fuel zero r h at small l w = (r, read_from-zero fuel r, none_read r h at)
  read_from-Progress zero (suc len) r h at small l w = absurd (omega arith)
  read_from-Progress (suc fuel) (suc len) r h at small l w =
      let p = read_round-Progress (suc len) at.0 r h at.1 (omega arith) (omega arith) w in
      let m = chunk g r.file (suc len) in
      let next = read_round g (suc len) r in
      let (some_chunk, short) = chunk_bounds (suc len) r.file (omega arith) in
      let o : next.file.offset ≡ r.file.offset + m = ap (λ (f : Filedes). f.offset) p.file_eq in
      let all : m + (suc len - m) ≡ suc len = omega arith in
      let (r', e, p') =
        read_from-Progress fuel (suc len - m) next p.table p.cluster (omega arith)
          (omega (arith, o)) (omega (arith, o)) in
      let more : (suc len == 0) ≡ false = ground arith in
      (
        r',
        rw more e,
        subst (λ x. Progress x r r') all (Progress-trans m (suc len - m) r next r' p p'),
      )

-- What `Fat_read` gives from the clusters behind `a`.
pub fat_read-bytes :
    (g : Geometry) (t : ℕ → ℕ) (d : Disk) (v : Volume) (a n k fuel len : ℕ) (buff ptr : Sector)
    (f : Filedes)
    → IsClustered g
    → HasTable g t d v
    → HasNodes g t a n
    → IsAt g t a k f
    → f.offset + len ≤ n * g.clus_bytes
    → f.offset + len ≤ f.length
    → f.length < 2 ^ 32
    → len < 2 ^ 31
    → len ≤ fuel
    → (r : Reading) × (fat_read g fuel buff f ptr len v ≡ some (pos len, r))
      × ((i : ℕ) → i < len → r.ptr i ≡ file_byte g t d a (f.offset + i))
      × (r.file ≡ record f { curnode = r.file.curnode; offset = f.offset + len })
      × ((k' : ℕ) × IsAt g t a k' r.file)
      × HasTable g t d r.volume
unfolding fat_read
fat_read-bytes g t d v a n k fuel len buff ptr f c h hs at l short w int small =
    let r0 : Reading = record { readlen = 0; ptr = ptr; buff = buff; file = f; volume = v } in
    let (r, e, p) = read_from-Progress g t d c a n hs fuel len r0 h (k, at) small l (omega arith) in
    let inside : ltb f.length (u32 (f.offset + len)) ≡ false = ground arith in
    let count : r.readlen ≡ len = omega (arith, p.count) in
    let given : to_int (u32 len) ≡ pos len = ap to_int (omega (arith, int)) ∙ to_int-pos len int in
    (
      r,
      rw (inside, e) (ap (λ x. some (to_int (u32 x), r)) count ∙ ap (λ x. some (x, r)) given),
      λ i lt. ap r.ptr (omega arith) ∙ p.bytes i lt,
      p.file_eq,
      p.cluster,
      p.table,
    )

-- `Fat_read` of `len` < 2 ^ 31 bytes of a file on a FAT16 or FAT32 volume, none of them past its
-- length, which is below 2 ^ 32, where `curnode` is the cluster of the last byte before the offset,
-- or the first cluster at offset 0: the result is `len`, `ptr` has the bytes of the file from the
-- offset on, which are those in its chain of clusters; the offset moves on by `len`, `curnode` is
-- again that of the last byte before it, and of the file only these two change. Clusters have whole
-- sectors of 512 bytes, and those of the chain that hold the bytes are on the disk and have entries
-- in the table with bit positions below 2 ^ 32; the sectors of the tables have numbers below 2 ^ 32.
-- As many rounds as bytes are enough.
pub fat_read-file_byte :
    (g : Geometry) (t : ℕ → ℕ) (d : Disk) (v : Volume) (n k fuel len : ℕ) (buff ptr : Sector)
    (f : Filedes)
    → IsClustered g
    → HasTable g t d v
    → HasNodes g t f.startnode n
    → IsAt g t f.startnode k f
    → f.offset + len ≤ n * g.clus_bytes
    → f.offset + len ≤ f.length
    → f.length < 2 ^ 32
    → len < 2 ^ 31
    → len ≤ fuel
    → (r : Reading) × (fat_read g fuel buff f ptr len v ≡ some (pos len, r))
      × ((i : ℕ) → i < len → r.ptr i ≡ file_byte g t d f.startnode (f.offset + i))
      × (r.file ≡ record f { curnode = r.file.curnode; offset = f.offset + len })
      × ((k' : ℕ) × IsAt g t f.startnode k' r.file)
      × HasTable g t d r.volume
fat_read-file_byte g t d v n k fuel len buff ptr f =
    fat_read-bytes g t d v f.startnode n k fuel len buff ptr f
