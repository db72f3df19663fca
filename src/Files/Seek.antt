-- ===== src/Files/Seek.antt =====
-- `file_lseek` within a file, and a read behind it.
use chouryos.Base.{
  ℕ, zero, suc, ◌+◌, ◌*◌, ◌/◌, ◌%◌, ◌^◌, ◌≤◌, ◌<◌, ◌≡◌, ◌≢◌, ◌⊎◌, inl, inr, refl, sym, ap, subst,
  ◌∙◌, u32, arith, leb, ltb, if◌then◌else◌, some, true, false,
}
use native.Mathlib.Nat.{
  div-le_self, mod-add-div', mod-lt, zero-div, mul-div_left, div-lt_iff_lt-mul, add-div_right,
  add-mod_right,
}
use chouryos.Base.Int.{pos, ltb_ℤ, to_int, to_int-pos}
use chouryos.Hd.{Sector, Disk, WriteHd}
use chouryos.Filedes.{Filedes}
use chouryos.Fat.{Geometry, Volume}
use chouryos.Fat.Table.Map.{HasTable, getnextclus-HasTable}
use chouryos.Fat.Chain.{seek_forward, fat_seek}
use chouryos.Fat.Data.{Reading, fat_read}
use chouryos.Fat.Data.Read.{node, file_byte, HasNodes, IsClustered, IsAt, fat_read-bytes}
use chouryos.Files.{Store, seek_set, file_lseek}

node-next : (t : ℕ → ℕ) (a i : ℕ) → node t (t a) i ≡ node t a (suc i)
node-next t a zero = refl
node-next t a (suc i) = ap t (node-next t a i)

HasNodes-next : (g : Geometry) (t : ℕ → ℕ) (a m : ℕ) → HasNodes g t a (suc m) → HasNodes g t (t a) m
HasNodes-next g t a m h i l = rw (node-next t a i) (h (suc i) (omega arith))

-- The loop of `Fat_seek` goes along the chain, as far as it is long enough.
seek_forward-node :
    (k : WriteHd) (g : Geometry) (t : ℕ → ℕ) (d : Disk) (fuel m a : ℕ) (v : Volume)
    → HasTable g t d v
    → HasNodes g t a (suc m)
    → (v' : Volume) × (seek_forward k g fuel m a v ≡ some (pos (node t a m), v'))
      × HasTable g t d v'
unfolding seek_forward
seek_forward-node k g t d fuel zero a v h hs = (v, refl, h)
seek_forward-node k g t d fuel (suc m) a v h hs =
    let (v1, e1, h1) = getnextclus-HasTable g t d v a h (hs 0 (omega arith)).0 in
    let (v2, e2, h2) =
      seek_forward-node k g t d fuel m (t a) v1 h1 (HasNodes-next g t a (suc m) hs) in
    let range : t a < g.beoc = ((hs 1 (omega arith)).0).range.1 in
    let more : leb g.beoc (t a) ≡ false = ground arith in
    (v2, rw (e1, more) (e2 ∙ ap (λ x. some (pos x, v2)) (node-next t a m)), h2)

-- Where a seek from the start of a file leads.
abbrev at_offset : (ℕ → ℕ) → Geometry → ℕ → Filedes → Filedes
at_offset t g off f = record f {
  curnode = node t f.startnode (off / g.clus_bytes);
  offset = off;
  length = if ltb f.length off then off else f.length;
}

file_lseek-at_offset :
    (k : WriteHd) (g : Geometry) (t : ℕ → ℕ) (d : Disk) (fuel off : ℕ) (f : Filedes) (s : Store)
    → HasTable g t d s.volume
    → f.nodebytes ≡ g.clus_bytes
    → HasNodes g t f.startnode (suc (off / g.clus_bytes))
    → off < 2 ^ 31
    → (v : Volume) × (file_lseek k g fuel f (pos off) seek_set s
        ≡ some (pos off, at_offset t g off f, record s { volume = v }))
      × HasTable g t d v
unfolding file_lseek fat_seek
file_lseek-at_offset k g t d fuel off f s h nb hs l =
    let q = off / g.clus_bytes in
    let small : q ≤ off = div-le_self off g.clus_bytes in
    let word : u32 off ≡ off = omega arith in
    let steps : to_int (u32 off / f.nodebytes) ≡ pos q =
      ap (λ x. to_int (x / f.nodebytes)) word
      ∙ ap (λ y. to_int (off / y)) nb
      ∙ to_int-pos q (omega arith) in
    let (v, e, h') = seek_forward-node k g t d fuel q f.startnode s.volume h hs in
    let (place, there) = hs q (omega arith) in
    let start : ltb_ℤ (pos off) (pos 0) ≡ false = ground arith in
    let found : ltb_ℤ (pos 0) (pos (node t f.startnode q)) ≡ true = ground (arith, place.range) in
    let whole : u32 (node t f.startnode q) ≡ node t f.startnode q = omega (arith, there.whole) in
    (v, rw (start, steps, e, found, whole, word, to_int-pos off l) refl, h')

-- How far a file is read: `len` bytes from `off` on.
pub record Range (g : Geometry) (f : Filedes) (off len n : ℕ) : Type 0 where
  pub nodes : f.nodebytes ≡ g.clus_bytes
  pub some_bytes : 0 < len
  pub clusters : off + len ≤ n * g.clus_bytes
  pub inside : off + len ≤ f.length
  pub bound : off < 2 ^ 31
  pub word : f.length < 2 ^ 32
  pub count : len < 2 ^ 31

-- A seek and then a read of `len` bytes: `wanted i` is byte `i` of what is read.
abbrev pub SeekReads :
    WriteHd → Geometry → ℕ → ℕ → ℕ → Sector → Sector → Filedes → Store → (ℕ → ℕ) → Type 0
SeekReads k g fuel off len buff ptr f s wanted =
    (f' : Filedes) × (v : Volume) × (r : Reading) × (file_lseek k g fuel f (pos off) seek_set s
      ≡ some (pos off, f', record s { volume = v }))
    × (fat_read g len buff f' ptr len v ≡ some (pos len, r))
    × ((i : ℕ) → i < len → r.ptr i ≡ wanted i)

module _ (k : WriteHd) (g : Geometry) (t : ℕ → ℕ) (d : Disk) (fuel off len n : ℕ)
    (buff ptr : Sector) (f : Filedes) (s : Store) (c : IsClustered g) (h : HasTable g t d s.volume)
    (w : Range g f off len n) where
  -- The read of the file that starts at cluster `a`, where `curnode` is right for it.
  seek_reads :
      (a j : ℕ)
      → HasNodes g t f.startnode (suc (off / g.clus_bytes))
      → HasNodes g t a n
      → IsAt g t a j (at_offset t g off f)
      → SeekReads k g fuel off len buff ptr f s (λ i. file_byte g t d a (off + i))
  seek_reads a j hs hs' at =
      let (v, e, h') = file_lseek-at_offset k g t d fuel off f s h w.nodes hs w.bound in
      let f' = at_offset t g off f in
      let longer : f'.length ≡ f.length = ground (arith, w.inside) in
      let (r, e', bytes, _, _, _) =
        fat_read-bytes g t d v a n j len len buff ptr f' c h' hs' at w.clusters
          (omega (arith, longer, w.inside)) (omega (arith, longer, w.word)) w.count (omega arith) in
      (f', v, r, e, e', bytes)

at_offset-IsAt :
    (g : Geometry) (t : ℕ → ℕ) (off : ℕ) (f : Filedes)
    → IsClustered g
    → (off ≡ 0) ⊎ (off % g.clus_bytes ≢ 0)
    → IsAt g t f.startnode (off / g.clus_bytes) (at_offset t g off f)
at_offset-IsAt g t off f c h =
    let whole : off % g.clus_bytes + off / g.clus_bytes * g.clus_bytes ≡ off =
      mod-add-div' off g.clus_bytes in
    let low : off % g.clus_bytes < g.clus_bytes = mod-lt off c.some_bytes in
    record {
      curnode = refl;
      above = elim h [
        | inl z ↦ inr (ap (λ x. x / g.clus_bytes) z ∙ zero-div g.clus_bytes, z)
        | inr e ↦ inl (omega arith)
      ];
      below = omega arith;
    }

-- On a FAT16 or FAT32 volume, for an offset of 0 or inside a cluster of the file: `file_lseek` from
-- the start of the file gives the offset, and `Fat_read` of `len` bytes then gives `len` and the bytes
-- of the file from the offset on. The offset and `len` are below 2 ^ 31, `len` is not 0, the bytes end
-- within the file, whose length is below 2 ^ 32, `nodebytes` is the size of a cluster, which is whole
-- sectors of 512 bytes, and the clusters up to the last of the bytes are on the disk and have entries
-- in the table with bit positions below 2 ^ 32; the sectors of the tables have numbers below 2 ^ 32.
pub fat_read-file_lseek :
    (k : WriteHd) (g : Geometry) (t : ℕ → ℕ) (d : Disk) (fuel off len n : ℕ) (buff ptr : Sector)
    (f : Filedes) (s : Store)
    → IsClustered g
    → HasTable g t d s.volume
    → Range g f off len n
    → HasNodes g t f.startnode n
    → (off ≡ 0) ⊎ (off % g.clus_bytes ≢ 0)
    → SeekReads k g fuel off len buff ptr f s (λ i. file_byte g t d f.startnode (off + i))
fat_read-file_lseek k g t d fuel off len n buff ptr f s c h w hs inner =
    let inside : off / g.clus_bytes < n =
      (div-lt_iff_lt-mul c.some_bytes).1 (omega (arith, w.some_bytes, w.clusters)) in
    let hs' : HasNodes g t f.startnode (suc (off / g.clus_bytes)) = λ i l. hs i (omega arith) in
    seek_reads k g t d fuel off len n buff ptr f s c h w f.startnode (off / g.clus_bytes) hs' hs
      (at_offset-IsAt g t off f c inner)

file_byte-next :
    (g : Geometry) (t : ℕ → ℕ) (d : Disk) (a p : ℕ)
    → IsClustered g
    → file_byte g t d (t a) p ≡ file_byte g t d a (p + g.clus_bytes)
unfolding file_byte
file_byte-next g t d a p c =
    let q : (p + g.clus_bytes) / g.clus_bytes ≡ suc (p / g.clus_bytes) =
      add-div_right p c.some_bytes ∙ omega arith in
    let r : (p + g.clus_bytes) % g.clus_bytes ≡ p % g.clus_bytes = add-mod_right p g.clus_bytes in
    rw (q, r, node-next t a (p / g.clus_bytes)) refl

-- For an offset at the start of a cluster that is not the file's first, the same read gives the bytes
-- that stand a cluster further on: `Fat_read` goes on to the next cluster once more. The offset and
-- the length of the read are below 2 ^ 31, the bytes end within the file, whose length is below
-- 2 ^ 32, and the clusters of the file, one more than the bytes take, are on the disk and have entries
-- in the table with bit positions below 2 ^ 32, of a FAT16 or FAT32 volume whose tables have sectors
-- with numbers below 2 ^ 32.
pub fat_read-file_lseek_boundary :
    (k : WriteHd) (g : Geometry) (t : ℕ → ℕ) (d : Disk) (fuel m len n : ℕ) (buff ptr : Sector)
    (f : Filedes) (s : Store)
    → IsClustered g
    → HasTable g t d s.volume
    → Range g f (suc m * g.clus_bytes) len n
    → HasNodes g t f.startnode (suc n)
    → SeekReads k g fuel
        (suc m * g.clus_bytes)
        len
        buff
        ptr
        f
        s
        (λ i. file_byte g t d f.startnode (suc m * g.clus_bytes + i + g.clus_bytes))
fat_read-file_lseek_boundary k g t d fuel m len n buff ptr f s c h w hs =
    let off = suc m * g.clus_bytes in
    let q : off / g.clus_bytes ≡ suc m = mul-div_left (suc m) c.some_bytes in
    let inside : suc m < n =
      subst (λ x. x < n) q
        ((div-lt_iff_lt-mul c.some_bytes).1 (omega (arith, w.some_bytes, w.clusters))) in
    let hs' : HasNodes g t f.startnode (suc (off / g.clus_bytes)) =
      λ i l. hs i (omega (arith, q)) in
    let at : IsAt g t (t f.startnode) m (at_offset t g off f) = record {
      curnode = ap (node t f.startnode) q ∙ sym (node-next t f.startnode m);
      above = inl (omega (arith, c.some_bytes));
      below = omega arith;
    } in
    let (f', v, r, e, e', bytes) =
      seek_reads k g t d fuel off len n buff ptr f s c h w (t f.startnode) m hs'
        (HasNodes-next g t f.startnode n hs) at in
    (f', v, r, e, e', λ i l. bytes i l ∙ file_byte-next g t d f.startnode (off + i) c)
