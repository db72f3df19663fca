-- ===== src/Fat/Chain.antt =====
-- kernel/fat.c: the chains of clusters, from `getpreclus` to `releaseclus`, and `Fat_cut`,
-- `Fat_expand` and `Fat_seek`. A result is an `int`: a cluster, or a negative number.
pub mod Blank
pub mod Release
use chouryos.Base.{
  ℕ, zero, suc, ◌+◌, ◌-◌, ◌*◌, Bool, true, false, Option, none, some, ◌==◌, ltb, leb, if◌then◌else◌,
}
use chouryos.Base.Int.{ℤ, pos, negsuc, sub_ℕ}
use chouryos.Hd.{WriteHd}
use chouryos.Fat.{Geometry, Volume}
use chouryos.Fat.Table.{is_no_clus, getnextclus, writenextclus}

-- The loop of `getpreclus` and of `getblankclus` over the clusters from `n` on, with `left` rounds
-- to go: the first whose entry is `x`.
unfoldable pub find_entry : Geometry → ℕ → ℕ → ℕ → Volume → Option ℕ × Volume
find_entry g zero n x v = (none, v)
find_entry g (suc left) n x v =
    let (e, v') = getnextclus g n v in
    let rest = find_entry g left (n + 1) x v' in if e == x then (some n, v') else rest

abbrev found_or_eoc : Geometry → Option ℕ × Volume → ℕ × Volume
found_or_eoc g (some n, v) = (n, v)
found_or_eoc g (none, v) = (g.eoc, v)

unfoldable pub getpreclus : Geometry → ℕ → Volume → ℕ × Volume
getpreclus g clus v = found_or_eoc g (find_entry g (g.max_clus - 1) 2 clus v)

module _ (write_hd : WriteHd) (g : Geometry) where
  abbrev link : ℕ → Option ℕ × Volume → ℕ × Volume
  link clus (some n, v) = (n, if clus == 0 then v else (writenextclus write_hd g clus n v).1)
  link clus (none, v) = (g.eoc, v)

  -- `getblankclus`: the first free cluster, to which the entry of `clus` then points.
  unfoldable pub getblankclus : ℕ → Volume → ℕ × Volume
  getblankclus clus v = link clus (find_entry g (g.max_clus - 1) 2 0 v)

  -- The loop of `releaseclus`, at most `fuel` rounds.
  unfoldable pub release_from : ℕ → ℕ → Volume → Option Volume
  release_from zero clus v = none
  release_from (suc fuel) clus v =
      let (tmpclus, v1) = getnextclus g clus v in
      let rest = release_from fuel tmpclus (writenextclus write_hd g clus 0 v1).1 in
      if leb clus g.max_clus then rest else some v

  -- `releaseclus`; with the flag `clus` is freed too. The result -1 is not used by a caller.
  unfoldable pub releaseclus : ℕ → ℕ → Bool → Volume → Option Volume
  releaseclus fuel clus flag v =
      let (tmpclus, v1) = getnextclus g clus v in
      let v2 = (writenextclus write_hd g clus (if flag then 0 else g.eoc) v1).1 in
      if is_no_clus g clus then some v else release_from fuel tmpclus v2

  unfoldable pub fat_cut : ℕ → ℕ → Volume → Option Volume
  fat_cut fuel clus v = releaseclus fuel clus false v

  abbrev give_back : ℕ → ℕ → ℕ → Bool → Volume → Option (ℤ × Volume)
  give_back fuel clus c flag v = elim (if flag then releaseclus fuel clus false v else some v) [
    | some v' ↦ some (sub_ℕ 0 c, v')
    | none ↦ none
  ]

  -- The loop of `Fat_expand`, with `left` clusters to go, `c` of them taken.
  unfoldable pub expand_from : ℕ → ℕ → ℕ → ℕ → ℕ → Bool → Volume → Option (ℤ × Volume)
  expand_from fuel zero c clus tmpclus flag v = some (pos tmpclus, v)
  expand_from fuel (suc left) c clus tmpclus flag v =
      let (n, v') = getblankclus tmpclus v in
      let rest = expand_from fuel left (c + 1) clus n flag v' in
      if n == g.eoc then give_back fuel clus c flag v' else rest

  unfoldable pub fat_expand : ℕ → ℕ → ℕ → Bool → Volume → Option (ℤ × Volume)
  fat_expand fuel clus len flag v = expand_from fuel len 0 clus clus flag v

  -- The loop of `Fat_seek` forwards, with `left` clusters to go.
  unfoldable pub seek_forward : ℕ → ℕ → ℕ → Volume → Option (ℤ × Volume)
  seek_forward fuel zero clus v = some (pos clus, v)
  seek_forward fuel (suc left) clus v =
      let (tmpclus, v') = getnextclus g clus v in
      let rest = seek_forward fuel left tmpclus v' in
      if leb g.beoc tmpclus then fat_expand fuel clus (suc left) true v' else rest

  unfoldable pub seek_back : ℕ → ℕ → Volume → ℕ × Volume
  seek_back zero clus v = (clus, v)
  seek_back (suc left) clus v = let (p, v') = getpreclus g clus v in seek_back left p v'

  abbrev went_back : ℕ × Volume → Option (ℤ × Volume)
  went_back (clus, v) = some (pos clus, v)

  unfoldable pub fat_seek : ℕ → ℕ → ℤ → Volume → Option (ℤ × Volume)
  fat_seek fuel clus (pos n) v = seek_forward fuel n clus v
  fat_seek fuel clus (negsuc n) v = went_back (seek_back (suc n) clus v)
