-- ===== src/Memory/Share/Examples.antt =====
-- A run of the sharing of a frame, and the theorem at an input.
use chouryos.Base.{◌≡◌, refl, some, arith}
use chouryos.Memory.Frames.{no_share}
use chouryos.Memory.Share.{Sharing, sharepage, devpage}
use chouryos.Memory.Share.Pair.{IsFree, IsPair, IsOwned, devpage-sharepage}

-- Every entry maps frame 0x501 for reading and writing, and nothing is shared.
abbrev unshared : Sharing
unshared = record {
  psl = λ i. no_share;
  table = λ frame i. record {
    p = 1;
    r_w = 1;
    u_s = 1;
    pwt = 0;
    pcd = 0;
    a = 0;
    d = 0;
    pat = 0;
    g = 0;
    avl = 0;
    base = 0x501;
  };
}

IsFree-three : IsFree unshared.psl 1 2 3
IsFree-three = record {
  order = (omega arith, omega arith, omega arith, omega arith);
  free = (refl, refl, refl);
  first = λ y lo hi a b. absurd (omega arith);
}

IsPair-two : IsPair unshared 0x600 7 0x700 7
IsPair-two = record {
  tables = (omega arith, omega arith, omega arith);
  indices = (omega arith, omega arith);
  frame = (omega arith, refl);
  fresh = omega arith;
  unnamed = λ y. omega arith;
}

devpage-sharepage_example :
    (s1 : Sharing) × (s2 : Sharing) × (s3 : Sharing) × (sharepage 9 0x600 7 0x700 7 unshared
      ≡ some s1)
    × (devpage 9 0x700 7 s1 ≡ some s2)
    × (devpage 9 0x600 7 s1 ≡ some s3)
    × IsOwned unshared s2 0x600 7 0x700 7
    × IsOwned unshared s3 0x600 7 0x700 7
devpage-sharepage_example =
    devpage-sharepage unshared 0x600 7 0x700 7 1 2 3 9 IsFree-three IsPair-two
