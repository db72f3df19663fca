-- ===== src/Filedes.antt =====
-- include/file.h: an open file.
use chouryos.Base.{ℕ, Bool}

abbrev pub max_fd : ℕ
max_fd = 10

-- `Filetype`
pub data Filetype : Type 0 where
  nomal_file tty msg : Filetype

-- `filedes`. The union `target` is the process of a message file, or a device. A time is in seconds
-- from 1970 to 2038.
pub record Filedes : Type 0 where
  pub isused : Bool
  pub filetype : Filetype
  pub target : ℕ
  pub flags : ℕ
  pub dirnode : ℕ
  pub indexno : ℕ
  pub offset : ℕ
  pub startnode : ℕ
  pub curnode : ℕ
  pub nodebytes : ℕ
  pub length : ℕ
  pub createtime : ℕ
  pub accesstime : ℕ
  pub updatetime : ℕ
