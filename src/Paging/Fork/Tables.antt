-- ===== src/Paging/Fork/Tables.antt =====
-- `sys_fork` at all page tables of the parent but the first of user space.
use chouryos.Paging.{Paging}
