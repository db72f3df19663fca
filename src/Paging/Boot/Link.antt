-- ===== src/Paging/Boot/Link.antt =====
-- What a new page table changes.
use chouryos.Base.{ℕ, ◌%◌, ◌^◌, ◌<◌, ◌≡◌, ◌≢◌, refl, sym, arith, true, ◌==◌, ne→==}
use chouryos.Memory.Window.{Ptable}
use chouryos.Paging.{Paging, setpt, entry}
use chouryos.Paging.Boot.{link}

module _ (us pde i table : ℕ) (e : ℕ → Ptable → Ptable) (s : Paging) (apart : pde ≢ table)
    (small : table < 2 ^ 20) where
  page : table % 2 ^ 20 ≡ table
  page = omega arith

  self : (x : ℕ) → (x == x) ≡ true
  self x = ground arith

  pub link_here : entry (link us pde i table e s) pde i ≡ setpt table us
  unfolding link
  link_here = rw (page, ne→== table pde (λ q. apart (sym q)), self pde, self i) refl

  pub link_directory : (x : ℕ) → i ≢ x → entry (link us pde i table e s) pde x ≡ entry s pde x
  unfolding link
  link_directory x n = rw (page, ne→== table pde (λ q. apart (sym q)), self pde, ne→== i x n) refl

  pub link_table : (x : ℕ) → entry (link us pde i table e s) table x ≡ e x (entry s table x)
  unfolding link
  link_table x = rw (page, self table, ne→== pde table apart) refl

  pub link_other :
      (f x : ℕ) → f ≢ pde → f ≢ table → entry (link us pde i table e s) f x ≡ entry s f x
  unfolding link
  link_other f x n m = rw (page, ne→== table f (λ q. m (sym q)), ne→== pde f (λ q. n (sym q))) refl
