-- ===== src/Keyboard/Keys.antt =====
-- What the keyboard's handler makes of scan codes: modifiers, characters, and Ctrl-C.
use chouryos.Base.{
  ℕ, ◌-◌, ◌^◌, ◌≤◌, ◌<◌, ◌≡◌, ◌≢◌, refl, bit_and, bit_or, Bool, true, false, not, ◌&&◌, ◌||◌, arith,
  ◌==◌, if◌then◌else◌, u8, get_or, ne→==, le→leb,
}
use chouryos.Base.Bits.{holds_below, holds_below_at}
use chouryos.Keyboard.{
  Keyboard, key_shift, key_cap, key_ctrl, table, table_s, has_flag, put_key, handle_code,
}
use chouryos.Keyboard.Queue.{IsValid, contents, push, put_key-push}

c_row : ℕ → Bool
c_row a = if get_or table a 0 == b'c' then a == 0x2e else not (a == 0x2e)

c_table : holds_below 58 c_row ≡ true
unfolding holds_below c_row
c_table = refl

-- Only the key 0x2e has the character `c`.
c_key : (a : ℕ) → a ≤ 0x39 → (get_or table a 0 == b'c') ≡ (a == 0x2e)
unfolding c_row
c_key a h = ground (arith, holds_below_at 58 c_row a c_table (omega arith))

-- The handler sends SIGTERM exactly where Ctrl is held and the key 0x2e, `c`, is pressed.
pub handle_code-sigterm :
    (a : ℕ) (k : Keyboard) → (handle_code a k).1 ≡ (has_flag key_ctrl k && (a == 0x2e))
unfolding handle_code
handle_code-sigterm a k = ground (arith, c_key a)

-- A key that is no modifier and has a character.
pub record IsChar (a : ℕ) : Type 0 where
  pub small : a ≤ 0x39
  pub not_shift : (a ≢ 0x2a) × (a ≢ 0x36)
  pub not_alt : a ≢ 0x38
  pub not_ctrl : a ≢ 0x1d

-- The table in use: that of the shifted characters where Shift or Caps Lock is down.
abbrev pub character : Keyboard → ℕ → ℕ
character k a =
    if has_flag key_shift k || has_flag key_cap k then get_or table_s a 0 else get_or table a 0

put_char :
    (b : Bool) (x y : ℕ) (k : Keyboard)
    → Path
        (Keyboard × Bool)
        (if b then (put_key x k, false) else (put_key y k, false))
        (put_key (if b then x else y) k, false)
put_char true x y k = refl
put_char false x y k = refl

handle_code-char :
    (a : ℕ) (k : Keyboard)
    → IsChar a
    → has_flag key_ctrl k ≡ false
    → handle_code a k ≡ (put_key (character k a) k, false)
unfolding handle_code
handle_code-char a k h ctrl =
    rw
      (
        ne→== a 0x2a h.not_shift.0,
        ne→== a 0x36 h.not_shift.1,
        ne→== a 0xaa (omega (arith, h.small)),
        ne→== a 0xb6 (omega (arith, h.small)),
        ne→== a 0x3a (omega (arith, h.small)),
        ne→== a 0xba (omega (arith, h.small)),
        ne→== a 0x38 h.not_alt,
        ne→== a 0xb8 (omega (arith, h.small)),
        ne→== a 0x1d h.not_ctrl,
        ne→== a 0x9d (omega (arith, h.small)),
        le→leb a 0x39 h.small,
        ctrl,
      )
      (put_char (has_flag key_shift k || has_flag key_cap k) (get_or table_s a 0) (get_or table a 0)
        k)

flag_row : ℕ → Bool
flag_row f =
    not (bit_and (bit_or f key_shift) key_shift == 0)
    && ((bit_and (bit_or f key_shift) key_ctrl == bit_and f key_ctrl)
        && (bit_and (bit_or f key_shift) (2 ^ 32 - 1 - key_shift)
            == bit_and f (2 ^ 32 - 1 - key_shift)))

flag_table : holds_below 32 flag_row ≡ true
unfolding holds_below flag_row
flag_table = refl

shift_bits :
    (f : ℕ)
    → f < 32
    → (bit_and (bit_or f key_shift) key_shift ≢ 0)
      × (bit_and (bit_or f key_shift) key_ctrl ≡ bit_and f key_ctrl)
      × (bit_and (bit_or f key_shift) (2 ^ 32 - 1 - key_shift) ≡ bit_and f (2 ^ 32 - 1 - key_shift))
unfolding flag_row
shift_bits f h = ground (arith, holds_below_at 32 flag_row f flag_table h)

release_shift :
    (k : Keyboard)
    → handle_code 0xaa k ≡ (record k { flag = bit_and k.flag (2 ^ 32 - 1 - key_shift) }, false)
unfolding handle_code
release_shift k = refl

flag-put_key : (x : ℕ) (k : Keyboard) → (put_key x k).flag ≡ k.flag
unfolding put_key
flag-put_key x k = refl

-- Shift pressed, a character key pressed, Shift released: the shifted character goes to the end of
-- the queue, no signal is sent, and the flags are as before but for Shift, which is up. Ctrl is not
-- held, and the flags are those of the four keys.
pub handle_code-shifted :
    (a : ℕ) (k : Keyboard)
    → IsValid k
    → k.flag < 32
    → IsChar a
    → has_flag key_ctrl k ≡ false
    → let down = (handle_code 0x2a k).0 in
      let (typed, signal) = handle_code a down in
      let up = (handle_code 0xaa typed).0 in
      (contents up ≡ push (u8 (get_or table_s a 0)) (contents k))
      × (signal ≡ false)
      × (up.flag ≡ bit_and k.flag (2 ^ 32 - 1 - key_shift))
handle_code-shifted a k v small char ctrl =
    let down : Keyboard = record k { flag = bit_or k.flag key_shift } in
    let pressed : handle_code 0x2a k ≡ (down, false) = unfold handle_code in refl in
    let bits = shift_bits k.flag small in
    let typed : handle_code a down ≡ (put_key (character down a) down, false) =
      handle_code-char a down char (rw bits.1 ctrl) in
    let shown : character down a ≡ get_or table_s a 0 = rw (ne→== _ 0 bits.0) in
    rw (pressed, typed, shown, release_shift (put_key (get_or table_s a 0) down))
      (
        put_key-push (get_or table_s a 0) down
            (record { head_in = v.head_in; tail_in = v.tail_in }),
        refl,
        rw (flag-put_key (get_or table_s a 0) down) bits.2,
      )
