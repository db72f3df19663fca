-- ===== src/Keyboard.antt =====
-- driver/keyboad.c: the interrupt handler that turns scan codes into characters, the ring that
-- holds them, and `getone`.
pub mod Queue
pub mod Keys
mod Examples
use chouryos.Base.{
  ℕ, ◌+◌, ◌-◌, ◌%◌, ◌^◌, bit_and, bit_or, Bool, true, false, not, ◌&&◌, ◌||◌, Option, none, some,
  List, [], ◌∷◌, ◌==◌, leb, if◌then◌else◌, get_or, u8, update,
}

-- The file's variables. `keybuff` is the array of 10 bytes.
pub record Keyboard : Type 0 where
  pub keyhead : ℕ
  pub keytail : ℕ
  pub keybuff : ℕ → ℕ
  pub flag : ℕ

abbrev pub key_shift : ℕ
key_shift = 0x1

abbrev pub key_ctrl : ℕ
key_ctrl = 0x2

abbrev pub key_alt : ℕ
key_alt = 0x4

abbrev pub key_cap : ℕ
key_cap = 0x10

-- `table` and `table_s`: 60 characters by scan code.
abbrev pub table : List ℕ
table =
    32 ∷ 32 ∷ 49 ∷ 50 ∷ 51 ∷ 52 ∷ 53 ∷ 54 ∷ 55 ∷ 56 ∷ 57 ∷ 48 ∷ 45 ∷ 61 ∷ 8 ∷ 9 ∷ 113 ∷ 119 ∷ 101
    ∷ 114 ∷ 116 ∷ 121 ∷ 117 ∷ 105 ∷ 111 ∷ 112 ∷ 91 ∷ 93 ∷ 10 ∷ 32 ∷ 97 ∷ 115 ∷ 100 ∷ 102 ∷ 103 ∷ 104
    ∷ 106 ∷ 107 ∷ 108 ∷ 59 ∷ 39 ∷ 96 ∷ 32 ∷ 92 ∷ 122 ∷ 120 ∷ 99 ∷ 118 ∷ 98 ∷ 110 ∷ 109 ∷ 44 ∷ 46
    ∷ 47 ∷ 32 ∷ 32 ∷ 32 ∷ 32 ∷ 32 ∷ 32 ∷ []

abbrev pub table_s : List ℕ
table_s =
    32 ∷ 32 ∷ 33 ∷ 64 ∷ 35 ∷ 36 ∷ 37 ∷ 94 ∷ 38 ∷ 42 ∷ 40 ∷ 41 ∷ 95 ∷ 43 ∷ 8 ∷ 9 ∷ 81 ∷ 87 ∷ 69 ∷ 82
    ∷ 84 ∷ 89 ∷ 85 ∷ 73 ∷ 79 ∷ 80 ∷ 123 ∷ 125 ∷ 10 ∷ 32 ∷ 65 ∷ 83 ∷ 68 ∷ 70 ∷ 71 ∷ 72 ∷ 74 ∷ 75 ∷ 76
    ∷ 58 ∷ 34 ∷ 126 ∷ 32 ∷ 124 ∷ 90 ∷ 88 ∷ 67 ∷ 86 ∷ 66 ∷ 78 ∷ 77 ∷ 60 ∷ 62 ∷ 63 ∷ 32 ∷ 32 ∷ 32 ∷ 32
    ∷ 32 ∷ 32 ∷ []

-- `flag |= bit` and `flag &= ~bit`. The flag never has another bit set than the four keys'.
abbrev pub set_flag : ℕ → Keyboard → Keyboard
set_flag bit k = record k { flag = bit_or k.flag bit }

abbrev pub clear_flag : ℕ → Keyboard → Keyboard
clear_flag bit k = record k { flag = bit_and k.flag (2 ^ 32 - 1 - bit) }

abbrev pub has_flag : ℕ → Keyboard → Bool
has_flag bit k = not (bit_and k.flag bit == 0)

-- The lines that put a character into the ring. A full ring loses its oldest character.
unfoldable pub put_key : ℕ → Keyboard → Keyboard
put_key a k =
    let h = (k.keyhead + 1) % 10 in
    let t =
      if h == k.keytail then (if k.keytail + 1 == 10 then 0 else k.keytail + 1) else k.keytail in
    record k { keytail = t; keybuff = update k.keybuff k.keyhead (u8 a); keyhead = h }

-- What the handler does with the scan code: the new state, and whether it sends SIGTERM to the
-- current process.
unfoldable pub handle_code : ℕ → Keyboard → Keyboard × Bool
handle_code a k =
    if (a == 0x2a) || (a == 0x36)
    then (set_flag key_shift k, false)
    else if (a == 0xaa) || (a == 0xb6)
    then (clear_flag key_shift k, false)
    else if a == 0x3a
    then (set_flag key_cap k, false)
    else if a == 0xba
    then (clear_flag key_cap k, false)
    else if a == 0x38
    then (set_flag key_alt k, false)
    else if a == 0xb8
    then (clear_flag key_alt k, false)
    else if a == 0x1d
    then (set_flag key_ctrl k, false)
    else if a == 0x9d
    then (clear_flag key_ctrl k, false)
    else if leb a 0x39
    then (if has_flag key_ctrl k && (get_or table a 0 == b'c')
        then (k, true)
        else if has_flag key_shift k || has_flag key_cap k
        then (put_key (get_or table_s a 0) k, false)
        else (put_key (get_or table a 0) k, false))
    else (k, false)

-- `getone`: the character and the new state, or `none` where the ring is empty and the process
-- blocks, to test the ring again when it runs next.
unfoldable pub getone : Keyboard → Option (ℕ × Keyboard)
getone k =
    if k.keyhead == k.keytail
    then none
    else some (
      k.keybuff k.keytail,
      record k { keytail = if k.keytail + 1 == 10 then 0 else k.keytail + 1 },
    )
