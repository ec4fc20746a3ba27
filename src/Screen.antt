-- ===== src/Screen.antt =====
-- kernel/drivers/Screen.cpp and Screen.hpp: the text screen. Its memory is the bytes from SCREEN_PTR
-- on, by their offset; what lies behind the screen has offsets too. The cursor's ports are left out.
pub mod Bounds
use lt_micros.Base.{
  ℕ, zero, suc, ◌+◌, ◌-◌, ◌*◌, ◌/◌, ◌%◌, ◌^◌, ◌≤◌, ◌<◌, ◌≡◌, ◌≢◌, refl, ap, sym, ◌∙◌, List, [], ◌∷◌,
  Bool, true, false, ◌&&◌, ◌||◌, not, if◌then◌else◌, ◌==◌, ltb, leb, arith, inl, inr, Bool-cases,
  lt→ltb,
}

abbrev pub lines : ℕ
lines = 25

abbrev pub columns : ℕ
columns = 80

-- SCREEN_END_PTR - SCREEN_PTR
abbrev pub screen_end : ℕ
screen_end = 4000

abbrev pub Memory : Type 0
Memory = ℕ → ℕ

pub record Screen : Type 0 where
  pub line : ℕ
  pub column : ℕ
  pub color : ℕ
  pub memory : Memory

unfoldable pub write : Memory → ℕ → ℕ → Memory
write m a b i = if i == a then b else m i

-- The loop of ScreenDriver::ScrollUp over the bytes that are left; `lastLine_ptr` is one cell behind
-- the last line.
unfoldable pub scroll_from : (left at : ℕ) → Memory → Memory
unfolding write
scroll_from zero at m = m
scroll_from (suc left) at m =
    scroll_from left (at + 1)
      (write m at (if ltb at ((1 + lines * columns) * 2) then m (at + columns * 2) else 0))

-- ScreenDriver::ScrollUp; the end is scrolled too.
unfoldable pub scroll_up : Memory → Memory
scroll_up m = scroll_from (screen_end + 1) 0 m

-- `if (Line > LINES - 1) { ScrollUp(); Line--; }`
unfoldable pub scroll_if_below : Screen → Screen
scroll_if_below s =
    if ltb (lines - 1) s.line
    then record s { memory = scroll_up s.memory; line = s.line - 1 }
    else s

-- `if (Column > COLUMNS - 1) { Column = 0; Line++; }`
unfoldable pub wrap : Screen → Screen
wrap s = if ltb (columns - 1) s.column then record s { column = 0; line = s.line + 1 } else s

-- The offset of the cell at the cursor.
abbrev pub cell : Screen → ℕ
cell s = (s.column + s.line * columns) * 2

-- The character and its color at the cursor, which moves on.
unfoldable pub put_char : ℕ → Screen → Screen
unfolding write
put_char c s = record s {
  memory = write (write s.memory (cell s) c) (cell s + 1) s.color;
  column = s.column + 1;
}

-- The three cases of PrintChar.
unfoldable pub print_at : ℕ → Screen → Screen
print_at c s =
    if c == 10
    then record s { line = s.line + 1; column = 0 }
    else if c == 13
    then record s { column = 0 }
    else put_char c (scroll_if_below (wrap s))

-- ScreenDriver::PrintChar
unfoldable pub print_char : ℕ → Screen → Screen
print_char c s = scroll_if_below (wrap (print_at c s))

-- The loop of ScreenDriver::Clear, which leaves the colors.
unfoldable pub clear_from : (left at : ℕ) → Memory → Memory
unfolding write
clear_from zero at m = m
clear_from (suc left) at m = clear_from left (at + 2) (write m at b' ')

-- ScreenDriver::Clear
unfoldable pub clear : Screen → Screen
clear s = record s { memory = clear_from (lines * columns) 0 s.memory; line = 0; column = 0 }

-- ScreenDriver::SetColorEx; `blink & 0x80` is the bit 7 of `blink`.
unfoldable pub set_color_ex : (background foreground blink intensity : ℕ) → Screen → Screen
set_color_ex background foreground blink intensity s = record s {
  color = blink / 128 % 2 * 128 + background % 8 * 16 + intensity % 2 * 8 + foreground % 8;
}

-- ScreenDriver::SetColor
unfoldable pub set_color : ℕ → Screen → Screen
unfolding set_color_ex
set_color value s = if value == 7 then set_color_ex 0 value 0 0 s else set_color_ex 0 value 0 1 s

-- The loop of ScreenDriver::SetBackground over the colors, of which there is one to a cell.
unfoldable pub set_background_from : (left at color : ℕ) → Memory → Memory
unfolding write
set_background_from zero at color m = m
set_background_from (suc left) at color m =
    set_background_from left (at + 2) color
      (write m at (m at / 128 % 2 * 128 + color % 8 * 16 + m at % 16))

-- ScreenDriver::SetBackground
unfoldable pub set_background : ℕ → Screen → Screen
unfolding set_background_from
set_background color s = record s {
  memory = set_background_from (lines * columns) 1 color s.memory;
}
