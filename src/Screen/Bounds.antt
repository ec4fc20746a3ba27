-- ===== src/Screen/Bounds.antt =====
-- kernel/drivers/Screen.cpp: where PrintChar writes, and what scrolling leaves on the last line.
use lt_micros.Base.{
  ℕ, zero, suc, ◌+◌, ◌-◌, ◌*◌, ◌/◌, ◌≤◌, ◌<◌, ◌≡◌, refl, ap, ◌∙◌, Bool, true, false, ◌&&◌,
  if◌then◌else◌, ◌==◌, ltb, leb, arith, inl, inr, Bool-cases, lt→ltb,
}
use lt_micros.Screen.{
  lines, columns, screen_end, Memory, Screen, write, scroll_from, scroll_up, scroll_if_below, wrap,
  put_char, print_at, print_char,
}

-- The cursor is on the screen.
pub record IsOnScreen (s : Screen) : Type 0 where
  pub in_lines : s.line < lines
  pub in_columns : s.column < columns

scroll_byte :
    (left at i : ℕ) (m : Memory)
    → (let m' = write m at (m (at + columns * 2)) in
        if leb (at + 1) i && ltb i (at + 1 + left) then m' (i + columns * 2) else m' i)
      ≡ (if leb at i && ltb i (at + suc left) then m (i + columns * 2) else m i)
unfolding write
scroll_byte left at i m = ground arith

scroll_from_lem :
    (left at : ℕ) (m : Memory) (i : ℕ)
    → at + left ≤ 4002
    → scroll_from left at m i ≡ (if leb at i && ltb i (at + left) then m (i + columns * 2) else m i)
unfolding scroll_from
scroll_from_lem zero at m i h = ground arith
scroll_from_lem (suc left) at m i h =
    let on_screen : ltb at ((1 + lines * columns) * 2) ≡ true = lt→ltb at 4002 (omega arith) in
    ap (λ b. scroll_from left (at + 1) (write m at (if b then m (at + columns * 2) else 0)) i)
      on_screen
    ∙ scroll_from_lem left (at + 1) (write m at (m (at + columns * 2))) i (omega arith)
    ∙ scroll_byte left at i m

-- Scrolling moves every byte up by a line, from the line behind the screen on.
scroll_up_lem :
    (m : Memory) (i : ℕ) → scroll_up m i ≡ (if leb i screen_end then m (i + columns * 2) else m i)
unfolding scroll_up
scroll_up_lem m i = scroll_from_lem (screen_end + 1) 0 m i (omega arith) ∙ ground arith

-- The bytes behind the one that follows the screen are as they were.
abbrev pub SameBehind : Screen → Screen → Type 0
SameBehind s s' = (i : ℕ) → screen_end < i → s'.memory i ≡ s.memory i

scroll_if_below-SameBehind : (s : Screen) → SameBehind s (scroll_if_below s)
unfolding scroll_if_below
scroll_if_below-SameBehind s i h = elim (Bool-cases (ltb (lines - 1) s.line)) [
  | inl below ↦ rw below (rw (scroll_up_lem s.memory i) (ground arith))
  | inr inside ↦ rw inside refl
]

put_char-SameBehind :
    (c : ℕ) (s : Screen) → s.line < lines → s.column < columns → SameBehind s (put_char c s)
unfolding put_char write
put_char-SameBehind c s hl hc i h = ground arith

wrap_bounds :
    (s : Screen)
    → s.line + s.column / columns ≤ lines
    → s.column ≤ columns
    → ((wrap s).line ≤ lines) × ((wrap s).column < columns) × ((wrap s).memory ≡ s.memory)
unfolding wrap
wrap_bounds s hl hc = (ground arith, ground arith, ground arith)

scroll_if_below-IsOnScreen :
    (s : Screen) → s.line ≤ lines → s.column < columns → IsOnScreen (scroll_if_below s)
unfolding scroll_if_below
scroll_if_below-IsOnScreen s hl hc = ground arith

-- A cursor that is at most at the end of a line is on the screen behind the two corrections.
settled :
    (s : Screen)
    → s.line + s.column / columns ≤ lines
    → s.column ≤ columns
    → IsOnScreen (scroll_if_below (wrap s)) × SameBehind s (scroll_if_below (wrap s))
settled s hl hc =
    let w = wrap_bounds s hl hc in
    (
      scroll_if_below-IsOnScreen (wrap s) w.0 w.1,
      λ i h. scroll_if_below-SameBehind (wrap s) i h ∙ ap (λ (m : Memory). m i) w.2,
    )

put_char_moves :
    (c : ℕ) (s : Screen) → ((put_char c s).line ≡ s.line) × ((put_char c s).column ≡ s.column + 1)
unfolding put_char
put_char_moves c s = (refl, refl)

put_char_bounds :
    (c : ℕ) (s : Screen)
    → IsOnScreen s
    → (s0 : Screen) → SameBehind s0 s
    → ((put_char c s).line + (put_char c s).column / columns ≤ lines)
      × ((put_char c s).column ≤ columns)
      × SameBehind s0 (put_char c s)
put_char_bounds c s v s0 same =
    let m = put_char_moves c s in
    (
      omega (arith, v.in_lines, v.in_columns, m.0, m.1),
      omega (arith, v.in_columns, m.1),
      λ i h. put_char-SameBehind c s v.in_lines v.in_columns i h ∙ same i h,
    )

print_at_bounds :
    (c : ℕ) (s : Screen)
    → IsOnScreen s
    → ((print_at c s).line + (print_at c s).column / columns ≤ lines)
      × ((print_at c s).column ≤ columns)
      × SameBehind s (print_at c s)
unfolding print_at
print_at_bounds c s v = elim (Bool-cases (c == 10)) [
  | inl feed ↦ rw feed (omega (arith, v.in_lines), omega arith, λ i h. refl)
  | inr plain ↦ rw plain (elim (Bool-cases (c == 13)) [
    | inl back ↦ rw back (omega (arith, v.in_lines), omega arith, λ i h. refl)
    | inr plain' ↦
        let (on, same) =
          settled s (omega (arith, v.in_lines, v.in_columns)) (omega (arith, v.in_columns)) in
        rw plain' (put_char_bounds c (scroll_if_below (wrap s)) on s same)
  ])
]

-- PrintChar, with the cursor on the screen, leaves it there, and changes no byte behind the one that
-- follows the screen.
pub print_char-IsOnScreen :
    (c : ℕ) (s : Screen)
    → IsOnScreen s
    → IsOnScreen (print_char c s) × SameBehind s (print_char c s)
unfolding print_char
print_char-IsOnScreen c s v =
    let (lined, columned, same) = print_at_bounds c s v in
    let (on, same') = settled (print_at c s) lined columned in (on, λ i h. same' i h ∙ same i h)

fed :
    (b : Bool) (s : Screen) (i : ℕ)
    → b ≡ true
    → i < screen_end
    → (if b
          then record s { memory = scroll_up s.memory; line = s.line + 1 - 1; column = 0 }
          else record s { line = s.line + 1; column = 0 }).memory
        i
      ≡ s.memory (i + columns * 2)
fed true s i h inside = scroll_up_lem s.memory i ∙ ground arith
fed false s i h inside = cc

-- A line feed on the last line moves every line up by one, and puts on the last line the bytes that
-- lie behind the screen, where a blank line should be.
pub print_char_scrolls :
    (s : Screen) (i : ℕ)
    → s.line ≡ lines - 1
    → i < screen_end
    → ((print_char 10 s).memory i ≡ s.memory (i + columns * 2))
      × ((print_char 10 s).line ≡ lines - 1)
      × ((print_char 10 s).column ≡ 0)
unfolding print_char print_at wrap scroll_if_below
print_char_scrolls s i last inside =
    let below : ltb (lines - 1) (s.line + 1) ≡ true = lt→ltb 24 (s.line + 1) (omega arith) in
    (
      fed (ltb (lines - 1) (s.line + 1)) s i below inside,
      ap
            (λ b.
              (if b
                then record s { memory = scroll_up s.memory; line = s.line + 1 - 1; column = 0 }
                else record s { line = s.line + 1; column = 0 }).line)
            below
          ∙ omega arith,
      ap
          (λ b.
            (if b
              then record s { memory = scroll_up s.memory; line = s.line + 1 - 1; column = 0 }
              else record s { line = s.line + 1; column = 0 }).column)
          below,
    )
