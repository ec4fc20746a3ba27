-- ===== src/Tests/Output.antt =====
-- What is printed, the screen, and the tables of descriptors at concrete inputs.
use lt_micros.Base.{ℕ, ◌+◌, ◌*◌, ◌≤◌, ◌≡◌, refl, List, [], ◌∷◌, if◌then◌else◌, arith, length}
use lt_micros.Base.Status.{ok}
use lt_micros.StdIo.{
  Arg, number, string, Printers, print_int, print_bin, print_ex, status_get_string_from_int,
}
use lt_micros.StdIo.Digits.{read_digits, print_int-read_digits}
use lt_micros.StdIo.Bits.{read_bits, print_bin-read_bits}
use lt_micros.StdIo.Format.{Piece, plain, decimal, bits_of, text, spell, render, print_ex-render}
use lt_micros.UserLib.StdIo
use lt_micros.Screen.{Screen, print_char}
use lt_micros.Screen.Bounds.{IsOnScreen, SameBehind, print_char-IsOnScreen, print_char_scrolls}
use lt_micros.Gdt
use lt_micros.Idt.{Idt, target, privilege}
use lt_micros.Idt.Gates.{started, started-routine}

print_int-read_digits_example :
    (ds : List ℕ) × (print_int 0xdead_beef 16 ≡ ok ds)
    × (read_digits 16 0 ds ≡ 0xdead_beef)
    × (1 ≤ length ds)
    × (length ds ≤ 32)
print_int-read_digits_example =
    print_int-read_digits 0xdead_beef 16 (omega arith) (omega arith) (omega arith)

print_bin-read_bits_example : read_bits 0 (print_bin 0x2a5 10) ≡ 0x2a5
print_bin-read_bits_example = print_bin-read_bits 0x2a5 10 (omega arith) (omega arith)

abbrev kernel_printers : Printers
kernel_printers = record { of_int = print_int; of_status = status_get_string_from_int }

-- "%d:%s%b*"
abbrev pieces : List Piece
pieces = decimal ∷ plain b':' ∷ text ∷ bits_of ∷ []

abbrev arguments : List Arg
arguments = number 12 ∷ string (b'a' ∷ []) ∷ number 5 ∷ number 4 ∷ []

print_ex-render_example :
    print_ex kernel_printers 0 (spell pieces) arguments 8
    ≡ render kernel_printers pieces arguments 8
print_ex-render_example = print_ex-render kernel_printers pieces arguments 8 (refl, tt)

-- -5
print_int-magnitude_example :
    (ds : List ℕ) × (StdIo.print_int 0xffff_fffb 10
      ≡ ok (if StdIo.is_negative 0xffff_fffb then b'-' ∷ ds else ds))
    × (read_digits 10 0 ds ≡ StdIo.magnitude 0xffff_fffb)
    × (length ds ≤ 32)
print_int-magnitude_example =
    StdIo.print_int-magnitude 0xffff_fffb 10 (omega arith) (omega arith) (omega arith) (omega arith)

-- At the end of the last line, with the bytes of the screen and of what lies behind it numbered.
abbrev last_cell : Screen
last_cell = record { line = 24; column = 79; color = 7; memory = λ i. i }

print_char-IsOnScreen_example :
    IsOnScreen (print_char b'a' last_cell) × SameBehind last_cell (print_char b'a' last_cell)
print_char-IsOnScreen_example =
    print_char-IsOnScreen b'a' last_cell
      (record { in_lines = omega arith; in_columns = omega arith })

print_char_scrolls_example :
    ((print_char 10 last_cell).memory 3900 ≡ 4060)
    × ((print_char 10 last_cell).line ≡ 24)
    × ((print_char 10 last_cell).column ≡ 0)
print_char_scrolls_example = print_char_scrolls last_cell 3900 refl (omega arith)

init_descriptor-get_base_example :
    let d = Gdt.init_descriptor 0x12_3456 0xfffff 0x9b 0x0d in
    (Gdt.get_base_addr_from_descriptor d ≡ 0x12_3456)
    × (Gdt.printed_limit d ≡ 0xfffff)
    × (d.access ≡ 0x9b)
    × (d.flags ≡ 0x0d)
init_descriptor-get_base_example =
    Gdt.init_descriptor-get_base 0x12_3456 0xfffff 0x9b 0x0d (omega arith) (omega arith)
      (omega arith)

abbrev no_idt : Idt
no_idt i = record { offset0_15 = 0; selector = 0; type = 0; offset16_31 = 0 }

abbrev idt : Idt
idt =
    started 0x10_0000 0x10_0100 0x10_0200 0x10_0300 0x10_0400 0x10_0500 (λ i. 0x10_1000 + i * 16)
      no_idt

started-routine_example :
    (target (idt 14) ≡ 0x10_10e0) × ((idt 14).selector ≡ 0x08) × (privilege (idt 14) ≡ 0)
started-routine_example =
    started-routine 0x10_0000 0x10_0100 0x10_0200 0x10_0300 0x10_0400 0x10_0500
      (λ i. 0x10_1000 + i * 16) no_idt 14 (omega arith) (omega arith)
