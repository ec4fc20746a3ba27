-- ===== src/UserLib/StdIo.antt =====
-- userland/StdLib/src/stdio.cpp: the formatted output of programs. The loops are those of the kernel's
-- StdIo.cpp, with the names of the library's own status codes; an `int` is its 32 bits.
use lt_micros.Base.{
  ℕ, ◌-◌, ◌^◌, ◌≤◌, ◌<◌, ◌≡◌, ◌≢◌, refl, ap, sym, ◌∙◌, List, [], ◌∷◌, ◌++◌, Bool, false, ◌&&◌, ◌||◌,
  if◌then◌else◌, ◌==◌, ltb, leb, length, arith, inl, inr, Bool-cases, ==_iff, lt→leb,
}
use mathlib.Core.Path.{subst}
use lt_micros.Base.Status.{Run, ok, fault, ◌>>=◌}
use lt_micros.Base.Text.{codes}
use lt_micros.StdIo.{digits, digits_fuel, Printers, Arg, print_ex}
use lt_micros.StdIo.Digits.{digits-read, read_digits, nought_read}

-- `x < 0`, and `-x` where that is an int.
abbrev pub is_negative : ℕ → Bool
is_negative x = leb (2 ^ 31) x

abbrev pub magnitude : ℕ → ℕ
magnitude x = if is_negative x then 2 ^ 32 - x else x

-- printInt: the sign is written into `chaine` behind the digits, and printed before them. The negation
-- of the least int overflows, and its remainders index HEX below 0.
unfoldable pub print_int : (x base : ℕ) → Run (List ℕ)
unfolding digits
print_int x base =
    let nought = if x == 0 then b'0' ∷ [] else [] in
    let sign = λ (ds : List ℕ). if is_negative x then b'-' ∷ ds else ds in
    if ltb base 2 || ltb 16 base
    then ok nought
    else if x == 2 ^ 31
    then fault
    else digits digits_fuel base (magnitude x) [] >>= λ ds.
        if leb 34 (length ds) && is_negative x then fault else ok (nought ++ sign ds)

-- StatusGetStringFromInt of userland/StdLib/src/status.cpp
unfoldable pub status_get_string_from_int : ℕ → List ℕ
status_get_string_from_int s =
    let named = λ (k : ℕ) (name rest : List ℕ). if s == k then name else rest in
    named 0 (codes "STATUS_SUCCESS") (
      named 1 (codes "STATUS_FAILURE") (
        named 2 (codes "STATUS_NULL_PARAMETER") (
          named 3 (codes "STATUS_INVALID_PARAMETER") (
            named 4 (codes "STATUS_ALLOC_FAILED") (
              named 5 (codes "STATUS_FILE_NOT_FOUND") (
                named 6 (codes "STATUS_NOT_A_DIRECTORY") (
                  named 7 (codes "STATUS_UNEXPECTED") (
                    named 8 (codes "STATUS_PATH_TOO_LONG") (
                      named 9 (codes "STATUS_LIST_STOP_ITERATING")
                        (named 10 (codes "STATUS_ACCESS_DENIED") (codes "UNKOWN_STATUS")))))))))))

abbrev pub printers : Printers
printers = record { of_int = print_int; of_status = status_get_string_from_int }

-- printfEx; printf is the call of it on all arguments, in the critical section of the screen.
unfoldable pub printf : (format : List ℕ) (args : List Arg) → Run (List ℕ)
unfolding print_ex print_int status_get_string_from_int
printf format args = print_ex printers 0 format args 8

print_int_zero : (base : ℕ) → 2 ≤ base → base ≤ 16 → print_int 0 base ≡ ok (b'0' ∷ [])
unfolding print_int
print_int_zero base two sixteen =
    let low : ltb base 2 ≡ false = ground arith in
    let high : ltb 16 base ≡ false = ground arith in rw low (rw high refl)

print_int_more :
    (x base : ℕ) (ds : List ℕ)
    → 2 ≤ base
    → base ≤ 16
    → (x == 0) ≡ false
    → (x == 2 ^ 31) ≡ false
    → length ds ≤ 32
    → digits digits_fuel base (magnitude x) [] ≡ ok ds
    → print_int x base ≡ ok (if is_negative x then b'-' ∷ ds else ds)
unfolding print_int
print_int_more x base ds two sixteen more inside short ended =
    let low : ltb base 2 ≡ false = ground arith in
    let high : ltb 16 base ≡ false = ground arith in
    let room : leb 34 (length ds) ≡ false = lt→leb 34 (length ds) (omega arith) in
    rw low (rw high (rw more (rw inside (rw ended (rw room refl)))))

-- printInt of any int but the least one, in a base from 2 to 16, prints a sign if the int is negative
-- and then at most 32 digits, which read in that base are its magnitude.
pub print_int-magnitude :
    (x base : ℕ)
    → x < 2 ^ 32
    → x ≢ 2 ^ 31
    → 2 ≤ base
    → base ≤ 16
    → (ds : List ℕ) × (print_int x base ≡ ok (if is_negative x then b'-' ∷ ds else ds))
      × (read_digits base 0 ds ≡ magnitude x)
      × (length ds ≤ 32)
unfolding read_digits
print_int-magnitude x base fits inside two sixteen = elim (Bool-cases (x == 0)) [
  | inl nought ↦
      let e : 0 ≡ x = sym ((==_iff x 0).0 nought) in
      (
        b'0' ∷ [],
        subst (λ y. print_int y base ≡ ok (if is_negative y then b'-' ∷ b'0' ∷ [] else b'0' ∷ [])) e
            (print_int_zero base two sixteen),
        nought_read base ∙ ap magnitude e,
        omega arith,
      )
  | inr more ↦
      let (ds, ended, reads, short) =
        digits-read base two sixteen 32 (magnitude x) [] (ground arith) (omega arith) in
      (
        ds,
        print_int_more x base ds two sixteen more (ground arith) (omega arith) ended,
        reads,
        omega arith,
      )
]
