-- ===== src/StdIo.antt =====
-- kernel/lib/StdIo.cpp: the formatted output of the kernel, with the names of the status codes
-- (kernel/lib/Status.cpp). What a function prints is the list of its characters, in order; a string is
-- the list of its bytes before the 0. An `int` is its 32 bits. Where the characters go, to screen and
-- serial line, is left out, and so is the cursor.
pub mod Digits
pub mod Bits
pub mod Format
use lt_micros.Base.{
  ℕ, zero, suc, ◌+◌, ◌*◌, ◌/◌, ◌%◌, ◌^◌, List, [], ◌∷◌, ◌++◌, Bool, true, false, not, ◌&&◌, ◌||◌,
  if◌then◌else◌, ◌==◌, ltb, leb, length, get_or,
}
use lt_micros.Base.Text.{codes}
use lt_micros.Base.Status.{Run, ok, err, fault, running, ◌>>=◌}

-- checkType
unfoldable pub check_type : ℕ → Bool
check_type c = c == b'd' || c == b'c' || c == b's' || c == b'x' || c == b'b' || c == b't'

-- HEX
unfoldable pub hex : ℕ → ℕ
hex d = get_or (codes "0123456789ABCDEF") d 0

-- The loop of printInt that fills `chaine`, an array of 34: `chain` is what it holds, the newest first,
-- which is the order in which it is printed.
unfoldable pub digits : (fuel base quotient : ℕ) (chain : List ℕ) → Run (List ℕ)
digits zero base quotient chain = running
digits (suc fuel) base quotient chain =
    let rest = digits fuel base (quotient / base) (hex (quotient % base) ∷ chain) in
    if quotient == 0 then ok chain else if leb 34 (length chain) then fault else rest

-- No number of 32 bits has more digits than bits.
abbrev pub digits_fuel : ℕ
digits_fuel = 33

-- printInt. The quotient is unsigned, so no value counts as negative.
unfoldable pub print_int : (x base : ℕ) → Run (List ℕ)
unfolding digits
print_int x base =
    let nought = if x == 0 then b'0' ∷ [] else [] in
    if ltb base 2 || ltb 16 base
    then ok nought
    else digits digits_fuel base x [] >>= λ ds. ok (nought ++ ds)

-- The loop of printBin, with `offset + 1` first and then `i`; `width` is nbBits.
unfoldable pub print_bits : (left i width value : ℕ) → List ℕ
print_bits zero i width value = b'b' ∷ []
print_bits (suc offset) i width value =
    let rest =
      (if value / 2 ^ offset % 2 == 1 then b'1' else b'0')
      ∷ print_bits offset (i + 1) width value in
    if ltb 8 width && i % 8 == 0 && not (i == 0) then b'.' ∷ rest else rest

-- printBin; a number of bits below 0 prints none.
unfoldable pub print_bin : (value nb_bits : ℕ) → List ℕ
unfolding print_bits
print_bin value nb_bits =
    let negative = leb (2 ^ 31) nb_bits in
    let width = if ltb 32 nb_bits then 32 else nb_bits in
    if negative then b'b' ∷ [] else print_bits width 0 width value

-- StatusGetStringFromInt
unfoldable pub status_get_string_from_int : ℕ → List ℕ
status_get_string_from_int s =
    let named = λ (k : ℕ) (name rest : List ℕ). if s == k then name else rest in
    named 0 (codes "STATUS_SUCCESS") (
      named 1 (codes "STATUS_FAILURE") (
        named 2 (codes "STATUS_NOT_FOUND") (
          named 3 (codes "STATUS_INVALID_PARAMETER") (
            named 4 (codes "STATUS_NULL_PARAMETER") (
              named 5 (codes "STATUS_INAVLID_HANDLE") (
                named 6 (codes "STATUS_ALLOC_FAILED") (
                  named 7 (codes "STATUS_INVALID_VIRTUAL_USER_ADDRESS") (
                    named 8 (codes "STATUS_PHYSICAL_MEMORY_FULL") (
                      named 9 (codes "STATUS_PROCESS_HEAP_LIMIT_REACHED") (
                        named 10 (codes "IPC_STATUS_ID_STRING_ALREADY_USED") (
                          named 11 (codes "IPC_STATUS_SERVER_NOT_FOUND") (
                            named 12 (codes "IPC_STATUS_ACCESS_DENIED") (
                              named 13 (codes "STATUS_HANDLE_ALREADY_EXIST") (
                                named 14 (codes "STATUS_LIST_STOP_ITERATING") (
                                  named 15 (codes "STATUS_UNEXPECTED")
                                    (codes "UNKOWN_STATUS"))))))))))))))))

-- What a call passes behind the format: the 32 bits of a number, or a string.
pub data Arg : Type 0 where
  number : ℕ → Arg
  string : List ℕ → Arg

-- `va_arg`: behind the last argument, or at one of another kind, what it reads is not the caller's.
abbrev pub next_number : List Arg → Run (ℕ × List Arg)
next_number (number x ∷ args) = ok (x, args)
next_number _ = fault

abbrev pub next_string : List Arg → Run (List ℕ × List Arg)
next_string (string s ∷ args) = ok (s, args)
next_string _ = fault

-- A round of the loop of kprintEx: what it prints, the arguments that are left, nbBits, and by how many
-- characters the format moves on besides the usual one.
pub record Round : Type 0 where
  pub printed : List ℕ
  pub args : List Arg
  pub nb_bits : ℕ
  pub skip : ℕ

-- The two ways of printing that kernel and user land have for a number.
pub record Printers : Type 0 where
  pub of_int : ℕ → ℕ → Run (List ℕ)
  pub of_status : ℕ → List ℕ

-- `*format`, 0 at the end.
abbrev pub peek : List ℕ → ℕ
peek [] = 0
peek (c ∷ cs) = c

abbrev pub behind : List ℕ → List ℕ
behind [] = []
behind (c ∷ cs) = cs

module _ (p : Printers) where
  -- The case 'b'.
  unfoldable pub binary : (star : Bool) (args : List Arg) (nb_bits : ℕ) → Run Round
  unfolding print_bin
  binary star args nb_bits = next_number args >>= λ v.
      if star
      then (next_number v.1 >>= λ w.
          ok (record { printed = print_bin v.0 w.0; args = w.1; nb_bits = w.0; skip = 2 }))
      else ok (record { printed = print_bin v.0 nb_bits; args = v.1; nb_bits = nb_bits; skip = 1 })

  -- The switch; `kind` has passed checkType, so the case 'p' is never taken.
  unfoldable pub directive : (kind : ℕ) (star : Bool) (args : List Arg) (nb_bits : ℕ) → Run Round
  unfolding binary
  directive kind star args nb_bits =
      let one = λ (chars : List ℕ) (left : List Arg).
        ok (record { printed = chars; args = left; nb_bits = nb_bits; skip = 1 }) in
      if kind == b'd'
      then (next_number args >>= λ v. p.of_int v.0 10 >>= λ ds. one ds v.1)
      else if kind == b'x' || kind == b'p'
      then (next_number args >>= λ v. p.of_int v.0 16 >>= λ ds. one (b'0' ∷ b'x' ∷ ds) v.1)
      else if kind == b'b'
      then binary star args nb_bits
      else if kind == b's'
      then (next_string args >>= λ v. one v.0 v.1)
      else if kind == b't'
      then (next_number args >>= λ v. one (p.of_status v.0) v.1)
      else (next_number args >>= λ v. one ((v.0 % 256) ∷ []) v.1)

  -- The body of the loop at the character `c`, with the rest of the format.
  unfoldable pub round : (c : ℕ) (rest : List ℕ) (args : List Arg) (nb_bits : ℕ) → Run Round
  unfolding directive check_type
  round c rest args nb_bits =
      if c == b'%' && check_type (peek rest)
      then directive (peek rest) (peek (behind rest) == b'*') args nb_bits
      else ok (record { printed = c ∷ []; args = args; nb_bits = nb_bits; skip = 0 })

  -- kprintEx, with the characters of the format that are to be skipped.
  unfoldable pub print_ex :
      (skip : ℕ) (format : List ℕ) (args : List Arg) (nb_bits : ℕ) → Run (List ℕ)
  unfolding round
  print_ex skip [] args nb_bits = ok []
  print_ex (suc skip) (c ∷ format) args nb_bits = print_ex skip format args nb_bits
  print_ex zero (c ∷ format) args nb_bits = round c format args nb_bits >>= λ r.
      print_ex r.skip format r.args r.nb_bits >>= λ more. ok (r.printed ++ more)

-- kprint
unfoldable pub kprint : (format : List ℕ) (args : List Arg) → Run (List ℕ)
unfolding print_ex print_int status_get_string_from_int
kprint format args =
    print_ex (record { of_int = print_int; of_status = status_get_string_from_int }) 0 format args 8
