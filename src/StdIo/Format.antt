-- ===== src/StdIo/Format.antt =====
-- kernel/lib/StdIo.cpp: a format as a sequence of characters and directives.
use lt_micros.Base.{ℕ, ◌%◌, ◌≡◌, refl, List, [], ◌∷◌, ◌++◌, Bool, false, ◌==◌}
use lt_micros.Base.Status.{Run, ok, err, fault, running, ◌>>=◌}
use lt_micros.StdIo.{
  Arg, number, string, next_number, next_string, Printers, Round, print_bin, binary, round,
  print_ex, peek,
}

-- `binary_of` takes its number of bits from the arguments, and `binary` keeps the one before it.
pub data Piece : Type 0 where
  plain : ℕ → Piece
  decimal hexadecimal bits bits_of text character status_name : Piece

abbrev pub spell : List Piece → List ℕ
spell [] = []
spell (plain c ∷ ps) = c ∷ spell ps
spell (decimal ∷ ps) = b'%' ∷ b'd' ∷ spell ps
spell (hexadecimal ∷ ps) = b'%' ∷ b'x' ∷ spell ps
spell (bits ∷ ps) = b'%' ∷ b'b' ∷ spell ps
spell (bits_of ∷ ps) = b'%' ∷ b'b' ∷ b'*' ∷ spell ps
spell (text ∷ ps) = b'%' ∷ b's' ∷ spell ps
spell (character ∷ ps) = b'%' ∷ b'c' ∷ spell ps
spell (status_name ∷ ps) = b'%' ∷ b't' ∷ spell ps

-- A plain character is no `%`, and none behind `%b` is a `*`.
abbrev pub IsSpelled : List Piece → Type 0
IsSpelled [] = Unit {0}
IsSpelled (plain c ∷ ps) = ((c == b'%') ≡ false) × IsSpelled ps
IsSpelled (bits ∷ ps) = ((peek (spell ps) == b'*') ≡ false) × IsSpelled ps
IsSpelled (_ ∷ ps) = IsSpelled ps

abbrev printing : List ℕ → List Arg → ℕ → ℕ → Round
printing chars args nb_bits skip = record {
  printed = chars;
  args = args;
  nb_bits = nb_bits;
  skip = skip;
}

module _ (p : Printers) where
  -- What the pieces print, one behind the other, each with the next of the arguments.
  unfoldable pub render : List Piece → List Arg → ℕ → Run (List ℕ)
  render [] args nb_bits = ok []
  render (plain c ∷ ps) args nb_bits = render ps args nb_bits >>= λ more. ok (c ∷ more)
  render (decimal ∷ ps) args nb_bits = next_number args >>= λ v.
      p.of_int v.0 10 >>= λ ds. render ps v.1 nb_bits >>= λ more. ok (ds ++ more)
  render (hexadecimal ∷ ps) args nb_bits = next_number args >>= λ v.
      p.of_int v.0 16 >>= λ ds. render ps v.1 nb_bits >>= λ more. ok (b'0' ∷ b'x' ∷ (ds ++ more))
  render (bits ∷ ps) args nb_bits =
      next_number args >>= λ v. render ps v.1 nb_bits >>= λ more. ok (print_bin v.0 nb_bits ++ more)
  render (bits_of ∷ ps) args nb_bits = next_number args >>= λ v.
      next_number v.1 >>= λ w. render ps w.1 w.0 >>= λ more. ok (print_bin v.0 w.0 ++ more)
  render (text ∷ ps) args nb_bits =
      next_string args >>= λ v. render ps v.1 nb_bits >>= λ more. ok (v.0 ++ more)
  render (character ∷ ps) args nb_bits =
      next_number args >>= λ v. render ps v.1 nb_bits >>= λ more. ok ((v.0 % 256) ∷ more)
  render (status_name ∷ ps) args nb_bits =
      next_number args >>= λ v. render ps v.1 nb_bits >>= λ more. ok (p.of_status v.0 ++ more)

  -- A conversion of a number, once its argument is taken.
  converted_step :
      (m : Run (List ℕ)) (f : List ℕ → List ℕ) (skip : ℕ) (format : List ℕ) (args : List Arg)
      (nb_bits : ℕ) {rest : Run (List ℕ)}
      → print_ex p skip format args nb_bits ≡ rest
      → ((m >>= λ ds. ok (printing (f ds) args nb_bits skip)) >>= λ r.
          print_ex p r.skip format r.args r.nb_bits >>= λ more. ok (r.printed ++ more))
        ≡ (m >>= λ ds. rest >>= λ more. ok (f ds ++ more))
  converted_step (ok ds) f skip format args nb_bits e = rw e refl
  converted_step (err e) f skip format args nb_bits _ = refl
  converted_step fault f skip format args nb_bits _ = refl
  converted_step running f skip format args nb_bits _ = refl

  round_plain :
      (c : ℕ) (rest : List ℕ) (args : List Arg) (nb_bits : ℕ)
      → (c == b'%') ≡ false
      → round p c rest args nb_bits
        ≡ ok (record { printed = c ∷ []; args = args; nb_bits = nb_bits; skip = 0 })
  unfolding round
  round_plain c rest args nb_bits h = rw h refl

  binary_plain :
      (star : Bool) (x : ℕ) (args : List Arg) (nb_bits : ℕ)
      → star ≡ false
      → binary p star (number x ∷ args) nb_bits
        ≡ ok (record { printed = print_bin x nb_bits; args = args; nb_bits = nb_bits; skip = 1 })
  unfolding binary
  binary_plain star x args nb_bits h = rw h refl

  -- kprintEx prints a format that is made of such pieces piece by piece.
  pub print_ex-render :
      (ps : List Piece) (args : List Arg) (nb_bits : ℕ)
      → IsSpelled ps
      → print_ex p 0 (spell ps) args nb_bits ≡ render ps args nb_bits
  unfolding print_ex render
  print_ex-render [] args nb_bits h = refl
  print_ex-render (plain c ∷ ps) args nb_bits h =
      rw (round_plain c (spell ps) args nb_bits h.0) (rw (print_ex-render ps args nb_bits h.1) refl)
  print_ex-render (decimal ∷ ps) [] nb_bits h = refl
  print_ex-render (decimal ∷ ps) (string s ∷ args) nb_bits h = refl
  print_ex-render (decimal ∷ ps) (number x ∷ args) nb_bits h =
      converted_step (p.of_int x 10) (λ ds. ds) 1 (b'd' ∷ spell ps) args nb_bits
        (print_ex-render ps args nb_bits h)
  print_ex-render (hexadecimal ∷ ps) [] nb_bits h = refl
  print_ex-render (hexadecimal ∷ ps) (string s ∷ args) nb_bits h = refl
  print_ex-render (hexadecimal ∷ ps) (number x ∷ args) nb_bits h =
      converted_step (p.of_int x 16) (λ ds. b'0' ∷ b'x' ∷ ds) 1 (b'x' ∷ spell ps) args nb_bits
        (print_ex-render ps args nb_bits h)
  print_ex-render (bits ∷ ps) [] nb_bits h = refl
  print_ex-render (bits ∷ ps) (string s ∷ args) nb_bits h = refl
  print_ex-render (bits ∷ ps) (number x ∷ args) nb_bits h =
      rw (binary_plain (peek (spell ps) == b'*') x args nb_bits h.0)
        (rw (print_ex-render ps args nb_bits h.1) refl)
  print_ex-render (bits_of ∷ ps) [] nb_bits h = refl
  print_ex-render (bits_of ∷ ps) (string s ∷ args) nb_bits h = refl
  print_ex-render (bits_of ∷ ps) (number x ∷ []) nb_bits h = refl
  print_ex-render (bits_of ∷ ps) (number x ∷ string s ∷ args) nb_bits h = refl
  print_ex-render (bits_of ∷ ps) (number x ∷ number w ∷ args) nb_bits h =
      rw (print_ex-render ps args w h) refl
  print_ex-render (text ∷ ps) [] nb_bits h = refl
  print_ex-render (text ∷ ps) (number x ∷ args) nb_bits h = refl
  print_ex-render (text ∷ ps) (string s ∷ args) nb_bits h =
      rw (print_ex-render ps args nb_bits h) refl
  print_ex-render (character ∷ ps) [] nb_bits h = refl
  print_ex-render (character ∷ ps) (string s ∷ args) nb_bits h = refl
  print_ex-render (character ∷ ps) (number x ∷ args) nb_bits h =
      rw (print_ex-render ps args nb_bits h) refl
  print_ex-render (status_name ∷ ps) [] nb_bits h = refl
  print_ex-render (status_name ∷ ps) (string s ∷ args) nb_bits h = refl
  print_ex-render (status_name ∷ ps) (number x ∷ args) nb_bits h =
      rw (print_ex-render ps args nb_bits h) refl
