-- ===== src/Tests/Tables.antt =====
-- The kernel list, the handle table and the string functions at concrete inputs.
use lt_micros.Base.{
  ℕ, ◌≡◌, ◌⊎◌, inl, inr, refl, some, List, [], ◌∷◌, true, false, arith, ◌==◌, if◌then◌else◌,
}
use lt_micros.Base.Int.{negate}
use lt_micros.Base.Status.{ok}
use lt_micros.KernelList.{KernelList, enumerate, destroy}
use lt_micros.KernelList.Contents.{keep, contents, destroy_lem, cleaned_data, freed_cells}
use lt_micros.KernelList.Walk.{find_first}
use lt_micros.HandleManager.{
  HandleManager, plenty, init, process_handle, find_or_create, find_from_object_ptr,
}
use lt_micros.HandleManager.Invariant.{IsValid, init-IsValid, find_or_create-IsValid, new_entry}
use lt_micros.StdLib.{str_cmp, str_len, Memory}
use lt_micros.StdLib.Compare.{str_cmp_swap}
use lt_micros.StdLib.Copying.{Holds, str_len-length}

abbrev numbers : KernelList ℕ
numbers = record { head = some 4; rest = some 7 ∷ some 9 ∷ [] }

abbrev single : KernelList ℕ
single = record { head = some 4; rest = [] }

destroy_lem_example :
    (cleaned_data (destroy true numbers) ≡ contents numbers)
    × (freed_cells (destroy true numbers) ≡ 3)
    × (cleaned_data (destroy false numbers) ≡ [])
    × (freed_cells (destroy false numbers) ≡ 3)
destroy_lem_example = destroy_lem numbers

find_or_create-IsValid_example : IsValid (find_or_create init plenty process_handle 0x5000 1).1
find_or_create-IsValid_example =
    find_or_create-IsValid init 0x5000 1 init-IsValid (omega arith) (omega arith) (omega arith)

-- The table after the first process.
abbrev one_process : HandleManager
one_process = (find_or_create init plenty process_handle 0x5000 1).1

abbrev two_handles : HandleManager
two_handles = record {
  handles = record { head = some (new_entry 1 0x5000); rest = some (new_entry 2 0x6000) ∷ [] };
  next_value = 3;
}

two_handles-IsValid : IsValid two_handles
unfolding contents keep find_first
two_handles-IsValid = record { filled = tt; ranged = omega arith; unique = (refl, (refl, tt)) }

handle_of :
    (object h : ℕ)
    → (object ≡ 0x5000) × (h ≡ 1) ⊎ (object ≡ 0x6000) × (h ≡ 2)
    → find_from_object_ptr two_handles process_handle object 1 ≡ ok h
unfolding find_from_object_ptr enumerate
handle_of object h (inl (e, f)) = rw (e, f) refl
handle_of object h (inr (e, f)) = rw (e, f) refl

abbrev name_a : List ℕ
name_a = b'f' ∷ b's' ∷ []

abbrev name_b : List ℕ
name_b = b'f' ∷ b's' ∷ b'd' ∷ []

str_cmp_swap_example :
    str_cmp (some name_b) (some name_a) ≡ negate (str_cmp (some name_a) (some name_b))
str_cmp_swap_example = str_cmp_swap name_a name_b

-- "fs" at address 16, zero bytes elsewhere.
abbrev memory : Memory
memory a = if a == 16 then b'f' else if a == 17 then b's' else 0

memory-Holds : Holds memory 16 name_a
memory-Holds = ground arith

str_len-length_example : str_len 9 memory 16 ≡ ok 2
str_len-length_example = str_len-length 9 memory 16 name_a (omega arith) memory-Holds (omega arith)
