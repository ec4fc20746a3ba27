-- ===== src/Ipc/Servers.antt =====
-- The table of servers: who registers an id is who is found under it.
use lt_micros.Base.{
  ℕ, ◌≡◌, ◌≢◌, refl, inl, inr, none, some, List, [], ◌∷◌, ◌++◌, ◌∙◌, true, false, arith, AllBytes,
  Option-cases,
}
use lt_micros.Base.Int.{pos}
use lt_micros.Base.Words.{null, add32}
use lt_micros.Base.Status.{ok, err, id_string_already_used}
use lt_micros.KernelList.Walk.{find_first, find_first-append}
use lt_micros.StdLib.{str_cmp}
use lt_micros.StdLib.Compare.{str_cmp_zero}
use lt_micros.Ipc.{
  IpcObject, IpcHandler, Memory, has_id, is_id_used, create, add_checked, add_new_server,
  find_by_server_id, connect_to_server,
}

-- The object that AddNewServer makes when there is memory.
abbrev made : IpcHandler → Memory → List ℕ → ℕ → IpcObject
made m memory id process = record {
  id = some id;
  handle = add32 m.handle_count 1;
  server_process = process;
  buffer = memory.buffer;
  lock = memory.lock;
}

has_id-made :
    (m : IpcHandler) (memory : Memory) (id : List ℕ) (process : ℕ)
    → AllBytes id
    → has_id id (made m memory id process) ≡ true
has_id-made m memory id process b =
    let e : str_cmp (some id) (some id) ≡ pos 0 = (str_cmp_zero id id b b).1 (inl refl) in rw e refl

unused_none :
    (m : IpcHandler) (id : List ℕ)
    → is_id_used m id ≡ false
    → find_first (has_id id) m.objects ≡ none
unfolding is_id_used
unused_none m id u = elim (Option-cases (find_first (has_id id) m.objects)) [
  | inl n ↦ n
  | inr (o, e) ↦ ground (arith, e, u)
]

find_first-made :
    (m : IpcHandler) (memory : Memory) (id : List ℕ) (process : ℕ)
    → AllBytes id
    → is_id_used m id ≡ false
    → find_first (has_id id) (m.objects ++ made m memory id process ∷ [])
      ≡ some (made m memory id process)
unfolding find_first
find_first-made m memory id process b u =
    find_first-append (has_id id) m.objects (made m memory id process ∷ []) (unused_none m id u)
    ∙ rw (has_id-made m memory id process b) refl

-- Given memory, and an id that no server uses, AddNewServer succeeds with the next handle; then
-- every process that connects under the id gets that handle, and nobody can register the id again.
pub add_new_server-connect :
    (m : IpcHandler) (memory : Memory) (id : List ℕ) (process out_handle : ℕ)
    → AllBytes id
    → memory.for_object ≡ true
    → memory.for_id ≡ true
    → memory.for_cell ≡ true
    → is_id_used m id ≡ false
    → process ≢ null
    → out_handle ≢ null
    → (m' : IpcHandler) × ((add_new_server m memory (some id) process out_handle
          ≡ (ok (add32 m.handle_count 1), m'))
        × ((client out : ℕ)
            → client ≢ null
            → out ≢ null
            → (connect_to_server m' (some id) client out ≡ ok (add32 m.handle_count 1))
              × (add_new_server m' memory (some id) client out ≡ (err id_string_already_used, m'))))
unfolding add_new_server add_checked create connect_to_server find_by_server_id is_id_used
add_new_server-connect m memory id process out_handle b fo fi fc u rp ro =
    let f = find_first-made m memory id process b u in
    (
      record m {
        objects = m.objects ++ made m memory id process ∷ [];
        handle_count = add32 m.handle_count 1;
      },
      (
        ground (arith, fo, fi, fc, u, unused_none m id u),
        λ client out rc rt. (ground (arith, f), ground (arith, f)),
      ),
    )
