-- ===== src/LtFsService/ServiceCommands/Handles.antt =====
-- ServiceExecuteCommand: the list of open files, and the handles that are given out.
use lt_micros.Base.{
  ℕ, ◌+◌, ◌≤◌, ◌<◌, ◌≡◌, refl, ◌⊎◌, inl, inr, Option, none, some, List, [], ◌∷◌, ◌++◌, Bool, true,
  false, arith, ◌==◌, leb, Bool-cases, length,
}
use lt_micros.Base.Words.{null, add32, u32_mod}
use lt_micros.LtFsService.{success, access_denied, Answer, ok, err, fault, running}
use lt_micros.LtFsService.ServiceCommands.{
  service_command_init, grant_entry, ProcessEntry, FileEntry, ServiceContext, LtFsResponse,
  LtFsRequest, terminate, connect, open_file, other, OpenFileParameters, Surroundings, push,
  look_for_process_from_handle, look_for_file_entry, is_file_accessible, new_file_entry,
  create_response, handle_bytes, send_response, grant, serve_found, serve_opened, serve_process,
  add_process, connect_found, lowered, request_open_file, request_connect, service_execute_command,
  file_access_max, file_share_max,
}

-- What a request makes of the open files: nothing, or one more behind them, with the next handle.
abbrev pub Extends : ServiceContext → ServiceContext → Type 0
Extends ctx after =
    ((after.file_entries ≡ ctx.file_entries)
      × ((after.current_file_handle ≡ ctx.current_file_handle)
          ⊎ (after.current_file_handle ≡ add32 ctx.current_file_handle 1)))
    ⊎ ((e : FileEntry) × (after.file_entries ≡ ctx.file_entries ++ e ∷ [])
        × (e.handle ≡ add32 ctx.current_file_handle 1)
        × (after.current_file_handle ≡ add32 ctx.current_file_handle 1))

push-cases :
    (b : Bool) (xs : List FileEntry) (e : FileEntry)
    → (push b xs e ≡ xs ++ e ∷ []) ⊎ (push b xs e ≡ xs)
push-cases b [] e = inl refl
push-cases true (x ∷ xs) e = inl refl
push-cases false (x ∷ xs) e = inr refl

send_response-same :
    (s : Surroundings) (r : Answer LtFsResponse) (ctx : ServiceContext)
    → (send_response s r ctx).1 ≡ ctx
unfolding send_response
send_response-same s (ok response) ctx = ground arith
send_response-same s (err e) ctx = refl
send_response-same s fault ctx = refl
send_response-same s running ctx = refl

-- What NewFileEntry answers has the next handle.
abbrev IsNext : (count : ℕ) → Answer FileEntry → ℕ → Type 0
IsNext count (ok e) after = (e.handle ≡ add32 count 1) × (after ≡ add32 count 1)
IsNext count (err e) after = Unit {0}
IsNext count fault after = Unit {0}
IsNext count running after = Unit {0}

new_file_entry-IsNext :
    (file access share_mode : ℕ) (b : Bool) (count : ℕ)
    → let r = new_file_entry file access share_mode b count in IsNext count r.0 r.1
unfolding new_file_entry
new_file_entry-IsNext file access share_mode b count = elim (Bool-cases (file == null)) [
  | inl h ↦ rw (h, new_file_entry) tt
  | inr h ↦ elim (Bool-cases (leb file_access_max access)) [
    | inl i ↦ rw (h, new_file_entry) (rw i tt)
    | inr i ↦ elim (Bool-cases (leb file_share_max share_mode)) [
      | inl j ↦ rw (h, new_file_entry) (rw i (rw j tt))
      | inr j ↦ elim (Bool-cases b) [
        | inl k ↦ rw (h, new_file_entry) (rw i (rw j (rw k (refl, refl))))
        | inr k ↦ rw (h, new_file_entry) (rw i (rw j (rw k tt)))
      ]
    ]
  ]
]

grant_entry-Extends :
    (s : Surroundings) (p : ProcessEntry) (r : Answer FileEntry) (after : ℕ) (ctx : ServiceContext)
    → IsNext ctx.current_file_handle r after
    → Extends ctx (grant_entry s p r after ctx).1
unfolding grant_entry
grant_entry-Extends s p (ok e) after ctx n =
    let pushed : ServiceContext = record ctx {
      file_entries = push s.for_push ctx.file_entries e;
      current_file_handle = after;
    } in
    let there : Extends ctx pushed = elim (push-cases s.for_push ctx.file_entries e) [
      | inl h ↦ inr (e, h, n.0, n.1)
      | inr h ↦ inl (h, inr n.1)
    ] in
    elim (Bool-cases (p.file_entries == null)) [
      | inl z ↦
          rw (z, grant_entry)
            (rw
              (send_response-same s
                (create_response success true (handle_bytes e.handle) 4 s.for_response) pushed)
              there)
      | inr z ↦ rw (z, grant_entry) there
    ]
grant_entry-Extends s p (err e) after ctx n = inl (refl, inl refl)
grant_entry-Extends s p fault after ctx n = inl (refl, inl refl)
grant_entry-Extends s p running after ctx n = inl (refl, inl refl)

grant-Extends :
    (s : Surroundings) (p : ProcessEntry) (parameters : OpenFileParameters) (file : ℕ)
    (ctx : ServiceContext)
    → Extends ctx (grant s p parameters file ctx).1
unfolding grant
grant-Extends s p parameters file ctx =
    let r =
      new_file_entry file parameters.access parameters.share_mode s.for_file
        ctx.current_file_handle in
    grant_entry-Extends s p r.0 r.1 ctx (
      new_file_entry-IsNext file parameters.access parameters.share_mode s.for_file
        ctx.current_file_handle)

unchanged : (ctx : ServiceContext) → Extends ctx ctx
unchanged ctx = inl (refl, inl refl)

serve_found-Extends :
    (s : Surroundings) (p : ProcessEntry) (parameters : OpenFileParameters) (file : ℕ)
    (found : Answer (Option FileEntry)) (ctx : ServiceContext)
    → Extends ctx (serve_found s p parameters file found ctx).1
unfolding serve_found
serve_found-Extends s p parameters file (ok none) ctx = grant-Extends s p parameters file ctx
serve_found-Extends s p parameters file (ok (some e)) ctx =
    elim (Bool-cases (is_file_accessible e parameters.access)) [
      | inl h ↦ rw (h, serve_found) (grant-Extends s p parameters file ctx)
      | inr h ↦
          rw (h, serve_found)
            (rw (send_response-same s (create_response access_denied false [] 0 s.for_response) ctx)
              (unchanged ctx))
    ]
serve_found-Extends s p parameters file (err e) ctx = unchanged ctx
serve_found-Extends s p parameters file fault ctx = unchanged ctx
serve_found-Extends s p parameters file running ctx = unchanged ctx

serve_opened-Extends :
    (s : Surroundings) (p : ProcessEntry) (parameters : OpenFileParameters) (opened : Answer ℕ)
    (ctx : ServiceContext)
    → Extends ctx (serve_opened s p parameters opened ctx).1
unfolding serve_opened lowered
serve_opened-Extends s p parameters (ok file) ctx =
    serve_found-Extends s p parameters file (look_for_file_entry file ctx) ctx
serve_opened-Extends s p parameters (err e) ctx = unchanged ctx
serve_opened-Extends s p parameters fault ctx = unchanged ctx
serve_opened-Extends s p parameters running ctx = unchanged ctx

serve_process-Extends :
    (s : Surroundings) (parameters : OpenFileParameters) (found : Answer (Option ProcessEntry))
    (ctx : ServiceContext)
    → Extends ctx (serve_process s parameters found ctx).1
unfolding serve_process lowered
serve_process-Extends s parameters (ok none) ctx = unchanged ctx
serve_process-Extends s parameters (ok (some p)) ctx =
    serve_opened-Extends s p parameters s.opened
      (record ctx { priority_calls = true ∷ ctx.priority_calls })
serve_process-Extends s parameters (err e) ctx = unchanged ctx
serve_process-Extends s parameters fault ctx = unchanged ctx
serve_process-Extends s parameters running ctx = unchanged ctx

add_process-Extends :
    (s : Surroundings) (r : Answer ProcessEntry) (ctx : ServiceContext)
    → Extends ctx (add_process s r ctx).1
unfolding add_process
add_process-Extends s (ok p) ctx = unchanged ctx
add_process-Extends s (err e) ctx = unchanged ctx
add_process-Extends s fault ctx = unchanged ctx
add_process-Extends s running ctx = unchanged ctx

connect_found-Extends :
    (s : Surroundings) (handle : ℕ) (found : Answer (Option ProcessEntry)) (ctx : ServiceContext)
    → Extends ctx (connect_found s handle found ctx).1
unfolding connect_found
connect_found-Extends s handle (ok (some p)) ctx = unchanged ctx
connect_found-Extends s handle (ok none) ctx = add_process-Extends s _ ctx
connect_found-Extends s handle (err e) ctx = unchanged ctx
connect_found-Extends s handle fault ctx = unchanged ctx
connect_found-Extends s handle running ctx = unchanged ctx

-- Every request leaves the open files as they are, or puts one with the next handle behind them.
pub service_execute_command-Extends :
    (s : Surroundings) (handle : ℕ) (request : LtFsRequest) (ctx : ServiceContext)
    → Extends ctx (service_execute_command s handle request ctx).0.1
unfolding service_execute_command request_connect request_open_file
service_execute_command-Extends s handle terminate ctx = unchanged ctx
service_execute_command-Extends s handle connect ctx =
    connect_found-Extends s handle (look_for_process_from_handle handle ctx) ctx
service_execute_command-Extends s handle (open_file parameters) ctx =
    serve_process-Extends s parameters (look_for_process_from_handle handle ctx) ctx
service_execute_command-Extends s handle (other t) ctx = unchanged ctx

-- The handles rise from entry to entry, above `low` and up to `high`.
abbrev pub IsIssued : (low high : ℕ) → List FileEntry → Type 0
IsIssued low high [] = low ≤ high
IsIssued low high (e ∷ es) = (low < e.handle) × IsIssued e.handle high es

IsIssued-raise :
    (low high next : ℕ) (es : List FileEntry)
    → high ≤ next
    → IsIssued low high es
    → IsIssued low next es
IsIssued-raise low high next [] h i = omega arith
IsIssued-raise low high next (e ∷ es) h i = (i.0, IsIssued-raise e.handle high next es h i.1)

IsIssued-append :
    (low high next : ℕ) (es : List FileEntry) (e : FileEntry)
    → e.handle ≡ next
    → next ≡ high + 1
    → IsIssued low high es
    → IsIssued low next (es ++ e ∷ [])
IsIssued-append low high next [] e h k i = (omega arith, omega arith)
IsIssued-append low high next (f ∷ fs) e h k i =
    (i.0, IsIssued-append f.handle high next fs e h k i.1)

-- As long as the counter does not wrap.
IsIssued-Extends :
    (ctx after : ServiceContext)
    → ctx.current_file_handle + 1 < u32_mod
    → Extends ctx after
    → IsIssued 0 ctx.current_file_handle ctx.file_entries
    → IsIssued 0 after.current_file_handle after.file_entries
      × (after.current_file_handle ≤ ctx.current_file_handle + 1)
IsIssued-Extends ctx after small (inl (same, inl kept)) i = (
  rw same (
      IsIssued-raise 0 ctx.current_file_handle after.current_file_handle ctx.file_entries
        (omega arith) i),
  omega arith,
)
IsIssued-Extends ctx after small (inl (same, inr next)) i =
    let up : after.current_file_handle ≡ ctx.current_file_handle + 1 = omega arith in
    (
      rw same (
          IsIssued-raise 0 ctx.current_file_handle after.current_file_handle ctx.file_entries
            (omega arith) i),
      omega arith,
    )
IsIssued-Extends ctx after small (inr (e, added, next, count)) i =
    let up : after.current_file_handle ≡ ctx.current_file_handle + 1 = omega arith in
    (
      rw added (
          IsIssued-append 0 ctx.current_file_handle after.current_file_handle ctx.file_entries e
            (omega arith) up i),
      omega arith,
    )

-- The context after requests, each from a process and with what the other parts answer to it.
abbrev pub serve_all : List (Surroundings × ℕ × LtFsRequest) → ServiceContext → ServiceContext
serve_all [] ctx = ctx
serve_all ((s, handle, request) ∷ rest) ctx =
    serve_all rest (service_execute_command s handle request ctx).0.1

IsIssued-serve_all :
    (requests : List (Surroundings × ℕ × LtFsRequest)) (ctx : ServiceContext)
    → ctx.current_file_handle + length requests < u32_mod
    → IsIssued 0 ctx.current_file_handle ctx.file_entries
    → let after = serve_all requests ctx in IsIssued 0 after.current_file_handle after.file_entries
IsIssued-serve_all [] ctx small i = i
IsIssued-serve_all ((s, handle, request) ∷ rest) ctx small i =
    let next = (service_execute_command s handle request ctx).0.1 in
    let (issued, up) =
      IsIssued-Extends ctx next (omega arith) (service_execute_command-Extends s handle request ctx)
        i in
    IsIssued-serve_all rest next (omega arith) issued

-- From the beginning of the service, after any requests, fewer than 2 ^ 32 of them, the open files have
-- handles that rise from one to the next, none of them INVALID_HANDLE_VALUE and none above the counter.
pub serve_all-IsIssued :
    (requests : List (Surroundings × ℕ × LtFsRequest))
    → length requests < u32_mod
    → let after = serve_all requests service_command_init in
      IsIssued 0 after.current_file_handle after.file_entries
serve_all-IsIssued requests small =
    IsIssued-serve_all requests service_command_init (omega arith) (omega arith)
