-- ===== src/LtFsService/ServiceCommands/Access.antt =====
-- RequestOpenFile: who may open a file.
use lt_micros.Base.{
  ℕ, ◌<◌, ◌≡◌, ◌≢◌, refl, ◌∙◌, inl, inr, ◌⊎◌, Option, none, some, List, [], ◌∷◌, true, false, arith,
  ◌==◌,
}
use lt_micros.Base.Words.{add32, null}
use lt_micros.KernelList.Walk.{find_first, find_first-append_some}
use lt_micros.LtFsService.{success, access_denied, ok}
use lt_micros.LtFsService.ServiceCommands.{
  ProcessEntry, FileEntry, ServiceContext, LtFsRequest, OpenFileParameters, Surroundings, push,
  look_for_process_from_handle, look_for_file_entry, is_file_accessible, new_file_entry,
  create_response, handle_bytes, shares_read, send_response, grant, grant_entry, serve_found,
  serve_opened, serve_process, lowered, request_open_file, service_execute_command, file_read,
  file_share_max, invalid_handle_value,
}
use lt_micros.LtFsService.ServiceCommands.Handles.{
  Extends, service_execute_command-Extends, serve_all,
}

-- The first entry of a file.
abbrev pub first_entry : ℕ → ServiceContext → Option FileEntry
first_entry file ctx = find_first (λ (e : FileEntry). e.file == file) ctx.file_entries

first_entry-Extends :
    (file : ℕ) (e : FileEntry) (ctx after : ServiceContext)
    → Extends ctx after
    → first_entry file ctx ≡ some e
    → first_entry file after ≡ some e
first_entry-Extends file e ctx after (inl (same, up)) f = rw same f
first_entry-Extends file e ctx after (inr (new, added, next, count)) f =
    rw added
      (find_first-append_some (λ (g : FileEntry). g.file == file) ctx.file_entries (new ∷ []) e f)

-- No request changes which entry is the first of a file.
first_entry-serve_all :
    (requests : List (Surroundings × ℕ × LtFsRequest)) (file : ℕ) (e : FileEntry)
    (ctx : ServiceContext)
    → first_entry file ctx ≡ some e
    → first_entry file (serve_all requests ctx) ≡ some e
first_entry-serve_all [] file e ctx f = f
first_entry-serve_all ((s, handle, request) ∷ rest) file e ctx f =
    first_entry-serve_all rest file e (service_execute_command s handle request ctx).0.1 (
      first_entry-Extends file e ctx (service_execute_command s handle request ctx).0.1
        (service_execute_command-Extends s handle request ctx) f)

-- A request to open `file` for reading by a process that is connected; memory is given and the response
-- is sent.
pub record IsRequest (s : Surroundings) (handle file : ℕ) (parameters : OpenFileParameters)
    (ctx : ServiceContext) : Type 0 where
  pub process : ProcessEntry
  pub caller : handle ≢ invalid_handle_value
  pub connected :
      find_first (λ (p : ProcessEntry). p.process_handle == handle) ctx.processes ≡ some process
  pub opened : s.opened ≡ ok file
  pub real : file ≢ null
  pub reading : parameters.access ≡ file_read
  pub for_response : s.for_response ≡ true
  pub sent : s.sent ≡ ok tt

-- The context while the request is served.
abbrev pub raised : ServiceContext → ServiceContext
raised ctx = record ctx { priority_calls = true ∷ ctx.priority_calls }

-- What it leaves when nobody gets the file.
abbrev pub untouched : ServiceContext → ServiceContext
untouched ctx = record ctx { priority_calls = false ∷ true ∷ ctx.priority_calls }

looked_up :
    (handle : ℕ) (p : ProcessEntry) (ctx : ServiceContext)
    → handle ≢ invalid_handle_value
    → find_first (λ (q : ProcessEntry). q.process_handle == handle) ctx.processes ≡ some p
    → look_for_process_from_handle handle ctx ≡ ok (some p)
unfolding look_for_process_from_handle
looked_up handle p ctx caller e = ground arith

looked_for :
    (file : ℕ) (ctx : ServiceContext)
    → file ≢ null
    → look_for_file_entry file (raised ctx) ≡ ok (first_entry file ctx)
unfolding look_for_file_entry
looked_for file ctx real = ground arith

accessible-read :
    (e : FileEntry) (access : ℕ)
    → access ≡ file_read
    → is_file_accessible e access ≡ shares_read e.share_mode
unfolding is_file_accessible
accessible-read e access reading = ground arith

module _ (s : Surroundings) (handle file : ℕ) (parameters : OpenFileParameters)
    (ctx : ServiceContext) (r : IsRequest s handle file parameters ctx) where
  -- The request is one for the entries of the file.
  request_open_file-found :
      request_open_file s handle parameters ctx
      ≡ lowered (serve_found s r.process parameters file (ok (first_entry file ctx)) (raised ctx))
  unfolding request_open_file serve_process serve_opened
  request_open_file-found =
      let p : look_for_process_from_handle handle ctx ≡ ok (some r.process) =
        looked_up handle r.process ctx r.caller r.connected in
      let f : look_for_file_entry file (raised ctx) ≡ ok (first_entry file ctx) =
        looked_for file ctx r.real in
      rw (p, request_open_file) (rw r.opened (rw f refl))

  module _ (e : FileEntry) (f : first_entry file ctx ≡ some e) where
    request_denied :
        shares_read e.share_mode ≡ false
        → request_open_file s handle parameters ctx ≡ (
          ok tt,
          untouched ctx,
          some (record { status = access_denied; size = 12; payload = [] }),
        )
    unfolding serve_found create_response send_response lowered
    request_denied mode =
        let closed = accessible-read e parameters.access r.reading ∙ mode in
        request_open_file-found
        ∙ rw f (rw (closed, serve_found) (rw r.for_response (rw r.sent refl)))

-- Once the first entry of a file does not share reading, then after any further requests every request
-- to open the file for reading is answered STATUS_ACCESS_DENIED, and leaves the open files as they are.
pub request_open_file_denied :
    (requests : List (Surroundings × ℕ × LtFsRequest)) (s : Surroundings) (handle file : ℕ)
    (parameters : OpenFileParameters) (e : FileEntry) (ctx : ServiceContext)
    → first_entry file ctx ≡ some e
    → shares_read e.share_mode ≡ false
    → IsRequest s handle file parameters (serve_all requests ctx)
    → request_open_file s handle parameters (serve_all requests ctx) ≡ (
      ok tt,
      untouched (serve_all requests ctx),
      some (record { status = access_denied; size = 12; payload = [] }),
    )
request_open_file_denied requests s handle file parameters e ctx f mode r =
    request_denied s handle file parameters (serve_all requests ctx) r e
      (first_entry-serve_all requests file e ctx f) mode

-- The entry that a granted request makes, and what the request leaves then.
abbrev pub new_entry : ℕ → OpenFileParameters → ServiceContext → FileEntry
new_entry file parameters ctx = record {
  handle = add32 ctx.current_file_handle 1;
  cursor = 0;
  file = file;
  share_mode = parameters.share_mode;
}

abbrev pub opened_by : ℕ → OpenFileParameters → ServiceContext → ServiceContext
opened_by file parameters ctx = record (untouched ctx) {
  file_entries = push true ctx.file_entries (new_entry file parameters ctx);
  current_file_handle = add32 ctx.current_file_handle 1;
}

-- Nobody has the file open, or its first entry shares reading.
abbrev pub Readable : ℕ → ServiceContext → Type 0
Readable file ctx =
    (first_entry file ctx ≡ none)
    ⊎ ((e : FileEntry) × (first_entry file ctx ≡ some e) × (shares_read e.share_mode ≡ true))

module _ (s : Surroundings) (handle file : ℕ) (parameters : OpenFileParameters)
    (ctx : ServiceContext) (r : IsRequest s handle file parameters ctx)
    (mode : parameters.share_mode < file_share_max) (for_file : s.for_file ≡ true)
    (for_push : s.for_push ≡ true) (no_list : r.process.file_entries ≡ null) where
  new_file_entry-new :
      new_file_entry file parameters.access parameters.share_mode s.for_file ctx.current_file_handle
      ≡ (ok (new_entry file parameters ctx), add32 ctx.current_file_handle 1)
  unfolding new_file_entry
  new_file_entry-new = ground (arith, r.real, r.reading)

  grant-opened : lowered (grant s r.process parameters file (raised ctx)) ≡ (
    ok tt,
    opened_by file parameters ctx,
    some (record {
      status = success;
      size = 16;
      payload = handle_bytes (add32 ctx.current_file_handle 1);
    }),
  )
  unfolding grant grant_entry create_response send_response lowered
  grant-opened =
      rw (new_file_entry-new, grant)
        (rw (no_list, grant_entry) (rw for_push (rw r.for_response (rw r.sent refl))))

  -- A request to open for reading a file that nobody has open, or whose first entry shares reading, is
  -- granted, whatever sharing it asks for itself: the response has the next handle, under which the
  -- file stands behind the others. Memory is given, and the list of the process is null.
  pub request_open_file_granted :
      Readable file ctx
      → request_open_file s handle parameters ctx ≡ (
        ok tt,
        opened_by file parameters ctx,
        some (record {
          status = success;
          size = 16;
          payload = handle_bytes (add32 ctx.current_file_handle 1);
        }),
      )
  unfolding serve_found
  request_open_file_granted (inl f) =
      request_open_file-found s handle file parameters ctx r ∙ rw f grant-opened
  request_open_file_granted (inr (e, f, shared)) =
      let shares = accessible-read e parameters.access r.reading ∙ shared in
      request_open_file-found s handle file parameters ctx r
      ∙ rw f (rw (shares, serve_found) grant-opened)
