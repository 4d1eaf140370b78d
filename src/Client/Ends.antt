-- ===== src/Client/Ends.antt =====
-- How a call of FTBC_Connect of src/client_lib/ftb_client_lib.c can end.
use ftb.Prelude.{
  ℕ, ◌+◌, ◌<◌, ◌≤◌, ◌≡◌, Bool, true, false, List, [], ◌∷◌, ◌++◌, Option, none, some, if◌then◌else◌,
  map, ◌==◌, length,
}
use ftb.Defs.{
  Code, success, err_eventspace_format, err_null_pointer, err_subscription_style, err_invalid_value,
  err_dup_call, is_success, ClientHandle, FtbId, client_reg, Run, ok, crash, max_client_name,
  max_client_jobid,
}
use ftb.Manager.State.{Manager, Env}
use ftb.Manager.Clients
use ftb.Client.Namespace.{Split, split_namespace}
use ftb.Client.Splitting.{Stray, code_of}
use ftb.Client.Filter.{or_empty}
use ftb.Client.Polling.{ClientInfo}
use ftb.Client.Library.{
  Client, Library, is_notified, handle_of, lookup_client_info, convert_clientid_to_clienthandle,
  to_parent,
}
use ftb.Client.Receiving.{IsOpen, find}
use ftb.Client.Connecting.{ClientArgs, style_of, Connection}

-- A library that takes calls: without a client and closed, or open with these clients.
pub data IsReady (cs : List Client) (lib : Library) : Type 0 where
  closed : lib.num_components ≡ 0 → cs ≡ [] → IsReady cs lib
  opened : (lib.num_components == 0) ≡ false → IsOpen cs lib → IsReady cs lib

-- The handle of a client of the event space with these parts.
abbrev pub handle_for : ClientArgs → ℕ → Split → ClientHandle
handle_for cinfo extension p = record {
  valid = 1;
  client_id = record {
    region = or_empty p.region_name;
    comp_cat = or_empty p.category_name;
    comp = or_empty p.component_name;
    client_name = cinfo.client_name;
    ext = extension;
  };
}

-- The arguments with which the library goes on to enter the client under the handle `h`: they name a
-- subscription style and an event space, and the names fit.
pub record Accepted (given : Bool) (cinfo : ClientArgs) (extension : ℕ) (info : ClientInfo)
    (h : ClientHandle) : Type 0 where
  pub handle_given : given ≡ true
  pub style : style_of cinfo ≡ some info
  pub parts : Split
  pub space : split_namespace cinfo.event_space ≡ ok parts
  pub valid_space : parts.code ≡ success
  pub name_fits : length cinfo.client_name < max_client_name
  pub jobid_fits : length cinfo.client_jobid < max_client_jobid
  pub handle : h ≡ handle_for cinfo extension parts

-- The reasons to refuse a client before it is looked up, each with its code.
pub data Refused (given : Bool) (cinfo : ClientArgs) (code : Code) : Type 0 where
  no_handle : given ≡ false → code ≡ err_null_pointer → Refused given cinfo code
  no_style :
      given ≡ true
      → style_of cinfo ≡ none
      → code ≡ err_subscription_style
      → Refused given cinfo code
  no_space :
      given ≡ true
      → code_of (split_namespace cinfo.event_space) ≡ some err_eventspace_format
      → code ≡ err_eventspace_format
      → Refused given cinfo code
  long_name :
      given ≡ true
      → max_client_name ≤ length cinfo.client_name
      → code ≡ err_invalid_value
      → Refused given cinfo code
  long_jobid :
      given ≡ true
      → length cinfo.client_name < max_client_name
      → max_client_jobid ≤ length cinfo.client_jobid
      → code ≡ err_invalid_value
      → Refused given cinfo code

-- One callback thread more runs on freed memory, if the client is notified.
abbrev pub with_stray : ClientInfo → ℕ → ℕ
with_stray info n = if is_notified info then n + 1 else n

-- The registration of the client with this handle is sent over the manager `m`, and the answer tells
-- `good` and has this code.
pub record Registered (env : Env) (m : Manager) (h : ClientHandle) (good : Bool) (code : Code)
    : Type 0 where
  pub id : FtbId
  pub named : convert_clientid_to_clienthandle id.client_id ≡ h
  pub answer : Code × Manager
  pub runs :
      Clients.send env (to_parent env m (record env.garbage { src = id; msg_type = client_reg })) m
      ≡ ok answer
  pub outcome : is_success answer.0 ≡ good
  pub code_of_answer : is_success answer.0 ≡ false → code ≡ answer.0

-- How a connection ends: the event space has too few pieces and the call follows a null pointer; the
-- call is refused; the handle is another client's; the client is entered behind the others; or its
-- registration cannot be sent, its memory is freed, and every later lookup of a handle that none of
-- the others has reads freed memory.
pub data Connected (env : Env) (m : Manager) (given : Bool) (cinfo : ClientArgs) (extension : ℕ)
    (cs : List Client) (lib : Library) (r : Run Connection) : Type 0 where
  strays :
      given ≡ true
      → Stray cinfo.event_space
      → r ≡ crash
      → Connected env m given cinfo extension cs lib r
  denied :
      (code : Code) (h : Option ClientHandle) (left : Library)
      → Refused given cinfo code
      → r ≡ ok (code, h, left)
      → IsReady cs left
      → left.stray_threads ≡ lib.stray_threads
      → Connected env m given cinfo extension cs lib r
  twice :
      (info : ClientInfo) (h : ClientHandle) (c : Client) (left : Library)
      → Accepted given cinfo extension info h
      → find h cs ≡ some c
      → r ≡ ok (err_dup_call, some h, left)
      → IsReady cs left
      → left.stray_threads ≡ with_stray info lib.stray_threads
      → Connected env m given cinfo extension cs lib r
  entered :
      (info : ClientInfo) (h : ClientHandle) (left : Library) (ds : List Client)
      → Accepted given cinfo extension info h
      → Registered env m h true success
      → r ≡ ok (success, some h, left)
      → find h cs ≡ none
      → IsReady ds left
      → map handle_of ds ≡ map handle_of cs ++ h ∷ []
      → Connected env m given cinfo extension cs lib r
  lost :
      (info : ClientInfo) (code : Code) (h : ClientHandle) (left : Library)
      → Accepted given cinfo extension info h
      → Registered env m h false code
      → find h cs ≡ none
      → r ≡ ok (code, some h, left)
      → left.stray_threads ≡ with_stray info lib.stray_threads
      → ((j : ClientHandle) (refuse : Code → Code × Library) (next : Client → Run (Code × Library))
          → find j cs ≡ none
          → lookup_client_info j left refuse next ≡ crash)
      → Connected env m given cinfo extension cs lib r
