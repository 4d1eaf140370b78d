-- ===== src/Defs.antt =====
-- The data that all parts share: include/ftb_def.h, include/ftb_client_lib_defs.h and
-- include/ftb_manager_lib.h. A fixed array of characters is the string that it holds; `uint8_t`,
-- `uint16_t` and `pid_t` fields are numbers.
use ftb.Prelude.{ℕ, List, Bool}
use ftb.Text.{Str, codes}

-- The result codes FTB_SUCCESS to FTB_ERR_NETWORK_NO_ROUTE, and FTBM_NO_MSG.
pub data Code : Type 0 where
  success err_general err_eventspace_format err_subscription_style err_invalid_value : Code
  err_dup_call err_null_pointer err_not_supported err_invalid_field err_invalid_handle : Code
  err_dup_event err_invalid_schema_file err_invalid_event_name err_invalid_event_type : Code
  err_subscription_str err_filter_attr err_filter_value got_no_event failure : Code
  err_invalid_parameter err_network_general err_network_no_route no_msg : Code

-- A call that may follow a null pointer, or read a node or a cell that is not there.
pub data Run {ℓ} (A : Type ℓ) : Type ℓ where
  ok : A → Run A
  crash : Run A

-- The rest of a function after a call.
infixl 5 ◌>>=◌
abbrev pub ◌>>=◌ {ℓ κ} : {A : Type ℓ} {B : Type κ} → Run A → (A → Run B) → Run B
ok a >>= f = f a
crash >>= f = crash

-- `code == FTB_SUCCESS`
abbrev pub is_success : Code → Bool
is_success success = Bool.true
is_success _ = Bool.false

abbrev pub max_client_schema_ver : ℕ
max_client_schema_ver = 8

abbrev pub max_eventspace : ℕ
max_eventspace = 64

abbrev pub max_client_name : ℕ
max_client_name = 16

abbrev pub max_client_jobid : ℕ
max_client_jobid = 16

abbrev pub max_event_name : ℕ
max_event_name = 32

abbrev pub max_host_addr : ℕ
max_host_addr = 64

abbrev pub max_pid_time : ℕ
max_pid_time = 32

pub record LocationId : Type 0 where
  pub hostname : Str
  pub pid_starttime : Str
  pub pid : ℕ

pub record ClientId : Type 0 where
  pub region : Str
  pub comp_cat : Str
  pub comp : Str
  pub client_name : Str
  pub ext : ℕ

pub record ClientHandle : Type 0 where
  pub valid : ℕ
  pub client_id : ClientId

pub record FtbId : Type 0 where
  pub location_id : LocationId
  pub client_id : ClientId

pub record Event : Type 0 where
  pub region : Str
  pub comp_cat : Str
  pub comp : Str
  pub event_name : Str
  pub severity : Str
  pub client_jobid : Str
  pub client_name : Str
  pub hostname : Str
  pub seqnum : ℕ
  pub event_type : ℕ
  pub event_payload : List ℕ

-- FTBM_MSG_TYPE_NOTIFY and its fellows; `other` is any other value of the field.
pub data MsgType : Type 0 where
  notify client_reg client_dereg cleanup_conn reg_publishable_event reg_subscription : MsgType
  publishable_event_reg_cancel subscription_cancel : MsgType
  other : ℕ → MsgType

pub record Msg : Type 0 where
  pub msg_type : MsgType
  pub src : FtbId
  pub dst : FtbId
  pub event : Event

abbrev pub comp_cat_backplane : Str
comp_cat_backplane = codes "FTB_COMP_CAT_BACKPLANE"

abbrev pub comp_manager : Str
comp_manager = codes "FTB_COMP_MANAGER"
