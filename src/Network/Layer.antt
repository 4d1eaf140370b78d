-- ===== src/Network/Layer.antt =====
-- FTBN_Init, FTBN_Finalize and FTBN_Abort of src/manager_lib/network/network_sock/ftb_network_tcp.c: the state
-- of the network layer as a whole. FTBNI_Bootstrap_init copies the configuration and always succeeds.
use ftb.Prelude.{ℕ, List, [], Option, none}
use ftb.Defs.{Code, success, LocationId}
use ftb.Database.{Pkt}
use ftb.Network.Bootstrap
use ftb.Network.Bootstrap.{Exit, returned, aborted, Round, Config}
use ftb.Network.Connect.{no_level}
use ftb.Network.Table.{Connection}

-- FTBNI_connection_table, FTBNI_listen_fd (`none` is -1), FTBN_my_level, FTBN_my_location_id and
-- FTBN_config_location with FTBN_config.
pub record Layer : Type 0 where
  pub connection_table : List Connection
  pub listen_fd : Option ℕ
  pub my_level : ℕ
  pub my_location_id : LocationId
  pub config : Config

unfoldable pub init : LocationId → Config → Code × Layer
init my_id config = (
  success,
  record {
    connection_table = [];
    listen_fd = none;
    my_level = no_level;
    my_location_id = my_id;
    config = config;
  },
)

module _ {W : Type 0} (deliver : Pkt → W → Round × W) (garbage : Pkt) where
  -- Every connection is closed and freed, and so is the table.
  unfoldable pub finalize : Layer → W → Exit (Code × Layer × W)
  unfolding Bootstrap.finalize
  finalize layer w = elim (Bootstrap.finalize deliver layer.config garbage w) [
    | aborted ↦ aborted
    | returned r ↦ returned (success, record layer { connection_table = []; listen_fd = none }, r.1)
  ]

  -- The connections stay open.
  unfoldable pub abort : Layer → W → Exit (Code × Layer × W)
  unfolding Bootstrap.abort
  abort layer w = elim (Bootstrap.abort deliver layer.config garbage w) [
    | aborted ↦ aborted
    | returned r ↦ returned (success, record layer { listen_fd = none }, r.1)
  ]
