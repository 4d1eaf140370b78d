-- ===== src/Lib.antt =====
-- FTB, the Fault Tolerance Backplane: a tree of agents that carries fault events between clients.
--
-- The program. A client links the client library (src/client_lib), which talks to the agent of its
-- node through the manager library (src/manager_lib/ftb_manager_lib.c). An agent
-- (src/agent/ftb_agent.c) runs the same manager library: it keeps a table of its peers (clients,
-- child agents, its parent), and for each event mask the peers that subscribed to it. An event goes
-- to every peer with a mask that matches, and not back to the agent that it came from. One thread
-- reads the network and fills a queue of messages, the agent's loop takes them from it. The bootstrap
-- server (src/manager_lib/network/network_sock/ftb_database_server_udp.c) tells an agent which other
-- agent is to be its parent.
--
-- The files.
--   Prelude       the names that all files share: numbers, lists, tests, equalities
--   Text          C strings, and strcasecmp, strncasecmp, strcmp, strncmp of string.h
--   Defs          the data of include/ftb_def.h, include/ftb_client_lib_defs.h and
--                 include/ftb_manager_lib.h: codes, locations, ids, events, messages
--   Match         src/util/ftb_util.c, the comparisons (FTBU_match_mask, FTBU_is_equal_...)
--   Map           src/util/ftb_util.c, the maps (FTBU_map_...), as the lists of their nodes
--   Dll           src/util/ftb_util.c, the doubly linked nodes under the maps and the lists
--                 (FTBU_list_..., FTBU_map_...); Links and Maps prove that they implement Map
--   Manager       src/manager_lib/ftb_manager_lib.c: State (the data and the lookups), Propagation
--                 (FTBMI_util_reg_propagation, ..._remove_com_from_catch_map, ..._clean_component),
--                 Lifecycle (FTBM_Init, FTBMI_util_reconnect, FTBM_Finalize, FTBM_Abort), Clients
--                 (FTBM_Client_register, FTBM_Client_deregister, FTBM_Send,
--                 FTBM_Cleanup_connection, FTBM_Get), Subscriptions (FTBM_Register_subscription,
--                 FTBM_Cancel_subscription, FTBM_Get_catcher_comp_list and the operations on
--                 publishable events). The proofs: Frame (what propagation leaves alone), Routes and
--                 Tables (the two tables as one relation), Coherence, Registration and Subscription
--                 (how each operation changes it), Departure, Sending, Subscribing, Catchers,
--                 Delivery, Cleanup, Freed and Shutdown (the operations as a whole)
--   Inbox         src/manager_lib/ftb_manager_lib.c, the message queue (FTBM_Fill_message_queue,
--                 FTBM_Recv), with its linked nodes; Chain, Order, Filling and Loss hold the proofs
--   Agent         src/agent/ftb_agent.c, progress_loop; Running, Sent, Notify, Receivers and Loop
--                 hold the proofs
--   Database      src/manager_lib/network/network_sock/ftb_database_server_udp.c, the bootstrap
--                 server; Tree, Parents and Requests hold the proofs
--   Auxil         src/util/ftb_auxil.c: soft_trim, trim_string and the test for word characters
--   Client        src/client_lib/ftb_client_lib.c: Namespace (FTBCI_split_namespace), Declared
--                 (FTBCI_store_declared_events), Polling (the queue of events that a client polls),
--                 Filter (FTBCI_parse_subscription_string), Library (the clients, the handling of
--                 messages, FTBCI_Check_progress, FTBCI_util_reconnect), Connecting (FTBC_Connect,
--                 FTBC_Disconnect), Subscribing (FTBC_Subscribe_with_polling, ..._with_callback,
--                 FTBC_Unsubscribe), Publishing (FTBC_Publish, FTBC_Poll_event, the callback thread of
--                 a client, the event handles) and Schema (FTBCI_check_schema_file). The proofs:
--                 Splitting, Declaring, Queueing, Fitting, Receiving (a message), Progress, Calls and
--                 Events (each call keeps the library open), Session (sequences of calls), Ends,
--                 Entering and Joining (FTBC_Connect), Leaving, Callbacks and Resending (what a reconnection sends)
--   Network       src/manager_lib/network/network_sock: Bootstrap (ftb_bootstrap_udp.c, the requests
--                 to the bootstrap server), and of ftb_network_tcp.c Connect (FTBN_Connect), Layer
--                 (FTBN_Init, FTBN_Finalize, FTBN_Abort), Stream (FTBNI_UTIL_READ, FTBNI_UTIL_WRITE),
--                 Table (the table of connections, FTBN_Send_msg, FTBN_Recv_msg,
--                 FTBN_Disconnect_peer) and Grabbing (FTBN_Grab_messages, FTBNI_util_connect_to). The
--                 proofs: Exchange (the retries and the waiting), Reporting (the requests together with
--                 the server), Joining and Spinning (the search for a parent with the server), Framing
--                 (the bytes that are read and written), Channels and Sending (the messages on a
--                 connection), Taking (a receive), Free, Steps and Running (sequences of calls)
--   Tests         concrete states and packets, and the theorems applied to them
--
-- How the code is modelled. A manager is a record of the fields of FTBMI_info, and an operation is
-- a function that takes the manager and gives the code and the manager after the call. What the
-- network answers is a parameter: a function of all calls made so far (Env). The calls are noted in
-- the manager's log, and theorems hold for every answer unless they say otherwise. A call that
-- would follow a null pointer, or read a peer or a client that was freed, ends in `crash`. A mask
-- that FTBM_Register_subscription reads after it has freed it reads as some function of what it was
-- (Env.freed); the theorems on agents exclude a second registration of a mask, but for the one that
-- shows what it does. Env stands for calls of the network layer that return; that FTBN_Connect,
-- which a reconnection calls, may not return is shown in Network.Spinning. The message queue keeps
-- its nodes by address, with the `next` pointers as a function. Every loop of the code is a
-- recursion on the list that it walks or on its counter; only two run on fuel: the lookup in the
-- linked nodes of Dll, where more fuel than nodes is proved to be enough, and the loop of
-- FTBN_Connect, which has no bound of its own. A call of the client library takes the messages that
-- come in while it runs as a feed, and the threads of the library are steps: the round of a
-- client's callback thread is an operation of its own, with a result that tells which memory it
-- leaves freed; FTBC_Disconnect, which joins that thread, is told where the thread is
-- (ThreadState), and `none` is a join without an end; callback threads on the memory of clients
-- that FTBC_Connect has freed are counted. `uint8_t` and `uint16_t` fields are cut where the code
-- narrows a wider value; the levels of the bootstrap server have 16 bits in a packet and 32 in its
-- map.
--
-- Of the network layer, a connection holds what its socket has for `read`, in pieces, how it answers
-- `write`, and the bytes that were sent; a call that waits for ever gives `none`. How a message stands
-- in memory is a parameter (Layout).
--
-- What is not modelled: locks (each operation runs under them; the threads share only the queue),
-- the order in which the threads are run, the log file, the socket calls themselves, the dynamic
-- tags of the client library (FTB_TAG), the start and the cancellation of the thread that receives
-- for the notified clients, the agent's start-up apart from FTBM_Init, the platform wrappers and
-- the examples. The manager library sees the network through Env, not through the model of the
-- network layer.
pub mod Prelude
pub mod Text
pub mod Defs
pub mod Match
pub mod Map
pub mod Manager
pub mod Inbox
pub mod Agent
pub mod Database
pub mod Network
pub mod Tests
pub mod Auxil
pub mod Client
pub mod Dll
