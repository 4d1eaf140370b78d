-- ===== src/Client/Polling.antt =====
-- The polling queue of src/client_lib/ftb_client_lib.c: FTBCI_util_push_to_comp_polling_list, and the
-- search of FTBC_Poll_event. The queue is the list of its entries, the oldest first; its head node is
-- not an entry.
use ftb.Prelude.{
  ℕ, ◌+◌, ◌-◌, ◌%◌, Bool, List, [], ◌∷◌, ◌++◌, Option, none, some, ◌==◌, ltb, if◌then◌else◌,
}
use ftb.Defs.{FtbId, Event, Run, ok, crash}
use ftb.Match.{match_mask}

-- FTBCI_event_inst_list_t
pub record EventInst : Type 0 where
  pub event_inst : Event
  pub src : FtbId

-- The fields of FTBCI_client_info_t that the queue uses.
pub record ClientInfo : Type 0 where
  pub subscription_type : ℕ
  pub max_polling_queue_len : ℕ
  pub event_queue_size : ℕ
  pub event_queue : List EventInst

-- `subscription_type & FTB_SUBSCRIPTION_POLLING`
abbrev pub is_polling : ClientInfo → Bool
is_polling c = c.subscription_type % 2 == 1

-- The first entry goes. With none, the head node itself would be taken out and freed.
unfoldable pub drop_first : ClientInfo → Run ClientInfo
drop_first c = elim c.event_queue [
  | [] ↦ crash
  | _ ∷ rest ↦ ok (record c { event_queue = rest; event_queue_size = c.event_queue_size - 1 })
]

unfoldable pub add_last : EventInst → Run ClientInfo → Run ClientInfo
add_last e crash = crash
add_last e (ok c) =
    ok (record c {
      event_queue = c.event_queue ++ e ∷ [];
      event_queue_size = c.event_queue_size + 1;
    })

-- A client that does not poll drops the event.
unfoldable pub push_to_comp_polling_list : EventInst → ClientInfo → Run ClientInfo
unfolding drop_first add_last
push_to_comp_polling_list e c =
    if is_polling c
    then add_last e (if c.event_queue_size == c.max_polling_queue_len then drop_first c else ok c)
    else ok c

-- The loop of FTBC_Poll_event: the first entry that matches, and the queue without it.
unfoldable pub take_match : Event → List EventInst → Option (EventInst × List EventInst)
take_match mask [] = none
take_match mask (e ∷ es) =
    let rest = take_match mask es in
    if match_mask e.event_inst mask
    then some (e, es)
    else elim rest [ none ↦ none | some r ↦ some (r.0, e ∷ r.1) ]

-- One round of FTBC_Poll_event past its checks.
unfoldable pub poll_queue : Event → ClientInfo → Option EventInst × ClientInfo
unfolding take_match
poll_queue mask c =
    if ltb 0 c.event_queue_size
    then elim (take_match mask c.event_queue) [
      | none ↦ (none, c)
      | some r ↦
          (some r.0, record c { event_queue = r.1; event_queue_size = c.event_queue_size - 1 })
    ]
    else (none, c)
