-- ===== src/Tests/Library.antt =====
-- The theorems on the strings, tables and queues of the client library at concrete inputs.
use ftb.Prelude.{refl, List, [], ◌∷◌, arith}
use ftb.Text.{Str, codes, strcasecmp, strcmp, to_lower}
use ftb.Map
use ftb.Auxil.{is_word, check_alphanumeric_underscore_format}
use ftb.Client.Splitting.{IsNamespace}
use ftb.Client.Declared.{
  EventInfo, Declared, store_declared_events, is_bad_name, check_severity_values,
}
use ftb.Client.Declaring.{IsTable, IsStored, store_declared_events-IsStored}
use ftb.Client.Polling.{EventInst, ClientInfo, poll_queue}
use ftb.Client.Queueing.{
  IsBounded, Pushed, IsPolled, push_to_comp_polling_list-Pushed, poll_queue-IsPolled,
}
use ftb.Client.Filter.{parse_subscription_string}
use ftb.Client.Fitting.{IsParsed, parse_subscription_string-IsParsed}
use ftb.Tests.{here, client, boom, fail}

abbrev pub space : Str
space = codes "FTB.MPI.MPICH"

pub space-IsNamespace : IsNamespace space (codes "FTB") (codes "MPI") (codes "MPICH")
unfolding strcmp check_alphanumeric_underscore_format is_word
space-IsNamespace = record {
  parts = refl;
  fits = omega arith;
  region = refl;
  category = refl;
  component = refl;
}

abbrev event_info : Str → EventInfo
event_info name = record { event_name = name; severity = codes "info" }

abbrev declared : Declared
declared = record { declared_events_map = event_info (codes "BOOM") ∷ []; total_publish_events = 1 }

declared-IsTable : IsTable declared
unfolding Map.find_key is_bad_name check_severity_values check_alphanumeric_underscore_format
    is_word strcasecmp to_lower
declared-IsTable = record {
  count = refl;
  bound = omega arith;
  distinct = (refl, tt);
  fit = ((refl, refl), tt);
}

-- A new name, one that is there, and a third that is lost.
abbrev table : List EventInfo
table = event_info (codes "FAIL") ∷ event_info (codes "boom") ∷ event_info (codes "LAST") ∷ []

store_declared_events-IsStored_example :
    IsTable (store_declared_events table declared).1
    × IsStored table declared
        (store_declared_events table declared).1
        (store_declared_events table declared).0
store_declared_events-IsStored_example =
    store_declared_events-IsStored table declared declared-IsTable

abbrev inst : EventInst
inst = record { event_inst = boom; src = client here }

-- A polling client whose queue is full.
abbrev full_queue : ClientInfo
full_queue = record {
  subscription_type = 1;
  max_polling_queue_len = 1;
  event_queue_size = 1;
  event_queue = inst ∷ [];
}

full_queue-IsBounded : IsBounded full_queue
full_queue-IsBounded = record { size = refl; bound = omega arith; room = omega arith }

push_to_comp_polling_list-Pushed_example : Pushed inst full_queue
push_to_comp_polling_list-Pushed_example =
    push_to_comp_polling_list-Pushed inst full_queue full_queue-IsBounded refl

poll_queue-IsPolled_example : IsPolled fail full_queue (poll_queue fail full_queue)
poll_queue-IsPolled_example = poll_queue-IsPolled fail full_queue full_queue-IsBounded

parse_subscription_string-IsParsed_example :
    IsParsed
      (codes "severity=fatal, jobid=7")
      (parse_subscription_string (codes "severity=fatal, jobid=7") boom)
parse_subscription_string-IsParsed_example =
    parse_subscription_string-IsParsed (codes "severity=fatal, jobid=7") boom
