-- ===== src/Client/Logging/Tests.antt =====
-- The theorem at six logs, of which five make a batch.
use magalix_agent.Prelude.{String, none, refl, true, List, [], ◌∷◌, arith, Returns, map}
use magalix_agent.Value.{Value, null, text, array, Elements, no_element, element}
use magalix_agent.Client.Queue.{Memory}
use magalix_agent.Client.Pipe.{new_pipe}
use magalix_agent.Client.Pipe.Sound.{new_pipe-IsSound}
use magalix_agent.Client.Logging.{PacketLogs, Clock, Client, write_logs}
use magalix_agent.Client.Logging.Batches.{item_of, IsBatched, IsLonger, write_logs-IsLonger}

abbrev mem : Memory
mem = λ p. record {
  kind = "logs";
  expiry_time = none;
  expiry_count = 0;
  priority = 0;
  retry_limit = 0;
  retries = 0;
  index = none;
  time = 0;
  content = null;
}

abbrev client : Client
client = record { should_send_logs = true; log_buffer = []; pipe = new_pipe mem 1 }

client-IsBatched : IsBatched client
client-IsBatched = record { short = omega arith; sound = new_pipe-IsSound mem 1 }

abbrev clock : Clock
clock = record { item = 1; expiry = 2; sent = 3; created = 4; now = 5 }

abbrev calls : List (String × Clock)
calls = ("a", clock) ∷ ("b", clock) ∷ ("c", clock) ∷ ("d", clock) ∷ ("e", clock) ∷ ("f", clock) ∷ []

-- The texts of the logs, as an array.
elements : PacketLogs → Elements
elements [] = no_element
elements (l ∷ ls) = element (text l.text) (elements ls)

abbrev as_data : PacketLogs → Value
as_data logs = array (elements logs)

write_logs-IsLonger_example :
    Returns (IsLonger as_data client (map item_of calls)) (write_logs as_data client calls)
write_logs-IsLonger_example = write_logs-IsLonger as_data client calls refl client-IsBatched
