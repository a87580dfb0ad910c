-- ===== src/Client/Logging.antt =====
-- client/logging.go, and Pipe of client/client.go: logs are sent in batches over the pipe.
mod Batches
mod Tests
use magalix_agent.Prelude.{
  ℕ, zero, suc, ◌+◌, ◌-◌, String, Bool, true, false, Option, none, some, List, [], ◌∷◌, ◌++◌, Run,
  ok, ◌>>=◌, ltb, ◌==◌, length, if◌then◌else◌,
}
use magalix_agent.Value.{Value}
use magalix_agent.Client.Queue.{Package}
use magalix_agent.Client.Pipe.{Pipe, send}

pub record PacketLogItem : Type 0 where
  pub date : ℕ
  pub text : String

abbrev pub PacketLogs : Type 0
PacketLogs = List PacketLogItem

-- The readings of the clock by one call: for the item, for the expiry, by Send, and by Add twice.
pub record Clock : Type 0 where
  pub item : ℕ
  pub expiry : ℕ
  pub sent : ℕ
  pub created : ℕ
  pub now : ℕ

pub record Client : Type 0 where
  pub should_send_logs : Bool
  pub log_buffer : PacketLogs
  pub pipe : Pipe

abbrev pub log_batch_size : ℕ
log_batch_size = 5

-- Client.Pipe, of a pipe that is not nil: an error tells how many packets were dropped, which is what Send returned.
pub pipe_package : Pipe → Package → Clock → Run (Option ℕ × Pipe)
pipe_package p pack t = send p pack t.sent t.created t.now >>= λ q.
    let i = q.dropped - p.dropped in ok (if ltb 0 i then some i else none, q)

-- The package of a batch; times are in seconds. What is made of its data is an argument.
pub log_package : (PacketLogs → Value) → PacketLogs → ℕ → Package
log_package as_data payload now = record {
  kind = "logs";
  expiry_time = some (now + 600);
  expiry_count = 2;
  priority = 9;
  retry_limit = 4;
  retries = 0;
  index = some 0;
  time = 0;
  content = as_data payload;
}

-- flushLogs; Sync is the same.
pub flush_logs : (PacketLogs → Value) → Client → Clock → Run (Option ℕ × Client)
unfolding pipe_package log_package
flush_logs as_data c t = pipe_package c.pipe (log_package as_data c.log_buffer t.expiry) t >>= λ r.
    ok (r.0, record c { log_buffer = []; pipe = r.1 })

-- The part of Write that appends, and flushes a full buffer.
pub add_log : (PacketLogs → Value) → Client → String → Clock → Run (Option ℕ × Client)
unfolding flush_logs
add_log as_data c line t =
    let buffer = c.log_buffer ++ (record { date = t.item; text = line }) ∷ [] in
    let c' : Client = record c { log_buffer = buffer } in
    let flush = flush_logs as_data c' t in
    if length buffer == log_batch_size then flush else ok (none, c')

-- Write, which returns a number and an error.
pub write_log : (PacketLogs → Value) → Client → String → Clock → Run ((ℕ × Option ℕ) × Client)
unfolding add_log
write_log as_data c line t =
    let added = add_log as_data c line t >>= λ r. ok ((length r.1.log_buffer, r.0), r.1) in
    if c.should_send_logs then added else ok ((length c.log_buffer, none), c)

-- Calls of Write, one after another.
pub write_logs : (PacketLogs → Value) → Client → List (String × Clock) → Run Client
unfolding write_log
write_logs as_data c [] = ok c
write_logs as_data c ((line, t) ∷ later) =
    write_log as_data c line t >>= λ r. write_logs as_data r.1 later
