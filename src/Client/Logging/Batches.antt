-- ===== src/Client/Logging/Batches.antt =====
-- The logs go to the pipe in full batches, in order.
use magalix_agent.Prelude.{
  append_assoc, append-nil, ℕ, ◌<◌, ◌≡◌, refl, sym, ap, ◌∙◌, String, true, Option, none, some, List,
  [], ◌∷◌, ◌++◌, ok, ◌>>=◌, ◌+◌, arith, ◌==◌, length, length-append, map, All, All-append, Returns,
  Returns-eq, Returns-map, Bool-cases, inl, inr, if◌then◌else◌,
}
use magalix_agent.Value.{Value}
use magalix_agent.Client.Queue.{Package}
use magalix_agent.Client.Pipe.{Pipe, send}
use magalix_agent.Client.Pipe.Sound.{IsSound, send-IsSound}
use magalix_agent.Client.Logging.{
  PacketLogItem, PacketLogs, Clock, Client, log_batch_size, pipe_package, log_package, flush_logs,
  add_log, write_log, write_logs,
}

-- The item that a call of Write is to log.
abbrev pub item_of : String × Clock → PacketLogItem
item_of (line, t) = record { date = t.item; text = line }

-- All items of some batches, in order.
abbrev pub items_of : List PacketLogs → PacketLogs
items_of [] = []
items_of (b ∷ bs) = b ++ items_of bs

items_of-append : (bs cs : List PacketLogs) → items_of (bs ++ cs) ≡ items_of bs ++ items_of cs
items_of-append [] cs = refl
items_of-append (b ∷ bs) cs =
    ap (λ l. b ++ l) (items_of-append bs cs) ∙ sym (append_assoc b (items_of bs) (items_of cs))

-- Every batch has been given to the pipe `p`, in a package of its own with just its items, and left the pipe `q`.
pub data IsPiped (as_data : PacketLogs → Value) : Pipe → List PacketLogs → Pipe → Type 0 where
  no_batch : (p : Pipe) → IsPiped as_data p [] p
  one_batch :
      (p p' q : Pipe) (b : PacketLogs) (bs : List PacketLogs) (pack : Package)
      (expiry sent created now : ℕ)
      → pack.content ≡ as_data b
      → pack.kind ≡ "logs"
      → pack.expiry_time ≡ some (expiry + 600)
      → send p pack sent created now ≡ ok p'
      → IsPiped as_data p' bs q
      → IsPiped as_data p (b ∷ bs) q

IsPiped-append :
    (as_data : PacketLogs → Value) (p q r : Pipe) (bs cs : List PacketLogs)
    → IsPiped as_data p bs q
    → IsPiped as_data q cs r
    → IsPiped as_data p (bs ++ cs) r
IsPiped-append as_data p q r bs cs (no_batch _) k = k
IsPiped-append as_data p q r bs cs
      (one_batch _ p' _ b bs' pack expiry sent created now content kind time e h) k =
    one_batch p p' r b (bs' ++ cs) pack expiry sent created now content kind time e
      (IsPiped-append as_data p' q r bs' cs h k)

-- The buffer is no full batch, and the pipe is in order.
pub record IsBatched (c : Client) : Type 0 where
  pub short : length c.log_buffer < log_batch_size
  pub sound : IsSound c.pipe

-- `d` is `c` after more logs: full batches went to the pipe, and they and the buffer hold what the
-- buffer of `c` held and then the new logs.
pub record IsLonger (as_data : PacketLogs → Value) (c : Client) (more : PacketLogs) (d : Client)
    : Type 0 where
  pub batched : IsBatched d
  pub sends : d.should_send_logs ≡ c.should_send_logs
  pub batches : List PacketLogs
  pub full : All (λ b. length b ≡ log_batch_size) batches
  pub order : items_of batches ++ d.log_buffer ≡ c.log_buffer ++ more
  pub piped : IsPiped as_data c.pipe batches d.pipe

module _ (as_data : PacketLogs → Value) where
  add_log-IsLonger :
      (c : Client) (line : String) (t : Clock)
      → IsBatched c
      → Returns (λ r. IsLonger as_data c (item_of (line, t) ∷ []) r.1) (add_log as_data c line t)
  unfolding add_log flush_logs pipe_package log_package
  add_log-IsLonger c line t b =
      let item = item_of (line, t) in
      let buffer = c.log_buffer ++ item ∷ [] in
      let size = length-append c.log_buffer (item ∷ []) in
      elim (Bool-cases (length buffer == log_batch_size)) [
        | inr more ↦ rw more (record {
          batched = record { short = ground (arith, size, b.short); sound = b.sound };
          sends = refl;
          batches = [];
          full = tt;
          order = refl;
          piped = no_batch c.pipe;
        })
        | inl done ↦
            let pack = log_package as_data buffer t.expiry in
            let (q, e, sound) =
              Returns-eq (send c.pipe pack t.sent t.created t.now)
                (send-IsSound c.pipe b.sound pack t.sent t.created t.now) in
            rw (done, e)
              (record {
                batched = record { short = omega arith; sound = sound };
                sends = refl;
                batches = buffer ∷ [];
                full = (ground (arith, done), tt);
                order = append-nil _ ∙ append-nil _;
                piped =
                    one_batch c.pipe q q buffer [] pack t.expiry t.sent t.created t.now refl refl
                      refl e (no_batch q);
              })
      ]

  IsLonger-trans :
      (c d d' : Client) (a b : PacketLogs)
      → IsLonger as_data c a d
      → IsLonger as_data d b d'
      → IsLonger as_data c (a ++ b) d'
  IsLonger-trans c d d' a b x y = record {
    batched = y.batched;
    sends = y.sends ∙ x.sends;
    batches = x.batches ++ y.batches;
    full = All-append _ x.batches y.batches x.full y.full;
    order =
        ap (λ l. l ++ d'.log_buffer) (items_of-append x.batches y.batches)
        ∙ append_assoc (items_of x.batches) (items_of y.batches) d'.log_buffer
        ∙ ap (λ l. items_of x.batches ++ l) y.order
        ∙ sym (append_assoc (items_of x.batches) d.log_buffer b)
        ∙ ap (λ l. l ++ b) x.order
        ∙ append_assoc c.log_buffer a b;
    piped = IsPiped-append as_data c.pipe d.pipe d'.pipe x.batches y.batches x.piped y.piped;
  }

  write_log-ok :
      (c : Client) (line : String) (t : Clock) (r : Option ℕ × Client)
      → c.should_send_logs ≡ true
      → add_log as_data c line t ≡ ok r
      → write_log as_data c line t ≡ ok ((length r.1.log_buffer, r.0), r.1)
  unfolding write_log
  write_log-ok c line t r on e =
      let number = λ (r : Option ℕ × Client). ok ((length r.1.log_buffer, r.0), r.1) in
      ap
        (λ b.
          if b then (add_log as_data c line t >>= number) else ok ((length c.log_buffer, none), c))
        on
      ∙ ap (λ a. a >>= number) e

  -- Calls of Write by a client that sends logs return. Full batches go to the pipe, each as the payload of
  -- a package of its own; these batches and then the buffer hold what the buffer held and then a log of each call with its time, in the
  -- order of the calls, and the buffer is no full batch. The pipe stays sound.
  pub write_logs-IsLonger :
      (c : Client) (calls : List (String × Clock))
      → c.should_send_logs ≡ true
      → IsBatched c
      → Returns (IsLonger as_data c (map item_of calls)) (write_logs as_data c calls)
  unfolding write_logs
  write_logs-IsLonger c [] on b = record {
    batched = b;
    sends = refl;
    batches = [];
    full = tt;
    order = sym (append-nil c.log_buffer);
    piped = no_batch c.pipe;
  }
  write_logs-IsLonger c ((line, t) ∷ later) on b =
      let (r, e, x) = Returns-eq (add_log as_data c line t) (add_log-IsLonger c line t b) in
      rw (write_log-ok c line t r on e) (
        Returns-map {P = IsLonger as_data r.1 (map item_of later)} _ (write_logs as_data r.1 later)
          (write_logs-IsLonger r.1 later (x.sends ∙ on) x.batched)
          λ d y. IsLonger-trans c r.1 d (item_of (line, t) ∷ []) (map item_of later) x y)
