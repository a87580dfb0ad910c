-- ===== src/Client/Session/Sent.antt =====
-- What send does to the client, and when it succeeds.
use magalix_agent.Prelude.{ℕ, ◌+◌, ◌≡◌, ◌⊎◌, inl, inr, refl, String}
use magalix_agent.Proto.Connect.{Bytes, Request}
use magalix_agent.Client.Session.{Error, Result, done, fails, Gateway, Client, send}

pub Result-cases :
    {A : Type 0} (r : Result A) → ((a : A) × (r ≡ done a)) ⊎ ((e : Error) × (r ≡ fails e))
Result-cases (done a) = inl (a, refl)
Result-cases (fails e) = inr (e, refl)

-- The client after a call of send at that time.
abbrev pub after : Client → ℕ → Client
after c t = record c { calls = c.calls + 1; last_sent = t }

module _ {Out : Type 0} (gw : Gateway) (kind : String) (packet : Request)
    (decode : Bytes → Result Out) (c : Client) where
  -- The gateway answered the packet with a result that decodes.
  pub record IsExchanged (v : Out) : Type 0 where
    pub request : Bytes
    pub response : Bytes
    pub encoded : gw.encode packet ≡ done request
    pub answered : gw.exchange c.calls kind request ≡ done response
    pub decoded : decode response ≡ done v

  pub send-after : (t : ℕ) × ((send gw kind packet decode c).1 ≡ after c t)
  unfolding send
  send-after = elim (Result-cases (gw.encode packet)) [
    | inr (e, same) ↦ (c.last_sent, rw (send, same) refl)
    | inl (req, same) ↦ elim (Result-cases (gw.exchange c.calls kind req)) [
      | inr (e, same') ↦ (c.last_sent, rw (send, same, same') refl)
      | inl (res, same') ↦ (gw.clock c.calls, rw (send, same, same') refl)
    ]
  ]

  pub send-IsExchanged : (v : Out) → (send gw kind packet decode c).0 ≡ done v → IsExchanged v
  unfolding send
  send-IsExchanged v h = elim (Result-cases (gw.encode packet)) [
    | inr (e, same) ↦ let h' : fails e ≡ done v = rw (send, same) at h in absurd (cc h')
    | inl (req, same) ↦ elim (Result-cases (gw.exchange c.calls kind req)) [
      | inr (e, same') ↦ let h' : fails e ≡ done v = rw (send, same, same') at h in absurd (cc h')
      | inl (res, same') ↦ record {
        request = req;
        response = res;
        encoded = same;
        answered = same';
        decoded = rw (send, same, same') at h;
      }
    ]
  ]
