-- ===== src/Server/Resume.antt =====
-- `resume_delivery` of src/server/connection/delivery.rs: what a resumed session is sent.
use rusquitto.Base.{ℕ, true, false, Option, none, some, List, [], ◌∷◌, ◌++◌}
use rusquitto.Base.Assoc.{Assoc}
use rusquitto.Broker.Messages.{
  Publish, InflightState, qos1, qos2_pending, qos2_released, InflightMessage, Delivery,
}
use rusquitto.Server.Connection.{deliver}
use rusquitto.Server.Packets.{pub_rel, encoding, Outcome, ok, err}
use rusquitto.Server.Inbound.{Surroundings, Here, and_then, send}

module _ (env : Surroundings) where
  abbrev pub resend_publish : ℕ → Publish → Here env → Here env × Outcome
  resend_publish pkid p c = elim (env.write (record p { pkid = pkid; dup = true })) [
    | none ↦ (c, err encoding)
    | some b ↦ (record c { conn = record c.conn { outbound = c.conn.outbound ++ b } }, ok)
  ]

  abbrev pub resend : ℕ → Publish → InflightState → Here env → Here env × Outcome
  resend pkid p qos1 c = resend_publish pkid p c
  resend pkid p qos2_pending c = resend_publish pkid p c
  resend pkid p qos2_released c = send env (pub_rel pkid) c

  -- The loop over the messages in flight.
  unfoldable pub retransmit : Assoc ℕ InflightMessage → Here env → Here env × Outcome
  retransmit [] c = (c, ok)
  retransmit ((pkid, entry) ∷ m) c =
      and_then (resend pkid entry.publish entry.state c) (λ c. retransmit m c)

  -- The loop over the offline queue; `none` stands for a delivery that never returns.
  unfoldable pub deliver_all : List Delivery → Here env → Option (Here env × Outcome)
  deliver_all [] c = some (c, ok)
  deliver_all (d ∷ ds) c = elim (deliver env.write c.conn d) [
    | none ↦ none
    | some (conn, true) ↦ deliver_all ds (record c { conn = conn })
    | some (conn, false) ↦ some (record c { conn = conn }, err encoding)
  ]

  abbrev pub deliver_after : List Delivery → Here env × Outcome → Option (Here env × Outcome)
  deliver_after queue (c, ok) = deliver_all queue c
  deliver_after queue (c, err e) = some (c, err e)

  unfoldable pub resume_delivery : List Delivery → Here env → Option (Here env × Outcome)
  resume_delivery queue c = deliver_after queue (retransmit c.conn.inflight c)
