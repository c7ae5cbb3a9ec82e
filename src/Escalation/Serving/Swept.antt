-- ===== src/Escalation/Serving/Swept.antt =====
-- A sweep at the gateway, from the query to the event store.
use agroassure.Prelude.{ℕ, ◌+◌, true, Option, List, ◌++◌, ◌≡◌, refl, ◌∙◌, map, length, Text, []}
use agroassure.FieldStore.Refresh.{Distinct}
use agroassure.Hashing.{Platform}
use agroassure.Events.{DeviceEvent}
use agroassure.Appender.Appended.{Added}
use agroassure.Escalation.{due_findings, sweep}
use agroassure.Escalation.Settled.{row_id, outcome, sweep_settles}
use agroassure.Escalation.Serving.{Gateway, Draw, sweep_gateway, requests, notices}
use agroassure.Escalation.Serving.Carried.{Fresh, carried_out}
use agroassure.Escalation.Serving.Counted.{length-requests, length-Added, appends-sweep}

-- A sweep at the gateway ends, where each of its events has an id of its own and the ids of the
-- findings are distinct. Every finding that was due is then escalated where it is past its grace and
-- marked overdue where it is not, and every other one is as it was; the events of the sweep are
-- appended in their order, each with its hash and its place, as many as the sweep counts; the
-- notifications are added; and another sweep at the same time finds nothing to do.
pub sweep_gateway_lem :
    (p : Platform) (iso : ℕ → Text) (supervisor_of : Text → Option Text) (draws : ℕ → Draw)
    (now : ℕ) (g : Gateway)
    → Distinct row_id g.tables.findings
    → Fresh draws 0 g.server.store
    → (g' : Gateway) × (es : List DeviceEvent) × (sweep_gateway p iso supervisor_of draws now g
        ≡ (true, g'))
      × (g'.tables.findings ≡ map (outcome supervisor_of now) g.tables.findings)
      × (g'.server.store ≡ record (g.server.store) { events = g.server.store.events ++ es })
      × Added p g.server.clock g.server.store.events
          (requests iso draws 0 (sweep now (due_findings supervisor_of now g.tables)).0)
          es
          g'.server.clock
      × (length es
          ≡ (sweep now (due_findings supervisor_of now g.tables)).1.marked_overdue
            + (sweep now (due_findings supervisor_of now g.tables)).1.escalated)
      × (g'.notifications
          ≡ g.notifications ++ notices (sweep now (due_findings supervisor_of now g.tables)).0)
      × ((sweep now (due_findings supervisor_of now g'.tables)).0 ≡ [])
unfolding sweep_gateway
sweep_gateway_lem p iso supervisor_of draws now g distinct fresh =
    let actions = (sweep now (due_findings supervisor_of now g.tables)).0 in
    let (es, last, ran, added) = carried_out p iso draws 0 actions g fresh in
    let (settled, idle) = sweep_settles supervisor_of now g.tables distinct in
    (
      _,
      es,
      ran,
      settled,
      refl,
      added,
      length-Added p (requests iso draws 0 actions) es g.server.store.events g.server.clock last
            added
          ∙ length-requests iso draws 0 actions
          ∙ appends-sweep now (due_findings supervisor_of now g.tables),
      refl,
      idle,
    )
