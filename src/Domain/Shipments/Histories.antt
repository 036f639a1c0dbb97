-- ===== src/Domain/Shipments/Histories.antt =====
-- What `status_after_event` allows over a whole history of events.
use supply_chain_integration.Base.{
  ◌≡◌, ◌≢◌, refl, sym, ◌∙◌, ◌↔◌, Bool, true, false, List, [], ◌∷◌, ◌++◌, All, arith,
}
use supply_chain_integration.Domain.Enums.{ShipmentStatus, ShipmentEventType, is_picked_up}
use supply_chain_integration.Domain.Errors.{
  Result, ok, err, domain_validation, ◌>>=◌, >>=-returns, >>=_cong, >>=_assoc,
}
use supply_chain_integration.Domain.Shipments.{status_after_event}

-- The status that is named like the event.
abbrev pub named_status : ShipmentEventType → ShipmentStatus
named_status ShipmentEventType.picked_up = ShipmentStatus.picked_up
named_status ShipmentEventType.in_transit = ShipmentStatus.in_transit
named_status ShipmentEventType.delayed = ShipmentStatus.delayed
named_status ShipmentEventType.delivered = ShipmentStatus.delivered
named_status ShipmentEventType.cancelled = ShipmentStatus.cancelled

abbrev pub is_terminal : ShipmentStatus → Bool
is_terminal ShipmentStatus.delivered = true
is_terminal ShipmentStatus.cancelled = true
is_terminal s = false

abbrev pub IsTerminal : ShipmentStatus → Type 0
IsTerminal s = is_terminal s ≡ true

-- The events of a shipment in the order in which they were accepted, from a given status.
unfoldable pub replay : ShipmentStatus → List ShipmentEventType → Result ShipmentStatus
replay s [] = ok s
replay s (e ∷ es) = status_after_event s e >>= λ t. replay t es

-- An accepted event leads to the status that is named like it.
pub status_after_event-eq-named :
    (s : ShipmentStatus) (e : ShipmentEventType) (t : ShipmentStatus)
    → status_after_event s e ≡ ok t
    → t ≡ named_status e
unfolding status_after_event
status_after_event-eq-named s e t h = ground arith

-- A delivered or cancelled shipment takes no event at all.
pub status_after_event_terminal :
    (s : ShipmentStatus) (e : ShipmentEventType)
    → IsTerminal s
    → status_after_event s e ≡ err domain_validation
unfolding status_after_event
status_after_event_terminal s e h = ground arith

-- A shipment can be cancelled exactly while it is neither delivered nor cancelled.
pub status_after_event-cancelled_iff :
    (s : ShipmentStatus)
    → (status_after_event s ShipmentEventType.cancelled ≡ ok ShipmentStatus.cancelled)
      ↔ (is_terminal s ≡ false)
unfolding status_after_event
status_after_event-cancelled_iff s = ground arith

-- After any accepted event a shipment is no longer planned.
leaves_planned :
    (s : ShipmentStatus) (e : ShipmentEventType) (t : ShipmentStatus)
    → status_after_event s e ≡ ok t
    → t ≢ ShipmentStatus.planned
unfolding status_after_event
leaves_planned s e t h = ground arith

picked_up_needs_planned :
    (s t : ShipmentStatus)
    → status_after_event s ShipmentEventType.picked_up ≡ ok t
    → s ≡ ShipmentStatus.planned
unfolding status_after_event
picked_up_needs_planned s t h = ground arith

pub replay-append :
    (s : ShipmentStatus) (xs ys : List ShipmentEventType)
    → replay s (xs ++ ys) ≡ (replay s xs >>= λ t. replay t ys)
unfolding replay
replay-append s [] ys = refl
replay-append s (e ∷ xs) ys =
    >>=_cong _ _ (λ t. replay-append t xs ys) (status_after_event s e)
    ∙ sym (>>=_assoc (λ t. replay t xs) (λ t. replay t ys) (status_after_event s e))

-- In an accepted history the status is named like the last event.
pub replay-last :
    (s t : ShipmentStatus) (es : List ShipmentEventType) (e : ShipmentEventType)
    → replay s (es ++ e ∷ []) ≡ ok t
    → t ≡ named_status e
unfolding replay
replay-last s t [] e h =
    let (u, accepted, rest) = >>=-returns t (λ u. ok u) (status_after_event s e) h in
    status_after_event-eq-named s e t (cc)
replay-last s t (x ∷ es) e h =
    let (u, accepted, rest) =
      >>=-returns t (λ u. replay u (es ++ e ∷ [])) (status_after_event s x) h in
    replay-last u t es e rest

not_picked_up :
    (s t : ShipmentStatus) (es : List ShipmentEventType)
    → s ≢ ShipmentStatus.planned
    → replay s es ≡ ok t
    → All (λ e. is_picked_up e ≡ false) es
unfolding replay
not_picked_up s t [] left h = tt
not_picked_up s t (e ∷ es) left h =
    let (u, accepted, rest) = >>=-returns t (λ u. replay u es) (status_after_event s e) h in
    (
      ground (arith, picked_up_needs_planned s u),
      not_picked_up u t es (leaves_planned s e u accepted) rest,
    )

-- A pick-up can only be the first event of a history: no later event of an accepted history, from
-- whatever status, is a pick-up.
pub replay-picked_up_first :
    (s t : ShipmentStatus) (e : ShipmentEventType) (es : List ShipmentEventType)
    → replay s (e ∷ es) ≡ ok t
    → All (λ x. is_picked_up x ≡ false) es
unfolding replay
replay-picked_up_first s t e es h =
    let (u, accepted, rest) = >>=-returns t (λ u. replay u es) (status_after_event s e) h in
    not_picked_up u t es (leaves_planned s e u accepted) rest

stops :
    (s t : ShipmentStatus) (es : List ShipmentEventType)
    → IsTerminal s
    → replay s es ≡ ok t
    → es ≡ []
unfolding replay
stops s t [] terminal h = refl
stops s t (e ∷ es) terminal h = absurd (cc (h, status_after_event_terminal s e terminal))

-- A delivery or a cancellation can only be the last event: whatever follows it in an accepted
-- history is empty.
pub replay-terminal_last :
    (s t : ShipmentStatus) (es : List ShipmentEventType) (e : ShipmentEventType)
    (later : List ShipmentEventType)
    → replay s (es ++ e ∷ later) ≡ ok t
    → IsTerminal (named_status e)
    → later ≡ []
unfolding replay
replay-terminal_last s t [] e later h terminal =
    let (u, accepted, rest) = >>=-returns t (λ u. replay u later) (status_after_event s e) h in
    stops u t later (rw (status_after_event-eq-named s e u accepted) terminal) rest
replay-terminal_last s t (x ∷ es) e later h terminal =
    let (u, accepted, rest) =
      >>=-returns t (λ u. replay u (es ++ e ∷ later)) (status_after_event s x) h in
    replay-terminal_last u t es e later rest terminal
