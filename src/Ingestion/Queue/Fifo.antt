-- ===== src/Ingestion/Queue/Fifo.antt =====
-- ingestion/queue.rs as one first-in first-out list for each producer, served in turns.
use omarchy_harbormaster.Common.{
  ℕ, zero, suc, ◌+◌, ◌-◌, ◌≡◌, ◌≢◌, ◌⊎◌, refl, List, [], ◌∷◌, ◌++◌, Option, none, some, ◌==◌,
  length, if◌then◌else◌, arith, inl, inr, ap, subst,
}
use omarchy_harbormaster.Common.BTreeMap.{get, get-insert, get-remove}
use omarchy_harbormaster.Protocol.Identity.{ProducerId, ident_eq}
use omarchy_harbormaster.Protocol.Event.{EventEnvelope}
use omarchy_harbormaster.Ingestion.Queue.{Queue, pending, or_empty, push, take_event, pop, discard}
use omarchy_harbormaster.Ingestion.Queue.Invariant.{IsWellFormed}
use omarchy_harbormaster.Ingestion.Queue.Popping.{
  nothing, served, none_ready, pop-Pops, pop-IsWellFormed, pending-le-count,
}

-- `push` appends the event to its producer's list and to no other, and counts it.
pub pending-push :
    (q : Queue) (event : EventEnvelope) (producer : ProducerId)
    → (pending (push q event) producer ≡ (
        if event.producer_id == producer
        then pending q producer ++ event ∷ []
        else pending q producer))
      × ((push q event).count ≡ q.count + 1)
unfolding push
pending-push q event producer = (
  ground (
    arith,
    get-insert producer event.producer_id (pending q event.producer_id ++ event ∷ []) q.producers,
  ),
  refl,
)

-- `discard` empties its producer's list and no other, and returns how many events that held.
pub pending-discard :
    (q : Queue) (gone producer : ProducerId)
    → (pending (discard q gone).1 producer ≡ (if gone == producer then [] else pending q producer))
      × ((discard q gone).0 ≡ length (pending q gone))
unfolding discard
pending-discard q gone producer = (ground (arith, get-remove producer gone q.producers), refl)

pending-take_event :
    (q : Queue) (producer p : ProducerId) (event : EventEnvelope) (rest : List EventEnvelope)
    → pending (take_event q producer event rest) p ≡ (if producer == p then rest else pending q p)
unfolding take_event
pending-take_event q producer p event rest =
    ground (arith, get-insert p producer rest q.producers, get-remove p producer q.producers)

-- What a `pop` that returns `event` does to the lists.
pub record Takes (q : Queue) (event : EventEnvelope) (q' : Queue) : Type 0 where
  pub oldest : pending q event.producer_id ≡ event ∷ pending q' event.producer_id
  pub others : (p : ProducerId) → event.producer_id ≢ p → pending q' p ≡ pending q p
  pub counted : q.count ≡ q'.count + 1

take_event-Takes :
    (q : Queue) (producer : ProducerId) (ready : List ProducerId) (event : EventEnvelope)
    (rest : List EventEnvelope)
    → IsWellFormed q
    → get producer q.producers ≡ some (event ∷ rest)
    → Takes q event (take_event (record q { ready = ready }) producer event rest)
take_event-Takes q producer ready event rest w held =
    let q0 : Queue = record q { ready = ready } in
    let mine : event.producer_id ≡ producer = ground (arith, w.waiting producer, held) in
    record {
      oldest =
          ground (arith, pending-take_event q0 producer event.producer_id event rest, mine, held);
      others = λ p n. ground (arith, pending-take_event q0 producer p event rest, mine);
      counted =
          unfold take_event in
          omega (arith, pending-le-count q producer w, ap (λ o. length (or_empty o)) held);
    }

-- On a well-formed queue `pop` returns nothing exactly when nothing is counted, and leaves the
-- queue as it is; otherwise it takes the oldest event of one producer, and changes no other list.
pub pop_fifo :
    (q : Queue)
    → IsWellFormed q
    → ((q.count ≡ 0) × (pop q ≡ (none, q)))
      ⊎ ((event : EventEnvelope) × (q' : Queue) × (pop q ≡ (some event, q')) × Takes q event q')
pop_fifo q w = elim (pop-Pops q w) [
  | nothing first e ↦ inl (none_ready q w first, e)
  | served producer ready event rest first held e ↦ inr (
    event,
    take_event (record q { ready = ready }) producer event rest,
    e,
    take_event-Takes q producer ready event rest w held,
  )
]

-- How many producers are served before `producer`.
unfoldable pub turn : List ProducerId → ProducerId → Option ℕ
turn [] producer = none
turn (id ∷ ids) producer =
    if id == producer
    then some 0
    else elim (turn ids producer) [ none ↦ none | some n ↦ some (suc n) ]

-- The queue after `n` calls of `pop`.
abbrev pub pop_times : ℕ → Queue → Queue
pop_times zero q = q
pop_times (suc n) q = pop_times n (pop q).1

turn-snoc :
    (ids : List ProducerId) (a producer : ProducerId) (n : ℕ)
    → turn ids producer ≡ some n
    → turn (ids ++ a ∷ []) producer ≡ some n
unfolding turn
turn-snoc [] a producer n h = cc
turn-snoc (x ∷ xs) a producer n h = ground (arith, turn-snoc xs a producer (n - 1))

turn_none : (q : Queue) (p : ProducerId) (n : ℕ) → q.ready ≡ [] → turn q.ready p ≡ some n → ⊥
unfolding turn
turn_none q p n first t = ground (arith, ap (λ ids. turn ids p) first)

turn_first :
    (q : Queue) (producer p : ProducerId) (ready : List ProducerId)
    → q.ready ≡ producer ∷ ready
    → turn q.ready p ≡ some 0
    → producer ≡ p
unfolding turn
turn_first q producer p ready first t = ground (arith, ap (λ ids. turn ids p) first)

turn_later :
    (q : Queue) (producer p : ProducerId) (ready : List ProducerId) (n : ℕ)
    → q.ready ≡ producer ∷ ready
    → turn q.ready p ≡ some (suc n)
    → (turn ready p ≡ some n) × (producer ≢ p)
unfolding turn
turn_later q producer p ready n first t = ground (arith, ap (λ ids. turn ids p) first)

turn-take_event :
    (q : Queue) (producer p : ProducerId) (event : EventEnvelope) (rest : List EventEnvelope)
    (n : ℕ)
    → turn q.ready p ≡ some n
    → turn (take_event q producer event rest).ready p ≡ some n
unfolding take_event
turn-take_event q producer p event rest n t = ground (arith, turn-snoc q.ready producer p n t)

-- A producer whose turn is `n` rounds away is served by the pop after the next `n`, with the event
-- that is its oldest now.
pub served_in_turn :
    (n : ℕ) (q : Queue) (producer : ProducerId)
    → IsWellFormed q
    → turn q.ready producer ≡ some n
    → (event : EventEnvelope) × (rest : List EventEnvelope) × (pending q producer ≡ event ∷ rest)
      × ((pop (pop_times n q)).0 ≡ some event)
served_in_turn zero q p w t = elim (pop-Pops q w) [
  | nothing first e ↦ absurd (turn_none q p 0 first t)
  | served producer ready event rest first held e ↦
      let mine = turn_first q producer p ready first t in
      (event, rest, ground (arith, mine, held), ap (λ r. r.0) e)
]
served_in_turn (suc n) q p w t = elim (pop-Pops q w) [
  | nothing first e ↦ absurd (turn_none q p (suc n) first t)
  | served producer ready event rest first held e ↦
      let later = turn_later q producer p ready n first t in
      let q0 : Queue = record q { ready = ready } in
      let q' = take_event q0 producer event rest in
      let after : (pop q).1 ≡ q' = ap (λ r. r.1) e in
      let ih =
        served_in_turn n q' p (subst IsWellFormed after (pop-IsWellFormed q w))
          (turn-take_event q0 producer p event rest n later.0) in
      let same = pending-take_event q0 producer p event rest in
      (ih.0, ih.1, ground (arith, same, later.1, ih.2), rw after ih.3)
]
