-- ===== src/Ingestion/Queue.antt =====
-- crates/harbormaster/src/ingestion/queue.rs: bounded round-robin queues, one for each producer.
-- The proofs are in the modules below.
pub mod Invariant
pub mod Popping
pub mod Fifo
pub mod Capacity
use omarchy_harbormaster.Common.{
  ℕ, ◌+◌, ◌-◌, Bool, true, false, not, ◌&&◌, List, [], ◌∷◌, ◌++◌, Option, none, some, ◌==◌, ltb,
  length, if◌then◌else◌,
}
use omarchy_harbormaster.Common.BTreeMap
use omarchy_harbormaster.Common.BTreeMap.{BTreeMap, get, insert, remove}
use omarchy_harbormaster.Protocol.Identity.{ProducerId, ident_eq}
use omarchy_harbormaster.Protocol.Event.{EventEnvelope}
use omarchy_harbormaster.Ingestion.{max_queued, max_producer_queued}

pub record Queue : Type 0 where
  pub producers : BTreeMap ProducerId (List EventEnvelope)
  pub ready : List ProducerId
  pub count : ℕ

-- `Queue::default`
abbrev pub empty : Queue
empty = record { producers = BTreeMap.empty; ready = []; count = 0 }

abbrev pub or_empty : Option (List EventEnvelope) → List EventEnvelope
or_empty none = []
or_empty (some events) = events

-- What waits for a producer, oldest first.
abbrev pub pending : Queue → ProducerId → List EventEnvelope
pending q producer = or_empty (get producer q.producers)

unfoldable pub has_room : Queue → ProducerId → Bool
has_room q producer =
    ltb q.count max_queued && ltb (length (pending q producer)) max_producer_queued

abbrev pub is_empty {ℓ} : {A : Type ℓ} → List A → Bool
is_empty [] = true
is_empty (x ∷ xs) = false

unfoldable pub push : Queue → EventEnvelope → Queue
push q event =
    let producer : ProducerId = event.producer_id in
    let queue : List EventEnvelope = pending q producer in
    record {
      producers = insert producer (queue ++ event ∷ []) q.producers;
      ready = if is_empty queue then q.ready ++ producer ∷ [] else q.ready;
      count = q.count + 1;
    }

-- The part of `pop` behind its three early returns.
unfoldable pub take_event : Queue → ProducerId → EventEnvelope → List EventEnvelope → Queue
take_event q producer event rest = record {
  producers =
      if is_empty rest then remove producer q.producers else insert producer rest q.producers;
  ready = if is_empty rest then q.ready else q.ready ++ producer ∷ [];
  count = q.count - 1;
}

-- `pop` once `producer` has left `ready`. A missing or an empty queue returns early, and the
-- producer stays off `ready`.
unfoldable pub pop_from :
    Queue → ProducerId → Option (List EventEnvelope) → Option EventEnvelope × Queue
pop_from q producer none = (none, q)
pop_from q producer (some []) = (none, q)
pop_from q producer (some (event ∷ rest)) = (some event, take_event q producer event rest)

unfoldable pub pop_ready : Queue → List ProducerId → Option EventEnvelope × Queue
pop_ready q [] = (none, q)
pop_ready q (producer ∷ ready) =
    pop_from (record q { ready = ready }) producer (get producer q.producers)

unfoldable pub pop : Queue → Option EventEnvelope × Queue
pop q = pop_ready q q.ready

-- `VecDeque::retain(|id| id != producer)`
unfoldable pub retain_other : ProducerId → List ProducerId → List ProducerId
retain_other producer [] = []
retain_other producer (id ∷ ids) =
    let rest = retain_other producer ids in if id == producer then rest else id ∷ rest

unfoldable pub discard : Queue → ProducerId → ℕ × Queue
discard q producer =
    let removed : ℕ = length (pending q producer) in
    (
      removed,
      record {
        producers = remove producer q.producers;
        ready = retain_other producer q.ready;
        count = q.count - removed;
      },
    )
