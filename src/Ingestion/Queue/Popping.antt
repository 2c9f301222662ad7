-- ===== src/Ingestion/Queue/Popping.antt =====
-- `pop` and `discard` of ingestion/queue.rs keep its bookkeeping.
use omarchy_harbormaster.Common.{
  ◌≤◌, ◌≡◌, refl, ap, ◌∙◌, true, false, List, [], ◌∷◌, Option, none, some, length, arith,
}
use omarchy_harbormaster.Common.BTreeMap.{
  BTreeMap, get, total, contains_key, get-remove, is_some, total-remove, remove-NodupKeys,
  weight-le-total,
}
use omarchy_harbormaster.Protocol.Identity.{ProducerId, ident_eq}
use omarchy_harbormaster.Protocol.Event.{EventEnvelope}
use omarchy_harbormaster.Ingestion.Queue.{
  Queue, pending, take_event, pop_from, pop_ready, pop, discard,
}
use omarchy_harbormaster.Ingestion.Queue.Invariant.{
  take_event-IsWellFormed, IsWellFormed, Waits, contains-retain_other, retain_other-Distinct,
  weight-pending,
}

-- A well-formed queue serves its first ready producer, and is empty where none is ready.
pub data Pops (q : Queue) : Type 0 where
  nothing : q.ready ≡ [] → pop q ≡ (none, q) → Pops q
  served :
      (producer : ProducerId) (ready : List ProducerId) (event : EventEnvelope)
      (rest : List EventEnvelope)
      → q.ready ≡ producer ∷ ready
      → get producer q.producers ≡ some (event ∷ rest)
      → pop q ≡ (some event, take_event (record q { ready = ready }) producer event rest)
      → Pops q

pop_held :
    (q : Queue) (producer : ProducerId) (ready : List ProducerId)
    (waiting : Option (List EventEnvelope))
    → q.ready ≡ producer ∷ ready
    → get producer q.producers ≡ waiting
    → Waits producer waiting
    → is_some waiting ≡ true
    → Pops q
unfolding pop pop_ready pop_from
pop_held q producer ready none first held w s = cc
pop_held q producer ready (some []) first held w s = absurd w
pop_held q producer ready (some (event ∷ rest)) first held w s =
    served producer ready event rest first held
      (rw (first, pop, pop_ready) (rw (held, pop_from) refl))

pop_ready-Pops : (q : Queue) (ready : List ProducerId) → IsWellFormed q → q.ready ≡ ready → Pops q
unfolding pop pop_ready
pop_ready-Pops q [] w first = nothing first (ap (pop_ready q) first)
pop_ready-Pops q (producer ∷ ready) w first =
    pop_held q producer ready (get producer q.producers) first refl (w.waiting producer)
      (ground (arith, w.ready_keys producer, first))

pub pop-Pops : (q : Queue) → IsWellFormed q → Pops q
pop-Pops q w = pop_ready-Pops q q.ready w refl

no_keys :
    (m : BTreeMap ProducerId (List EventEnvelope))
    → ((p : ProducerId) → contains_key p m ≡ false)
    → total length m ≡ 0
unfolding get
no_keys [] h = refl
no_keys ((k, events) ∷ m) h = ground (arith, h k)

pub none_ready : (q : Queue) → IsWellFormed q → q.ready ≡ [] → q.count ≡ 0
none_ready q w e = w.counted ∙ no_keys q.producers (λ p. ground (arith, w.ready_keys p, e))

-- `pop` keeps the queue well formed.
pub pop-IsWellFormed : (q : Queue) → IsWellFormed q → IsWellFormed (pop q).1
pop-IsWellFormed q w = elim (pop-Pops q w) [
  | nothing _ e ↦ rw e w
  | served producer ready event rest first held e ↦
      rw e (take_event-IsWellFormed q producer ready event rest w first held)
]

-- `discard` keeps the queue well formed.
pub discard-IsWellFormed :
    (q : Queue) (producer : ProducerId) → IsWellFormed q → IsWellFormed (discard q producer).1
unfolding discard
discard-IsWellFormed q producer w = record {
  keys = remove-NodupKeys producer q.producers w.keys;
  counted = omega (
    arith,
    total-remove length producer q.producers w.keys,
    weight-pending (get producer q.producers),
    w.counted,
  );
  waiting = λ p. ground (arith, get-remove p producer q.producers, w.waiting p);
  ready_keys = λ p. ground (
    arith,
    get-remove p producer q.producers,
    contains-retain_other producer p q.ready,
    w.ready_keys p,
  );
  distinct = retain_other-Distinct producer q.ready w.distinct;
}

-- No subtraction of the queue's counter goes below zero.
pub pending-le-count :
    (q : Queue) (producer : ProducerId) → IsWellFormed q → length (pending q producer) ≤ q.count
pending-le-count q producer w = omega (
  arith,
  weight-le-total length producer q.producers,
  weight-pending (get producer q.producers),
  w.counted,
)
