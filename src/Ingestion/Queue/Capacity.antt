-- ===== src/Ingestion/Queue/Capacity.antt =====
-- The limits of ingestion/mod.rs on the queue, which `has_room` guards.
use omarchy_harbormaster.Common.{
  ◌≤◌, ◌≡◌, refl, ap, true, List, [], ◌∷◌, length, arith, length-append, inl, inr,
}
use omarchy_harbormaster.Common.BTreeMap.{get}
use omarchy_harbormaster.Protocol.Identity.{ProducerId, ident_eq}
use omarchy_harbormaster.Protocol.Event.{EventEnvelope}
use omarchy_harbormaster.Ingestion.{max_queued, max_producer_queued}
use omarchy_harbormaster.Ingestion.Queue.{Queue, empty, pending, has_room, push, pop, discard}
use omarchy_harbormaster.Ingestion.Queue.Invariant.{
  IsWellFormed, empty-IsWellFormed, push-IsWellFormed,
}
use omarchy_harbormaster.Ingestion.Queue.Popping.{pop-IsWellFormed, discard-IsWellFormed}
use omarchy_harbormaster.Ingestion.Queue.Fifo.{pending-push, pending-discard, pop_fifo}

-- The queue is well formed and within its limits.
pub record Fits (q : Queue) : Type 0 where
  pub well_formed : IsWellFormed q
  pub total_fits : q.count ≤ max_queued
  pub each_fits : (id : ProducerId) → length (pending q id) ≤ max_producer_queued

pub empty-Fits : Fits empty
unfolding get
empty-Fits = record {
  well_formed = empty-IsWellFormed;
  total_fits = omega arith;
  each_fits = λ id. omega arith;
}

-- A queue that has room for an event's producer stays within its limits when the event is pushed.
pub push-Fits :
    (q : Queue) (event : EventEnvelope)
    → has_room q event.producer_id ≡ true
    → Fits q
    → Fits (push q event)
unfolding has_room
push-Fits q event room f = record {
  well_formed = push-IsWellFormed q event f.well_formed;
  total_fits = ground (arith, (pending-push q event event.producer_id).1);
  each_fits = λ id. ground (
    arith,
    (pending-push q event id).0,
    length-append (pending q id) (event ∷ []),
    f.each_fits id,
  );
}

pub discard-Fits : (q : Queue) (id : ProducerId) → Fits q → Fits (discard q id).1
unfolding discard
discard-Fits q id f = record {
  well_formed = unfold discard in discard-IsWellFormed q id f.well_formed;
  total_fits = omega (arith, f.total_fits);
  each_fits = λ j. ground (arith, (pending-discard q id j).0, f.each_fits j);
}

-- A pop only shortens the lists.
pop-shorter :
    (q : Queue) (id : ProducerId)
    → IsWellFormed q
    → (length (pending (pop q).1 id) ≤ length (pending q id)) × ((pop q).1.count ≤ q.count)
pop-shorter q id w = elim (pop_fifo q w) [
  | inl (c, e) ↦ rw e (omega arith, omega arith)
  | inr (event, q', e, t) ↦ elim (ident_eq.dec event.producer_id id) [
    | yes same ↦ rw e (rw (← same) (omega (arith, ap length t.oldest)), omega (arith, t.counted))
    | no other ↦ rw e (omega (arith, ap length (t.others id other)), omega (arith, t.counted))
  ]
]

pub pop-Fits : (q : Queue) → Fits q → Fits (pop q).1
pop-Fits q f = record {
  well_formed = pop-IsWellFormed q f.well_formed;
  total_fits =
      (let fewer = (pop-shorter q (record { text = [] }) f.well_formed).1 in
        omega (arith, fewer, f.total_fits));
  each_fits = λ id. omega (arith, (pop-shorter q id f.well_formed).0, f.each_fits id);
}

nil_of_length : (events : List EventEnvelope) → length events ≤ 0 → events ≡ []
nil_of_length [] h = refl
nil_of_length (x ∷ xs) h = absurd (omega arith)

-- A producer for which nothing waits has nothing waiting after a pop or a discard.
pub pop_idle :
    (q : Queue) (id : ProducerId) → IsWellFormed q → pending q id ≡ [] → pending (pop q).1 id ≡ []
pop_idle q id w e = nil_of_length _ (omega (arith, (pop-shorter q id w).0, ap length e))

pub discard_idle :
    (q : Queue) (gone id : ProducerId) → pending q id ≡ [] → pending (discard q gone).1 id ≡ []
discard_idle q gone id e = ground (arith, (pending-discard q gone id).0)
