-- ===== src/Ingestion/Registry/Preserves.antt =====
-- Each method of ingestion/registry.rs keeps the registry sound.
use omarchy_harbormaster.Common.{
  ℕ, ◌≤◌, ◌<◌, ◌≡◌, ◌⊎◌, refl, ap, true, Option, none, some, arith, inl, inr, ok, Result-cases,
  Option-cases, nat_eq,
}
use omarchy_harbormaster.Common.BTreeMap.{get, len, weight, contains_key, weight-le-total}
use omarchy_harbormaster.Protocol.Identity.{ProducerId, ProducerGeneration, Seq, ident_eq}
use omarchy_harbormaster.Ingestion.{max_producers}
use omarchy_harbormaster.Ingestion.Queue
use omarchy_harbormaster.Ingestion.Queue.{Queue, pending, has_room}
use omarchy_harbormaster.Ingestion.Queue.Capacity.{
  empty-Fits, discard-Fits, pop-Fits, pop_idle, discard_idle,
}
use omarchy_harbormaster.Ingestion.Registry.Types.{
  Registry, Producer, ProducerRegistration, new_producer,
}
use omarchy_harbormaster.Ingestion.Registry.Soundness.{
  IsSound, receipt_count, byte_count, update-IsSound,
}
use omarchy_harbormaster.Ingestion.Registry.{
  new, register, may_register, enroll, discard_queued, may_install, replace_producer,
  install_committed, rescope, invalidate, invalidate_generation, renew, reconcile, pop,
}

pub new-IsSound : (authority : ℕ) → IsSound (new authority)
unfolding new get
new-IsSound authority = record {
  queue_fits = empty-Fits;
  keys = tt;
  counted = refl;
  weighed = refl;
  receipts_fit = omega arith;
  bytes_fit = omega arith;
  producers_fit = omega arith;
  each = λ id. tt;
  known = λ id n. refl;
}

-- The receipts and the bytes of a producer are part of the sums, so they can be given back.
pub held_fits :
    (r : Registry) (id : ProducerId) (p : Producer)
    → IsSound r
    → get id r.producers ≡ some p
    → (receipt_count p ≤ r.receipts) × (byte_count p ≤ r.receipt_bytes)
held_fits r id p s h = ground (
  arith,
  weight-le-total receipt_count id r.producers,
  weight-le-total byte_count id r.producers,
  s.counted,
  s.weighed,
  h,
)

enroll-IsSound :
    (r : Registry) (registration : ProducerRegistration)
    → IsSound r
    → get registration.producer_id r.producers ≡ none
    → len r.producers < max_producers
    → IsSound (enroll registration r)
unfolding enroll new_producer
enroll-IsSound r registration s absent room =
    update-IsSound r _ registration.producer_id _ s refl (ground (arith, absent))
      (ground (arith, absent)) s.receipts_fit s.bytes_fit (inr room) (omega arith)
      (refl, omega arith, omega arith) s.queue_fits (λ j _ n. s.known j n)

-- The checks of `register` that its accounting needs.
may_register_facts :
    (r : Registry) (registration : ProducerRegistration)
    → may_register r registration ≡ ok tt
    → (get registration.producer_id r.producers ≡ none) × (len r.producers < max_producers)
unfolding may_register
may_register_facts r registration h = ground arith

pub register-IsSound :
    (r : Registry) (registration : ProducerRegistration)
    → IsSound r
    → IsSound (register registration r).1
unfolding register
register-IsSound r registration s = elim (Result-cases (may_register r registration)) [
  | inl (e, refused) ↦ rw (refused, register) s
  | inr (_, passed) ↦
      let facts = may_register_facts r registration passed in
      rw (passed, register) (enroll-IsSound r registration s facts.0 facts.1)
]

discard_queued-IsSound :
    (r : Registry) (id : ProducerId) → IsSound r → IsSound (discard_queued id r).1
unfolding discard_queued
discard_queued-IsSound r id s = record {
  queue_fits = discard-Fits r.queue id s.queue_fits;
  keys = s.keys;
  counted = s.counted;
  weighed = s.weighed;
  receipts_fit = s.receipts_fit;
  bytes_fit = s.bytes_fit;
  producers_fit = s.producers_fit;
  each = s.each;
  known = λ j n. discard_idle r.queue id j (s.known j n);
}

-- `discard_queued` touches the queue and its own counter only.
pub discard_queued_keeps :
    (r : Registry) (id : ProducerId)
    → ((discard_queued id r).1.producers ≡ r.producers)
      × ((discard_queued id r).1.receipts ≡ r.receipts)
      × ((discard_queued id r).1.receipt_bytes ≡ r.receipt_bytes)
      × ((discard_queued id r).1.allocated ≡ r.allocated)
      × ((discard_queued id r).1.authority ≡ r.authority)
      × ((discard_queued id r).1.queue ≡ (Queue.discard r.queue id).1)
unfolding discard_queued
discard_queued_keeps r id = (refl, refl, refl, refl, refl, refl)

-- What `install_committed` gives back is what the producer holds, or nothing for a new one.
abbrev Holds : Registry → ProducerRegistration → ℕ → ℕ → Type 0
Holds r registration receipts bytes =
    (receipts ≡ weight receipt_count (get registration.producer_id r.producers))
    × (bytes ≡ weight byte_count (get registration.producer_id r.producers))
    × ((contains_key registration.producer_id r.producers ≡ true)
        ⊎ (len r.producers < max_producers))

may_install_facts :
    (r : Registry) (registration : ProducerRegistration) (receipts bytes : ℕ)
    → may_install r registration ≡ ok (receipts, bytes)
    → Holds r registration receipts bytes
unfolding may_install
may_install_facts r registration receipts bytes h = ground arith

replace_producer-IsSound :
    (r : Registry) (registration : ProducerRegistration) (receipts bytes : ℕ)
    → IsSound r
    → Holds r registration receipts bytes
    → IsSound (replace_producer registration receipts bytes r).1
unfolding replace_producer discard_queued enroll new_producer
replace_producer-IsSound r registration receipts bytes s (rc, bc, room) =
    let id = registration.producer_id in
    let held = weight-le-total receipt_count id r.producers in
    let held_bytes = weight-le-total byte_count id r.producers in
    update-IsSound r _ id _ s refl (omega (arith, rc, held, s.counted))
      (omega (arith, bc, held_bytes, s.weighed)) (omega (arith, s.receipts_fit))
      (omega (arith, s.bytes_fit)) room (omega arith) (refl, omega arith, omega arith)
      (discard-Fits r.queue id s.queue_fits) (λ j _ n. discard_idle r.queue id j (s.known j n))

pub install_committed-IsSound :
    (r : Registry) (registration : ProducerRegistration)
    → IsSound r
    → IsSound (install_committed registration r).1
unfolding install_committed
install_committed-IsSound r registration s = elim (Result-cases (may_install r registration)) [
  | inl (e, refused) ↦ rw (refused, install_committed) s
  | inr ((receipts, bytes), passed) ↦
      rw (passed, install_committed)
        (replace_producer-IsSound r registration receipts bytes s
          (may_install_facts r registration receipts bytes passed))
]

rescope-IsSound :
    (r : Registry) (id : ProducerId) (old p : Producer)
    → IsSound r
    → get id r.producers ≡ some old
    → p.receipts ≡ old.receipts
    → p.bytes ≡ old.bytes
    → p.registration ≡ old.registration
    → IsSound (rescope id p r)
unfolding rescope
rescope-IsSound r id old p s h rc bc rg =
    update-IsSound r _ id _ s refl (ground (arith, h, rc, ap len rc)) (ground (arith, h, bc))
      s.receipts_fit s.bytes_fit (inl (ground (arith, h))) (omega arith)
      (ground (arith, s.each id, h, rg, ap len rc)) s.queue_fits (λ j _ n. s.known j n)

pub invalidate-IsSound : (r : Registry) (id : ProducerId) → IsSound r → IsSound (invalidate id r).1
unfolding invalidate
invalidate-IsSound r id s = elim (Option-cases (get id r.producers)) [
  | inl e ↦ rw (e, invalidate) s
  | inr (p, e) ↦
      rw (e, invalidate)
        (discard_queued-IsSound _ id
          (rescope-IsSound r id p (record p { blocked = true }) s e refl refl refl))
]

pub invalidate_generation-IsSound :
    (r : Registry) (id : ProducerId) (generation : Option ProducerGeneration)
    → IsSound r
    → IsSound (invalidate_generation id generation r).1
unfolding invalidate_generation
invalidate_generation-IsSound r id generation s = ground (arith, s, invalidate-IsSound r id s)

renew-IsSound :
    (r : Registry) (id : ProducerId) (p : Producer) (generation : ProducerGeneration) (next : Seq)
    → IsSound r
    → get id r.producers ≡ some p
    → IsSound (renew id p generation next r)
unfolding renew rescope discard_queued
renew-IsSound r id p generation next s h =
    let held = held_fits r id p s h in
    update-IsSound r _ id _ s refl (ground (arith, h, held)) (ground (arith, h, held))
      (omega (arith, s.receipts_fit)) (omega (arith, s.bytes_fit)) (inl (ground (arith, h)))
      (omega arith) (ground (arith, s.each id, h)) (discard-Fits r.queue id s.queue_fits)
      (λ j _ n. discard_idle r.queue id j (s.known j n))

pub reconcile-IsSound :
    (r : Registry) (id : ProducerId) (next : Seq) (fresh : Option ProducerGeneration)
    → IsSound r
    → IsSound (reconcile id next fresh r).1
unfolding reconcile
reconcile-IsSound r id next none s = ground (arith, s)
reconcile-IsSound r id next (some generation) s = elim (Option-cases (get id r.producers)) [
  | inl e ↦ rw (e, reconcile) s
  | inr (p, e) ↦ rw (e, reconcile) (ground (arith, s, renew-IsSound r id p generation next s e))
]

pub pop-IsSound : (r : Registry) → IsSound r → IsSound (pop r).1
unfolding pop
pop-IsSound r s = record {
  queue_fits = pop-Fits r.queue s.queue_fits;
  keys = s.keys;
  counted = s.counted;
  weighed = s.weighed;
  receipts_fit = s.receipts_fit;
  bytes_fit = s.bytes_fit;
  producers_fit = s.producers_fit;
  each = s.each;
  known = λ j n. pop_idle r.queue j s.queue_fits.well_formed (s.known j n);
}
