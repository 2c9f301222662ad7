-- ===== src/Ingestion/Registry/History.antt =====
-- Histories of calls of ingestion/registry.rs, from a new registry on.
use omarchy_harbormaster.Common.{ℕ, List, [], ◌∷◌, Option, Result}
use omarchy_harbormaster.Protocol.{ProtocolError}
use omarchy_harbormaster.Protocol.Identity.{ProducerId, ProducerGeneration, Seq}
use omarchy_harbormaster.Protocol.Event.{EventEnvelope}
use omarchy_harbormaster.Ingestion.Registry.Types.{Registry, ProducerRegistration, EventSession}
use omarchy_harbormaster.Ingestion.Registry.{
  new, register, install_committed, invalidate, invalidate_generation, reconcile, pop,
}
use omarchy_harbormaster.Ingestion.Registry.Reservation.{admit}
use omarchy_harbormaster.Ingestion.Registry.Soundness.{IsSound}
use omarchy_harbormaster.Ingestion.Registry.Preserves.{
  new-IsSound, register-IsSound, install_committed-IsSound, invalidate-IsSound,
  invalidate_generation-IsSound, reconcile-IsSound, pop-IsSound,
}
use omarchy_harbormaster.Ingestion.Registry.Admitting.{admit-IsSound}

-- The methods that change the registry, with their arguments.
pub data Call : Type 0 where
  registers : ProducerRegistration → Call
  installs : ProducerRegistration → Call
  invalidates : ProducerId → Call
  invalidates_generation : ProducerId → Option ProducerGeneration → Call
  admits : EventSession → List ℕ → Result ProtocolError EventEnvelope → Call
  reconciles : ProducerId → Seq → Option ProducerGeneration → Call
  pops : Call

unfoldable pub step : Call → Registry → Registry
step (Call.registers registration) r = (register registration r).1
step (Call.installs registration) r = (install_committed registration r).1
step (Call.invalidates id) r = (invalidate id r).1
step (Call.invalidates_generation id generation) r = (invalidate_generation id generation r).1
step (Call.admits session frame parsed) r = (admit session frame parsed r).1
step (Call.reconciles id next fresh) r = (reconcile id next fresh r).1
step Call.pops r = (pop r).1

unfoldable pub run : List Call → Registry → Registry
run [] r = r
run (c ∷ cs) r = run cs (step c r)

pub step-IsSound : (c : Call) (r : Registry) → IsSound r → IsSound (step c r)
unfolding step
step-IsSound (Call.registers registration) r s = register-IsSound r registration s
step-IsSound (Call.installs registration) r s = install_committed-IsSound r registration s
step-IsSound (Call.invalidates id) r s = invalidate-IsSound r id s
step-IsSound (Call.invalidates_generation id generation) r s =
    invalidate_generation-IsSound r id generation s
step-IsSound (Call.admits session frame parsed) r s = admit-IsSound session frame parsed r s
step-IsSound (Call.reconciles id next fresh) r s = reconcile-IsSound r id next fresh s
step-IsSound Call.pops r s = pop-IsSound r s

pub run_keeps-IsSound : (cs : List Call) (r : Registry) → IsSound r → IsSound (run cs r)
unfolding run
run_keeps-IsSound [] r s = s
run_keeps-IsSound (c ∷ cs) r s = run_keeps-IsSound cs (step c r) (step-IsSound c r s)

-- After any calls of a new registry its counters are the sums over its producers, its queue is
-- well formed, every limit holds, and nothing waits for a producer that is not registered.
pub run-IsSound : (authority : ℕ) (cs : List Call) → IsSound (run cs (new authority))
run-IsSound authority cs = run_keeps-IsSound cs (new authority) (new-IsSound authority)
