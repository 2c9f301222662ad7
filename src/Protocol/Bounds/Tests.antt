-- ===== src/Protocol/Bounds/Tests.antt =====
-- Two lists of signals and two operations for `unique_bounded`.
use omarchy_harbormaster.Common.{◌≡◌, refl, List, [], ◌∷◌, ok, err, nat_eq}
use omarchy_harbormaster.Common.BTreeSet
use omarchy_harbormaster.Common.BTreeSet.{Distinct, collect}
use omarchy_harbormaster.Protocol.{invalid_frame}
use omarchy_harbormaster.Protocol.Event.{EventKind, kind_eq, kind_ord, unique_bounded}

abbrev two_kinds : List EventKind
two_kinds = EventKind.turn_started ∷ EventKind.run_exited ∷ []

two_accepted : unique_bounded two_kinds 2 ≡ ok tt
unfolding unique_bounded collect BTreeSet.insert kind_ord nat_eq
two_accepted = refl

repeated_refused : unique_bounded (EventKind.turn_started ∷ two_kinds) 9 ≡ err invalid_frame
unfolding unique_bounded collect BTreeSet.insert kind_ord nat_eq
repeated_refused = refl
