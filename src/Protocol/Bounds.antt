-- ===== src/Protocol/Bounds.antt =====
-- Which lists `unique_bounded` of protocol/event.rs lets through.
mod Tests
use omarchy_harbormaster.Common.{ℕ, ◌≤◌, ◌≡◌, ◌↔◌, List, Eq, ok, arith, length, nat_eq}
use omarchy_harbormaster.Common.BTreeSet.{Ord, Distinct, collect, collect_full, collect-Distinct}
use omarchy_harbormaster.Protocol.Event.{unique_bounded}

-- `unique_bounded` accepts exactly the lists in which no value occurs twice and that are no longer
-- than the maximum.
pub unique_bounded_exact {ℓ} :
    {A : Type ℓ} ⦃e : Eq A⦄ ⦃o : Ord A⦄ (values : List A) (maximum : ℕ)
    → (unique_bounded values maximum ≡ ok tt) ↔ (Distinct values × (length values ≤ maximum))
unfolding unique_bounded
unique_bounded_exact values maximum = (
  λ h.
      let full : length (collect values) ≡ length values = ground arith in
      (collect_full values full, ground (arith, full)),
  λ (distinct, bounded). ground (arith, collect-Distinct values distinct, bounded),
)
