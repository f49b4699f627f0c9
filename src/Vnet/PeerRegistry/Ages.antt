-- ===== src/Vnet/PeerRegistry/Ages.antt =====
-- Which peers of vnet/peer_registry.py are active and which are stale.

use mathlib.Core.List.{Perm, perm_middle}
use mathlib.Core.List.Perm
use aura_aioscpu.Prelude.{
  Bool-cases, string_eq, nat_eq, ℕ, inl, inr, Bool, not, List, [], ◌∷◌, ◌++◌,
}
use aura_aioscpu.Vnet.PeerRegistry.{
  PeerRecord, PeerRegistry, is_stale, values, keep, all_peers, active, stale,
}

keep-Perm :
    (test : PeerRecord → Bool) (ps : List PeerRecord)
    → Perm (keep (λ p. not (test p)) ps ++ keep test ps) ps
unfolding keep
keep-Perm test [] = Perm.refl []
keep-Perm test (p ∷ ps) = elim (Bool-cases (test p)) [
  | inl kept ↦
      simp (kept, keep)
        (Perm.trans (perm_middle (keep (λ q. not (test q)) ps) (keep test ps))
          (Perm.cons _ (keep-Perm test ps)))
  | inr dropped ↦ simp (dropped, keep) (Perm.cons _ (keep-Perm test ps))
]

module _ {B : Type 0} where
  -- At any time, the active peers and the stale ones are together all the peers, each as often as it is
  -- registered, in some order.
  active-stale_all :
      (now : ℕ) (r : PeerRegistry B) → Perm (active now r ++ stale now r) (all_peers r)
  unfolding active stale all_peers
  active-stale_all now r = keep-Perm (is_stale now) (values r.peers)
