-- ===== src/Vnet/PeerRegistry/Files.antt =====
-- What vnet/peer_registry.py saves and loads.
use aura_aioscpu.Prelude.Json.{Json, IsFaithful}
use mathlib.Core.Path.{subst}
use mathlib.Core.List.{append_assoc, append-nil}
use aura_aioscpu.Prelude.{
  string_eq, nat_eq, All, IsUnique, has-front, insert, keys, insert_fresh, keys-append, ℕ, String,
  ◌≡◌, refl, sym, ap, ◌∙◌, Option, none, some, List, [], ◌∷◌, ◌++◌,
}
use aura_aioscpu.Vnet.PeerRegistry.{
  PeerRecord, PeersFile, PeerRegistry, values, to_dict, to_list, from_dict, load_one, load_all,
  save, load,
}
use aura_aioscpu.Vnet.PeerRegistry.Keys.{HasOwnId, IsKeyed}

from_dict-to_dict : (now : ℕ) (p : PeerRecord) → from_dict now p.node_id (to_dict p) ≡ p
unfolding from_dict to_dict
from_dict-to_dict now p = refl

load_all-to_list :
    (now : ℕ) (ps acc : List (String × PeerRecord))
    → All HasOwnId ps
    → IsUnique (keys (acc ++ ps))
    → load_all now (to_list ps) acc ≡ acc ++ ps
unfolding load_all load_one to_list values to_dict from_dict
load_all-to_list now [] acc own u = sym (append-nil acc)
load_all-to_list now ((id, p) ∷ ps) acc own u =
    let fresh =
      has-front (keys acc) (keys ps) id (subst IsUnique (keys-append acc ((id, p) ∷ ps)) u) in
    let stored : insert p.node_id p acc ≡ acc ++ (id, p) ∷ [] =
      ap (λ k. insert k p acc) own.0 ∙ insert_fresh id p acc fresh in
    let shift = append_assoc acc ((id, p) ∷ []) ps in
    ap (λ d. load_all now (to_list ps) d) stored
    ∙ load_all-to_list now ps (acc ++ (id, p) ∷ []) own.1
        (subst (λ l. IsUnique (keys l)) (sym shift) u)
    ∙ shift

-- A registry whose peers stand under their own ids, once each, is saved; by a JSON library that reads
-- what it has written, a new registry that starts on the file has the same peers, in the same order,
-- with all their fields and times. Only a write that fails is excluded.
pub load-save_registry :
    {B : Type 0} (json : Json PeersFile B)
    → IsFaithful json
    → (now : ℕ) (r : PeerRegistry B) → IsKeyed r.peers
    → load json now (save json none r).file ≡ save json none r
unfolding load save
load-save_registry json faithful now r keyed =
    ap
      (λ (o : Option PeersFile). record {
        peers = elim o [ none ↦ [] | some ss ↦ load_all now ss [] ];
        file = some (json.dump (to_list r.peers));
      })
      (faithful.load_dump (to_list r.peers))
    ∙ ap (λ m. record { peers = m; file = some (json.dump (to_list r.peers)) })
        (load_all-to_list now r.peers [] keyed.own_ids keyed.unique)
