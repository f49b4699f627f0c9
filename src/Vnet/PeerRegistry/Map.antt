-- ===== src/Vnet/PeerRegistry/Map.antt =====
-- What vnet/peer_registry.py promises of a registry: a map from ids to peers. The map knows nothing of
-- the order of the peers and of the file.
use mathlib.Core.Option
use aura_aioscpu.Prelude.{
  if◌then◌else◌, Bool-cases, Option-cases, if_ind, string_eq, nat_eq, ◌==◌, ==_iff, lookup, erase,
  has_key, lookup-insert, lookup-erase, lookup_absent, ℕ, ◌+◌, String, ◌≡◌, refl, sym, ap, ◌∙◌, inl,
  inr, Bool, Option, none, some, List, [], ◌∷◌,
}
use aura_aioscpu.Prelude.Text.{is_empty}
use aura_aioscpu.Prelude.Json.{Json}
use aura_aioscpu.Vnet.PeerRegistry.{
  PeerRecord, PeersFile, PeerRegistry, PeerFields, touch_peer, default, refresh, new_peer, CcPeer,
  fields_of, save, load, store, add_or_update, remove, touch, merge_from_cc,
}
use aura_aioscpu.Vnet.PeerRegistry.Keys.{
  Call, add_call, remove_call, touch_call, merge_call, load_call, apply, run, save_peers,
}
use aura_aioscpu.Vnet.PeerRegistry.Spec.{
  PeerMap, assign, updated, touched, map_load, empty_map, map_merge, given_lem, new_peer-updated,
  refresh-updated, fields_of-told, load_all-map_load,
}

module _ {B : Type 0} (json : Json PeersFile B) where
  unfoldable pub map_apply : Call B → PeerMap → PeerMap
  map_apply (add_call fault now id f) v = assign id (some (updated now id f (v id))) v
  map_apply (remove_call fault id) v = assign id none v
  map_apply (touch_call now id) v = assign id (Option.map (touched now) (v id)) v
  map_apply (merge_call fault now ps) v = map_merge now ps v
  map_apply (load_call now none) v = empty_map
  map_apply (load_call now (some text)) v = elim (json.load text) [
    | none ↦ empty_map
    | some ss ↦ map_load now ss empty_map
  ]

  unfoldable pub map_run : List (Call B) → PeerMap → PeerMap
  map_run [] v = v
  map_run (c ∷ cs) v = map_run cs (map_apply c v)

  -- The registry holds the peers of the map.
  abbrev pub Represents : PeerRegistry B → PeerMap → Type 0
  Represents r v = (j : String) → lookup j r.peers ≡ v j

  save-Represents :
      (fault : Option (Option B)) (r : PeerRegistry B) (v : PeerMap)
      → Represents r v
      → Represents (save json fault r) v
  save-Represents fault r v h j = ap (lookup j) (save_peers json fault r) ∙ h j

  store-Represents :
      (id : String) (p : PeerRecord) (r : PeerRegistry B) (v : PeerMap)
      → Represents r v
      → Represents (store json id p r) (assign id (some p) v)
  unfolding store
  store-Represents id p r v h j =
      lookup-insert id j p r.peers ∙ ap (λ o. if id == j then some p else o) (h j)

  add-Represents :
      (fault : Option (Option B)) (now : ℕ) (id : String) (f : PeerFields) (r : PeerRegistry B)
      (v : PeerMap)
      → Represents r v
      → Represents
          (add_or_update json fault now id f r).1
          (assign id (some (updated now id f (v id))) v)
  unfolding add_or_update
  add-Represents fault now id f r v h = elim (Option-cases (lookup id r.peers)) [
    | inl absent ↦
        let e : v id ≡ none = sym (h id) ∙ absent in
        rw (absent, add_or_update, e, sym (new_peer-updated now id f))
          (save-Represents fault _ (assign id (some (new_peer now id f)) v)
            (store-Represents id (new_peer now id f) r v h))
    | inr (p, found) ↦
        let e : v id ≡ some p = sym (h id) ∙ found in
        rw (found, add_or_update, e, sym (refresh-updated now id f p))
          (save-Represents fault _ (assign id (some (refresh now f p)) v)
            (store-Represents id (refresh now f p) r v h))
  ]

  absent-Represents :
      (id : String) (r : PeerRegistry B) (v : PeerMap)
      → lookup id r.peers ≡ none
      → Represents r v
      → Represents r (assign id none v)
  absent-Represents id r v absent h j = elim (Bool-cases (id == j)) [
    | inl same ↦ rw (same) (ap (λ k. lookup k r.peers) (sym ((==_iff id j).0 same)) ∙ absent)
    | inr other ↦ rw (other) (h j)
  ]

  remove-Represents :
      (fault : Option (Option B)) (id : String) (r : PeerRegistry B) (v : PeerMap)
      → Represents r v
      → Represents (remove json fault id r).1 (assign id none v)
  unfolding remove
  remove-Represents fault id r v h =
      if_ind (λ (z : Bool × PeerRegistry B). Represents z.1 (assign id none v)) (has_key id r.peers)
        (λ _.
          save-Represents fault (record r { peers = erase id r.peers }) (assign id none v)
            (λ j. lookup-erase id j r.peers ∙ ap (λ o. if id == j then none else o) (h j)))
        (λ missing. absent-Represents id r v (lookup_absent id r.peers missing) h)

  touch-Represents :
      (now : ℕ) (id : String) (r : PeerRegistry B) (v : PeerMap)
      → Represents r v
      → Represents (touch json now id r).1 (assign id (Option.map (touched now) (v id)) v)
  unfolding touch touch_peer
  touch-Represents now id r v h = elim (Option-cases (lookup id r.peers)) [
    | inl absent ↦
        let e : v id ≡ none = sym (h id) ∙ absent in
        rw (absent, touch, e) (absent-Represents id r v absent h)
    | inr (p, found) ↦
        let e : v id ≡ some p = sym (h id) ∙ found in
        rw (found, touch, e) (store-Represents id (touch_peer now p) r v h)
  ]

  merge-Represents :
      (fault : Option (Option B)) (now : ℕ) (ps : List (Option CcPeer)) (n : ℕ) (r : PeerRegistry B)
      (v : PeerMap)
      → Represents r v
      → Represents (merge_from_cc json fault now ps n r).1 (map_merge now ps v)
  unfolding merge_from_cc map_merge
  merge-Represents fault now [] n r v h = h
  merge-Represents fault now (none ∷ ps) n r v h = merge-Represents fault now ps n r v h
  merge-Represents fault now (some p ∷ ps) n r v h =
      rw (sym (given_lem p.node_id ""), sym (given_lem p.port (some 0)))
        (elim (Bool-cases (is_empty (default "" p.node_id))) [
          | inl unnamed ↦ rw (unnamed) (merge-Represents fault now ps n r v h)
          | inr named ↦ rw (named) (elim (Option-cases (default (some 0) p.port)) [
            | inl bad ↦ rw (bad) h
            | inr (port, good) ↦
                rw (good, sym (fields_of-told port p), sym (given_lem p.node_id ""))
                  (merge-Represents fault now ps (n + 1) _ _
                    (add-Represents fault now (default "" p.node_id) (fields_of port p) r v h))
          ])
        ])

  load-Represents :
      (now : ℕ) (file : Option B) (v : PeerMap)
      → Represents (load json now file) (map_apply (load_call now file) v)
  unfolding load map_apply lookup
  load-Represents now none v j = refl
  load-Represents now (some text) v j = elim (Option-cases (json.load text)) [
    | inl unread ↦ rw (unread, map_apply) refl
    | inr (ss, read) ↦ rw (read, map_apply) (load_all-map_load now ss [] empty_map (λ k. refl) j)
  ]

  -- A registry that holds the peers of a map holds, after any calls, those of the map that the same calls
  -- make of it: an update refreshes the peer under the id or registers it, a removal takes it away,
  -- a touch changes the time that it has been seen, a merge updates one entry after another until a port
  -- is no number, a start on a file takes over the last object of each id, and no call changes a peer of another id. Whether the writes fail makes no difference.
  pub run-Represents :
      (calls : List (Call B)) (r : PeerRegistry B) (v : PeerMap)
      → Represents r v
      → Represents (run json calls r) (map_run calls v)
  unfolding run apply map_run map_apply
  run-Represents [] r v h = h
  run-Represents (add_call fault now id f ∷ cs) r v h =
      run-Represents cs _ _ (add-Represents fault now id f r v h)
  run-Represents (remove_call fault id ∷ cs) r v h =
      run-Represents cs _ _ (remove-Represents fault id r v h)
  run-Represents (touch_call now id ∷ cs) r v h =
      run-Represents cs _ _ (touch-Represents now id r v h)
  run-Represents (merge_call fault now ps ∷ cs) r v h =
      run-Represents cs _ _ (merge-Represents fault now ps 0 r v h)
  run-Represents (load_call now file ∷ cs) r v h =
      run-Represents cs _ _ (load-Represents now file v)
