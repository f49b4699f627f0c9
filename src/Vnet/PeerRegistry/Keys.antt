-- ===== src/Vnet/PeerRegistry/Keys.antt =====
-- The peers of vnet/peer_registry.py are registered once each, under their own ids.
use mathlib.Core.Path.{subst}
use aura_aioscpu.Prelude.{
  Option-cases, if_ind, string_eq, nat_eq, All, IsUnique, lookup, insert, has_key, keys,
  insert-IsUnique, erase-IsUnique, insert-All, erase-All, lookup-All, Outcome, ℕ, ◌+◌, String, ◌≡◌,
  refl, sym, inl, inr, Bool, Option, none, some, List, [], ◌∷◌,
}
use aura_aioscpu.Prelude.Text.{is_empty}
use aura_aioscpu.Prelude.Json.{Json}
use aura_aioscpu.Vnet.PeerRegistry.{
  PeerRecord, SavedPeer, PeersFile, PeerRegistry, PeerFields, touch_peer, default, refresh,
  new_peer, from_dict, load_one, load_all, CcPeer, fields_of, save, load, store, add_or_update,
  remove, touch, merge_from_cc,
}

abbrev pub HasOwnId : String × PeerRecord → Type 0
HasOwnId e = e.1.node_id ≡ e.0

-- Every peer stands under its own id, and no id twice.
pub record IsKeyed (m : List (String × PeerRecord)) : Type 0 where
  pub own_ids : All HasOwnId m
  pub unique : IsUnique (keys m)

pub insert-IsKeyed :
    (id : String) (p : PeerRecord) (m : List (String × PeerRecord))
    → p.node_id ≡ id
    → IsKeyed m
    → IsKeyed (insert id p m)
insert-IsKeyed id p m e h = record {
  own_ids = insert-All HasOwnId id p m e h.own_ids;
  unique = insert-IsUnique id p m h.unique;
}

-- What a look-up finds has the id that is looked up.
own_id :
    (id : String) (p : PeerRecord) (m : List (String × PeerRecord))
    → IsKeyed m
    → lookup id m ≡ some p
    → p.node_id ≡ id
own_id id p m h found = lookup-All HasOwnId id p m found h.own_ids

pub no_peers : IsKeyed []
unfolding IsUnique
no_peers = record { own_ids = tt; unique = tt }

load_one-IsKeyed :
    (now : ℕ) (s : Option SavedPeer) (m : List (String × PeerRecord))
    → IsKeyed m
    → IsKeyed (load_one now s m)
unfolding load_one from_dict
load_one-IsKeyed now none m h = h
load_one-IsKeyed now (some s) m h = elim (Option-cases s.node_id) [
  | inl unnamed ↦ rw (unnamed) h
  | inr (id, named) ↦ rw (named) (insert-IsKeyed id (from_dict now id s) m refl h)
]

load_all-IsKeyed :
    (now : ℕ) (ss : PeersFile) (m : List (String × PeerRecord))
    → IsKeyed m
    → IsKeyed (load_all now ss m)
unfolding load_all
load_all-IsKeyed now [] m h = h
load_all-IsKeyed now (s ∷ ss) m h =
    load_all-IsKeyed now ss (load_one now s m) (load_one-IsKeyed now s m h)

read-IsKeyed :
    (now : ℕ) (o : Option PeersFile) → IsKeyed (elim o [ none ↦ [] | some ss ↦ load_all now ss [] ])
read-IsKeyed now none = no_peers
read-IsKeyed now (some ss) = load_all-IsKeyed now ss [] no_peers

-- The calls that change a registry; a load is a new start on what the file holds.
pub data Call (B : Type 0) : Type 0 where
  add_call : (fault : Option (Option B)) → (now : ℕ) → String → PeerFields → Call B
  remove_call : (fault : Option (Option B)) → String → Call B
  touch_call : (now : ℕ) → String → Call B
  merge_call : (fault : Option (Option B)) → (now : ℕ) → List (Option CcPeer) → Call B
  load_call : (now : ℕ) → Option B → Call B

module _ {B : Type 0} (json : Json PeersFile B) where
  unfoldable pub apply : Call B → PeerRegistry B → PeerRegistry B
  apply (add_call fault now id f) r = (add_or_update json fault now id f r).1
  apply (remove_call fault id) r = (remove json fault id r).1
  apply (touch_call now id) r = (touch json now id r).1
  apply (merge_call fault now ps) r = (merge_from_cc json fault now ps 0 r).1
  apply (load_call now file) r = load json now file

  unfoldable pub run : List (Call B) → PeerRegistry B → PeerRegistry B
  run [] r = r
  run (c ∷ cs) r = run cs (apply c r)

  pub save_peers :
      (fault : Option (Option B)) (r : PeerRegistry B) → (save json fault r).peers ≡ r.peers
  unfolding save
  save_peers none r = refl
  save_peers (some left) r = refl

  save-IsKeyed :
      (fault : Option (Option B)) (r : PeerRegistry B)
      → IsKeyed r.peers
      → IsKeyed (save json fault r).peers
  save-IsKeyed fault r h = subst IsKeyed (sym (save_peers fault r)) h

  add_or_update-IsKeyed :
      (fault : Option (Option B)) (now : ℕ) (id : String) (f : PeerFields) (r : PeerRegistry B)
      → IsKeyed r.peers
      → IsKeyed (add_or_update json fault now id f r).1.peers
  unfolding add_or_update store refresh new_peer
  add_or_update-IsKeyed fault now id f r h = elim (Option-cases (lookup id r.peers)) [
    | inl absent ↦
        rw (absent, add_or_update)
          (save-IsKeyed fault _ (insert-IsKeyed id (new_peer now id f) r.peers refl h))
    | inr (p, found) ↦
        rw (found, add_or_update)
          (save-IsKeyed fault _
            (insert-IsKeyed id (refresh now f p) r.peers (own_id id p r.peers h found) h))
  ]

  remove-IsKeyed :
      (fault : Option (Option B)) (id : String) (r : PeerRegistry B)
      → IsKeyed r.peers
      → IsKeyed (remove json fault id r).1.peers
  unfolding remove
  remove-IsKeyed fault id r h =
      if_ind (λ (z : Bool × PeerRegistry B). IsKeyed z.1.peers) (has_key id r.peers)
        (λ _. save-IsKeyed fault _ (record {
          own_ids = erase-All HasOwnId id r.peers h.own_ids;
          unique = erase-IsUnique id r.peers h.unique;
        }))
        (λ _. h)

  touch-IsKeyed :
      (now : ℕ) (id : String) (r : PeerRegistry B)
      → IsKeyed r.peers
      → IsKeyed (touch json now id r).1.peers
  unfolding touch store touch_peer
  touch-IsKeyed now id r h = elim (Option-cases (lookup id r.peers)) [
    | inl absent ↦ rw (absent, touch) h
    | inr (p, found) ↦
        rw (found, touch)
          (insert-IsKeyed id (touch_peer now p) r.peers (own_id id p r.peers h found) h)
  ]

  merge-IsKeyed :
      (fault : Option (Option B)) (now : ℕ) (ps : List (Option CcPeer)) (n : ℕ) (r : PeerRegistry B)
      → IsKeyed r.peers
      → IsKeyed (merge_from_cc json fault now ps n r).1.peers
  unfolding merge_from_cc
  merge-IsKeyed fault now [] n r h = h
  merge-IsKeyed fault now (none ∷ ps) n r h = merge-IsKeyed fault now ps n r h
  merge-IsKeyed fault now (some p ∷ ps) n r h =
      if_ind (λ (z : Outcome (Unit {0}) ℕ × PeerRegistry B). IsKeyed z.1.peers)
        (is_empty (default "" p.node_id)) (λ _. merge-IsKeyed fault now ps n r h)
        (λ _. elim (Option-cases (default (some 0) p.port)) [
          | inl bad ↦ rw (bad) h
          | inr (port, good) ↦ rw (good) (
              merge-IsKeyed fault now ps (n + 1) _
                (add_or_update-IsKeyed fault now (default "" p.node_id) (fields_of port p) r h))
        ])

  load-IsKeyed : (now : ℕ) (file : Option B) → IsKeyed (load json now file).peers
  unfolding load
  load-IsKeyed now none = no_peers
  load-IsKeyed now (some text) = read-IsKeyed now (json.load text)

  -- Of a registry of which it holds at first, after any calls, whatever files are loaded and responses
  -- merged, and whether or not the writes fail: every peer stands under its own id, and no id twice.
  pub run-IsKeyed :
      (calls : List (Call B)) (r : PeerRegistry B) → IsKeyed r.peers → IsKeyed (run calls r).peers
  unfolding run apply
  run-IsKeyed [] r h = h
  run-IsKeyed (add_call fault now id f ∷ cs) r h =
      run-IsKeyed cs _ (add_or_update-IsKeyed fault now id f r h)
  run-IsKeyed (remove_call fault id ∷ cs) r h = run-IsKeyed cs _ (remove-IsKeyed fault id r h)
  run-IsKeyed (touch_call now id ∷ cs) r h = run-IsKeyed cs _ (touch-IsKeyed now id r h)
  run-IsKeyed (merge_call fault now ps ∷ cs) r h =
      run-IsKeyed cs _ (merge-IsKeyed fault now ps 0 r h)
  run-IsKeyed (load_call now file ∷ cs) r h = run-IsKeyed cs _ (load-IsKeyed now file)
