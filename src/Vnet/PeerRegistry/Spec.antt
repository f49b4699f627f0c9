-- ===== src/Vnet/PeerRegistry/Spec.antt =====
-- The map from ids to peers that vnet/peer_registry.py's registry stands for, and what the calls make of
-- it, without the order of the peers.

use aura_aioscpu.Prelude.{
  if◌then◌else◌, Option-cases, string_eq, nat_eq, ◌==◌, lookup, insert, lookup-insert, ℕ, String,
  ◌≡◌, refl, ap, ◌∙◌, inl, inr, Option, none, some, List, [], ◌∷◌,
}
use aura_aioscpu.Prelude.Text.{is_empty}
use aura_aioscpu.Vnet.PeerRegistry.{
  PeerRecord, SavedPeer, PeersFile, PeerFields, default, refresh, new_peer, from_dict, load_one,
  load_all, CcPeer, fields_of,
}

abbrev pub PeerMap : Type 0
PeerMap = String → Option PeerRecord

-- The map with another value at one id.
abbrev pub assign : String → Option PeerRecord → PeerMap → PeerMap
assign id o v j = if id == j then o else v j

-- A text that is given, and else the one that is known.
abbrev pub kept_text : String → String → String
kept_text known given = if is_empty given then known else given

-- An update registers a peer with all that it is given, seen now; of a peer that is known it keeps the
-- id, when it was first seen, and what is not given.
abbrev pub updated : ℕ → String → PeerFields → Option PeerRecord → PeerRecord
updated now id f none = record {
  node_id = id;
  alias = f.alias;
  host = f.host;
  port = f.port;
  capabilities = elim f.capabilities [ none ↦ [] | some cs ↦ cs ];
  status = f.status;
  first_seen = now;
  last_seen = now;
  version = f.version;
}
updated now id f (some p) = record {
  node_id = p.node_id;
  alias = kept_text p.alias f.alias;
  host = kept_text p.host f.host;
  port = if f.port == 0 then p.port else f.port;
  capabilities = elim f.capabilities [ none ↦ p.capabilities | some cs ↦ cs ];
  status = f.status;
  first_seen = p.first_seen;
  last_seen = now;
  version = kept_text p.version f.version;
}

-- A peer that is touched is as it was, but seen now.
abbrev pub touched : ℕ → PeerRecord → PeerRecord
touched now p = record {
  node_id = p.node_id;
  alias = p.alias;
  host = p.host;
  port = p.port;
  capabilities = p.capabilities;
  status = p.status;
  first_seen = p.first_seen;
  last_seen = now;
  version = p.version;
}

abbrev pub given {ℓ} : {A : Type ℓ} → Option A → A → A
given none otherwise = otherwise
given (some a) otherwise = a

-- What an entry of a response says of a peer; a list of capabilities that is missing is an empty one.
abbrev pub told : ℕ → CcPeer → PeerFields
told port p = record {
  alias = given p.alias "unknown";
  host = given p.host "";
  port = port;
  capabilities = given p.capabilities (some []);
  status = given p.status "unknown";
  version = given p.version "";
}

-- The peer that an object of the file stands for: what it does not say is unknown, empty or now.
abbrev pub saved_peer : ℕ → String → SavedPeer → PeerRecord
saved_peer now id s = record {
  node_id = id;
  alias = given s.alias "unknown";
  host = given s.host "";
  port = given s.port 0;
  capabilities = given s.capabilities [];
  status = given s.status "unknown";
  first_seen = given s.first_seen now;
  last_seen = given s.last_seen now;
  version = given s.version "";
}

-- The objects of a file in order: the last one with an id stands for it, and those without one for none.
unfoldable pub map_load : ℕ → PeersFile → PeerMap → PeerMap
map_load now [] v = v
map_load now (none ∷ ss) v = map_load now ss v
map_load now (some s ∷ ss) v = elim s.node_id [
  | none ↦ map_load now ss v
  | some id ↦ map_load now ss (assign id (some (saved_peer now id s)) v)
]

abbrev pub empty_map : PeerMap
empty_map j = none

-- The entries of a response in order, up to one whose port is no number; a missing port is 0.
unfoldable pub map_merge : ℕ → List (Option CcPeer) → PeerMap → PeerMap
map_merge now [] v = v
map_merge now (none ∷ ps) v = map_merge now ps v
map_merge now (some p ∷ ps) v =
    let id = given p.node_id "" in
    if is_empty id then map_merge now ps v else elim (given p.port (some 0)) [
      | none ↦ v
      | some port ↦ map_merge now ps (assign id (some (updated now id (told port p) (v id))) v)
    ]

pub given_lem : {A : Type 0} (o : Option A) (a : A) → default a o ≡ given o a
given_lem none a = refl
given_lem (some b) a = refl

listed_lem :
    (o : Option (List String)) (cs : List String)
    → default cs o ≡ elim o [ none ↦ cs | some ds ↦ ds ]
listed_lem none cs = refl
listed_lem (some ds) cs = refl

pub new_peer-updated :
    (now : ℕ) (id : String) (f : PeerFields) → new_peer now id f ≡ updated now id f none
unfolding new_peer
new_peer-updated now id f =
    ap
      (λ cs. record {
        node_id = id;
        alias = f.alias;
        host = f.host;
        port = f.port;
        capabilities = cs;
        status = f.status;
        first_seen = now;
        last_seen = now;
        version = f.version;
      })
      (listed_lem f.capabilities [])

pub refresh-updated :
    (now : ℕ) (id : String) (f : PeerFields) (p : PeerRecord)
    → refresh now f p ≡ updated now id f (some p)
unfolding refresh
refresh-updated now id f p =
    ap
      (λ cs. record {
        node_id = p.node_id;
        alias = kept_text p.alias f.alias;
        host = kept_text p.host f.host;
        port = if f.port == 0 then p.port else f.port;
        capabilities = cs;
        status = f.status;
        first_seen = p.first_seen;
        last_seen = now;
        version = kept_text p.version f.version;
      })
      (listed_lem f.capabilities p.capabilities)

pub fields_of-told : (port : ℕ) (p : CcPeer) → fields_of port p ≡ told port p
unfolding fields_of
fields_of-told port p =
    rw
      (
        given_lem p.alias "unknown",
        given_lem p.host "",
        given_lem p.capabilities (some []),
        given_lem p.status "unknown",
        given_lem p.version "",
      )
      refl

pub from_dict-saved_peer :
    (now : ℕ) (id : String) (s : SavedPeer) → from_dict now id s ≡ saved_peer now id s
unfolding from_dict
from_dict-saved_peer now id s =
    rw
      (
        given_lem s.alias "unknown",
        given_lem s.host "",
        given_lem s.port 0,
        given_lem s.capabilities [],
        given_lem s.status "unknown",
        given_lem s.first_seen now,
        given_lem s.last_seen now,
        given_lem s.version "",
      )
      refl

pub load_all-map_load :
    (now : ℕ) (ss : PeersFile) (m : List (String × PeerRecord)) (v : PeerMap)
    → ((j : String) → lookup j m ≡ v j)
    → (j : String) → lookup j (load_all now ss m) ≡ map_load now ss v j
unfolding load_all load_one map_load
load_all-map_load now [] m v h j = h j
load_all-map_load now (none ∷ ss) m v h j = load_all-map_load now ss m v h j
load_all-map_load now (some s ∷ ss) m v h j = elim (Option-cases s.node_id) [
  | inl unnamed ↦ rw (unnamed) (load_all-map_load now ss m v h j)
  | inr (id, named) ↦ rw (named) (
      load_all-map_load now ss (insert id (from_dict now id s) m)
        (assign id (some (saved_peer now id s)) v)
        (λ k.
          lookup-insert id k (from_dict now id s) m
          ∙ ap (λ o. if id == k then some (from_dict now id s) else o) (h k)
          ∙ ap (λ p. if id == k then some p else v k) (from_dict-saved_peer now id s))
        j)
]
