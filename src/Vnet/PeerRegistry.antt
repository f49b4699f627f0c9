-- ===== src/Vnet/PeerRegistry.antt =====
-- The peer registry of vnet/peer_registry.py. Times are whole seconds. The values of a JSON object are
-- of the types of the fields that they set; a write of the file that fails is an argument.
pub mod Map
pub mod Spec
pub mod Keys
pub mod Files
pub mod Ages
mod Tests
use mathlib.Core.Option
use aura_aioscpu.Prelude.{
  ltb, if◌then◌else◌, string_eq, nat_eq, ◌==◌, length, lookup, insert, erase, has_key, Outcome, ok,
  raise, ℕ, ◌+◌, ◌-◌, String, Bool, true, false, not, Option, none, some, List, [], ◌∷◌, map,
}
use aura_aioscpu.Prelude.Text.{is_empty}
use aura_aioscpu.Prelude.Json.{Json}

abbrev pub peer_stale_s : ℕ
peer_stale_s = 300

pub record PeerRecord : Type 0 where
  pub node_id : String
  pub alias : String
  pub host : String
  pub port : ℕ
  pub capabilities : List String
  pub status : String
  pub first_seen : ℕ
  pub last_seen : ℕ
  pub version : String

-- An object of the file; keys may be missing.
pub record SavedPeer : Type 0 where
  pub node_id : Option String
  pub alias : Option String
  pub host : Option String
  pub port : Option ℕ
  pub capabilities : Option (List String)
  pub status : Option String
  pub first_seen : Option ℕ
  pub last_seen : Option ℕ
  pub version : Option String

-- The list in the file; `none` stands for an element that is not an object.
abbrev pub PeersFile : Type 0
PeersFile = List (Option SavedPeer)

-- The peers, and what `peers.json` holds, where it exists.
pub record PeerRegistry (B : Type 0) : Type 0 where
  pub peers : List (String × PeerRecord)
  pub file : Option B

-- The arguments of `add_or_update` but the id; capabilities may be None.
pub record PeerFields : Type 0 where
  pub alias : String
  pub host : String
  pub port : ℕ
  pub capabilities : Option (List String)
  pub status : String
  pub version : String

unfoldable pub is_stale : ℕ → PeerRecord → Bool
is_stale now p = ltb peer_stale_s (now - p.last_seen)

unfoldable pub touch_peer : ℕ → PeerRecord → PeerRecord
touch_peer now p = record p { last_seen = now }

-- `a or b` on texts
abbrev pub or_text : String → String → String
or_text a b = if is_empty a then b else a

abbrev pub default {ℓ} : {A : Type ℓ} → A → Option A → A
default a none = a
default a (some b) = b

unfoldable pub refresh : ℕ → PeerFields → PeerRecord → PeerRecord
refresh now f p = record p {
  alias = or_text f.alias p.alias;
  host = or_text f.host p.host;
  port = if f.port == 0 then p.port else f.port;
  capabilities = default p.capabilities f.capabilities;
  status = f.status;
  version = or_text f.version p.version;
  last_seen = now;
}

unfoldable pub new_peer : ℕ → String → PeerFields → PeerRecord
new_peer now id f = record {
  node_id = id;
  alias = f.alias;
  host = f.host;
  port = f.port;
  capabilities = default [] f.capabilities;
  status = f.status;
  first_seen = now;
  last_seen = now;
  version = f.version;
}

unfoldable pub values : List (String × PeerRecord) → List PeerRecord
values m = map (λ e. e.1) m

unfoldable pub to_dict : PeerRecord → SavedPeer
to_dict p = record {
  node_id = some p.node_id;
  alias = some p.alias;
  host = some p.host;
  port = some p.port;
  capabilities = some p.capabilities;
  status = some p.status;
  first_seen = some p.first_seen;
  last_seen = some p.last_seen;
  version = some p.version;
}

unfoldable pub to_list : List (String × PeerRecord) → PeersFile
to_list m = map (λ p. some (to_dict p)) (values m)

-- The record of a saved peer that has an id: the keys that are missing take their defaults.
unfoldable pub from_dict : ℕ → String → SavedPeer → PeerRecord
from_dict now id s = record {
  node_id = id;
  alias = default "unknown" s.alias;
  host = default "" s.host;
  port = default 0 s.port;
  capabilities = default [] s.capabilities;
  status = default "unknown" s.status;
  first_seen = default now s.first_seen;
  last_seen = default now s.last_seen;
  version = default "" s.version;
}

unfoldable pub load_one :
    ℕ → Option SavedPeer → List (String × PeerRecord) → List (String × PeerRecord)
load_one now none m = m
load_one now (some s) m = elim s.node_id [ none ↦ m | some id ↦ insert id (from_dict now id s) m ]

unfoldable pub load_all : ℕ → PeersFile → List (String × PeerRecord) → List (String × PeerRecord)
load_all now [] m = m
load_all now (s ∷ ss) m = load_all now ss (load_one now s m)

-- An object of the registration response; a port that `int` does not read is `some none`.
pub record CcPeer : Type 0 where
  pub node_id : Option String
  pub alias : Option String
  pub host : Option String
  pub port : Option (Option ℕ)
  pub capabilities : Option (Option (List String))
  pub status : Option String
  pub version : Option String

unfoldable pub fields_of : ℕ → CcPeer → PeerFields
fields_of port p = record {
  alias = default "unknown" p.alias;
  host = default "" p.host;
  port = port;
  capabilities = default (some []) p.capabilities;
  status = default "unknown" p.status;
  version = default "" p.version;
}

module _ {B : Type 0} (json : Json PeersFile B) where
  -- `some` fault: the write fails and leaves that file.
  unfoldable pub save : Option (Option B) → PeerRegistry B → PeerRegistry B
  save none r = record r { file = some (json.dump (to_list r.peers)) }
  save (some left) r = record r { file = left }

  -- `__init__` on the file that is there
  unfoldable pub load : ℕ → Option B → PeerRegistry B
  load now none = record { peers = []; file = none }
  load now (some text) = record {
    peers = elim (json.load text) [ none ↦ [] | some ss ↦ load_all now ss [] ];
    file = some text;
  }

  unfoldable pub store : String → PeerRecord → PeerRegistry B → PeerRegistry B
  store id p r = record r { peers = insert id p r.peers }

  unfoldable pub add_or_update :
      Option (Option B) → ℕ → String → PeerFields → PeerRegistry B → PeerRecord × PeerRegistry B
  add_or_update fault now id f r = elim (lookup id r.peers) [
    | some p ↦ (refresh now f p, save fault (store id (refresh now f p) r))
    | none ↦ (new_peer now id f, save fault (store id (new_peer now id f) r))
  ]

  unfoldable pub remove : Option (Option B) → String → PeerRegistry B → Bool × PeerRegistry B
  remove fault id r =
      if has_key id r.peers
      then (true, save fault (record r { peers = erase id r.peers }))
      else (false, r)

  -- `touch` does not save.
  unfoldable pub touch : ℕ → String → PeerRegistry B → Bool × PeerRegistry B
  touch now id r = elim (lookup id r.peers) [
    | none ↦ (false, r)
    | some p ↦ (true, store id (touch_peer now p) r)
  ]

  -- `none` stands for an element that is not an object; the exception is `int`'s `ValueError`.
  unfoldable pub merge_from_cc :
      Option (Option B)
      → ℕ
      → List (Option CcPeer)
      → ℕ
      → PeerRegistry B
      → Outcome (Unit {0}) ℕ × PeerRegistry B
  merge_from_cc fault now [] count r = (ok count, r)
  merge_from_cc fault now (none ∷ ps) count r = merge_from_cc fault now ps count r
  merge_from_cc fault now (some p ∷ ps) count r =
      if is_empty (default "" p.node_id)
      then merge_from_cc fault now ps count r
      else elim (default (some 0) p.port) [
        | none ↦ (raise tt, r)
        | some port ↦
            merge_from_cc fault now ps (count + 1)
              (add_or_update fault now (default "" p.node_id) (fields_of port p) r).1
      ]

unfoldable pub keep : (PeerRecord → Bool) → List PeerRecord → List PeerRecord
keep test [] = []
keep test (p ∷ ps) = if test p then p ∷ keep test ps else keep test ps

module _ {B : Type 0} where
  unfoldable pub get : String → PeerRegistry B → Option PeerRecord
  get id r = lookup id r.peers

  -- `all`
  unfoldable pub all_peers : PeerRegistry B → List PeerRecord
  all_peers r = values r.peers

  unfoldable pub active : ℕ → PeerRegistry B → List PeerRecord
  active now r = keep (λ p. not (is_stale now p)) (values r.peers)

  unfoldable pub stale : ℕ → PeerRegistry B → List PeerRecord
  stale now r = keep (is_stale now) (values r.peers)

  unfoldable pub count : PeerRegistry B → ℕ
  count r = length r.peers
