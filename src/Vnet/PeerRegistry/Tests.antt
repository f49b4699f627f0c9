-- ===== src/Vnet/PeerRegistry/Tests.antt =====
-- Runs of vnet/peer_registry.py's registry: two peers, added, aged, saved and loaded.

use aura_aioscpu.Prelude.{
  string_eq, nat_eq, has, IsUnique, lookup, ◌≡◌, refl, none, some, List, [], ◌∷◌,
}
use aura_aioscpu.Prelude.Json.{Json, IsFaithful}
use aura_aioscpu.Vnet.PeerRegistry.{
  PeerRecord, PeersFile, PeerRegistry, PeerFields, is_stale, refresh, values, CcPeer, fields_of,
  save, load, keep, stale,
}
use aura_aioscpu.Vnet.PeerRegistry.Keys.{
  IsKeyed, Call, add_call, remove_call, touch_call, merge_call, run, run-IsKeyed,
}
use aura_aioscpu.Vnet.PeerRegistry.Spec.{PeerMap}
use aura_aioscpu.Vnet.PeerRegistry.Map.{map_run, run-Represents}
use aura_aioscpu.Vnet.PeerRegistry.Files.{load-save_registry}

abbrev json : Json PeersFile PeersFile
json = record { dump = λ d. d; load = λ d. some d }

faithful : IsFaithful json
faithful = record { load_dump = λ d. refl }

abbrev fields : PeerFields
fields = record {
  alias = "unknown";
  host = "";
  port = 0;
  capabilities = none;
  status = "online";
  version = "";
}

abbrev phone : PeerRecord
phone = record {
  node_id = "n1";
  alias = "phone";
  host = "10.0.0.2";
  port = 7331;
  capabilities = "gpu" ∷ [];
  status = "unknown";
  first_seen = 10;
  last_seen = 10;
  version = "1";
}

abbrev desk : PeerRecord
desk = record phone { node_id = "n2"; alias = "desk"; last_seen = 400 }

abbrev two : PeerRegistry PeersFile
two = record { peers = ("n1", phone) ∷ ("n2", desk) ∷ []; file = none }

two-IsKeyed : IsKeyed two.peers
unfolding IsUnique has
two-IsKeyed = record { own_ids = (refl, (refl, tt)); unique = (refl, (refl, tt)) }

-- An update with the default alias overwrites the alias that is known, and keeps the host.
refresh_alias :
    refresh 500 fields phone
    ≡ record phone { alias = "unknown"; status = "online"; last_seen = 500 }
unfolding refresh
refresh_alias = refl

-- A response that leaves out the capabilities takes them away.
abbrev bare : CcPeer
bare = record {
  node_id = some "n1";
  alias = some "phone";
  host = none;
  port = none;
  capabilities = none;
  status = none;
  version = none;
}

merge_capabilities : (refresh 500 (fields_of 0 bare) phone).capabilities ≡ []
unfolding refresh fields_of
merge_capabilities = refl

-- 300 seconds after it has been seen, a peer is active; after 301 it is stale.
stale_late : stale 311 two ≡ phone ∷ []
unfolding stale keep values is_stale
stale_late = refl

stale_early : stale 310 two ≡ []
unfolding stale keep values is_stale
stale_early = refl

abbrev calls : List (Call PeersFile)
calls =
    add_call none 500 "n3" fields
    ∷ merge_call (some none) 600 (some bare ∷ none ∷ [])
    ∷ touch_call 700 "n2"
    ∷ remove_call none "n1"
    ∷ []

run-IsKeyed_example : IsKeyed (run json calls two).peers
run-IsKeyed_example = run-IsKeyed json calls two two-IsKeyed

abbrev view : PeerMap
view id = lookup id two.peers

run-Represents_example : lookup "n3" (run json calls two).peers ≡ map_run json calls view "n3"
run-Represents_example = run-Represents json calls two view (λ id. refl) "n3"

load-save_registry_example : load json 900 (save json none two).file ≡ save json none two
load-save_registry_example = load-save_registry json faithful 900 two two-IsKeyed
