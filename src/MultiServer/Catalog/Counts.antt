-- ===== src/MultiServer/Catalog/Counts.antt =====
-- multi_server.py: the servers of a catalog, and how many resources each of them has there.
use ge360_bridge.Base.{ℕ, ◌≡◌, List, map, keep, All, length}
use ge360_bridge.Base.Text.{Text, text_eq}
use ge360_bridge.MultiServer.Snapshot.{Snapshot}
use ge360_bridge.MultiServer.Catalog.{CatalogResource, ServerEntry, Catalog}

-- How many of the resources are of the server with that id.
abbrev pub count_of : Text → List CatalogResource → ℕ
count_of id rs = length (keep (λ (r : CatalogResource). text_eq r.server_id id) rs)

-- Resources that are all of one server.
abbrev AreOf : Text → List CatalogResource → Type 0
AreOf a = All (λ (r : CatalogResource). r.server_id ≡ a)

-- The entry of a server and its resources: of that server, and as many as the entry says.
abbrev IsPart : Text → ServerEntry × List CatalogResource → Type 0
IsPart a p = (p.0.server_id ≡ a) × AreOf a p.1 × (length p.1 ≡ p.0.resource_count)

-- The counts of the entries are those of the resources.
abbrev pub IsCounted : List CatalogResource → List ServerEntry → Type 0
IsCounted rs = All (λ (e : ServerEntry). count_of e.server_id rs ≡ e.resource_count)

abbrev pub entry_ids : List ServerEntry → List Text
entry_ids = map (λ (e : ServerEntry). e.server_id)
