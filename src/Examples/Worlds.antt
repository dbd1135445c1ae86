-- ===== src/Examples/Worlds.antt =====
-- A small world: a host that a solver sees, a database that it does not, and the ontology of both.
use open_range.Base.{[], ◌∷◌, true, none, some}
use open_range.Value.{str, null}
use open_range.Graph.{Node, Edge, WorldGraph, GraphPatch, public, hidden}
use open_range.Schema.{AttrSpec, AttrType, NodeKind, EdgeKind, Ontology}

abbrev pub web : Node
web = record {
  id = "web";
  kind = "host";
  attrs = ("name", str "web-1") ∷ [];
  roles = [];
  visibility = public;
  runtime = [];
  meta = [];
}

abbrev pub db : Node
db = record {
  id = "db";
  kind = "host";
  attrs = ("name", str "db-1") ∷ [];
  roles = [];
  visibility = hidden;
  runtime = [];
  meta = [];
}

abbrev pub link : Edge
link = record { id = "link"; kind = "connects"; src = "web"; dst = "db"; attrs = [] }

abbrev pub world : WorldGraph
world = record {
  ontology = "net";
  nodes = ("web", web) ∷ ("db", db) ∷ [];
  edges = ("link", link) ∷ [];
  meta = [];
}

abbrev pub name_spec : AttrSpec
name_spec = record {
  type = AttrType.string;
  required = true;
  enum = none;
  ref_kinds = none;
  default = null;
  description = "";
}

abbrev pub host : NodeKind
host = record {
  id = "host";
  parent = some "thing";
  attrs = ("name", name_spec) ∷ [];
  description = "";
}

-- A parent of itself: a cycle.
abbrev pub thing : NodeKind
thing = record { id = "thing"; parent = some "host"; attrs = []; description = "" }

abbrev pub connects : EdgeKind
connects = record {
  id = "connects";
  endpoints = ("host", "host") ∷ [];
  src_max = some 1;
  dst_max = none;
  attrs = [];
  description = "";
}

abbrev pub net : Ontology
net = record {
  id = "net";
  node_kinds = ("host", host) ∷ ("thing", thing) ∷ [];
  edge_kinds = ("connects", connects) ∷ [];
}

-- The database goes, and with it the link; a new host comes, with a link from it.
abbrev pub cache : Node
cache = record {
  id = "cache";
  kind = "host";
  attrs = ("name", str "cache-1") ∷ ("engine", str "redis") ∷ [];
  roles = [];
  visibility = public;
  runtime = [];
  meta = [];
}

abbrev pub cache_link : Edge
cache_link = record { id = "link2"; kind = "connects"; src = "cache"; dst = "web"; attrs = [] }

abbrev pub swap_patch : GraphPatch
swap_patch = record {
  nodes_added = cache ∷ [];
  nodes_updated = [];
  nodes_removed = "db" ∷ [];
  edges_added = cache_link ∷ [];
  edges_updated = [];
  edges_removed = [];
}

abbrev pub swapped : WorldGraph
swapped = record {
  ontology = "net";
  nodes = ("web", web) ∷ ("cache", cache) ∷ [];
  edges = ("link2", cache_link) ∷ [];
  meta = [];
}
