-- ===== src/Pipeline/Edges.antt =====
-- What buildEdges of internal/usecase/analysis/analysisPipeline.go leaves in the tables.
use synthy.Prelude.{String, ◌≡◌, arith, List, [], ◌∷◌, some, Dict, Member, Member-append_left}
use synthy.Model.{File, Symbol, CallEdge, ImportEdge}
use synthy.Db.{Db, insert_file, insert_symbol, insert_call_edge, insert_import_edge}
use synthy.World.{World, Env}
use synthy.World.Growth.{Extends}
use synthy.Packages.{Package}
use synthy.Vectors.{Wiring}
use synthy.Pipeline.{build_edges}
use synthy.Pipeline.Growth.{build_edges-Keeps}

abbrev HasEdges : List CallEdge → List ImportEdge → Db → Type 0
HasEdges calls imports db =
    ((e : CallEdge) → Member e calls → Member e db.call_edges)
    × ((e : ImportEdge) → Member e imports → Member e db.import_edges)

insert_call_edge-HasEdges :
    (calls : List CallEdge) (imports : List ImportEdge) (r : CallEdge) (db db' : Db)
    → insert_call_edge r db ≡ some db'
    → HasEdges calls imports db
    → HasEdges calls imports db'
unfolding insert_call_edge
insert_call_edge-HasEdges calls imports r db db' q h = (
  λ e m. ground (arith, Member-append_left e db.call_edges (r ∷ []) (h.0 e m)),
  λ e m. ground (arith, h.1 e m),
)

insert_import_edge-HasEdges :
    (calls : List CallEdge) (imports : List ImportEdge) (r : ImportEdge) (db db' : Db)
    → insert_import_edge r db ≡ some db'
    → HasEdges calls imports db
    → HasEdges calls imports db'
unfolding insert_import_edge
insert_import_edge-HasEdges calls imports r db db' q h = (
  λ e m. ground (arith, h.0 e m),
  λ e m. ground (arith, Member-append_left e db.import_edges (r ∷ []) (h.1 e m)),
)

HasEdges-Extends :
    (calls : List CallEdge) (imports : List ImportEdge) → Extends (HasEdges calls imports)
unfolding insert_file insert_symbol
HasEdges-Extends calls imports = record {
  file = λ r. record {
    at = λ db db' q h. (λ e m. ground (arith, h.0 e m), λ e m. ground (arith, h.1 e m));
  };
  symbol = λ r. record {
    at = λ db db' q h. (λ e m. ground (arith, h.0 e m), λ e m. ground (arith, h.1 e m));
  };
  call_edge = λ r. record { at = insert_call_edge-HasEdges calls imports r };
  import_edge = λ r. record { at = insert_import_edge-HasEdges calls imports r };
}

-- Building the edges removes none: every call edge and every import edge that was stored before is
-- stored afterwards, whatever the packages hold and whether the run succeeds or fails.
pub build_edges_keeps_edges :
    (env : Env) (wiring : Wiring) (id : String) (files : Dict File) (symbols : Dict Symbol)
    (pkgs : List Package) (w : World)
    → ((e : CallEdge)
        → Member e w.db.call_edges
        → Member e (build_edges env wiring id files symbols pkgs w).1.db.call_edges)
      × ((e : ImportEdge)
          → Member e w.db.import_edges
          → Member e (build_edges env wiring id files symbols pkgs w).1.db.import_edges)
build_edges_keeps_edges env wiring id files symbols pkgs w =
    (build_edges-Keeps env wiring (HasEdges w.db.call_edges w.db.import_edges)
        (HasEdges-Extends w.db.call_edges w.db.import_edges) id files symbols pkgs).at
      w (λ e m. m, λ e m. m)
