-- ===== src/Tests/Plans.antt =====
-- Graphs and workflows that are accepted.
use dandori.Base.{◌≡◌, ◌≢◌, ◌↔◌, [], ◌∷◌, All, ok, err, refl}
use dandori.Plans.Graph.{
  GraphEdge, GraphSpec, IsEdge, IsDistinct, validate, validate-simple, validation,
}

abbrev edge : GraphEdge
edge = record { from = 1; to = 2 }

abbrev back : GraphEdge
back = record { from = 2; to = 1 }

abbrev graph : GraphSpec
graph = record { nodes = 1 ∷ 2 ∷ []; edges = edge ∷ back ∷ [] }

accepted : validate graph ≡ ok tt
unfolding validate
accepted = refl

repeated :
    validate (record { nodes = 1 ∷ 2 ∷ []; edges = edge ∷ back ∷ edge ∷ [] })
    ≡ err (validation "duplicate directed edges are not allowed")
unfolding validate
repeated = refl

validate-simple_example :
    (validate graph ≡ ok tt)
    ↔ ((graph.nodes ≢ []) × All (IsEdge graph.nodes) graph.edges × IsDistinct graph.edges)
validate-simple_example = validate-simple graph
