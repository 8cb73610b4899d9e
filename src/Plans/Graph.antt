-- ===== src/Plans/Graph.antt =====
-- crates/dandori-graph/src/lib.rs. A `BTreeSet` is the list of what has been inserted.
use dandori.Base.{
  String, Bool, true, false, not, ◌&&◌, ◌||◌, List, [], ◌∷◌, is_nil, any, ◌==◌, ◌≡◌, ◌≢◌, ◌↔◌, refl,
  arith, Outcome, ok, fail_if, ◌>>◌, All,
}
use dandori.Domain.Ids.{Uuid}
use dandori.Store.Table.{contains}

pub data CrateError : Type 0 where
  validation : String → CrateError

pub record GraphEdge : Type 0 where
  pub from : Uuid
  pub to : Uuid

pub record GraphSpec : Type 0 where
  pub nodes : List Uuid
  pub edges : List GraphEdge

abbrev pub same_edge : GraphEdge → GraphEdge → Bool
same_edge a b = a.from == b.from && a.to == b.to

unfoldable pub is_seen : GraphEdge → List GraphEdge → Bool
unfolding any
is_seen edge seen = any (same_edge edge) seen

-- The loop over the edges, with those before.
unfoldable pub check_edges : List Uuid → List GraphEdge → List GraphEdge → Outcome CrateError
unfolding contains is_seen
check_edges nodes seen [] = ok tt
check_edges nodes seen (edge ∷ edges) = do
  fail_if (edge.from == edge.to) (validation "self-loop edges are not allowed")
  fail_if (not (contains edge.from nodes) || not (contains edge.to nodes))
      (validation "edges must reference known nodes")
  fail_if (is_seen edge seen) (validation "duplicate directed edges are not allowed")
  check_edges nodes (edge ∷ seen) edges

unfoldable pub validate : GraphSpec → Outcome CrateError
unfolding check_edges
validate graph = do
  fail_if (is_nil graph.nodes) (validation "graph must contain at least one node")
  check_edges graph.nodes [] graph.edges

-- An edge between two different nodes of the graph.
pub record IsEdge (nodes : List Uuid) (edge : GraphEdge) : Type 0 where
  pub no_loop : edge.from ≢ edge.to
  pub from_known : contains edge.from nodes ≡ true
  pub to_known : contains edge.to nodes ≡ true

-- No edge stands twice.
abbrev pub IsDistinct : List GraphEdge → Type 0
IsDistinct [] = Unit
IsDistinct (edge ∷ edges) = All (λ other. other ≢ edge) edges × IsDistinct edges

same_edge_iff : (a b : GraphEdge) → (same_edge a b ≡ true) ↔ (a ≡ b)
same_edge_iff a b = ground arith

abbrev IsNew : List GraphEdge → GraphEdge → Type 0
IsNew seen edge = is_seen edge seen ≡ false

All-IsNew-cons :
    (edge : GraphEdge) (seen edges : List GraphEdge)
    → All (IsNew (edge ∷ seen)) edges
    → All (λ other. other ≢ edge) edges × All (IsNew seen) edges
unfolding is_seen any
All-IsNew-cons edge seen [] h = (tt, tt)
All-IsNew-cons edge seen (e ∷ es) h =
    let (distinct, new) = All-IsNew-cons edge seen es h.1 in
    ((λ same. ground (arith, h.0), distinct), (ground (arith, h.0), new))

All-IsNew-snoc :
    (edge : GraphEdge) (seen edges : List GraphEdge)
    → All (λ other. other ≢ edge) edges
    → All (IsNew seen) edges
    → All (IsNew (edge ∷ seen)) edges
unfolding is_seen any
All-IsNew-snoc edge seen [] h g = tt
All-IsNew-snoc edge seen (e ∷ es) h g =
    (ground (arith, same_edge_iff e edge, h.0, g.0), All-IsNew-snoc edge seen es h.1 g.1)

check_edges_sound :
    (nodes : List Uuid) (seen edges : List GraphEdge)
    → check_edges nodes seen edges ≡ ok tt
    → All (IsEdge nodes) edges × IsDistinct edges × All (IsNew seen) edges
unfolding check_edges
check_edges_sound nodes seen [] h = (tt, tt, tt)
check_edges_sound nodes seen (edge ∷ edges) h =
    let (known, distinct, new) = check_edges_sound nodes (edge ∷ seen) edges (ground arith) in
    let (others, unseen) = All-IsNew-cons edge seen edges new in
    let here : IsEdge nodes edge = ground arith in
    ((here, known), (others, distinct), (ground arith, unseen))

check_edges_complete :
    (nodes : List Uuid) (seen edges : List GraphEdge)
    → All (IsEdge nodes) edges
    → IsDistinct edges
    → All (IsNew seen) edges
    → check_edges nodes seen edges ≡ ok tt
unfolding check_edges
check_edges_complete nodes seen [] k d n = refl
check_edges_complete nodes seen (edge ∷ edges) k d n =
    let rest =
      check_edges_complete nodes (edge ∷ seen) edges k.1 d.1
        (All-IsNew-snoc edge seen edges d.0 n.1) in
    ground (arith, k.0, n.0)

All-IsNew : (edges : List GraphEdge) → All (IsNew []) edges
unfolding is_seen any
All-IsNew [] = tt
All-IsNew (e ∷ es) = (refl, All-IsNew es)

-- A graph is accepted exactly if it has a node, each edge joins two different nodes of it, and no
-- edge stands twice.
pub validate-simple :
    (graph : GraphSpec)
    → (validate graph ≡ ok tt)
      ↔ ((graph.nodes ≢ []) × All (IsEdge graph.nodes) graph.edges × IsDistinct graph.edges)
unfolding validate
validate-simple graph = (
  λ h. (
    λ e. ground arith,
    (check_edges_sound graph.nodes [] graph.edges (ground arith)).0,
    (check_edges_sound graph.nodes [] graph.edges (ground arith)).1,
  ),
  λ h.
      ground (
        arith,
        h.0,
        check_edges_complete graph.nodes [] graph.edges h.1 h.2 (All-IsNew graph.edges),
      ),
)
