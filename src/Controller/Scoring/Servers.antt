-- ===== src/Controller/Scoring/Servers.antt =====
-- The node of a server: its annotation reads back as the server that the provider reports.
use foip_operator.Prelude.{
  ℤ, some, List, [], ◌∷◌, ◌≡◌, sym, ap, ◌∙◌, Bool-cases, inl, inr, str_eq, str_eq_iff,
}
use foip_operator.Prelude.Text.{itoa, atoi, sscanf_int}
use foip_operator.Prelude.Text.Decimal.{IsInt64, atoi-itoa, sscanf_int-itoa}
use foip_operator.Controller.Node.{Node}
use foip_operator.Controller.Scoring.{node_for_server_id}

node_for_server_id-annotation :
    (nodes : List Node) (id : ℤ) (n : Node)
    → node_for_server_id nodes id ≡ some n
    → n.server_id ≡ itoa id
unfolding node_for_server_id
node_for_server_id-annotation [] id n h = absurd (cc h)
node_for_server_id-annotation (m ∷ ms) id n h = elim (Bool-cases (str_eq m.server_id (itoa id))) [
  | inl found ↦
      let same : m ≡ n = cc (rw (found, node_for_server_id) at h) in
      ap (λ k. k.server_id) (sym same) ∙ (str_eq_iff m.server_id (itoa id)).0 found
  | inr other ↦ node_for_server_id-annotation ms id n (rw (other, node_for_server_id) at h)
]

-- The node that is found for a server reads back as this server: both conversions of its annotation,
-- the one before a route and the one before a rollback, give the number that was looked up, for
-- every int of 64 bits.
pub node_for_server_id-reads :
    (nodes : List Node) (id : ℤ) (n : Node)
    → IsInt64 id
    → node_for_server_id nodes id ≡ some n
    → (sscanf_int n.server_id ≡ some id) × (atoi n.server_id ≡ some id)
node_for_server_id-reads nodes id n fits h =
    let written = node_for_server_id-annotation nodes id n h in
    (ap sscanf_int written ∙ sscanf_int-itoa id fits, ap atoi written ∙ atoi-itoa id fits)
