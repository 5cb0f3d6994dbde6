-- ===== src/FakeProvider/Listing.antt =====
-- What FindFailoverIP finds behind the web of the fake provider.
use Prim.Native.String.{◌++◌}
use foip_operator.Prelude.{
  ℕ, ◌==◌, ℤ, pos, eqb_ℤ, eqb_ℤ_iff, String, not, Bool-cases, Option, none, [], ◌∷◌, inl, inr, ◌≡◌,
  refl, ap, arith, if◌then◌else◌,
}
use foip_operator.Prelude.Text.Prefix.{has_prefix-append}
use foip_operator.Prelude.Text.Decimal.{IsInt64}
use foip_operator.Netcup.Errors.{classify_http_error}
use foip_operator.Netcup.{
  Web, Client, Memory, Method, get, Response, Reply, value, Act, parsed, rejected, perform, pure,
  or_fail,
}
use foip_operator.Netcup.Tasks.{find_path, server_or_zero, first_address, find_failover_ip}
use foip_operator.FakeProvider.{
  Provider, Document, write_json, server_of_owner, list_addresses, api, handle,
}
use foip_operator.FakeProvider.Hosting.{Network, respond, wire, provider_after, Speaks}
use foip_operator.FakeProvider.Effects.{
  Effect, handled, skipped, lost, web, behind, Keeps, or_fail-Keeps, perform-Effect, get-Keeps,
}

server_or_zero-of :
    (owner : ℤ) (web : Web) (client : Client)
    → server_or_zero web client (server_of_owner owner) ≡ owner
unfolding server_of_owner
server_or_zero-of owner web client = ground (arith, eqb_ℤ_iff owner (pos 0))

pub handle-users :
    (at : ℕ) (method : Method) (rest : String) (s : Option ℤ) (p : Provider)
    → handle at method ("/api/v1/users/" ++ rest) s p ≡ api at method s p
unfolding handle
handle-users at method rest s p = rw (has_prefix-append "/api/v1/users/" rest) refl

module _ (net : Network) (base : Web) (initial : Provider) (client : Client)
    (speaks : Speaks net base client) where
  respond-find :
      (at : ℕ) (ip : String) (body : Option String) (p : Provider)
      → respond net at get (client.scp_base ++ find_path base client ip) body p
        ≡ (p, list_addresses p)
  unfolding api
  respond-find at ip body p = rw (speaks.find_at ip) (handle-users at get _ _ p)

  addresses_read :
      (owner : ℤ)
      → IsInt64 owner
      → base.addresses_of (net.write (Document.addresses ((pos 17, server_of_owner owner) ∷ [])))
        ≡ parsed ((pos 17, server_of_owner owner) ∷ [])
  unfolding server_of_owner
  addresses_read owner small = elim (Bool-cases (eqb_ℤ owner (pos 0))) [
    | inl e ↦ rw e speaks.unrouted_read
    | inr e ↦ rw e (speaks.addresses_read owner small)
  ]

  -- What the client reads in the provider's list is its owner.
  first_address-listed :
      (ip : String) (p : Provider)
      → IsInt64 p.owner
      → first_address base client ip (base.addresses_of (wire net (list_addresses p)).body)
        ≡ value (pos 17, p.owner)
  unfolding list_addresses write_json first_address
  first_address-listed ip p small =
      rw (addresses_read p.owner small)
        (ap (λ o. value (pos 17, o)) (server_or_zero-of p.owner base client))

  module _ (ip : String) where
    read_listing : Response → Act (Reply (ℤ × ℤ))
    read_listing response =
        if not (response.status == 200)
        then rejected (web net base initial client) client response
            (classify_http_error response.status)
        else pure (
            first_address (web net base initial client) client ip (base.addresses_of response.body))

    read_listing-Keeps :
        (response : Response) → Keeps net base initial client (read_listing response)
    unfolding read_listing rejected provider_after
    read_listing-Keeps response m = elim (Bool-cases (response.status == 200)) [
      | inl good ↦ rw good refl
      | inr bad ↦ rw bad refl
    ]

    read_listed :
        (p : Provider) (m : Memory)
        → IsInt64 p.owner
        → (read_listing (wire net (list_addresses p)) m).0 ≡ value (pos 17, p.owner)
    unfolding read_listing list_addresses write_json first_address
    read_listed p m small = first_address-listed ip p small

    read-Effect :
        (p later : Provider) (reply : Reply Response) (m : Memory)
        → IsInt64 p.owner
        → Effect net base initial client p get
            (client.scp_base ++ find_path base client ip)
            none
            reply
            later
        → (found : ℤ × ℤ) → (or_fail reply read_listing m).0 ≡ value found
        → found ≡ (pos 17, p.owner)
    unfolding read_listing
    read-Effect p later _ m small (handled at) found h =
        cc (rw (respond-find at ip none p) at h, read_listed p m small)
    read-Effect p later _ m small skipped found h = cc h
    read-Effect p later _ m small (lost at) found h = cc h

    -- FindFailoverIP leaves the provider as it is, and what it finds is the owner.
    pub find-owner :
        (m : Memory)
        → IsInt64 (behind net base initial client m).owner
        → (behind net base initial client
              (find_failover_ip (web net base initial client) client ip m).1
            ≡ behind net base initial client m)
          × ((found : ℤ × ℤ)
              → (find_failover_ip (web net base initial client) client ip m).0 ≡ value found
              → found ≡ (pos 17, (behind net base initial client m).owner))
    unfolding find_failover_ip read_listing
    find-owner m small =
        let asked =
          perform (web net base initial client) client get (find_path base client ip) none in
        let effect = λ (s : Memory).
          perform-Effect net base initial client speaks.token_path get (find_path base client ip)
            none s in
        (
          or_fail-Keeps net base initial client asked read_listing
              (λ s. get-Keeps net base initial client speaks.token_path _ none _ _ _ (effect s))
              read_listing-Keeps m,
          read-Effect (behind net base initial client m) _ (asked m).0 (asked m).1 small (effect m),
        )
