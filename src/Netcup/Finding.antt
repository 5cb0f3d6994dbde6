-- ===== src/Netcup/Finding.antt =====
-- What FindFailoverIP returns is what the provider answered.
use foip_operator.Prelude.{
  ℤ, ◌==◌, String, true, none, Option, Bool-cases, inl, inr, List, [], ◌∷◌, ◌≡◌, refl, ap, ◌∙◌,
}
use foip_operator.Netcup.{
  Web, Client, value, Memory, get, Response, rejected, perform, Parsed, parsed, malformed,
}
use foip_operator.Netcup.Sending.{Sent, perform-Sent, or_fail-value}
use foip_operator.Netcup.Tasks.{find_path, server_or_zero, first_address, find_failover_ip}

module _ (web : Web) (client : Client) where
  first_address-listed :
      (ip : String) (read : Parsed (List (ℤ × Option ℤ))) (found : ℤ × ℤ)
      → first_address web client ip read ≡ value found
      → (address : ℤ × Option ℤ) × (rest : List (ℤ × Option ℤ)) × (read ≡ parsed (address ∷ rest))
        × (found ≡ (address.0, server_or_zero web client address.1))
  unfolding first_address
  first_address-listed ip (malformed e) found h = absurd (cc h)
  first_address-listed ip (parsed []) found h = absurd (cc h)
  first_address-listed ip (parsed (address ∷ rest)) found h = (address, rest, refl, cc h)

  -- FindFailoverIP returns an address and a server only as they are in the answer: its last call is
  -- the query for the address, under the token that the client held, answered with 200 and a list
  -- whose first entry has that id and that server, or no server and the server is 0.
  pub find_failover_ip-listed :
      (ip : String) (m later : Memory) (found : ℤ × ℤ)
      → find_failover_ip web client ip m ≡ (value found, later)
      → (response : Response) × (address : ℤ × Option ℤ) × (rest : List (ℤ × Option ℤ)) × Sent web
          client get
          (find_path web client ip)
          none
          response
          later
        × ((response.status == 200) ≡ true)
        × (web.addresses_of response.body ≡ parsed (address ∷ rest))
        × (found ≡ (address.0, server_or_zero web client address.1))
  unfolding find_failover_ip rejected
  find_failover_ip-listed ip m later found h =
      let act = perform web client get (find_path web client ip) none in
      let (response, got, rest) = or_fail-value act _ m later found h in
      elim (Bool-cases (response.status == 200)) [
        | inr bad ↦ absurd (cc (rw bad at rest))
        | inl good ↦
            let kept : (first_address web client ip (web.addresses_of response.body), (act m).1)
                ≡ (value found, later) =
              rw good at rest in
            let (address, others, listed, same) =
              first_address-listed ip (web.addresses_of response.body) found (ap (λ r. r.0) kept) in
            (
              response,
              address,
              others,
              perform-Sent web client get _ _ m later response
                  (ap (λ r. (r, (act m).1)) got ∙ ap (λ r. (value response, r.1)) kept),
              good,
              listed,
              same,
            )
      ]
