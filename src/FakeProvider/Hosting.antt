-- ===== src/FakeProvider/Hosting.antt =====
-- A web whose requests the fake provider handles. The provider's state is what the requests made so
-- far have left. A network says which requests arrive and which answers come back, and has the
-- parser of a URL and the JSON codecs of the provider.
use Prim.Native.String.{◌++◌}
use foip_operator.Prelude.{ℕ, ℤ, pos, String, Option, none, some, [], ◌∷◌, ◌≡◌, refl}
use foip_operator.Prelude.Text.Decimal.{IsInt64}
use foip_operator.Netcup.{
  Web, Client, Trace, read_clock, pause, send, Method, Request, Response, Answer, unanswered,
  unread, answered, parsed,
}
use foip_operator.Netcup.Tasks.{addresses_path, find_path, route_path, route_body, task_path}
use foip_operator.FakeProvider.{
  Provider, Document, addresses, grant, task_started, task_state, Served, handle, task_name,
}

-- What becomes of a request: it is answered, it never arrives, its answer is lost, or the answer
-- breaks off.
pub data Delivery : Type 0 where
  delivered : Delivery
  unsent unheard cut_off : String → Delivery

pub record Network : Type 0 where
  pub delivery : Trace → Request → Delivery
  -- the clock of the provider
  pub server_clock : Trace → ℕ
  -- the path of a parsed URL
  pub path_of : String → String
  -- serverId of a decoded body
  pub server_of : Option String → Option ℤ
  -- what encoding/json writes
  pub write : Document → String

abbrev pub after_delivery : Delivery → Provider → Provider → Provider
after_delivery (unsent e) before handled = before
after_delivery _ before handled = handled

abbrev answer_of : Delivery → Response → Answer
answer_of delivered response = answered response
answer_of (unsent e) response = unanswered e
answer_of (unheard e) response = unanswered e
answer_of (cut_off e) response = unread e

module _ (net : Network) where
  abbrev pub written : Option Document → String
  written none = ""
  written (some document) = net.write document

  -- The provider's handling of a request.
  abbrev pub respond : ℕ → Method → String → Option String → Provider → Provider × Served
  respond now method url body p = handle now method (net.path_of url) (net.server_of body) p

  abbrev pub wire : Served → Response
  wire reply = record {
    status = reply.status;
    retry_after = reply.retry_after;
    body = written reply.document;
  }

  -- The provider's state behind the calls of a trace.
  unfoldable pub provider_after : Provider → Trace → Provider
  provider_after initial [] = initial
  provider_after initial (read_clock ∷ t) = provider_after initial t
  provider_after initial (pause ∷ t) = provider_after initial t
  provider_after initial (send r ∷ t) =
      let p = provider_after initial t in
      after_delivery (net.delivery t r) p (respond (net.server_clock t) r.method r.url r.body p).0

  pub provider_after-send :
      (initial : Provider) (r : Request) (t : Trace)
      → provider_after initial (send r ∷ t)
        ≡ after_delivery
            (net.delivery t r)
            (provider_after initial t)
            (respond (net.server_clock t) r.method r.url r.body (provider_after initial t)).0
  unfolding provider_after
  provider_after-send initial r t = refl

  -- A web with the provider behind it.
  abbrev pub hosted : Web → Provider → Web
  hosted base initial = record base {
    answer = λ t r.
        answer_of (net.delivery t r)
          (wire (respond (net.server_clock t) r.method r.url r.body (provider_after initial t)).1);
  }

  -- What the refinement relies on: the URLs that the client builds have the paths that it means,
  -- and either side of the JSON codecs reads what the other has written.
  pub record Speaks (web : Web) (client : Client) : Type 0 where
    pub token_path : net.path_of client.token_url ≡ "/token"
    pub find_at :
        (ip : String)
        → net.path_of (client.scp_base ++ find_path web client ip) ≡ addresses_path web client
    pub route_at :
        (foip_id : ℤ)
        → net.path_of (client.scp_base ++ route_path web client foip_id)
          ≡ route_path web client foip_id
    pub task_at :
        (n : ℤ)
        → net.path_of (client.scp_base ++ task_path web client (task_name n))
          ≡ task_path web client (task_name n)
    pub server_read :
        (server : ℤ)
        → IsInt64 server
        → net.server_of (some (route_body web client server)) ≡ some server
    pub grant_read :
        web.token_of (net.write (grant "fake-token" (pos 3600))) ≡ parsed ("fake-token", pos 3600)
    pub addresses_read :
        (server : ℤ)
        → IsInt64 server
        → web.addresses_of (net.write (addresses ((pos 17, some server) ∷ [])))
          ≡ parsed ((pos 17, some server) ∷ [])
    pub unrouted_read :
        web.addresses_of (net.write (addresses ((pos 17, none) ∷ [])))
        ≡ parsed ((pos 17, none) ∷ [])
    pub task_read :
        (n : ℤ) → web.task_of (net.write (task_started (task_name n))) ≡ parsed (task_name n)
    pub state_read :
        (state : String) → web.state_of (net.write (task_state state)) ≡ parsed (state, "")
