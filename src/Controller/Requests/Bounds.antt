-- ===== src/Controller/Requests/Bounds.antt =====
-- Each of the client's methods sends one request.
use janus_idp_operator.Prelude.{ℕ, [], ◌∷◌, arith}
use janus_idp_operator.Prelude.Counting.{length, length-append}
use janus_idp_operator.Kube.{Kind}
use janus_idp_operator.Controller.Exec.Costs.{Costs}
use janus_idp_operator.Controller.Requests.{
  Server, History, Request, NamespacedName, get_config_map, get_object, send_get_config_map,
  send_get_object, send_write,
}

-- How many requests were sent.
abbrev pub sent : History → ℕ
sent = length

module _ (s : Server) where
  pub send_get_config_map-Costs : (n : NamespacedName) → Costs sent 1 (send_get_config_map s n)
  unfolding send_get_config_map
  send_get_config_map-Costs n = record {
    spends = λ h. omega (arith, length-append h (get_config_map n ∷ []));
  }

  pub send_get_object-Costs : (k : Kind) (n : NamespacedName) → Costs sent 1 (send_get_object s k n)
  unfolding send_get_object
  send_get_object-Costs k n = record {
    spends = λ h. omega (arith, length-append h (get_object k n ∷ []));
  }

  pub send_write-Costs : (r : Request) → Costs sent 1 (send_write s r)
  unfolding send_write
  send_write-Costs r = record { spends = λ h. omega (arith, length-append h (r ∷ [])) }
