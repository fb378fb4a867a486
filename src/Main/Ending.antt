-- ===== src/Main/Ending.antt =====
-- How main ends.
use janus_idp_operator.Prelude.{
  Bool, none, some, List, [], ◌∷◌, ◌++◌, ◌≡◌, refl, All, Option-cases, inl, inr,
}
use janus_idp_operator.GoError.{Outcome, ok, err, panic}
use janus_idp_operator.Utils.{has_route_group}
use janus_idp_operator.Controller.Exec.{Exec, ◌>>=◌, ◌>>◌}
use janus_idp_operator.Main.{
  Flags, Call, get_config, new_manager, get_discovery_config, new_discovery_client, server_groups,
  Builder, complete, add_healthz_check, add_readyz_check, start, Host, manager_options,
  new_reconciler, call, is_openshift, setup_with_manager, main,
}

-- Only the Backstage resources are watched.
abbrev pub backstage_builder : Builder
backstage_builder = record { for_kind = "Backstage"; owned_kinds = [] }

-- The calls of a start without an error, with the options and the reconciler written out: the
-- address of the metrics, the port of the webhooks, the address of the probes, whether there is a
-- leader election and its identifier; whether the objects are owned, the namespace and whether the
-- cluster is one of OpenShift.
unfoldable pub plan : Flags → Bool → List Call
plan flags openshift =
    get_config
    ∷ new_manager (record {
      metrics_bind_address = flags.metrics_addr;
      webhook_port = 9443;
      health_probe_bind_address = flags.probe_addr;
      leader_election = flags.enable_leader_election;
      leader_election_id = "06bdbdd5.rhdh.redhat.com";
    })
    ∷ get_discovery_config
    ∷ new_discovery_client
    ∷ server_groups
    ∷ complete backstage_builder
        (record { owns_runtime = flags.own_runtime; namespace = ""; is_openshift = openshift })
    ∷ add_healthz_check "healthz"
    ∷ add_readyz_check "readyz"
    ∷ start
    ∷ []

module _ (host : Host) where
  abbrev AllAnswered : List Call → Type 0
  AllAnswered = All (λ c. host.answer c ≡ none)

  AllAnswered-snoc :
      (cs : List Call) (c : Call)
      → AllAnswered cs
      → host.answer c ≡ none
      → AllAnswered (cs ++ c ∷ [])
  AllAnswered-snoc [] c all e = (e, tt)
  AllAnswered-snoc (d ∷ ds) c (e, all) q = (e, AllAnswered-snoc ds c all q)

  -- Main returns after all calls of the plan, or it exits on the first call that fails.
  abbrev pub Ends : List Call → Outcome (Unit {0}) × List Call → Type 0
  Ends wanted (ok a, calls) = (calls ≡ wanted) × AllAnswered calls
  Ends wanted (err e, calls) =
      (before : List Call) × (c : Call) × (calls ≡ before ++ c ∷ [])
      × (host.answer c ≡ some e)
      × AllAnswered before
  Ends wanted (panic, calls) = ⊥

  call-Ends :
      (wanted : List Call) (c : Call) (next : Exec (List Call) (Unit {0})) (calls : List Call)
      → AllAnswered calls
      → (AllAnswered (calls ++ c ∷ []) → Ends wanted (next (calls ++ c ∷ [])))
      → Ends wanted ((call host c >> next) calls)
  unfolding call
  call-Ends wanted c next calls all k = elim (Option-cases (host.answer c)) [
    | inl e ↦ rw e (k (AllAnswered-snoc calls c all e))
    | inr (x, e) ↦ rw e (calls, c, refl, e, all)
  ]

  last-Ends :
      (wanted : List Call) (c : Call) (calls : List Call)
      → AllAnswered calls
      → calls ++ c ∷ [] ≡ wanted
      → Ends wanted (call host c calls)
  unfolding call
  last-Ends wanted c calls all same = elim (Option-cases (host.answer c)) [
    | inl e ↦ rw e (same, AllAnswered-snoc calls c all e)
    | inr (x, e) ↦ rw e (calls, c, refl, e, all)
  ]

  -- The calls after those of isOpenshift.
  abbrev discovered : List Call → List Call
  discovered calls =
      ((calls ++ get_discovery_config ∷ []) ++ new_discovery_client ∷ []) ++ server_groups ∷ []

  is_openshift-Ends :
      (wanted : List Call) (next : Bool → Exec (List Call) (Unit {0})) (calls : List Call)
      → AllAnswered calls
      → (AllAnswered (discovered calls)
          → Ends wanted (next (has_route_group host.api_groups) (discovered calls)))
      → Ends wanted ((is_openshift host >>= next) calls)
  unfolding is_openshift call
  is_openshift-Ends wanted next calls all k =
      let calls₁ = calls ++ get_discovery_config ∷ [] in
      let calls₂ = calls₁ ++ new_discovery_client ∷ [] in
      elim (Option-cases (host.answer get_discovery_config)) [
        | inr (x, e₁) ↦ rw e₁ (calls, get_discovery_config, refl, e₁, all)
        | inl e₁ ↦
            let all₁ = AllAnswered-snoc calls get_discovery_config all e₁ in
            elim (Option-cases (host.answer new_discovery_client)) [
              | inr (x, e₂) ↦ rw (e₁, e₂) (calls₁, new_discovery_client, refl, e₂, all₁)
              | inl e₂ ↦
                  let all₂ = AllAnswered-snoc calls₁ new_discovery_client all₁ e₂ in
                  elim (Option-cases (host.answer server_groups)) [
                    | inr (x, e₃) ↦ rw (e₁, e₂, e₃) (calls₂, server_groups, refl, e₃, all₂)
                    | inl e₃ ↦ rw (e₁, e₂, e₃) (k (AllAnswered-snoc calls₂ server_groups all₂ e₃))
                  ]
            ]
      ]

  -- Main makes its calls in the order of the plan, up to the first that fails: it returns only after
  -- all of them, with a manager that has the options of the flags and the port 9443, with a controller that watches the Backstage resources and nothing else, whose
  -- reconciler owns the objects as the flag says, is not bound to a namespace and knows whether the
  -- cluster has the route group, and otherwise it exits with the error of the last call that it
  -- made. It does not panic.
  pub main-Ends :
      (flags : Flags) → Ends (plan flags (has_route_group host.api_groups)) (main host flags [])
  unfolding main plan setup_with_manager manager_options new_reconciler
  main-Ends flags =
      let wanted = plan flags (has_route_group host.api_groups) in
      let made = get_config ∷ new_manager (manager_options flags) ∷ [] in
      let set_up_on : Bool → Call =
        λ openshift. complete backstage_builder (new_reconciler flags openshift) in
      let checks : Exec (List Call) (Unit {0}) =
        call host (add_healthz_check "healthz")
        >> (call host (add_readyz_check "readyz") >> call host start) in
      let rest : Bool → Exec (List Call) (Unit {0}) =
        λ openshift. call host (set_up_on openshift) >> checks in
      let ready = discovered made ++ set_up_on (has_route_group host.api_groups) ∷ [] in
      call-Ends wanted get_config
        (call host (new_manager (manager_options flags)) >> (is_openshift host >>= rest)) [] tt
        λ all₁.
          call-Ends wanted (new_manager (manager_options flags)) (is_openshift host >>= rest)
            (get_config ∷ []) all₁
            λ all₂. is_openshift-Ends wanted rest made all₂ λ all₃.
              call-Ends wanted (set_up_on (has_route_group host.api_groups)) checks
                (discovered made) all₃
                λ all₄.
                  call-Ends wanted (add_healthz_check "healthz")
                    (call host (add_readyz_check "readyz") >> call host start) ready all₄
                    λ all₅.
                      call-Ends wanted (add_readyz_check "readyz") (call host start)
                        (ready ++ add_healthz_check "healthz" ∷ []) all₅
                        λ all₆.
                          last-Ends wanted start
                            ((ready ++ add_healthz_check "healthz" ∷ [])
                              ++ add_readyz_check "readyz" ∷ [])
                            all₆ refl
