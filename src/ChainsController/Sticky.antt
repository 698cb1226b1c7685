-- ===== src/ChainsController/Sticky.antt =====
-- What a request on an address leaves behind in the shared chain service.
use onekey_balance_kit.Base.{
  ℕ, ◌≡◌, refl, ap, sym, ◌∙◌, true, Option, none, some, Text, nat_beq, get, get-set_self, arith,
  Bool-cases, Option-cases, inl, inr,
}
use onekey_balance_kit.Cache.{Reply, returned, Reply-cases}
use onekey_balance_kit.ChainServices.{
  ChainService, ChainServiceFactory, normalize_chain_input, is_chain_available,
  create_chain_service_instance, get_chain_service,
}
use onekey_balance_kit.ChainsController.{
  ServiceApi, AddressReport, target, on_target, requested_chain_id, with_requested,
  requested_service, address_report, validate_address,
}

module _ {C V : Type 0} (make : C → Reply (Option V)) where
  abbrev stored : Text → ChainServiceFactory C V → Option (ChainService V)
  stored input s = get (normalize_chain_input input) s.chain_services

  get_chain_service-stored :
      (input : Text) (s : ChainServiceFactory C V) (service : ChainService V)
      → (get_chain_service make input s).0 ≡ some service
      → stored input (get_chain_service make input s).1 ≡ some service
  unfolding get_chain_service
  get_chain_service-stored input s service e =
      let name = normalize_chain_input input in
      elim (Option-cases (get name s.chain_services)) [
        | inr (v, there) ↦
            let same : some v ≡ some service = rw (get_chain_service, there) at e in
            rw (get_chain_service, there) (there ∙ same)
        | inl fresh ↦ elim (Option-cases (create_chain_service_instance make name s)) [
          | inl missing ↦
              absurd (let f = rw (get_chain_service, fresh, missing) at e in ground (arith, f))
          | inr (v, made) ↦
              let same : some v ≡ some service = rw (get_chain_service, fresh, made) at e in
              rw (get_chain_service, fresh, made) (get-set_self name v s.chain_services ∙ same)
        ]
      ]

  -- A service that is stored is available and found.
  found-stored :
      (input : Text) (s : ChainServiceFactory C V) (service : ChainService V)
      → stored input s ≡ some service
      → (is_chain_available input s ≡ true) × (get_chain_service make input s ≡ (some service, s))
  unfolding is_chain_available get_chain_service
  found-stored input s service e = (rw (is_chain_available, e) refl, rw (get_chain_service, e) refl)

module _ {C V : Type 0} (make : C → Reply (Option V)) (api : ServiceApi V) where
  with_requested-stored :
      (input : Text) (id : Option ℕ) (service : ChainService V) (s : ChainServiceFactory C V)
      → stored make input s ≡ some service
      → let r = with_requested make api input id service s in stored make input r.1 ≡ some r.0
  with_requested-stored input none service s e = e
  with_requested-stored input (some n) service s e = elim (Bool-cases (nat_beq n 0)) [
    | inl zero_id ↦ rw zero_id e
    | inr other ↦ rw other (
        get-set_self (normalize_chain_input input) (on_target (api.set_chain_id n) service)
          s.chain_services)
  ]

  requested_service-stored :
      (input : Text) (network chain_id : Option Text) (s : ChainServiceFactory C V)
      (service : ChainService V)
      → (requested_service make api input network chain_id s).0 ≡ returned service
      → stored make input (requested_service make api input network chain_id s).1 ≡ some service
  unfolding requested_service
  requested_service-stored input network chain_id s service e =
      elim (Bool-cases (is_chain_available input s)) [
        | inr missing ↦ absurd (let f = rw (requested_service, missing) at e in ground (arith, f))
        | inl available ↦ elim (Option-cases (get_chain_service make input s).0) [
          | inl gone ↦
              absurd (let f = rw (requested_service, available, gone) at e in ground (arith, f))
          | inr (v, there) ↦
              let f = (get_chain_service make input s).1 in
              let id = requested_chain_id input network chain_id in
              let same : returned (with_requested make api input id v f).0 ≡ returned service =
                rw (requested_service, available, there) at e in
              let is : (with_requested make api input id v f).0 ≡ service = ground (arith, same) in
              rw (requested_service, available, there)
                (with_requested-stored input id v f (get_chain_service-stored make input s v there)
                  ∙ ap some is)
        ]
      ]

  again :
      (input : Text) (s : ChainServiceFactory C V) (service : ChainService V)
      → stored make input s ≡ some service
      → requested_service make api input none none s ≡ (returned service, s)
  unfolding requested_service requested_chain_id
  again input s service e =
      let (available, there) = found-stored make input s service e in
      rw (requested_service, available, there, there) refl

  validate_served :
      (input address : Text) (network chain_id : Option Text) (s : ChainServiceFactory C V)
      (service : ChainService V)
      → (requested_service make api input network chain_id s).0 ≡ returned service
      → validate_address make api input address network chain_id s ≡ (
        returned (address_report make api address (target service)),
        (requested_service make api input network chain_id s).1,
      )
  unfolding validate_address
  validate_served input address network chain_id s service e = rw (validate_address, e) refl

  validate_stored :
      (input address : Text) (s : ChainServiceFactory C V) (service : ChainService V)
      → stored make input s ≡ some service
      → validate_address make api input address none none s
        ≡ (returned (address_report make api address (target service)), s)
  validate_stored input address s service e =
      let found = again input s service e in
      validate_served input address none none s service (ap (λ x. x.0) found)
      ∙ ap (λ x. (returned (address_report make api address (target service)), x.1)) found

  -- A request without parameters gets the report of the request before it on the same input and
  -- address, whatever parameters that had: the chain ID that a request calls for is kept in the shared
  -- service for the requests that follow.
  pub validate_address-again :
      (input address : Text) (network chain_id : Option Text) (s : ChainServiceFactory C V)
      (report : AddressReport)
      → let r = validate_address make api input address network chain_id s in
        r.0 ≡ returned report
        → validate_address make api input address none none r.1 ≡ (returned report, r.1)
  unfolding validate_address
  validate_address-again input address network chain_id s report e =
      elim (Reply-cases (requested_service make api input network chain_id s).0) [
        | inl refused ↦ absurd (let f = rw (validate_address, refused) at e in ground (arith, f))
        | inr (service, served) ↦
            let r = validate_address make api input address network chain_id s in
            let is = validate_served input address network chain_id s service served in
            let kept : stored make input r.1 ≡ some service =
              ap (λ x. stored make input x.1) is
              ∙ requested_service-stored input network chain_id s service served in
            let same = sym (ap (λ x. x.0) is) ∙ e in
            validate_stored input address r.1 service kept ∙ ap (λ x. (x, r.1)) same
      ]
