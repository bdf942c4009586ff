-- ===== src/Web/Cards/Routes/Keeps.antt =====
-- A property that the writes of the card service (apps/web/src/app/api/gr) keep is kept by every
-- request.
use genesis_reserve_smarter.Base.{
  String, Option, none, some, Bool, true, false, Option-cases, inl, inr,
}
use genesis_reserve_smarter.Base.Maps.{lookup}
use genesis_reserve_smarter.Web.Js.{Js}
use genesis_reserve_smarter.Web.Cards.{
  Settings, Store, Draws, FundingStatus, PayoutStatus, WebhookEvent,
}
use genesis_reserve_smarter.Web.Cards.Issuing.{get_cardholder, get_card}
use genesis_reserve_smarter.Web.Cards.Controls.{
  create_pan_reveal_token, get_authorization, get_dispute,
}
use genesis_reserve_smarter.Web.Cards.Funding.{create_funding_conversion_quote, get_funding_status}
use genesis_reserve_smarter.Web.Cards.Payouts.{quote_push_to_card, get_payout}
use genesis_reserve_smarter.Web.Cards.Signature.{Secrets, Verified, verified, unverified}
use genesis_reserve_smarter.Web.Cards.Processor.{
  Sdk, EventContext, Constructed, constructed, rejected, handle_processor_webhook, handler_of,
  by_stripe, if_verified, if_constructed, process_event, record_dated, record_event, unshift_new,
  apply_payout, apply_funding,
}
use genesis_reserve_smarter.Web.Cards.Requests.{
  Incoming, Operation, creates_cardholder, gets_cardholder, updates_cardholder, creates_card,
  gets_card, moves_card, updates_controls, reveals_pan, gets_authorization, links_card,
  names_issuer, sets_circle_id, unlinks_card, quotes_conversion, adds_money, gets_funding,
  quotes_payout, pays_out, gets_payout, gets_dispute, submits_evidence, accepts_dispute,
  takes_event, Server, handle,
}
use genesis_reserve_smarter.Web.Cards.Routes.Closed.{Closed}
use genesis_reserve_smarter.Web.Cards.Routes.Handlers.{
  Keeping, refuse_if-Keeping, create_cardholder-Keeping, update_cardholder-Keeping,
  create_card-Keeping, mutate_card_status-Keeping, update_card_controls-Keeping,
  submit_dispute_evidence-Keeping, accept_dispute-Keeping, link_debit_card-Keeping,
  update_linked_card_issuer_name-Keeping, update_linked_card_circle_id-Keeping,
  unlink_linked_debit_card-Keeping, create_add_money-Keeping, create_push_to_card_payout-Keeping,
}

module _ {P : Store → Type 0} {Fits : Incoming → Type 0} (k : Closed P Fits) where
  apply_funding-Keeping :
      (status : Option FundingStatus) (id ref : Option String) (now : String) (s : Store)
      → P s
      → P (apply_funding status id ref now s)
  unfolding apply_funding
  apply_funding-Keeping none id ref now s p = p
  apply_funding-Keeping (some status) none ref now s p = p
  apply_funding-Keeping (some status) (some id) ref now s p =
      elim (Option-cases (lookup id s.funding)) [
        | inl e ↦ rw e p
        | inr (tx, e) ↦ rw e (k.funding s _ p)
      ]

  apply_payout-Keeping :
      (status : Option PayoutStatus) (id ref : Option String) (now : String) (s : Store)
      → P s
      → P (apply_payout status id ref now s)
  unfolding apply_payout
  apply_payout-Keeping none id ref now s p = p
  apply_payout-Keeping (some status) none ref now s p = p
  apply_payout-Keeping (some status) (some id) ref now s p =
      elim (Option-cases (lookup id s.payouts)) [
        | inl e ↦ rw e p
        | inr (tx, e) ↦ rw e (k.payouts s _ p)
      ]

  unshift_new-Keeping :
      (seen : Bool) (evt : WebhookEvent) (s : Store) → P s → P (unshift_new seen evt s)
  unfolding unshift_new
  unshift_new-Keeping true evt s p = p
  unshift_new-Keeping false evt s p = k.events s _ p

  record_dated-Keeping :
      (d : Draws) (body : Option Js) (ctx : EventContext) (created_at : Option Js)
      → Keeping P (record_dated d body ctx created_at)
  unfolding record_dated record_event
  record_dated-Keeping d body ctx none s p = p
  record_dated-Keeping d body ctx (some created_at) s p =
      unshift_new-Keeping _ _ _ (apply_payout-Keeping _ _ _ _ _ (apply_funding-Keeping _ _ _ _ s p))

  if_constructed-Keeping :
      (sdk : Sdk) (d : Draws) (c : Constructed) → Keeping P (if_constructed sdk d c)
  unfolding if_constructed process_event
  if_constructed-Keeping sdk d (rejected message) s p = p
  if_constructed-Keeping sdk d (constructed event) s p = record_dated-Keeping d _ _ _ s p

  if_verified-Keeping :
      (sdk : Sdk) (d : Draws) (body : Option Js) (c : Verified)
      → Keeping P (if_verified sdk d body c)
  unfolding if_verified process_event
  if_verified-Keeping sdk d body (unverified reason) s p = p
  if_verified-Keeping sdk d body verified s p = record_dated-Keeping d _ _ _ s p

  handler_of-Keeping :
      (stripe : Bool) (c : Settings) (secrets : Secrets) (sdk : Sdk) (d : Draws)
      (signature : Option String) (payload_raw : String) (body : Option Js)
      → Keeping P (handler_of stripe c secrets sdk d signature payload_raw body)
  unfolding handler_of by_stripe
  handler_of-Keeping true c secrets sdk d signature payload_raw body s p =
      refuse_if-Keeping P _ _ _ _ _ _ s p
        λ _. refuse_if-Keeping P _ _ _ _ _ _ s p λ _. if_constructed-Keeping sdk d _ s p
  handler_of-Keeping false c secrets sdk d signature payload_raw body s p =
      if_verified-Keeping sdk d body _ s p

  -- Each handler keeps it, if what other requests do meanwhile does.
  pub handle-Keeping :
      (v : Server) (i : Incoming) (meanwhile : Store → Store) (op : Operation)
      → Fits i
      → ((s : Store) → P s → P (meanwhile s))
      → Keeping P (handle v i meanwhile op)
  unfolding handle
  handle-Keeping v i m (creates_cardholder body) fits waits s p =
      create_cardholder-Keeping k i fits body s p
  handle-Keeping v i m (gets_cardholder id) fits waits s p =
      unfold get_cardholder in
      elim (Option-cases (lookup id s.cardholders)) [ inl e ↦ rw e p | inr (x, e) ↦ rw e p ]
  handle-Keeping v i m (updates_cardholder id patch) fits waits s p =
      update_cardholder-Keeping k i fits id patch s p
  handle-Keeping v i m (creates_card body) fits waits s p = create_card-Keeping k i fits body s p
  handle-Keeping v i m (gets_card id) fits waits s p =
      unfold get_card in
      elim (Option-cases (lookup id s.cards)) [ inl e ↦ rw e p | inr (x, e) ↦ rw e p ]
  handle-Keeping v i m (moves_card id target) fits waits s p =
      mutate_card_status-Keeping k i fits id target s p
  handle-Keeping v i m (updates_controls id patch) fits waits s p =
      update_card_controls-Keeping k i fits v.settings id patch s p
  handle-Keeping v i m (reveals_pan id) fits waits s p =
      unfold create_pan_reveal_token in
      elim (Option-cases (lookup id s.cards)) [ inl e ↦ rw e p | inr (x, e) ↦ rw e p ]
  handle-Keeping v i m (gets_authorization id) fits waits s p =
      unfold get_authorization in
      elim (Option-cases (lookup id s.authorizations)) [ inl e ↦ rw e p | inr (x, e) ↦ rw e p ]
  handle-Keeping v i m (links_card stripe body) fits waits s p =
      link_debit_card-Keeping k i fits v.settings stripe body _ (waits s p)
  handle-Keeping v i m (names_issuer id name) fits waits s p =
      update_linked_card_issuer_name-Keeping k i fits v.settings id name s p
  handle-Keeping v i m (sets_circle_id id circle) fits waits s p =
      update_linked_card_circle_id-Keeping k i fits v.settings id circle s p
  handle-Keeping v i m (unlinks_card id) fits waits s p =
      unlink_linked_debit_card-Keeping k i fits id s p
  handle-Keeping v i m (quotes_conversion body) fits waits s p =
      unfold create_funding_conversion_quote in refuse_if-Keeping P _ _ _ _ _ _ s p λ _. p
  handle-Keeping v i m (adds_money stripe circle body) fits waits s p =
      create_add_money-Keeping k i fits v.settings _ body _ waits s p
  handle-Keeping v i m (gets_funding id) fits waits s p =
      unfold get_funding_status in
      elim (Option-cases (lookup id s.funding)) [ inl e ↦ rw e p | inr (x, e) ↦ rw e p ]
  handle-Keeping v i m (quotes_payout body) fits waits s p =
      unfold quote_push_to_card in refuse_if-Keeping P _ _ _ _ _ _ s p λ _. p
  handle-Keeping v i m (pays_out stripe body) fits waits s p =
      create_push_to_card_payout-Keeping k i fits v.settings _ body waits s p
  handle-Keeping v i m (gets_payout id) fits waits s p =
      unfold get_payout in
      elim (Option-cases (lookup id s.payouts)) [ inl e ↦ rw e p | inr (x, e) ↦ rw e p ]
  handle-Keeping v i m (gets_dispute id) fits waits s p =
      unfold get_dispute in
      elim (Option-cases (lookup id s.disputes)) [ inl e ↦ rw e p | inr (x, e) ↦ rw e p ]
  handle-Keeping v i m (submits_evidence id body) fits waits s p =
      submit_dispute_evidence-Keeping k i fits id body s p
  handle-Keeping v i m (accepts_dispute id) fits waits s p = accept_dispute-Keeping k i fits id s p
  handle-Keeping v i m (takes_event signature payload_raw body) fits waits s p =
      unfold handle_processor_webhook in handler_of-Keeping _ _ _ _ _ signature payload_raw body s p
