-- ===== src/Web/Cards/Routes/Handlers.antt =====
-- Every handler of the card service (apps/web/src/app/api/gr/_lib/card-service.ts) keeps a property
-- of the store that its writes keep.
use genesis_reserve_smarter.Base.{
  String, ◌≡◌, refl, ℕ, Option, none, some, Bool, true, false, Option-cases, inl, inr,
}
use genesis_reserve_smarter.Base.Maps.{lookup}
use genesis_reserve_smarter.Web.Js.{Js, string, at}
use genesis_reserve_smarter.Web.Cards.{
  Settings, Store, Draws, Handler, LinkedDebitCard, push_event, refuse_if,
}
use genesis_reserve_smarter.Web.Cards.Issuing.{
  Target, create_cardholder, update_cardholder, create_card, mutate_card_status,
}
use genesis_reserve_smarter.Web.Cards.Controls.{
  update_card_controls, submit_dispute_evidence, accept_dispute,
}
use genesis_reserve_smarter.Web.Cards.Linking.{
  StripeLink, link_debit_card, update_linked_card_issuer_name, update_linked_card_circle_id,
  unlink_linked_debit_card, resolved, unresolved, Resolution, link,
}
use genesis_reserve_smarter.Web.Cards.Funding.{Outside, create_add_money}
use genesis_reserve_smarter.Web.Cards.Payouts.{
  PayoutDesk, PayoutResult, settle, send, create_push_to_card_payout,
}
use genesis_reserve_smarter.Web.Cards.Requests.{Incoming}
use genesis_reserve_smarter.Web.Cards.Routes.Closed.{Closed}

-- A handler keeps the property.
abbrev pub Keeping : (Store → Type 0) → Handler → Type 0
Keeping P h = (s : Store) → P s → P (h s).0

pub refuse_if-Keeping :
    (P : Store → Type 0) (d : Draws) (b : Bool) (n : ℕ) (code message : String) (h : Handler)
    (s : Store)
    → P s
    → (b ≡ false → P (h s).0)
    → P (refuse_if d b n code message h s).0
unfolding refuse_if
refuse_if-Keeping P d true n code message h s p q = p
refuse_if-Keeping P d false n code message h s p q = q refl

module _ {P : Store → Type 0} {Fits : Incoming → Type 0} (k : Closed P Fits) (i : Incoming)
    (fits : Fits i) where
  pub create_cardholder-Keeping : (body : Option Js) → Keeping P (create_cardholder i.draws body)
  unfolding create_cardholder push_event
  create_cardholder-Keeping body s p =
      refuse_if-Keeping P _ _ _ _ _ _ s p λ _. k.events _ _ (k.cardholders s _ p)

  pub update_cardholder-Keeping :
      (id : String) (patch : Option Js) → Keeping P (update_cardholder i.draws id patch)
  unfolding update_cardholder
  update_cardholder-Keeping id patch s p = elim (Option-cases (lookup id s.cardholders)) [
    | inl e ↦ rw e p
    | inr (current, e) ↦ rw e (k.cardholders s _ p)
  ]

  pub create_card-Keeping : (body : Option Js) → Keeping P (create_card i.draws body)
  unfolding create_card push_event
  create_card-Keeping body s p = refuse_if-Keeping P _ _ _ _ _ _ s p λ _.
      elim (Option-cases (lookup (string (at body "cardholderId")) s.cardholders)) [
        | inl e ↦ rw e p
        | inr (holder, e) ↦
            rw e (k.events _ _ (k.authorizations _ _ (k.new_card i s _ fits refl p)))
      ]

  pub mutate_card_status-Keeping :
      (id : String) (target : Target) → Keeping P (mutate_card_status i.draws id target)
  unfolding mutate_card_status push_event
  mutate_card_status-Keeping id target s p = elim (Option-cases (lookup id s.cards)) [
    | inl e ↦ rw e p
    | inr (card, e) ↦ rw e (
        refuse_if-Keeping P _ _ _ _ _ _ s p
          λ goes. k.events _ _ (k.moved_card s id card target e goes p))
  ]

  pub update_card_controls-Keeping :
      (c : Settings) (id : String) (patch : Option Js)
      → Keeping P (update_card_controls c i.draws id patch)
  unfolding update_card_controls
  update_card_controls-Keeping c id patch s p = elim (Option-cases (lookup id s.cards)) [
    | inl e ↦ rw e p
    | inr (card, e) ↦ rw e (k.changed_card s id card _ e p)
  ]

  pub submit_dispute_evidence-Keeping :
      (id : String) (body : Option Js) → Keeping P (submit_dispute_evidence i.draws id body)
  unfolding submit_dispute_evidence push_event
  submit_dispute_evidence-Keeping id body s p = elim (Option-cases (lookup id s.disputes)) [
    | inl e ↦ rw e p
    | inr (dispute, e) ↦
        rw e (refuse_if-Keeping P _ _ _ _ _ _ s p λ _. k.events _ _ (k.disputes s _ p))
  ]

  pub accept_dispute-Keeping : (id : String) → Keeping P (accept_dispute i.draws id)
  unfolding accept_dispute push_event
  accept_dispute-Keeping id s p = elim (Option-cases (lookup id s.disputes)) [
    | inl e ↦ rw e p
    | inr (dispute, e) ↦ rw e (k.events _ _ (k.disputes s _ p))
  ]

  linked_with-Keeping :
      (c : Settings) (stripe : StripeLink) (body : Option Js) (r : Resolution)
      → Keeping P (link c i.draws stripe body r)
  unfolding link push_event
  linked_with-Keeping c stripe body (unresolved e) s p = p
  linked_with-Keeping c stripe body (resolved card) s p =
      k.events _ _ (k.new_link i s _ fits refl p)

  pub link_debit_card-Keeping :
      (c : Settings) (stripe : StripeLink) (body : Option Js)
      → Keeping P (link_debit_card c i.draws stripe body)
  unfolding link_debit_card
  link_debit_card-Keeping c stripe body s p =
      refuse_if-Keeping P _ _ _ _ _ _ s p λ _. linked_with-Keeping c stripe body _ s p

  pub update_linked_card_issuer_name-Keeping :
      (c : Settings) (id name : String)
      → Keeping P (update_linked_card_issuer_name c i.draws id name)
  unfolding update_linked_card_issuer_name
  update_linked_card_issuer_name-Keeping c id name s p = refuse_if-Keeping P _ _ _ _ _ _ s p λ _.
      elim (Option-cases (lookup id s.linked_debit_cards)) [
        | inl e ↦ rw e p
        | inr (found, e) ↦ rw e (k.changed_link s id found _ e refl p)
      ]

  pub update_linked_card_circle_id-Keeping :
      (c : Settings) (id circle : String)
      → Keeping P (update_linked_card_circle_id c i.draws id circle)
  unfolding update_linked_card_circle_id
  update_linked_card_circle_id-Keeping c id circle s p = refuse_if-Keeping P _ _ _ _ _ _ s p λ _.
      elim (Option-cases (lookup id s.linked_debit_cards)) [
        | inl e ↦ rw e p
        | inr (found, e) ↦ rw e (k.changed_link s id found _ e refl p)
      ]

  pub unlink_linked_debit_card-Keeping :
      (id : String) → Keeping P (unlink_linked_debit_card i.draws id)
  unfolding unlink_linked_debit_card push_event
  unlink_linked_debit_card-Keeping id s p = elim (Option-cases (lookup id s.linked_debit_cards)) [
    | inl e ↦ rw e p
    | inr (found, e) ↦ rw e (k.events _ _ (k.removed_link s id _ refl p))
  ]

  pub create_add_money-Keeping :
      (c : Settings) (o : Outside) (body : Option Js) (key : Option String)
      → ((s : Store) → P s → P (o.meanwhile s))
      → Keeping P (create_add_money c o i.draws body key)
  unfolding create_add_money push_event
  create_add_money-Keeping c o body key waits s p = refuse_if-Keeping P _ _ _ _ _ _ s p λ _.
      elim (Option-cases (lookup (string (at body "linkedCardId")) s.linked_debit_cards)) [
        | inl e ↦ rw e p
        | inr (linked, e) ↦ rw e (
            refuse_if-Keeping P _ _ _ _ _ _ s p λ _. refuse_if-Keeping P _ _ _ _ _ _ s p λ _.
              refuse_if-Keeping P _ _ _ _ _ _ s p λ _. k.events _ _ (k.funding _ _ (waits s p)))
      ]

  settle-Keeping :
      (c : Settings) (o : PayoutDesk) (body : Option Js) (amount : String) (r : PayoutResult)
      → Keeping P (settle c o i.draws body amount r)
  unfolding settle push_event
  settle-Keeping c o body amount r s p =
      refuse_if-Keeping P _ _ _ _ _ _ s p λ _. k.events _ _ (k.payouts s _ p)

  send-Keeping :
      (c : Settings) (o : PayoutDesk) (body : Option Js) (linked : LinkedDebitCard)
      (amount : String) (token : Option String)
      → ((s : Store) → P s → P (o.meanwhile s))
      → Keeping P (send c o i.draws body linked amount token)
  unfolding send
  send-Keeping c o body linked amount (some token) waits s p =
      settle-Keeping c o body amount _ _ (waits s p)
  send-Keeping c o body linked amount none waits s p = settle-Keeping c o body amount _ s p

  pub create_push_to_card_payout-Keeping :
      (c : Settings) (o : PayoutDesk) (body : Option Js)
      → ((s : Store) → P s → P (o.meanwhile s))
      → Keeping P (create_push_to_card_payout c o i.draws body)
  unfolding create_push_to_card_payout
  create_push_to_card_payout-Keeping c o body waits s p = refuse_if-Keeping P _ _ _ _ _ _ s p λ _.
      elim (Option-cases (lookup (string (at body "linkedCardId")) s.linked_debit_cards)) [
        | inl e ↦ rw e p
        | inr (linked, e) ↦ rw e (
            refuse_if-Keeping P _ _ _ _ _ _ s p λ _.
              refuse_if-Keeping P _ _ _ _ _ _ s p λ _. send-Keeping c o body linked _ _ waits s p)
      ]
