-- ===== src/Web/Cards/Moves.antt =====
-- What an event of the processor does to a funding transaction
-- (apps/web/src/app/api/gr/_lib/card-service.ts).
use genesis_reserve_smarter.Base.{
  String, ◌≡◌, refl, Option, none, some, Bool, true, false, List, ◌∷◌, str_eq, if◌then◌else◌,
  Option-cases, inl, inr, ◌∙◌, ap, get_or,
}
use genesis_reserve_smarter.Base.Maps.{lookup, put, lookup-put}
use genesis_reserve_smarter.Web.Js.{Js, text, text_of, at, truthy, text_only, coalesce}
use genesis_reserve_smarter.Web.Cards.{
  Store, Draws, WebhookEvent, FundingTransaction, FundingStatus, PayoutStatus, push_event,
}
use genesis_reserve_smarter.Web.Cards.Processor.{
  Sdk, process_event, record_dated, record_event, apply_funding, apply_payout, unshift_new,
  was_seen, reference, funding_status_by_event, extract_stripe_event_context, created_at_of,
  event_with, key_of, EventContext, payout_status_by_event,
}

-- Payouts are another map than funding transactions.
apply_payout-funding :
    (status : Option PayoutStatus) (id ref : Option String) (now : String) (s : Store)
    → ((apply_payout status id ref now s).funding ≡ s.funding)
      × ((apply_payout status id ref now s).events ≡ s.events)
unfolding apply_payout
apply_payout-funding none id ref now s = (refl, refl)
apply_payout-funding (some status) none ref now s = (refl, refl)
apply_payout-funding (some status) (some id) ref now s = elim (Option-cases (lookup id s.payouts)) [
  | inl e ↦ rw e (refl, refl)
  | inr (x, e) ↦ rw e (refl, refl)
]

unshift_new-funding :
    (seen : Bool) (evt : WebhookEvent) (s : Store)
    → ((unshift_new seen evt s).funding ≡ s.funding)
      × ((unshift_new seen evt s).events ≡ (if seen then s.events else evt ∷ s.events))
unfolding unshift_new push_event
unshift_new-funding true evt s = (refl, refl)
unshift_new-funding false evt s = (refl, refl)

abbrev moved : Draws → Option String → FundingStatus → FundingTransaction → FundingTransaction
moved d ref status tx = record tx {
  status = status;
  processor_reference = reference ref tx.processor_reference;
  updated_at = d.now_iso 1;
}

apply_funding_lem :
    (status : FundingStatus) (id : String) (ref : Option String) (now : String) (s : Store)
    (tx : FundingTransaction)
    → lookup id s.funding ≡ some tx
    → apply_funding (some status) (some id) ref now s ≡ record s {
      funding =
          put id
            (record tx {
              status = status;
              processor_reference = reference ref tx.processor_reference;
              updated_at = now;
            })
            s.funding;
    }
unfolding apply_funding
apply_funding_lem status id ref now s tx here = rw here refl

module _ (d : Draws) (ctx : EventContext) (evt : WebhookEvent) (s : Store) (id : String)
    (status : FundingStatus) (tx : FundingTransaction) (j : String)
    (named : key_of evt.funding_id ≡ some id)
    (mapped : funding_status_by_event (text_of evt.event_type) ≡ some status)
    (here : lookup id s.funding ≡ some tx) where
  record_event-funding :
      (lookup j (record_event d ctx evt s).0.funding ≡ (
        if str_eq id j
        then some (moved d ctx.processor_reference status tx)
        else lookup j s.funding))
      × ((record_event d ctx evt s).0.events
          ≡ (if was_seen evt s.events then s.events else evt ∷ s.events))
  unfolding record_event
  record_event-funding =
      let funded : Store = record s {
        funding = put id (moved d ctx.processor_reference status tx) s.funding;
      } in
      let paid =
        apply_payout (payout_status_by_event (text_of evt.event_type)) (key_of evt.payout_id)
          ctx.processor_reference (d.now_iso 2) funded in
      let a =
        apply_payout-funding (payout_status_by_event (text_of evt.event_type))
          (key_of evt.payout_id) ctx.processor_reference (d.now_iso 2) funded in
      let u = unshift_new-funding (was_seen evt paid.events) evt paid in
      rw
        (mapped, named, apply_funding_lem status id ctx.processor_reference (d.now_iso 1) s tx here)
        (
          ap (lookup j) (u.0 ∙ a.0) ∙ lookup-put j id _ s.funding,
          u.1 ∙ ap (λ (l : List WebhookEvent). if was_seen evt l then l else evt ∷ l) a.1,
        )

-- The ids at the top level of an event of the service's own form.
abbrev own_context : Option Js → EventContext
own_context body = record {
  funding_id = at body "fundingId";
  payout_id = at body "payoutId";
  processor_reference = text_only (at (at body "data") "processorReference");
}

abbrev pub own_event : Draws → Option Js → WebhookEvent
own_event d body =
    event_with d body (own_context body)
      (get_or (coalesce (at body "createdAt") none) (text (d.now_iso 0)))

own_context_lem :
    (body : Option Js)
    → truthy (at body "fundingId") ≡ true
    → extract_stripe_event_context body ≡ own_context body
unfolding extract_stripe_event_context
own_context_lem body named = rw named refl

created_at_lem :
    (k : Sdk) (d : Draws) (body : Option Js)
    → truthy (at body "created") ≡ false
    → created_at_of k d body
      ≡ some (get_or (coalesce (at body "createdAt") none) (text (d.now_iso 0)))
unfolding created_at_of
created_at_lem k d body undated = rw undated refl

process_event_lem :
    (k : Sdk) (d : Draws) (body : Option Js) (s : Store)
    → truthy (at body "fundingId") ≡ true
    → truthy (at body "created") ≡ false
    → process_event k d body s ≡ record_event d (own_context body) (own_event d body) s
unfolding process_event record_dated
process_event_lem k d body s named undated =
    rw (own_context_lem body named, created_at_lem k d body undated) refl

module _ (k : Sdk) (d : Draws) (body : Option Js) (s : Store) (id kind : String)
    (status : FundingStatus) (tx : FundingTransaction) (j : String) where
  named_key :
      at body "fundingId" ≡ some (text id)
      → str_eq id "" ≡ false
      → key_of (at body "fundingId") ≡ some id
  unfolding truthy text_only
  named_key named full = rw (named, full) refl

  named_truthy :
      at body "fundingId" ≡ some (text id)
      → str_eq id "" ≡ false
      → truthy (at body "fundingId") ≡ true
  unfolding truthy
  named_truthy named full = rw (named, full) refl

  own_kind : at body "type" ≡ some (text kind) → text_of (own_event d body).event_type ≡ kind
  unfolding event_with coalesce text_of
  own_kind kind_is = rw kind_is refl

  -- The processing of an event of the service's own form, which has no `created` and names a funding
  -- transaction by a text `fundingId` at its top level, of a kind that stands for a funding status,
  -- sets the transaction's status to it, whatever status it had and whether the event came before or
  -- not; the other transactions stay, and the event is listed unless one with its id was.
  pub process_event-funding :
      at body "fundingId" ≡ some (text id)
      → str_eq id "" ≡ false
      → at body "type" ≡ some (text kind)
      → truthy (at body "created") ≡ false
      → funding_status_by_event kind ≡ some status
      → lookup id s.funding ≡ some tx
      → (lookup j (process_event k d body s).0.funding ≡ (
          if str_eq id j
          then some (record tx {
            status = status;
            processor_reference =
                reference
                  (text_only (at (at body "data") "processorReference"))
                  tx.processor_reference;
            updated_at = d.now_iso 1;
          })
          else lookup j s.funding))
        × ((process_event k d body s).0.events ≡ (
            if was_seen (own_event d body) s.events then s.events else own_event d body ∷ s.events))
  process_event-funding named full kind_is undated mapped here =
      let kind_of = own_kind kind_is in
      let mapped' : funding_status_by_event (text_of (own_event d body).event_type) ≡ some status =
        ap funding_status_by_event kind_of ∙ mapped in
      rw (process_event_lem k d body s (named_truthy named full) undated) (
        record_event-funding d (own_context body) (own_event d body) s id status tx j
          (unfold event_with in named_key named full) mapped' here)
