-- ===== src/Web/Cards/Routes/Closed.antt =====
-- What a property of the store must survive to survive every request: the writes that the handlers of
-- the card service (apps/web/src/app/api/gr/_lib/card-service.ts) make.
use genesis_reserve_smarter.Base.{String, ◌≡◌, some, false, List}
use genesis_reserve_smarter.Base.Maps.{Dict, lookup, put}
use genesis_reserve_smarter.Web.Js.{Props}
use genesis_reserve_smarter.Web.Cards.{
  Store, Cardholder, Card, Authorization, LinkedDebitCard, LinkStatus, FundingTransaction, Payout,
  Dispute, WebhookEvent,
}
use genesis_reserve_smarter.Web.Cards.Issuing.{Target, target_status, is_over}
use genesis_reserve_smarter.Web.Cards.Requests.{Incoming}

-- `P` survives each write of a request for which `Fits` holds. A card or a linked card that is
-- written under a new id has the id that the request draws.
pub record Closed (P : Store → Type 0) (Fits : Incoming → Type 0) : Type 0 where
  pub cardholders : (s : Store) (m : Dict Cardholder) → P s → P (record s { cardholders = m })
  pub authorizations :
      (s : Store) (m : Dict Authorization) → P s → P (record s { authorizations = m })
  pub funding : (s : Store) (m : Dict FundingTransaction) → P s → P (record s { funding = m })
  pub payouts : (s : Store) (m : Dict Payout) → P s → P (record s { payouts = m })
  pub disputes : (s : Store) (m : Dict Dispute) → P s → P (record s { disputes = m })
  pub events : (s : Store) (l : List WebhookEvent) → P s → P (record s { events = l })
  pub new_card :
      (i : Incoming) (s : Store) (card : Card)
      → Fits i
      → card.id ≡ i.draws.make_id "card"
      → P s
      → P (record s { cards = put card.id card s.cards })
  pub moved_card :
      (s : Store) (id : String) (card : Card) (target : Target)
      → lookup id s.cards ≡ some card
      → is_over card.status target ≡ false
      → P s
      → P (record s { cards = put id (record card { status = target_status target }) s.cards })
  pub changed_card :
      (s : Store) (id : String) (card : Card) (controls : Props)
      → lookup id s.cards ≡ some card
      → P s
      → P (record s { cards = put id (record card { controls = controls }) s.cards })
  pub new_link :
      (i : Incoming) (s : Store) (item : LinkedDebitCard)
      → Fits i
      → item.id ≡ i.draws.make_id "ldc"
      → P s
      → P (record s { linked_debit_cards = put item.id item s.linked_debit_cards })
  pub changed_link :
      (s : Store) (id : String) (found next : LinkedDebitCard)
      → lookup id s.linked_debit_cards ≡ some found
      → next.status ≡ found.status
      → P s
      → P (record s { linked_debit_cards = put id next s.linked_debit_cards })
  pub removed_link :
      (s : Store) (id : String) (next : LinkedDebitCard)
      → next.status ≡ LinkStatus.removed
      → P s
      → P (record s { linked_debit_cards = put id next s.linked_debit_cards })
