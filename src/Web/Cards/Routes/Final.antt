-- ===== src/Web/Cards/Routes/Final.antt =====
-- A canceled card, and a linked card that was removed, through any requests
-- (apps/web/src/app/api/gr/_lib/card-service.ts).
use genesis_reserve_smarter.Base.{
  ℕ, String, ◌≡◌, ◌≢◌, refl, sym, ◌∙◌, ap, ◌⊎◌, some, false, str_eq, eq_iff, Bool-cases, inl, inr,
  arith,
}
use genesis_reserve_smarter.Base.Maps.{lookup, put, lookup-put}
use genesis_reserve_smarter.Web.Cards.{Store, Answer, Card, CardStatus, LinkedDebitCard, LinkStatus}
use genesis_reserve_smarter.Web.Cards.Issuing.{Target, target_status, is_over}
use genesis_reserve_smarter.Web.Js.{Js}
use genesis_reserve_smarter.Web.Cards.Requests.{Incoming, Server}
use genesis_reserve_smarter.Web.Cards.Routes.{run, Requests}
use genesis_reserve_smarter.Web.Cards.Routes.Closed.{Closed}
use genesis_reserve_smarter.Web.Cards.Routes.Runs.{AllFit, run-Keeps}

-- The card is there and canceled.
abbrev pub IsCanceled : String → Store → Type 0
IsCanceled id s =
    (card : Card) × (lookup id s.cards ≡ some card) × (card.status ≡ CardStatus.canceled)

-- The linked card is there and removed.
abbrev pub IsRemoved : String → Store → Type 0
IsRemoved id s =
    (found : LinkedDebitCard) × (lookup id s.linked_debit_cards ≡ some found)
    × (found.status ≡ LinkStatus.removed)

-- The request draws another id for a new card, for a new linked card.
abbrev pub DrawsOtherCard : String → Incoming → Type 0
DrawsOtherCard id i = i.draws.make_id "card" ≢ id

abbrev pub DrawsOtherLink : String → Incoming → Type 0
DrawsOtherLink id i = i.draws.make_id "ldc" ≢ id

over_only :
    (status : CardStatus) (target : Target)
    → is_over status target ≡ false
    → status ≡ CardStatus.canceled
    → target_status target ≡ CardStatus.canceled
unfolding is_over
over_only status Target.canceled h e = refl
over_only status Target.frozen h e = absurd (ground (arith, e, h))
over_only status Target.active h e = absurd (ground (arith, e, h))

IsCanceled-put_other :
    (id k : String) (card : Card) (s : Store)
    → k ≢ id
    → IsCanceled id s
    → IsCanceled id (record s { cards = put k card s.cards })
IsCanceled-put_other id k card s ne (c, e, over) =
    (c, ground (arith, lookup-put id k card s.cards, eq_iff k id, ne, e), over)

IsCanceled-put :
    (id k : String) (old card : Card) (s : Store)
    → lookup k s.cards ≡ some old
    → (old.status ≡ CardStatus.canceled → card.status ≡ CardStatus.canceled)
    → IsCanceled id s
    → IsCanceled id (record s { cards = put k card s.cards })
IsCanceled-put id k old card s here kept (c, e, over) = elim (Bool-cases (str_eq k id)) [
  | inl same ↦
      let k_is = (eq_iff k id).0 same in
      let old_is : old ≡ c = cc (sym here ∙ ap (λ (j : String). lookup j s.cards) k_is ∙ e) in
      (
        card,
        ground (arith, lookup-put id k card s.cards, same),
        kept (ap (λ (x : Card). x.status) old_is ∙ over),
      )
  | inr other ↦ (c, ground (arith, lookup-put id k card s.cards, other, e), over)
]

IsCanceled-Closed : (id : String) → Closed (IsCanceled id) (DrawsOtherCard id)
IsCanceled-Closed id = record {
  cardholders = λ s m p. p;
  authorizations = λ s m p. p;
  funding = λ s m p. p;
  payouts = λ s m p. p;
  disputes = λ s m p. p;
  events = λ s m p. p;
  new_card =
      λ i s card fits drawn p. IsCanceled-put_other id card.id card s (λ e. fits (sym drawn ∙ e)) p;
  moved_card = λ s k card target here goes p.
      IsCanceled-put id k card (record card { status = target_status target }) s here
        (over_only card.status target goes) p;
  changed_card = λ s k card controls here p.
      IsCanceled-put id k card (record card { controls = controls }) s here (λ e. e) p;
  new_link = λ i s item fits drawn p. p;
  changed_link = λ s k found next here same p. p;
  removed_link = λ s k next gone p. p;
}

-- A canceled card is canceled after any requests to the card routes, one after another or within
-- one another's waits, as long as none of them draws its id for a new card.
pub run-IsCanceled :
    (v : Server) (id : String) (requests : Requests) (s : Store)
    → AllFit (DrawsOtherCard id) requests
    → IsCanceled id s
    → IsCanceled id (run v requests s)
run-IsCanceled v id requests s h p = run-Keeps (IsCanceled-Closed id) (λ s m p. p) v requests h s p

-- Nothing is stored, and the answer is an error with one of the two statuses.
abbrev pub IsRefused : Store → ℕ → Store × Answer → Type 0
IsRefused s status (s', answer) = (s' ≡ s) × ((answer.status ≡ 400) ⊎ (answer.status ≡ status))

abbrev pub IsAnswered : ℕ → Store × Answer → Type 0
IsAnswered status (s, answer) = (answer.status ≡ 400) ⊎ (answer.status ≡ status)
