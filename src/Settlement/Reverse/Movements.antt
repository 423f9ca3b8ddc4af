-- ===== src/Settlement/Reverse/Movements.antt =====
-- The movement facts that `reverse` appends.
use mathlib.Core.List.{append-nil, append_assoc}
use treasury_backend.Prelude.{
  Bool-cases, List, Option, [], ap, filter, inl, inr, map, none, not, refl, some, some-injective,
  subst, sym, ℕ, ◌++◌, ◌∙◌, ◌∷◌, ◌≡◌,
}
use treasury_backend.Money.{Text}
use treasury_backend.Money.Texts.{trim}
use treasury_backend.Store.{
  >>=-eq-ok, Direction, Movement, Scope, append_movement, append_outbox, consume_step_up_proof,
  debit, find_idempotency, ok, ok-injective, or_throw-eq-ok, reversal_conflict, step_up_required,
  throw_if-eq-ok,
}
use treasury_backend.Settlement.{Batch, Effect, LockedSettlement, Response, SettlementDb}
use treasury_backend.Settlement.Repository.{
  append_effect, insert_reversal, lock, next_number, post_movement, random_uuid, reversal_view,
  reverse_batch, view,
}
use treasury_backend.Settlement.Service.{
  Context, Services, consume_proof, reverse_scope, validate_command,
}
use treasury_backend.Settlement.Reverse.{
  ReverseDto, inverse_effect, is_bank_credit, reverse, reverse_allocations, reverse_effects,
  reverse_movement, reverse_response, reverse_updates,
}
use treasury_backend.Settlement.Reverse.Run.{reverse_ran, started_reverse}
use treasury_backend.Settlement.Reverse.Balances.{reverse_allocations-OnlyBalances}
use treasury_backend.Settlement.Confirm.Movements.{
  movements, movements-append_effect, movements-with_audit,
}

-- What a movement fact says of the money.
pub record Posting : Type 0 where
  pub endpoint_id : ℕ
  pub direction : Direction
  pub amount : Text
  pub currency : ℕ
  pub reversal_of : Option ℕ

abbrev pub posting_of : Movement → Posting
posting_of m = record {
  endpoint_id = m.endpoint_id;
  direction = m.direction;
  amount = m.amount;
  currency = m.currency;
  reversal_of = m.reversal_of_fact_id;
}

-- The debit that undoes a bank credit.
abbrev pub undoing : Batch → Effect → Posting
undoing batch e = record {
  endpoint_id = batch.destination_bank_account_id;
  direction = debit;
  amount = e.amount;
  currency = e.currency;
  reversal_of = e.movement_fact_id;
}

-- The facts that a state has beyond another one.
abbrev pub Appends : SettlementDb → SettlementDb → List Posting → Type 0
Appends db db' postings =
    (new : List Movement) × (movements db' ≡ movements db ++ new) × (map posting_of new ≡ postings)

map-append :
    (xs ys : List Movement) → map posting_of (xs ++ ys) ≡ map posting_of xs ++ map posting_of ys
map-append [] ys = refl
map-append (x ∷ xs) ys = ap (λ (l : List Posting). posting_of x ∷ l) (map-append xs ys)

same-Appends : (db db' : SettlementDb) → movements db' ≡ movements db → Appends db db' []
same-Appends db db' same = ([], same ∙ sym (append-nil (movements db)), refl)

Appends-trans :
    (db db' db'' : SettlementDb) (ps qs : List Posting)
    → Appends db db' ps
    → Appends db' db'' qs
    → Appends db db'' (ps ++ qs)
Appends-trans db db' db'' ps qs (new, one, made) (more, two, made') = (
  new ++ more,
  two ∙ ap (λ (l : List Movement). l ++ more) one ∙ append_assoc (movements db) new more,
  map-append new more ∙ rw (made, made') refl,
)

Appends-same :
    (db db' db'' : SettlementDb) (ps : List Posting)
    → movements db'' ≡ movements db'
    → Appends db db' ps
    → Appends db db'' ps
Appends-same db db' db'' ps same (new, one, made) = (new, same ∙ one, made)

module _ (reversal_id : ℕ) (batch : Batch) (date : ℕ) where
  abbrev undoings : List Effect → List Posting
  undoings list = map (undoing batch) (filter is_bank_credit list)

  undoings-cons :
      (f : Effect) (rest : List Effect) → undoings (f ∷ []) ++ undoings rest ≡ undoings (f ∷ rest)
  undoings-cons f rest = elim (Bool-cases (is_bank_credit f)) [
    | inl moves ↦ rw moves refl
    | inr still ↦ rw still refl
  ]

  reverse_movement-Appends :
      (f : Effect) (db : SettlementDb) {p : Option ℕ × SettlementDb}
      → reverse_movement reversal_id batch date f db ≡ ok p
      → Appends db p.1 (undoings (f ∷ []))
  unfolding reverse_movement post_movement append_movement
  reverse_movement-Appends f db e = elim (Bool-cases (is_bank_credit f)) [
    | inl moves ↦
        (let (fact, given, e1) =
            or_throw-eq-ok {B = Option ℕ × SettlementDb} f.movement_fact_id reversal_conflict _
              (rw moves at e) in
          rw moves (
            subst (λ (q : Option ℕ × SettlementDb). Appends db q.1 (undoing batch f ∷ []))
              (ok-injective e1)
              (
                _ ∷ [],
                refl,
                ap (λ o. record (undoing batch f) { reversal_of = o } ∷ []) (sym given),
              )))
    | inr still ↦ rw still (
        subst (λ (q : Option ℕ × SettlementDb). Appends db q.1 []) (ok-injective (rw still at e))
          (same-Appends db db refl))
  ]

  reverse_effects-Appends :
      (list : List Effect) (db db' : SettlementDb)
      → reverse_effects reversal_id batch date list db ≡ ok db'
      → Appends db db' (undoings list)
  unfolding reverse_effects
  reverse_effects-Appends [] db db' e = same-Appends db db' (ap movements (sym (ok-injective e)))
  reverse_effects-Appends (f ∷ rest) db db' e =
      let ((movement, moved), one, more) =
        >>=-eq-ok (reverse_movement reversal_id batch date f db) _ e in
      let next = append_effect (inverse_effect reversal_id date f movement) moved in
      subst (Appends db db') (undoings-cons f rest) (
        Appends-trans db next db' (undoings (f ∷ [])) (undoings rest)
          (Appends-same db moved next (undoings (f ∷ [])) (movements-append_effect _ moved)
            (reverse_movement-Appends f db one))
          (reverse_effects-Appends rest next db' more))

reverse_updates-Appends :
    (ctx : Context) (batch_id reversal_id : ℕ) (locked : LockedSettlement) (reason : Text)
    (date : ℕ) (db db' : SettlementDb)
    → reverse_updates ctx batch_id reversal_id locked reason date db ≡ ok db'
    → Appends db db' (undoings reversal_id locked.batch date locked.effects)
unfolding reverse_updates reverse_batch insert_reversal
reverse_updates-Appends ctx batch_id reversal_id locked reason date db db' e =
    let closed = reverse_batch batch_id ctx.actor ctx.now db in
    let start =
      insert_reversal reversal_id (next_number closed) locked.batch ctx.actor reason date closed in
    let (released, e1, e2) =
      >>=-eq-ok (reverse_allocations locked.items locked.allocations start) _ e in
    let (undone, e3, e4) =
      >>=-eq-ok (reverse_effects reversal_id locked.batch date locked.effects released) _ e2 in
    let (a, i, balances) =
      reverse_allocations-OnlyBalances locked.items locked.allocations start released e1 in
    let postings = undoings reversal_id locked.batch date locked.effects in
    Appends-same db undone db' postings
      (ap movements (sym (ok-injective e4)) ∙ movements-with_audit _ undone)
      (Appends-trans db released undone [] postings
        (same-Appends db released (ap movements balances))
        (reverse_effects-Appends reversal_id locked.batch date locked.effects released undone e3))

movements-consume_proof :
    (ctx : Context) (db db' : SettlementDb)
    → consume_proof ctx db ≡ ok db'
    → movements db' ≡ movements db
unfolding consume_proof consume_step_up_proof
movements-consume_proof ctx db db' e =
    let (proof, given, e1) = or_throw-eq-ok ctx.step_up step_up_required _ e in
    let (consumed, e2) =
      throw_if-eq-ok (not (consume_step_up_proof proof ctx.now db.foundation).0) step_up_required _
        e1 in
    ap movements (sym (ok-injective e2))

movements-random_uuid : (db : SettlementDb) → movements (random_uuid db).1 ≡ movements db
unfolding random_uuid
movements-random_uuid db = refl

movements-reverse_response :
    (ctx : Context) (scope : Scope) (batch_id reversal_id version : ℕ) (db : SettlementDb)
    {response : Response} {db' : SettlementDb}
    → reverse_response ctx scope batch_id reversal_id version db ≡ ok (response, db')
    → movements db' ≡ movements db
unfolding reverse_response append_outbox
movements-reverse_response ctx scope batch_id reversal_id version db e =
    let (original, seen, e1) = or_throw-eq-ok (view batch_id db) reversal_conflict _ e in
    let (inverse, seen', e2) =
      or_throw-eq-ok (reversal_view reversal_id db) reversal_conflict _ e1 in
    ap (λ (p : Response × SettlementDb). movements p.1) (sym (ok-injective e2))

-- A `reverse` under a new key that returns has only appended movement facts: one debit for each bank
-- credit of the batch, in their order, of the same amount and currency, to the bank account of the
-- batch, which names the movement fact of the credit that it undoes.
pub reverse-Appends :
    (services : Services) (ctx : Context) (body : ReverseDto) (db : SettlementDb)
    (response : Response) (db' : SettlementDb) (batch_id expected_version : ℕ)
    (locked : LockedSettlement)
    → validate_command ctx ≡ ok (batch_id, expected_version)
    → find_idempotency (reverse_scope ctx.actor batch_id) ctx.key db.idempotency ≡ none
    → lock batch_id db ≡ some locked
    → reverse services ctx body db ≡ ok (response, db')
    → Appends db db' (map (undoing locked.batch) (filter is_bank_credit locked.effects))
reverse-Appends services ctx body db response db' batch_id expected_version locked request unused
      found done =
    let run =
      reverse_ran services ctx body db response db' batch_id expected_version request unused done in
    let same : run.locked ≡ locked = some-injective (sym run.is_locked ∙ found) in
    let numbered = (random_uuid run.proved).1 in
    let postings = map (undoing run.locked.batch) (filter is_bank_credit run.locked.effects) in
    subst
      (λ (l : LockedSettlement).
        Appends db db' (map (undoing l.batch) (filter is_bank_credit l.effects)))
      same
      (Appends-same db run.done db' postings
        (movements-reverse_response ctx _ batch_id _ _ run.done run.answered)
        (Appends-trans db numbered run.done [] postings
          (same-Appends db numbered (
            movements-random_uuid run.proved
            ∙ movements-consume_proof ctx (started_reverse services ctx body db batch_id) run.proved
                run.consumed))
          (reverse_updates-Appends ctx batch_id (random_uuid run.proved).0 run.locked
            (trim body.reason) body.business_date numbered run.done run.updates)))
