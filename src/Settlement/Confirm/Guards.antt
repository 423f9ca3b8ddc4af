-- ===== src/Settlement/Confirm/Guards.antt =====
-- What a successful `confirm` has checked, and what it keeps.
use treasury_backend.Prelude.{
  ==_iff, All, Bool-cases, List, Option, Option-cases, [], all, and-true, any, ap, arith, false,
  inl, inr, is_nil, length, none, not, or-false, refl, some, sym, true, true_of_not, ℕ, ◌&&◌, ◌==◌,
  ◌||◌, ◌∙◌, ◌∷◌, ◌≡◌, ◌≢◌, ◌⊎◌,
}
use treasury_backend.Prelude.Int.{==ℤ_iff, pos, ℤ, ◌==ℤ◌, ◌≤ℤ◌}
use treasury_backend.Money.{Text, units}
use treasury_backend.Store.{
  >>=-eq-ok, allocation_conflict, discrepancy_unresolved, evidence_invalid, ok, or_throw-eq-ok,
  throw_if-eq-ok, throw_if-false,
}
use treasury_backend.Settlement.{
  Allocation, AllocationState, Attachment, BankAccount, Batch, BatchState, CollectionItem,
  Disposition, ItemState, LockedSettlement, SettlementDb, allocated_item, approved_difference,
  cancelled, confirmed, confirmed_allocation, correction_required, delayed, disputed,
  in_discrepancy, matched, no_discrepancy, open_discrepancy, open_item, partially_allocated,
  proposed, reopened_after_reversal, returned, returned_discrepancy, reversal, reversed,
  reversed_allocation, settled,
}
use treasury_backend.Settlement.Repository.{
  ConfirmationFacts, Evidence, confirmation_facts, item_by_id,
}
use treasury_backend.Settlement.Service.{is_allocatable, units_or_throw-eq-ok}
use treasury_backend.Settlement.Confirm.{
  account_accepts, check_allocation, check_allocations, confirm_guards, has_evidence,
  is_approved_difference, is_current, is_proposal, is_proposed, validate_locked_allocations,
}

-- The linked attachment is there, active, and has the content that was linked.
abbrev pub IsCurrent : Evidence → Type 0
IsCurrent e =
    (a : Attachment) × (e.current ≡ some a)
    × (a.is_active ≡ true)
    × (a.content_digest ≡ e.linked_digest)

-- The allocation is at the version of an item that can be allocated, of the account and the currency
-- of the batch, and takes no more than what remains of it.
abbrev pub Fits : Batch → List CollectionItem → Allocation → Type 0
Fits batch items a =
    (item : CollectionItem) × (taken : ℤ) × (remaining : ℤ) × (item_by_id a.collection_item_id items
      ≡ some item)
    × ((item.state ≡ open_item)
        ⊎ (item.state ≡ partially_allocated)
        ⊎ (item.state ≡ reopened_after_reversal))
    × (item.version ≡ a.collection_item_version)
    × (item.destination_bank_account_id ≡ batch.destination_bank_account_id)
    × (item.currency ≡ batch.currency)
    × (units a.allocated_amount ≡ some taken)
    × (units item.remaining_amount ≡ some remaining)
    × (taken ≤ℤ remaining)

-- The guards in the words of the rules: the version is the expected one, the batch is a proposal, the
-- confirming user did not create it, its account can receive and its evidence is current, and its
-- allocations fit the items.
pub record IsConfirmable (actor expected_version : ℕ) (locked : LockedSettlement)
    (facts : ConfirmationFacts) : Type 0 where
  pub current : locked.batch.version ≡ expected_version
  pub proposal : (locked.batch.state ≡ matched) ⊎ (locked.batch.state ≡ in_discrepancy)
  pub separated : locked.batch.creator_user_id ≢ actor
  pub resolved :
      (units locked.batch.discrepancy_amount ≡ some (pos 0))
      ⊎ (locked.batch.discrepancy_disposition ≡ approved_difference)
  pub account :
      (a : BankAccount) × (facts.account ≡ some a)
      × (a.is_active ≡ true)
      × (a.can_receive ≡ true)
      × (a.currency ≡ locked.batch.currency)
  pub has_attachments : is_nil facts.attachments ≡ false
  pub evidenced : All IsCurrent facts.attachments
  pub has_allocations : is_nil locked.allocations ≡ false
  pub one_for_each : length locked.allocations ≡ length locked.items
  pub proposals : All (λ (a : Allocation). a.state ≡ proposed) locked.allocations
  pub fitting : All (Fits locked.batch locked.items) locked.allocations
  pub allocated : validate_locked_allocations locked ≡ ok tt

approved : (s : Disposition) → not (is_approved_difference s) ≡ false → s ≡ approved_difference
approved no_discrepancy e = cc
approved open_discrepancy e = cc
approved approved_difference e = refl
approved correction_required e = cc
approved returned_discrepancy e = cc

proposal_states : (s : BatchState) → is_proposal s ≡ true → (s ≡ matched) ⊎ (s ≡ in_discrepancy)
proposal_states matched e = inl refl
proposal_states in_discrepancy e = inr refl
proposal_states confirmed e = cc
proposal_states reversed e = cc
proposal_states reversal e = cc

resolved_cases :
    (value : Text) (disposition : Disposition) (d : ℤ)
    → units value ≡ some d
    → (not (d ==ℤ pos 0) && not (is_approved_difference disposition)) ≡ false
    → (units value ≡ some (pos 0)) ⊎ (disposition ≡ approved_difference)
resolved_cases value disposition d reads r = elim (Bool-cases (d ==ℤ pos 0)) [
  | inl none_left ↦ inl (reads ∙ ap some ((==ℤ_iff d (pos 0)).0 none_left))
  | inr differs ↦ inr (approved disposition (rw differs at r))
]

account_accepts-cases :
    (batch : Batch) (o : Option BankAccount)
    → account_accepts batch o ≡ true
    → (a : BankAccount) × (o ≡ some a)
      × (a.is_active ≡ true)
      × (a.can_receive ≡ true)
      × (a.currency ≡ batch.currency)
account_accepts-cases batch none e = cc
account_accepts-cases batch (some a) e =
    let (able, same) = and-true (a.is_active && a.can_receive) (a.currency == batch.currency) e in
    let (is_active, receives) = and-true a.is_active a.can_receive able in
    (a, refl, is_active, receives, (==_iff a.currency batch.currency).0 same)

is_current-IsCurrent : (e : Evidence) → is_current e ≡ true → IsCurrent e
is_current-IsCurrent e h = elim (Option-cases e.current) [
  | inl gone ↦ (let wrong = rw gone at h in cc wrong)
  | inr (a, found) ↦
      (let (is_active, digest) =
          and-true a.is_active (e.linked_digest == a.content_digest) (rw found at h) in
        (a, found, is_active, sym ((==_iff e.linked_digest a.content_digest).0 digest)))
]

all-IsCurrent : (es : List Evidence) → all is_current es ≡ true → All IsCurrent es
all-IsCurrent [] h = tt
all-IsCurrent (e ∷ es) h =
    let (here, rest) = and-true (is_current e) (all is_current es) h in
    (is_current-IsCurrent e here, all-IsCurrent es rest)

has_evidence-cases :
    (es : List Evidence) → has_evidence es ≡ true → (is_nil es ≡ false) × All IsCurrent es
has_evidence-cases [] h = cc
has_evidence-cases (e ∷ es) h = (refl, all-IsCurrent (e ∷ es) h)

proposed_state : (s : AllocationState) → not (is_proposed s) ≡ false → s ≡ proposed
proposed_state proposed e = refl
proposed_state confirmed_allocation e = cc
proposed_state reversed_allocation e = cc

All-proposed :
    (list : List Allocation)
    → any (λ (a : Allocation). not (is_proposed a.state)) list ≡ false
    → All (λ (a : Allocation). a.state ≡ proposed) list
All-proposed [] e = tt
All-proposed (a ∷ rest) e =
    let (here, more) = or-false (not (is_proposed a.state)) _ e in
    (proposed_state a.state here, All-proposed rest more)

allocatable_states :
    (s : ItemState)
    → is_allocatable s ≡ true
    → (s ≡ open_item) ⊎ (s ≡ partially_allocated) ⊎ (s ≡ reopened_after_reversal)
allocatable_states open_item e = inl refl
allocatable_states partially_allocated e = inr (inl refl)
allocatable_states reopened_after_reversal e = inr (inr refl)
allocatable_states allocated_item e = cc
allocatable_states settled e = cc
allocatable_states delayed e = cc
allocatable_states disputed e = cc
allocatable_states returned e = cc
allocatable_states cancelled e = cc

check_allocation-Fits :
    (batch : Batch) (items : List CollectionItem) (a : Allocation)
    → check_allocation batch items a ≡ ok tt
    → Fits batch items a
unfolding check_allocation
check_allocation-Fits batch items a e =
    let (item, found, e1) =
      or_throw-eq-ok (item_by_id a.collection_item_id items) allocation_conflict _ e in
    let (passes, e2) = throw_if-eq-ok _ allocation_conflict _ e1 in
    let (taken, rt, e3) = units_or_throw-eq-ok a.allocated_amount _ e2 in
    let (remaining, rr, e4) = units_or_throw-eq-ok item.remaining_amount _ e3 in
    let enough = throw_if-false _ allocation_conflict e4 in
    let (p1, currency) = and-true _ (item.currency == batch.currency) (true_of_not _ passes) in
    let (p2, account) =
      and-true _ (item.destination_bank_account_id == batch.destination_bank_account_id) p1 in
    let (state, version) =
      and-true (is_allocatable item.state) (item.version == a.collection_item_version) p2 in
    (
      item,
      taken,
      remaining,
      found,
      allocatable_states item.state state,
      (==_iff _ _).0 version,
      (==_iff _ _).0 account,
      (==_iff _ _).0 currency,
      rt,
      rr,
      ground (arith, enough),
    )

check_allocations-Fits :
    (batch : Batch) (items : List CollectionItem) (list : List Allocation)
    → check_allocations batch items list ≡ ok tt
    → All (Fits batch items) list
unfolding check_allocations
check_allocations-Fits batch items [] e = tt
check_allocations-Fits batch items (a ∷ rest) e =
    let (u, here, more) = >>=-eq-ok (check_allocation batch items a) _ e in
    (check_allocation-Fits batch items a here, check_allocations-Fits batch items rest more)

pub confirm_guards-IsConfirmable :
    (actor expected_version : ℕ) (locked : LockedSettlement) (db : SettlementDb)
    → confirm_guards actor expected_version locked db ≡ ok tt
    → IsConfirmable actor expected_version locked (confirmation_facts locked.batch db)
unfolding confirm_guards validate_locked_allocations
confirm_guards-IsConfirmable actor expected_version locked db e =
    let b = locked.batch in
    let (v, e1) = throw_if-eq-ok (not (b.version == expected_version)) _ _ e in
    let (s, e2) = throw_if-eq-ok (not (is_proposal b.state)) _ _ e1 in
    let (c, e3) = throw_if-eq-ok (b.creator_user_id == actor) _ _ e2 in
    let (d, reads, e4) = units_or_throw-eq-ok b.discrepancy_amount _ e3 in
    let (r, e5) =
      throw_if-eq-ok (not (d ==ℤ pos 0) && not (is_approved_difference b.discrepancy_disposition))
        discrepancy_unresolved _ e4 in
    let facts = confirmation_facts b db in
    let (a, e6) =
      throw_if-eq-ok (not (account_accepts b facts.account && has_evidence facts.attachments))
        evidence_invalid (validate_locked_allocations locked) e5 in
    let (accepts, evidence) =
      and-true (account_accepts b facts.account) (has_evidence facts.attachments)
        (true_of_not _ a) in
    let (attached, is_current) = has_evidence-cases facts.attachments evidence in
    let (shape, e7) = throw_if-eq-ok _ allocation_conflict _ e6 in
    let (counts, states) =
      or-false (is_nil locked.allocations || not (length locked.allocations == length locked.items))
        _ shape in
    let (nonempty, lengths) = or-false (is_nil locked.allocations) _ counts in
    record {
      current = (==_iff _ _).0 (true_of_not _ v);
      proposal = proposal_states b.state (true_of_not _ s);
      separated = λ same. cc (c, (==_iff _ _).1 same);
      resolved = resolved_cases b.discrepancy_amount b.discrepancy_disposition d reads r;
      account = account_accepts-cases b facts.account accepts;
      has_attachments = attached;
      evidenced = is_current;
      has_allocations = nonempty;
      one_for_each = (==_iff _ _).0 (true_of_not _ lengths);
      proposals = All-proposed locked.allocations states;
      fitting = check_allocations-Fits b locked.items locked.allocations e7;
      allocated = e6;
    }
