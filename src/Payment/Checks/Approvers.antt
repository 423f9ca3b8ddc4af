-- ===== src/Payment/Checks/Approvers.antt =====
-- Who has approved a payment: `approverUserIds` of `lockPayment`, and the separation of duties that
-- src/payments/payment-execution.service.ts builds on it.
use treasury_backend.Prelude.{
  ==_iff, ==_refl, All, Bool, Bool-cases, List, Option, Option-cases, [], any, ap, arith, false,
  filter, find, ◌≤◌, leb, option_eq, option_eq-eq, and-true, includes, if◌then◌else◌, inl, inr,
  map-eq-some, none, not, or-false, refl, some, some-injective, subst, sym, true, unique, ℕ, ◌++◌,
  ◌==◌, ◌||◌, ◌∙◌, ◌∷◌, ◌≡◌, ◌≢◌, ◌⊎◌, or_assoc,
}
use treasury_backend.Money.Texts.{trim, trim_option}
use treasury_backend.Store.{option_text_eq, option_text_eq-eq}
use treasury_backend.Payment.{
  ApprovalAction, PaymentApprovalSnapshot, action_rejected, action_returned, LockedPayment,
  PaymentApprovalAction, PaymentDb, action_approved,
}
use treasury_backend.Payment.Checks.{
  CommandContext, SeparationOverride, override_approval_valid, valid_override, invalid_evidence,
  not_independent, is_override_evidence, conflicts_of, document_by_id, flat_map, is_approval_of,
  approvers, lock_payment, locked_rows, subjects_of,
}

-- The action is an approval under the snapshot that the user has made, or that another made for the
-- user.
abbrev pub Approves : ℕ → Option ℕ → PaymentApprovalAction → Type 0
Approves user snapshot a =
    (snapshot ≡ some a.approval_snapshot_id)
    × (a.action ≡ action_approved)
    × ((a.actor_user_id ≡ user) ⊎ (a.delegated_from_user_id ≡ some user))

-- No approval of the payment is the user's.
abbrev pub HasNotApproved : ℕ → LockedPayment → PaymentDb → Type 0
HasNotApproved user p db =
    All (λ a. ¬ Approves user p.document.current_approval_snapshot_id a) db.actions

approval_of-true :
    (snapshot : ℕ) (a : PaymentApprovalAction)
    → some snapshot ≡ some a.approval_snapshot_id
    → a.action ≡ action_approved
    → is_approval_of snapshot a ≡ true
approval_of-true snapshot a same is_approved =
    rw (is_approved, some-injective same) (rw (==_refl a.approval_snapshot_id) refl)

none-Approves :
    (user : ℕ) (rows : List PaymentApprovalAction) → All (λ a. ¬ Approves user none a) rows
none-Approves user [] = tt
none-Approves user (a ∷ rows) = (λ h. cc (h.0), none-Approves user rows)

module _ (user : ℕ) where
  abbrev is_user : ℕ → Bool
  is_user id = id == user

  any-filter :
      (x : ℕ) (ys : List ℕ)
      → (x == user) ≡ false
      → any is_user (filter (λ y. not (x == y)) ys) ≡ any is_user ys
  any-filter x [] other = refl
  any-filter x (y ∷ ys) other = ground (arith, any-filter x ys other)

  any-unique : (xs : List ℕ) → any is_user (unique xs) ≡ any is_user xs
  any-unique [] = refl
  any-unique (x ∷ xs) = elim (Bool-cases (x == user)) [
    | inl here ↦ rw here refl
    | inr other ↦ rw other (any-filter x (unique xs) other ∙ any-unique xs)
  ]

  any-append : (xs ys : List ℕ) → any is_user (xs ++ ys) ≡ (any is_user xs || any is_user ys)
  any-append [] ys = refl
  any-append (x ∷ xs) ys =
      ap (λ (b : Bool). (x == user) || b) (any-append xs ys)
      ∙ sym (or_assoc (x == user) (any is_user xs) (any is_user ys))

  no_subject :
      (a : PaymentApprovalAction)
      → any is_user (subjects_of a) ≡ false
      → ¬ ((a.actor_user_id ≡ user) ⊎ (a.delegated_from_user_id ≡ some user))
  no_subject a e (inl here) = elim (Option-cases a.delegated_from_user_id) [
    | inl own ↦ (let mine = rw own at e in ground (arith, here, mine))
    | inr (d, own) ↦ (let mine = rw own at e in ground (arith, here, mine))
  ]
  no_subject a e (inr there) = let other = rw there at e in ground (arith, other)

  subjects-HasNotApproved :
      (snapshot : ℕ) (rows : List PaymentApprovalAction)
      → any is_user (flat_map subjects_of (filter (is_approval_of snapshot) rows)) ≡ false
      → All (λ a. ¬ Approves user (some snapshot) a) rows
  subjects-HasNotApproved snapshot [] e = tt
  subjects-HasNotApproved snapshot (a ∷ rows) e = elim (Bool-cases (is_approval_of snapshot a)) [
    | inl approval ↦
        (let (here, rest) = or-false _ _ (
            sym (
              any-append (subjects_of a)
                (flat_map subjects_of (filter (is_approval_of snapshot) rows)))
            ∙ rw approval at e) in
          (λ h. no_subject a here h.2, subjects-HasNotApproved snapshot rows rest))
    | inr other ↦ (
      λ h. cc (approval_of-true snapshot a h.0 h.1, other),
      subjects-HasNotApproved snapshot rows (rw other at e),
    )
  ]

  approvers-HasNotApproved :
      (snapshot : Option ℕ) (db : PaymentDb)
      → any is_user (approvers snapshot db) ≡ false
      → All (λ a. ¬ Approves user snapshot a) db.actions
  approvers-HasNotApproved none db e = none-Approves user db.actions
  approvers-HasNotApproved (some snapshot) db e =
      subjects-HasNotApproved snapshot db.actions
        (sym (any-unique (flat_map subjects_of (filter (is_approval_of snapshot) db.actions))) ∙ e)

-- What is locked of a payment is read from the database.
pub locked-HasNotApproved :
    (user payment_id : ℕ) (p : LockedPayment) (db : PaymentDb)
    → lock_payment payment_id db ≡ some p
    → any (λ id. id == user) p.approver_user_ids ≡ false
    → HasNotApproved user p db
unfolding lock_payment
locked-HasNotApproved user payment_id p db found e =
    let (d, is_document, made) =
      map-eq-some (locked_rows db) (document_by_id payment_id db.documents) found in
    subst
      (λ (l : LockedPayment).
        any (λ id. id == user) l.approver_user_ids ≡ false → HasNotApproved user l db)
      made (approvers-HasNotApproved user d.current_approval_snapshot_id db) e

any-none :
    (user : ℕ) (ids : List ℕ)
    → filter (λ id. id == user) ids ≡ []
    → any (λ id. id == user) ids ≡ false
any-none user [] e = refl
any-none user (x ∷ xs) e = elim (Bool-cases (x == user)) [
  | inl here ↦ (let nothing = rw here at e in cc nothing)
  | inr other ↦ rw other (any-none user xs (rw other at e))
]

-- Without conflicts the actor has neither created nor approved the payment.
pub conflicts_of-none :
    (ctx : CommandContext) (payment_id : ℕ) (p : LockedPayment) (db : PaymentDb)
    → lock_payment payment_id db ≡ some p
    → conflicts_of ctx p ≡ []
    → (p.document.creator_user_id ≢ ctx.actor) × HasNotApproved ctx.actor p db
conflicts_of-none ctx payment_id p db found e =
    let (creator, approver) =
      or-false (p.document.creator_user_id == ctx.actor) _
        (any-none ctx.actor (p.document.creator_user_id ∷ p.approver_user_ids) e) in
    (
      λ same. cc (creator, (==_iff p.document.creator_user_id ctx.actor).1 same),
      locked-HasNotApproved ctx.actor payment_id p db found approver,
    )

-- The approval action that an override names is evidence of it: an approval under the snapshot of the
-- payment, for the same reason, of a version that is not later, by somebody else than the executor.
pub record IsEvidence (p : LockedPayment) (o : SeparationOverride) (executor : ℕ) (db : PaymentDb)
    : Type 0 where
  pub action : PaymentApprovalAction
  pub snapshot : PaymentApprovalSnapshot
  pub is_action : find (λ a. a.id == o.independent_approval_action_id) db.actions ≡ some action
  pub is_snapshot : find (λ s. s.id == action.approval_snapshot_id) db.snapshots ≡ some snapshot
  pub is_approval : action.action ≡ action_approved
  pub is_current : p.document.current_approval_snapshot_id ≡ some action.approval_snapshot_id
  pub same_reason : trim_option action.reason ≡ some (trim o.reason)
  pub not_later : snapshot.document_version ≤ p.document.version
  pub independent : action.actor_user_id ≢ executor

approval_action :
    (a : ApprovalAction)
    → (elim a [ action_approved ↦ true | _ ↦ false ]) ≡ true
    → a ≡ action_approved
approval_action action_approved e = refl
approval_action action_rejected e = cc
approval_action action_returned e = cc

valid_cases :
    (p : LockedPayment) (o : SeparationOverride) (executor : ℕ) (conflicting : List ℕ)
    (a : PaymentApprovalAction) (s : PaymentApprovalSnapshot)
    → (if not (is_override_evidence p o a s)
        then invalid_evidence
        else if a.actor_user_id == executor || includes a.actor_user_id conflicting
        then not_independent
        else valid_override)
      ≡ valid_override
    → (is_override_evidence p o a s ≡ true) × ((a.actor_user_id == executor) ≡ false)
valid_cases p o executor conflicting a s e = elim (Bool-cases (is_override_evidence p o a s)) [
  | inl evident ↦ elim (Bool-cases (a.actor_user_id == executor)) [
    | inl own ↦ (let wrong = rw own at (rw evident at e) in cc wrong)
    | inr other ↦ (evident, other)
  ]
  | inr missing ↦ (let wrong = rw missing at e in cc wrong)
]

pub override_approval_valid-IsEvidence :
    (p : LockedPayment) (o : SeparationOverride) (executor : ℕ) (conflicting : List ℕ)
    (db : PaymentDb)
    → override_approval_valid p o executor conflicting db ≡ valid_override
    → IsEvidence p o executor db
unfolding override_approval_valid
override_approval_valid-IsEvidence p o executor conflicting db e =
    elim (Option-cases (find (λ a. a.id == o.independent_approval_action_id) db.actions)) [
      | inl missing ↦ (let wrong = rw (override_approval_valid, missing) at e in cc wrong)
      | inr (a, is_action) ↦
          elim (Option-cases (find (λ s. s.id == a.approval_snapshot_id) db.snapshots)) [
            | inl missing ↦
                (let wrong = rw (override_approval_valid, is_action, missing) at e in cc wrong)
            | inr (s, is_snapshot) ↦
                (let (evident, other) =
                    valid_cases p o executor conflicting a s
                      (rw (override_approval_valid, is_action, is_snapshot) at e) in
                  let (e1, not_later) =
                    and-true _ (leb s.document_version p.document.version) evident in
                  let (e2, same) =
                    and-true _ (option_text_eq (trim_option a.reason) (some (trim o.reason))) e1 in
                  let (approval, current) =
                    and-true _
                      (option_eq (some a.approval_snapshot_id)
                        p.document.current_approval_snapshot_id)
                      e2 in
                  record {
                    action = a;
                    snapshot = s;
                    is_action = is_action;
                    is_snapshot = is_snapshot;
                    is_approval = approval_action a.action approval;
                    is_current = sym (option_eq-eq _ _ current);
                    same_reason = option_text_eq-eq _ _ same;
                    not_later = ground (arith, not_later);
                    independent = λ (own : a.actor_user_id ≡ executor).
                        cc (other, (==_iff a.actor_user_id executor).1 own);
                  })
          ]
    ]
