-- ===== src/Settlement/Collection/Outcome.antt =====
-- What a `create_item` that returns has done.
use treasury_backend.Prelude.{
  ==_refl, Bool-cases, List, Option, [], any, ap, arith, inl, inr, is_some, none, none_of, not,
  option_eq_refl, refl, some, some-injective, subst, sym, true, true_of_not, ℕ, ◌++◌, ◌==◌, ◌∙◌,
  ◌∷◌, ◌≡◌, ◌⊎◌,
}
use treasury_backend.Prelude.Int.{eq_of_parts, int_laws, leb_ℤ, pos, ℤ, ◌+ℤ◌, ◌≤ℤ◌}
use treasury_backend.Money.{Text, big_int, big_int_from, decimal, split, units}
use treasury_backend.Store.{
  >>=-eq-ok, check_violation, collection_identity_conflict, ok, ok-injective, option_text_eq_refl,
  or_throw-eq-ok, text_eq_refl, throw_if-eq-ok, ◌>>=◌,
}
use treasury_backend.Settlement.{CollectionItem, SettlementDb}
use treasury_backend.Settlement.Collection.{
  CollectionItemCommand, by_source, insert_item, inserted_or_same, is_source, new_item,
  normal_decimal, same_immutable_payload, same_reference,
}
use treasury_backend.Settlement.Items.{IsSound, Reads}
use treasury_backend.Settlement.Repository.{item_by_id}
use treasury_backend.Settlement.Request.Arithmetic.{positive_of}

created_item :
    (numeric : Text → Option Text) (id : ℕ) (c : CollectionItemCommand) (db db' : SettlementDb)
    (o : Option ℕ)
    → insert_item numeric id c db ≡ ok (o, db')
    → (stored : Text) × (g : ℤ) × (numeric c.amount ≡ some stored)
      × Reads stored g
      × (¬ (g ≤ℤ pos 0))
      × (((o ≡ none) × (db' ≡ db))
          ⊎ ((o ≡ some id)
              × (by_source c.receipt_line_id db.items ≡ none)
              × (db' ≡ record db { items = db.items ++ new_item stored id c ∷ [] })))
unfolding insert_item
created_item numeric id c db db' o e =
    let (stored, held, e0) = or_throw-eq-ok (numeric c.amount) check_violation _ e in
    let (g, reads, e1) = or_throw-eq-ok (units stored) check_violation _ e0 in
    let (is_positive, e2) = throw_if-eq-ok (leb_ℤ g (pos 0)) check_violation _ e1 in
    (
      stored,
      g,
      held,
      reads,
      positive_of g is_positive,
      elim (Bool-cases (is_some (by_source c.receipt_line_id db.items))) [
        | inl known ↦
            (let same = ok-injective (rw known at e2) in
              inl (
                ap (λ (p : Option ℕ × SettlementDb). p.0) (sym same),
                ap (λ (p : Option ℕ × SettlementDb). p.1) (sym same),
              ))
        | inr new ↦
            (let (clash, e3) =
                throw_if-eq-ok (any (same_reference c) db.items) collection_identity_conflict _
                  (rw new at e2) in
              let same = ok-injective e3 in
              inr (
                ap (λ (p : Option ℕ × SettlementDb). p.0) (sym same),
                none_of _ new,
                ap (λ (p : Option ℕ × SettlementDb). p.1) (sym same),
              ))
      ],
    )

pub new_item-IsSound :
    (stored : Text) (id : ℕ) (c : CollectionItemCommand) (g : ℤ)
    → Reads stored g
    → ¬ (g ≤ℤ pos 0)
    → IsSound (new_item stored id c)
unfolding units decimal big_int big_int_from split ◌+ℤ◌
new_item-IsSound stored id c g reads is_positive = record {
  allocated = pos 0;
  remaining = g;
  gross = g;
  reads_allocated = refl;
  reads_remaining = reads;
  reads_gross = reads;
  balanced = eq_of_parts _ _ (omega int_laws);
  allocated_nonneg = omega arith;
  remaining_nonneg = omega int_laws;
  gross_positive = is_positive;
  shaped = (refl, refl);
}

pub find_appended :
    (rows : List CollectionItem) (new i : CollectionItem) (j : ℕ)
    → item_by_id j (rows ++ new ∷ []) ≡ some i
    → (item_by_id j rows ≡ some i) ⊎ (new ≡ i)
find_appended [] new i j e = elim (Bool-cases (new.id == j)) [
  | inl here ↦ inr (some-injective (rw here at e))
  | inr gone ↦ (let nothing = rw gone at e in cc nothing)
]
find_appended (x ∷ xs) new i j e = elim (Bool-cases (x.id == j)) [
  | inl here ↦ rw here (inl (rw here at e))
  | inr gone ↦ rw gone (find_appended xs new i j (rw gone at e))
]

-- What stands behind an identifier that is answered.
pub record Answer (c : CollectionItemCommand) (found : ℕ) (db : SettlementDb) : Type 0 where
  pub item : CollectionItem
  pub sourced : by_source c.receipt_line_id db.items ≡ some item
  pub same : same_immutable_payload item c ≡ true
  pub named : item.id ≡ found

inserted_or_same-Answer :
    (c : CollectionItemCommand) (db : SettlementDb) (found : ℕ) (db' : SettlementDb)
    → inserted_or_same c (none, db) ≡ ok (found, db')
    → (db' ≡ db) × Answer c found db
inserted_or_same-Answer c db found db' e =
    let (i, sourced, e1) =
      or_throw-eq-ok {B = ℕ × SettlementDb} (by_source c.receipt_line_id db.items)
        collection_identity_conflict _ e in
    let (same, e2) =
      throw_if-eq-ok (not (same_immutable_payload i c)) collection_identity_conflict _ e1 in
    (
      ap (λ (p : ℕ × SettlementDb). p.1) (sym (ok-injective e2)),
      record {
        item = i;
        sourced = sourced;
        same = true_of_not _ same;
        named = ap (λ (p : ℕ × SettlementDb). p.0) (ok-injective e2);
      },
    )

same_new :
    (stored : Text) (id : ℕ) (c : CollectionItemCommand)
    → normal_decimal stored ≡ normal_decimal c.amount
    → same_immutable_payload (new_item stored id c) c ≡ true
same_new stored id c same =
    rw
      (
        same,
        option_eq_refl c.branch_id,
        ==_refl c.treasury_unit_id,
        ==_refl c.channel_type,
        option_eq_refl c.channel_id,
        option_text_eq_refl c.provider_reference,
        ==_refl c.collected_party_id,
        text_eq_refl (normal_decimal c.amount),
        ==_refl c.currency,
        ==_refl c.destination_bank_account_id,
        ==_refl c.collected_at,
        ==_refl c.expected_settlement_date,
      )
      refl

source_appended :
    (line : ℕ) (rows : List CollectionItem) (new : CollectionItem)
    → is_source line new ≡ true
    → by_source line rows ≡ none
    → by_source line (rows ++ new ∷ []) ≡ some new
source_appended line [] new here e = rw here refl
source_appended line (x ∷ xs) new here e = elim (Bool-cases (is_source line x)) [
  | inl taken ↦ (let nothing = rw taken at e in cc nothing)
  | inr other ↦ rw other (source_appended line xs new here (rw other at e))
]

-- The outcome of `create_item`: the amount that the column holds is positive; the state is the old one
-- and has an item of the receipt line with the payload of the command, or it has the new item.
pub record Created (numeric : Text → Option Text) (id : ℕ) (c : CollectionItemCommand)
    (db : SettlementDb) (found : ℕ) (db' : SettlementDb) : Type 0 where
  pub stored : Text
  pub gross : ℤ
  pub held : numeric c.amount ≡ some stored
  pub reads : Reads stored gross
  pub gross_positive : ¬ (gross ≤ℤ pos 0)
  pub outcome :
      ((db' ≡ db) × Answer c found db')
      ⊎ ((by_source c.receipt_line_id db.items ≡ none)
          × (id ≡ found)
          × (db' ≡ record db { items = db.items ++ new_item stored id c ∷ [] }))

pub created :
    (numeric : Text → Option Text) (id : ℕ) (c : CollectionItemCommand) (db : SettlementDb)
    (found : ℕ) (db' : SettlementDb)
    → (insert_item numeric id c db >>= inserted_or_same c) ≡ ok (found, db')
    → Created numeric id c db found db'
created numeric id c db found db' e =
    let ((o, next), inserted, e1) =
      >>=-eq-ok (insert_item numeric id c db) (inserted_or_same c) e in
    let (stored, g, held, reads, is_positive, cases) =
      created_item numeric id c db next o inserted in
    let made : inserted_or_same c (o, next) ≡ ok (found, db') = e1 in
    record {
      stored = stored;
      gross = g;
      held = held;
      reads = reads;
      gross_positive = is_positive;
      outcome = elim cases [
        | inl (nothing, same) ↦
            (let (kept, answer) = inserted_or_same-Answer c next found db' (
                subst (λ (q : Option ℕ). inserted_or_same c (q, next) ≡ ok (found, db')) nothing
                  made) in
              inl (kept ∙ same, subst (Answer c found) (sym kept) answer))
        | inr (new, unknown, same) ↦
            (let pair : ◌≡◌ {A = ℕ × SettlementDb} (id, next) (found, db') = ok-injective (
                subst (λ (q : Option ℕ). inserted_or_same c (q, next) ≡ ok (found, db')) new
                  made) in
              inr (
                unknown,
                ap (λ (p : ℕ × SettlementDb). p.0) pair,
                sym (ap (λ (p : ℕ × SettlementDb). p.1) pair) ∙ same,
              ))
      ];
    }

-- Where the column keeps the normal form of the amount, the item answers for the command.
pub Created-Answer :
    (numeric : Text → Option Text) (id : ℕ) (c : CollectionItemCommand) (db : SettlementDb)
    (found : ℕ) (db' : SettlementDb) (run : Created numeric id c db found db')
    → normal_decimal run.stored ≡ normal_decimal c.amount
    → Answer c found db'
Created-Answer numeric id c db found db' run kept = elim run.outcome [
  | inl (same, answer) ↦ answer
  | inr (unknown, named, grown) ↦ record {
    item = new_item run.stored id c;
    sourced =
        ap (λ (d : SettlementDb). by_source c.receipt_line_id d.items) grown
        ∙ source_appended c.receipt_line_id db.items (new_item run.stored id c)
            (==_refl c.receipt_line_id) unknown;
    same = same_new run.stored id c kept;
    named = named;
  }
]
