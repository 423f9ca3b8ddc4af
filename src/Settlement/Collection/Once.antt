-- ===== src/Settlement/Collection/Once.antt =====
-- What `create_item` keeps, and what it answers the second time.
use treasury_backend.Prelude.{
  Bool, Option, [], ap, arith, false, inl, inr, none, not, refl, some, some-injective, subst, sym,
  ℕ, ◌++◌, ◌∙◌, ◌∷◌, ◌≡◌,
}
use treasury_backend.Prelude.Int.{leb_ℤ, pos, ℤ, ◌≤ℤ◌}
use treasury_backend.Money.{Text, dotted}
use treasury_backend.Store.{collection_identity_conflict, ok, or_throw, throw_if, ◌>>=◌, ◌>>◌}
use treasury_backend.Settlement.{CollectionItem, SettlementDb}
use treasury_backend.Settlement.Collection.{
  CollectionItemCommand, create_item, insert_item, inserted_or_same, new_item, normal_decimal,
  normalized_command, same_immutable_payload,
}
use treasury_backend.Settlement.Items.{AllSound, IsSound, Reads}
use treasury_backend.Settlement.Collection.Outcome.{
  Answer, Created-Answer, created, find_appended, new_item-IsSound,
}
use treasury_backend.Settlement.Collection.Column.{
  IsDecimal, column_text, normal_decimal-column_text,
}

grown-AllSound :
    (stored : Text) (id : ℕ) (c : CollectionItemCommand) (db : SettlementDb) (g : ℤ)
    → Reads stored g
    → ¬ (g ≤ℤ pos 0)
    → AllSound db
    → AllSound (record db { items = db.items ++ new_item stored id c ∷ [] })
grown-AllSound stored id c db g reads is_positive all_sound j i e =
    elim (find_appended db.items (new_item stored id c) i j e) [
      | inl old ↦ all_sound j i old
      | inr new ↦ subst IsSound new (new_item-IsSound stored id c g reads is_positive)
    ]

-- If every collection item satisfies the constraints on its money (the gross amount is positive, the
-- allocated and the remaining amount are not negative and sum up to it, and they have the shape that
-- goes with the state), then so it is after a `create` that returns, whether it has inserted an item
-- or found one, whatever the column makes of the amount.
pub create_item-AllSound :
    (numeric : Text → Option Text) (id : ℕ) (command : CollectionItemCommand) (db : SettlementDb)
    (found : ℕ) (db' : SettlementDb)
    → AllSound db
    → create_item numeric id command db ≡ ok (found, db')
    → AllSound db'
unfolding create_item
create_item-AllSound numeric id command db found db' all_sound e =
    let run = created numeric id (normalized_command command) db found db' e in
    elim run.outcome [
      | inl (same, answer) ↦ subst AllSound (sym same) all_sound
      | inr (unknown, named, grown) ↦ subst AllSound (sym grown) (
          grown-AllSound run.stored id (normalized_command command) db run.gross run.reads
            run.gross_positive all_sound)
    ]

known :
    (numeric : Text → Option Text) (id : ℕ) (c : CollectionItemCommand) (db : SettlementDb)
    (found : ℕ) (stored : Text) (g : ℤ)
    → numeric c.amount ≡ some stored
    → Reads stored g
    → ¬ (g ≤ℤ pos 0)
    → Answer c found db
    → insert_item numeric id c db ≡ ok (none, db)
unfolding insert_item
known numeric id c db found stored g held reads is_positive a =
    let above : leb_ℤ g (pos 0) ≡ false = ground (arith, is_positive) in
    rw (held, reads, above, a.sourced) refl

Answer-inserted_or_same :
    (c : CollectionItemCommand) (db : SettlementDb) (found : ℕ)
    → Answer c found db
    → inserted_or_same c (none, db) ≡ ok (found, db)
Answer-inserted_or_same c db found a =
    ap
      (λ (o : Option CollectionItem). or_throw o collection_identity_conflict >>= λ x.
        throw_if (not (same_immutable_payload x c)) collection_identity_conflict >> ok (x.id, db))
      a.sourced
    ∙ ap (λ (b : Bool). throw_if (not b) collection_identity_conflict >> ok (a.item.id, db)) a.same
    ∙ ap (λ (n : ℕ). ok (n, db)) a.named

-- After a `create` of a decimal amount has returned an identifier, the same command returns that
-- identifier again and changes nothing, whatever `randomUUID()` returns then; where the column holds
-- the amount with eight digits after the point, as PostgreSQL does for an amount that has no more.
pub create_item-create_item :
    (numeric : Text → Option Text) (id other : ℕ) (command : CollectionItemCommand)
    (db : SettlementDb) (found : ℕ) (db' : SettlementDb) (whole fraction : Text)
    → IsDecimal whole fraction
    → command.amount ≡ whole ++ dotted fraction
    → numeric command.amount ≡ some (column_text whole fraction)
    → create_item numeric id command db ≡ ok (found, db')
    → create_item numeric other command db' ≡ ok (found, db')
unfolding create_item
create_item-create_item numeric id other command db found db' whole fraction is_decimal written
      column e =
    let c = normalized_command command in
    let run = created numeric id c db found db' e in
    let stored : run.stored ≡ column_text whole fraction = some-injective (sym run.held ∙ column) in
    let kept =
      ap normal_decimal stored
      ∙ normal_decimal-column_text whole fraction is_decimal
      ∙ ap normal_decimal (sym written) in
    let answer = Created-Answer numeric id c db found db' run kept in
    rw
      (known numeric other c db' found run.stored run.gross run.held run.reads run.gross_positive
        answer)
      (Answer-inserted_or_same c db' found answer)
