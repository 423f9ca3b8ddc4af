-- ===== src/Settlement/Tests/Collection.antt =====
-- Runs of `create_item`, and the theorems applied to them.
use treasury_backend.Prelude.{Option, [], none, refl, replicate, some, ◌∷◌, ◌≡◌}
use treasury_backend.Prelude.Int.{◌+ℤ◌}
use treasury_backend.Money.{
  Text, big_int, big_int_from, decimal, fraction_of, split, strip_zeros, units, whole_of,
}
use treasury_backend.Money.Texts.{trim, trim_end, trim_start}
use treasury_backend.Store.{collection_identity_conflict, err, ok}
use treasury_backend.Settlement.{SettlementDb}
use treasury_backend.Settlement.Collection.{
  CollectionItemCommand, create_item, insert_item, new_item, normal_decimal, strip_fraction,
  strip_leading, strip_sign_leading,
}
use treasury_backend.Settlement.Items.{AllSound}
use treasury_backend.Settlement.Collection.Once.{create_item-AllSound, create_item-create_item}
use treasury_backend.Settlement.Collection.Column.{column_text}
use treasury_backend.Settlement.Tests.Fixtures.{db, item}
use treasury_backend.Settlement.Tests.Confirm.{db-AllSound}

abbrev command : CollectionItemCommand
command = record {
  receipt_line_id = 51;
  branch_id = some 2;
  treasury_unit_id = 3;
  channel_type = 1;
  channel_id = none;
  provider_reference = some (b' ' ∷ b'p' ∷ []);
  collected_party_id = 8;
  amount = b'7' ∷ b'.' ∷ b'5' ∷ [];
  currency = 1;
  destination_bank_account_id = 4;
  collected_at = 19;
  expected_settlement_date = 20;
}

-- A column that keeps eight digits after the point.
abbrev numeric : Text → Option Text
numeric s = let parts = split b'.' s in some (column_text (whole_of parts) (fraction_of parts))

abbrev grown : SettlementDb
grown = record db {
  items =
      item
      ∷ new_item (b'7' ∷ b'.' ∷ b'5' ∷ replicate 7 b'0') 60
          (record command { provider_reference = some (b'p' ∷ []) })
      ∷ [];
}

-- A new receipt line has a new item, with the trimmed reference.
creates : create_item numeric 60 command db ≡ ok (60, grown)
unfolding create_item insert_item units decimal big_int big_int_from split trim trim_start trim_end
    strip_leading ◌+ℤ◌
creates = refl

number : numeric command.amount ≡ some (column_text (b'7' ∷ []) (b'5' ∷ []))
unfolding split
number = refl

-- The same line with another amount is refused; the same amount in other digits is not.
other_amount :
    create_item numeric 61 (record command { amount = b'8' ∷ [] }) grown
    ≡ err collection_identity_conflict
unfolding create_item insert_item units decimal big_int big_int_from split trim trim_start trim_end
    normal_decimal strip_fraction strip_sign_leading strip_leading strip_zeros ◌+ℤ◌
other_amount = refl

other_digits :
    create_item numeric 61 (record command { amount = b'7' ∷ b'.' ∷ b'5' ∷ b'0' ∷ [] }) grown
    ≡ ok (60, grown)
unfolding create_item insert_item units decimal big_int big_int_from split trim trim_start trim_end
    normal_decimal strip_fraction strip_sign_leading strip_leading strip_zeros ◌+ℤ◌
other_digits = refl

create_item-AllSound_example : AllSound grown
create_item-AllSound_example =
    create_item-AllSound numeric 60 command db 60 grown db-AllSound creates

create_item-create_item_example : create_item numeric 61 command grown ≡ ok (60, grown)
create_item-create_item_example =
    create_item-create_item numeric 60 61 command db 60 grown (b'7' ∷ []) (b'5' ∷ [])
      (record { given = refl; whole_digits = (refl, tt); fraction_digits = (refl, tt) }) refl number
      creates
