-- ===== src/Settlement/Collection.antt =====
-- src/collection-and-settlement/collection-effects.service.ts: a collection item is created from a
-- receipt line, once.
pub mod Column
pub mod Outcome
pub mod Once
use treasury_backend.Prelude.{
  Bool, List, Option, [], all, any, false, find, if◌then◌else◌, is_some, none, not, option_eq,
  replicate, some, ℕ, ◌&&◌, ◌++◌, ◌==◌, ◌∷◌,
}
use treasury_backend.Prelude.Int.{leb_ℤ, pos}
use treasury_backend.Money.{Text, is_digit, is_empty, strip_zeros, units}
use treasury_backend.Money.Texts.{non_empty, trim_option}
use treasury_backend.Store.{
  Result, check_violation, collection_identity_conflict, ok, option_text_eq, or_throw, text_eq,
  throw_if, ◌>>=◌, ◌>>◌,
}
use treasury_backend.Settlement.{
  CollectionItem, SettlementDb, cheque_event, open_item, receipt_line,
}

-- `CollectionItemCommand`
pub record CollectionItemCommand : Type 0 where
  pub receipt_line_id : ℕ
  pub branch_id : Option ℕ
  pub treasury_unit_id : ℕ
  pub channel_type : ℕ
  pub channel_id : Option ℕ
  pub provider_reference : Option Text
  pub collected_party_id : ℕ
  pub amount : Text
  pub currency : ℕ
  pub destination_bank_account_id : ℕ
  pub collected_at : ℕ
  pub expected_settlement_date : ℕ

abbrev pub starts_with_digit : Text → Bool
starts_with_digit [] = false
starts_with_digit (c ∷ s) = is_digit c

-- `.replace(/^0+(?=\d)/u, '')`
unfoldable pub strip_leading : Text → Text
strip_leading [] = []
strip_leading (c ∷ s) =
    let rest = strip_leading s in if c == b'0' && starts_with_digit s then rest else c ∷ s

-- `.replace(/^(-?)0+(?=\d)/u, '$1')`
unfoldable pub strip_sign_leading : Text → Text
strip_sign_leading [] = []
strip_sign_leading (c ∷ s) = if c == b'-' then c ∷ strip_leading s else strip_leading (c ∷ s)

-- `.replace(/(\.\d*?)0+$/u, '$1').replace(/\.$/u, '')`
unfoldable pub strip_fraction : Text → Text
strip_fraction [] = []
strip_fraction (c ∷ s) =
    let rest = strip_fraction s in
    let kept = strip_zeros s in
    if c == b'.' && all is_digit s then (if is_empty kept then [] else c ∷ kept) else c ∷ rest

abbrev pub minus_zero : Text → Text
minus_zero t = if text_eq t (b'-' ∷ b'0' ∷ []) then b'0' ∷ [] else t

-- `decimal`: the amount without its redundant zeros.
unfoldable pub normal_decimal : Text → Text
normal_decimal value = minus_zero (strip_fraction (strip_sign_leading value))

abbrev pub is_source : ℕ → CollectionItem → Bool
is_source line i = elim i.source_fact_type [
  | receipt_line ↦ i.source_fact_id == line
  | cheque_event ↦ false
]

-- `bySource`
abbrev pub by_source : ℕ → List CollectionItem → Option CollectionItem
by_source line = find (is_source line)

-- The key of `uq_collection_item_provider_reference`: the channel, or the account without one.
abbrev same_channel : CollectionItemCommand → CollectionItem → Bool
same_channel c i = elim i.channel_id [
  | some channel ↦ option_eq c.channel_id (some channel)
  | none ↦
      not (is_some c.channel_id) && c.destination_bank_account_id == i.destination_bank_account_id
]

abbrev pub same_reference : CollectionItemCommand → CollectionItem → Bool
same_reference c i =
    is_some c.provider_reference
    && option_text_eq c.provider_reference i.provider_reference
    && c.channel_type == i.channel_type
    && same_channel c i

-- `0` in a column numeric(38, 8)
abbrev zero_text : Text
zero_text = b'0' ∷ b'.' ∷ replicate 8 b'0'

-- The row that is inserted; `gross` is the amount of the command as its column holds it.
abbrev pub new_item : Text → ℕ → CollectionItemCommand → CollectionItem
new_item gross id c = record {
  id = id;
  source_fact_type = receipt_line;
  source_fact_id = c.receipt_line_id;
  channel_type = c.channel_type;
  channel_id = c.channel_id;
  provider_reference = c.provider_reference;
  collected_party_id = some c.collected_party_id;
  collected_at = c.collected_at;
  expected_settlement_date = c.expected_settlement_date;
  branch_id = c.branch_id;
  treasury_unit_id = c.treasury_unit_id;
  destination_bank_account_id = c.destination_bank_account_id;
  currency = c.currency;
  gross_amount = gross;
  allocated_amount = zero_text;
  remaining_amount = gross;
  state = open_item;
  version = 0;
}

-- `insert`, with the constraints of the table: the gross amount is a positive number, a row of the
-- same receipt line is left as it is (ON CONFLICT DO NOTHING), and a row of the same provider
-- reference is an error, which `create` renames. `numeric` is the column numeric(38, 8): the text that
-- it returns for a number that is put into it, if it takes it.
unfoldable pub insert_item :
    (Text → Option Text)
    → ℕ
    → CollectionItemCommand
    → SettlementDb
    → Result (Option ℕ × SettlementDb)
insert_item numeric id c db = do
  stored ← or_throw (numeric c.amount) check_violation
  gross ← or_throw (units stored) check_violation
  throw_if (leb_ℤ gross (pos 0)) check_violation
  if is_some (by_source c.receipt_line_id db.items)
      then ok (none, db)
      else (throw_if (any (same_reference c) db.items) collection_identity_conflict
          >> ok (some id, record db { items = db.items ++ new_item stored id c ∷ [] }))

abbrev pub same_immutable_payload : CollectionItem → CollectionItemCommand → Bool
same_immutable_payload i c =
    option_eq i.branch_id c.branch_id
    && i.treasury_unit_id == c.treasury_unit_id
    && i.channel_type == c.channel_type
    && option_eq i.channel_id c.channel_id
    && option_text_eq i.provider_reference c.provider_reference
    && option_eq i.collected_party_id (some c.collected_party_id)
    && text_eq (normal_decimal i.gross_amount) (normal_decimal c.amount)
    && i.currency == c.currency
    && i.destination_bank_account_id == c.destination_bank_account_id
    && i.collected_at == c.collected_at
    && i.expected_settlement_date == c.expected_settlement_date

abbrev pub normalized_command : CollectionItemCommand → CollectionItemCommand
normalized_command c = record c {
  provider_reference = non_empty (trim_option c.provider_reference);
}

abbrev pub inserted_or_same :
    CollectionItemCommand → Option ℕ × SettlementDb → Result (ℕ × SettlementDb)
inserted_or_same c (some id, db) = ok (id, db)
inserted_or_same c (none, db) = do
  existing ← or_throw (by_source c.receipt_line_id db.items) collection_identity_conflict
  throw_if (not (same_immutable_payload existing c)) collection_identity_conflict
  ok (existing.id, db)

-- `create`; `id` is what `randomUUID()` returns.
unfoldable pub create_item :
    (Text → Option Text) → ℕ → CollectionItemCommand → SettlementDb → Result (ℕ × SettlementDb)
create_item numeric id command db = do
  let c = normalized_command command
  outcome ← insert_item numeric id c db
  inserted_or_same c outcome
