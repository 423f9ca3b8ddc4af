-- ===== src/Money/Tests.antt =====
-- Amounts read and printed.
use treasury_backend.Prelude.{[], refl, some, ◌*◌, ◌++◌, ◌+◌, ◌∷◌, ◌≡◌}
use treasury_backend.Prelude.Int.{neg_ℤ, negsuc, pos, ◌+ℤ◌}
use treasury_backend.Money.{
  amount, big_int_from, decimal, digits, digits_fuel, dotted, fraction_text, scale, strip_zeros,
  units,
}
use treasury_backend.Money.RoundTrip.{decimal_negative, units-amount}

-- -5.5
decimal_negative_example :
    (units (b'-' ∷ (b'5' ∷ []) ++ dotted (b'5' ∷ [])) ≡ some (neg_ℤ (pos (5 * scale + 50000000))))
    × (decimal (b'-' ∷ (b'5' ∷ []) ++ dotted (b'5' ∷ []))
        ≡ some (neg_ℤ (pos (5 * scale + 50000000)) +ℤ pos (2 * 50000000)))
unfolding big_int_from
decimal_negative_example =
    decimal_negative (b'5' ∷ []) (b'5' ∷ []) 5 50000000 (λ e. cc e) (refl, tt) (refl, tt) refl refl

units-amount_example : units (amount (negsuc 549999999)) ≡ some (negsuc 549999999)
units-amount_example = units-amount (negsuc 549999999)

printed : amount (negsuc 549999999) ≡ b'-' ∷ b'5' ∷ b'.' ∷ b'5' ∷ []
unfolding amount digits digits_fuel fraction_text strip_zeros
printed = refl
