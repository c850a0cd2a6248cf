-- ===== src/Channels/Message.antt =====
-- The message that a voucher signs: it tells the amounts of one channel apart.
use tilla.Base.{
  ℕ, zero, suc, ◌+◌, ◌-◌, ◌*◌, ◌/◌, ◌%◌, ◌<◌, ◌≡◌, sym, ap, ◌∙◌, [], ◌∷◌, ◌++◌, arith, ltb,
  Bool-cases, inl, inr,
}
use tilla.Base.Text.{Text, codes}
use tilla.Channels.{digits, decimal, voucher_message}

-- `int(s)` on digits, from a number read so far.
unfoldable pub read_digits : ℕ → Text → ℕ
read_digits n [] = n
read_digits n (c ∷ cs) = read_digits (n * 10 + (c - b'0')) cs

read_digits-digits :
    (fuel n : ℕ) (rest : Text) → n < fuel → read_digits 0 (digits fuel n rest) ≡ read_digits n rest
unfolding read_digits digits
read_digits-digits zero n rest h = absurd (omega arith)
read_digits-digits (suc fuel) n rest h = elim (Bool-cases (ltb n 10)) [
  | inl small ↦ rw small (ap (λ m. read_digits m rest) (omega arith))
  | inr large ↦ rw large (
      read_digits-digits fuel (n / 10) ((b'0' + n % 10) ∷ rest) (ground arith)
      ∙ ap (λ m. read_digits m rest) (omega arith))
]

-- The digits of a number read back as the number: the fuel of `decimal` is enough.
pub read_digits-decimal : (n : ℕ) → read_digits 0 (decimal n) ≡ n
unfolding decimal read_digits
read_digits-decimal n = read_digits-digits (suc n) n [] (omega arith)

cancel_front : (xs ys zs : Text) → xs ++ ys ≡ xs ++ zs → ys ≡ zs
cancel_front [] ys zs h = h
cancel_front (x ∷ xs) ys zs h = cancel_front xs ys zs (tail_same h)
  where
    tail_same : ◌≡◌ {A = Text} (x ∷ (xs ++ ys)) (x ∷ (xs ++ zs)) → xs ++ ys ≡ xs ++ zs
    tail_same e = cc e

-- Two vouchers of one channel that sign the same message are for the same amount.
pub voucher_message-injective :
    (channel_id : Text) (m n : ℕ)
    → voucher_message channel_id m ≡ voucher_message channel_id n
    → m ≡ n
unfolding voucher_message
voucher_message-injective channel_id m n h =
    let a = cancel_front (codes "tilla:mpp-voucher") _ _ h in
    let b = cancel_front (10 ∷ codes "channel:") _ _ a in
    let c = cancel_front channel_id _ _ b in
    let d = cancel_front (10 ∷ codes "cumulative_micro:") (decimal m) (decimal n) c in
    sym (read_digits-decimal m) ∙ ap (read_digits 0) d ∙ read_digits-decimal n
