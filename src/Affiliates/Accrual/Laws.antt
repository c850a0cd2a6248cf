-- ===== src/Affiliates/Accrual/Laws.antt =====
-- When `accrue` of app/affiliates.py writes a row, and which.
use tilla.Base.{
  ℕ, ◌+◌, ◌*◌, ◌/◌, ◌≤◌, ◌<◌, ◌≡◌, ◌≢◌, ◌↔◌, refl, sym, ap, ◌∙◌, subst, false, Option, none, some,
  List, [], ◌∷◌, ◌++◌, arith, ◌==◌, Bool-cases, inl, inr, ◌⊎◌, All, length, length-append,
}
use tilla.Base.Text.{Text, text_eq, text_eq_sound, text_eq_refl, lower}
use tilla.Base.Rows.{find}
use tilla.Models.{Order, Store, AffiliateAccrual, EventLog, accrued}
use tilla.Affiliates.Accrual.{
  is_self_referral, accrued_micro, has_accrual, accrue_for, accrue_ref, accrue, lower_or_empty,
}

-- The sale earns this referrer this share: the basis points of the price, rounded down.
pub record IsEarned (bps : ℕ) (o : Order) (s : Store) (rows : List AffiliateAccrual)
    (referrer : Text) (share : ℕ) : Type 0 where
  pub named : o.referrer_addr ≡ some referrer
  pub some_name : referrer ≢ []
  pub not_buyer : (b : Text) → o.from_addr ≡ some b → referrer ≢ lower b
  pub not_store : referrer ≢ lower s.pay_to
  pub first : All (λ a. a.order_id ≢ o.id) rows
  pub positive : 0 < share
  pub at_most : share * 10_000 ≤ o.expected_micro * bps
  pub at_least : o.expected_micro * bps < (share + 1) * 10_000

-- The row of a share.
abbrev pub accrual_row : ℕ → Order → Store → Text → ℕ → AffiliateAccrual
accrual_row bps o s referrer share = record {
  order_id = o.id;
  store_id = s.id;
  merchant_id = s.merchant_id;
  referrer_addr = referrer;
  basis_micro = o.expected_micro;
  rate_bps = bps;
  accrued_micro = share;
  status = accrued;
  payout_id = none;
}

-- Nothing is written, and nothing is earned.
record Barred (bps : ℕ) (o : Order) (s : Store) (rows rows' : List AffiliateAccrual) : Type 0 where
  same : rows' ≡ rows
  unearned : (r : Text) (share : ℕ) → IsEarned bps o s rows r share → ⊥

record Written (bps : ℕ) (o : Order) (s : Store) (rows rows' : List AffiliateAccrual) : Type 0 where
  referrer : Text
  share : ℕ
  earned : IsEarned bps o s rows referrer share
  added : rows' ≡ rows ++ (accrual_row bps o s referrer share ∷ [])

some_same : (a b : Text) → ◌≡◌ {A = Option Text} (some a) (some b) → a ≡ b
some_same a b e = cc e

-- A referrer with a name is not the missing buyer.
not_buyer-false :
    (from_addr : Option Text) (r : Text)
    → r ≢ []
    → ((b : Text) → from_addr ≡ some b → r ≢ lower b)
    → text_eq r (lower_or_empty from_addr) ≡ false
unfolding lower
not_buyer-false none r named apart = elim (Bool-cases (text_eq r [])) [
  | inl e ↦ absurd (named (text_eq_sound r [] e))
  | inr e ↦ e
]
not_buyer-false (some b) r named apart = elim (Bool-cases (text_eq r (lower b))) [
  | inl e ↦ absurd (apart b refl (text_eq_sound r (lower b) e))
  | inr e ↦ e
]

no_self :
    (o : Order) (s : Store) (rows : List AffiliateAccrual) (bps : ℕ) (r : Text) (share : ℕ)
    → IsEarned bps o s rows r share
    → is_self_referral o s r ≡ false
unfolding is_self_referral
no_self o s rows bps r share e = elim (Bool-cases (text_eq r (lower s.pay_to))) [
  | inl own ↦ absurd (e.not_store (text_eq_sound r (lower s.pay_to) own))
  | inr other ↦ rw (not_buyer-false o.from_addr r e.some_name e.not_buyer, other) refl
]

buyer_differs :
    (from_addr : Option Text) (r : Text)
    → text_eq r (lower_or_empty from_addr) ≡ false
    → (b : Text) → from_addr ≡ some b
    → r ≢ lower b
buyer_differs none r differ b e = absurd (cc e)
buyer_differs (some c) r differ b e = λ same. absurd (
    cc (
      subst (λ v. text_eq r (lower v) ≡ false) (some_same c b e) differ,
      same,
      text_eq_refl (lower b),
    ))

not_self-false :
    (o : Order) (s : Store) (r : Text)
    → is_self_referral o s r ≡ false
    → (text_eq r (lower_or_empty o.from_addr) ≡ false) × (text_eq r (lower s.pay_to) ≡ false)
unfolding is_self_referral
not_self-false o s r h = (ground arith, ground arith)

has_accrual-false :
    (k : ℕ) (rows : List AffiliateAccrual)
    → has_accrual k rows ≡ false
    → All (λ a. a.order_id ≢ k) rows
unfolding find
has_accrual-false k [] h = tt
has_accrual-false k (a ∷ rows) h = ground (arith, has_accrual-false k rows)

first-has_accrual :
    (k : ℕ) (rows : List AffiliateAccrual)
    → All (λ a. a.order_id ≢ k) rows
    → has_accrual k rows ≡ false
unfolding find
first-has_accrual k [] h = refl
first-has_accrual k (a ∷ rows) h = ground (arith, h.0, first-has_accrual k rows h.1)

module _ (bps : ℕ) (o : Order) (s : Store) (rows : List AffiliateAccrual)
    (events : List EventLog) where
  no_share :
      (share : ℕ)
      → o.expected_micro * bps / 10_000 ≡ 0
      → 0 < share
      → share * 10_000 ≤ o.expected_micro * bps
      → ⊥
  no_share share none_left some_share within = omega arith

  accrue_for-cases :
      (r : Text)
      → o.referrer_addr ≡ some r
      → r ≢ []
      → Barred bps o s rows (accrue_for bps o s r rows events).0
        ⊎ Written bps o s rows (accrue_for bps o s r rows events).0
  unfolding accrue_for accrued_micro
  accrue_for-cases r named some_name = elim (Bool-cases (is_self_referral o s r)) [
    | inl own ↦ inl (record {
      same = rw own refl;
      unearned = λ r' share e.
          let one = some_same r r' (sym named ∙ e.named) in
          absurd (cc (own, one, no_self o s rows bps r' share e));
    })
    | inr other ↦ elim (Bool-cases (o.expected_micro * bps / 10_000 == 0)) [
      | inl nothing ↦ inl (record {
        same = rw (other, nothing) refl;
        unearned = λ r' share e. no_share share (ground arith) e.positive e.at_most;
      })
      | inr something ↦ elim (Bool-cases (has_accrual o.id rows)) [
        | inl again ↦ inl (record {
          same = rw (other, something, again) refl;
          unearned = λ r' share e. absurd (cc (again, first-has_accrual o.id rows e.first));
        })
        | inr new ↦ inr (record {
          referrer = r;
          share = o.expected_micro * bps / 10_000;
          earned = record {
            named = named;
            some_name = some_name;
            not_buyer = buyer_differs o.from_addr r (not_self-false o s r other).0;
            not_store =
                λ e. absurd (cc ((not_self-false o s r other).1, e, text_eq_refl (lower s.pay_to)));
            first = has_accrual-false o.id rows new;
            positive = ground arith;
            at_most = omega arith;
            at_least = omega arith;
          };
          added = rw (other, something, new) refl;
        })
      ]
    ]
  ]

  accrue_ref-cases :
      (m : Option Text)
      → o.referrer_addr ≡ m
      → Barred bps o s rows (accrue_ref bps o s m rows events).0
        ⊎ Written bps o s rows (accrue_ref bps o s m rows events).0
  unfolding accrue_ref
  accrue_ref-cases none e =
      inl (record { same = refl; unearned = λ r share w. absurd (cc (e, w.named)) })
  accrue_ref-cases (some []) e = inl (record {
    same = refl;
    unearned = λ r share w. absurd (w.some_name (sym (some_same [] r (sym e ∙ w.named))));
  })
  accrue_ref-cases (some (c ∷ cs)) e = accrue_for-cases (c ∷ cs) e (λ n. absurd (cc n))

cancel_front :
    (rows : List AffiliateAccrual) (a b : AffiliateAccrual)
    → rows ++ (a ∷ []) ≡ rows ++ (b ∷ [])
    → a ≡ b
cancel_front [] a b e = cc e
cancel_front (x ∷ rows) a b e = cancel_front rows a b (cc e)

not_longer : (rows : List AffiliateAccrual) (a : AffiliateAccrual) → rows ≢ rows ++ (a ∷ [])
not_longer rows a e = absurd (omega (arith, ap length e, length-append rows (a ∷ [])))

same_share :
    (price bps m n : ℕ)
    → m * 10_000 ≤ price * bps
    → price * bps < (m + 1) * 10_000
    → n * 10_000 ≤ price * bps
    → price * bps < (n + 1) * 10_000
    → m ≡ n
same_share price bps m n a b c d = omega arith

-- `accrue` writes the row of a share for a referrer exactly where the sale earns it: the order names
-- the referrer, who is neither its buyer nor the store's wallet; no row of the order is on record;
-- and the share is the basis points of the price, rounded down, and positive. The row holds the
-- terms, and the other rows stay.
pub accrue_iff :
    (bps : ℕ) (o : Order) (s : Store) (rows : List AffiliateAccrual) (events : List EventLog)
    (referrer : Text) (share : ℕ)
    → ((accrue bps o s rows events).0 ≡ rows ++ (accrual_row bps o s referrer share ∷ []))
      ↔ IsEarned bps o s rows referrer share
unfolding accrue
accrue_iff bps o s rows events referrer share =
    elim (accrue_ref-cases bps o s rows events o.referrer_addr refl) [
      | inl b ↦ (
        (λ e. absurd (not_longer rows _ (sym b.same ∙ e))),
        (λ w. absurd (b.unearned referrer share w)),
      )
      | inr w ↦ (
        (λ e.
            let same = cancel_front rows _ _ (sym w.added ∙ e) in
            subst (λ (v : AffiliateAccrual). IsEarned bps o s rows v.referrer_addr v.accrued_micro)
              same w.earned),
        (λ x.
            w.added
            ∙ ap (λ r. rows ++ (accrual_row bps o s r w.share ∷ []))
                (some_same w.referrer referrer (sym w.earned.named ∙ x.named))
            ∙ ap (λ n. rows ++ (accrual_row bps o s referrer n ∷ []))
                (same_share o.expected_micro bps w.share share w.earned.at_most w.earned.at_least
                  x.at_most x.at_least)),
      )
    ]

-- Where no share is earned the ledger stays as it is.
accrue-unearned :
    (bps : ℕ) (o : Order) (s : Store) (rows : List AffiliateAccrual) (events : List EventLog)
    → ((r : Text) (share : ℕ) → IsEarned bps o s rows r share → ⊥)
    → (accrue bps o s rows events).0 ≡ rows
unfolding accrue
accrue-unearned bps o s rows events none_earned =
    elim (accrue_ref-cases bps o s rows events o.referrer_addr refl) [
      | inl b ↦ b.same
      | inr w ↦ absurd (none_earned w.referrer w.share w.earned)
    ]
