-- ===== src/Channels/Keeps.antt =====
-- What the writes of app/mpp.py owe to the channel table, whatever row the request had read.
use mathlib.Core.Option
use tilla.Base.{
  ℕ, ◌+◌, ◌≤◌, ◌≡◌, refl, sym, ◌∙◌, if◌then◌else◌, ap, subst, true, false, not, Option, none, some,
  List, arith, ◌==◌, ltb, leb, Bool-cases, Option-cases, inl, inr, All, All-mono, All-intro, ok,
  ok-injective, >>=-eq-ok, raise_if-eq-ok,
}
use tilla.Base.Text.{Text}
use tilla.Base.Json.{Json}
use tilla.Base.Rows.{rowcount}
use tilla.Channels.{
  MppChannel, ChannelStatus, opened, closing, closed, failed, Channels, Opening, names, is_open,
  is_closable, find_channel, new_channel, open_channel, verify_voucher_signature, at_spent,
  set_spent, voucher_found, at_deposit, topup_found, can_close, set_closed, close_found,
  close_channel, final_spent,
}
use tilla.Channels.Sound.{
  Sound, IsWithin, is_closed, Keeps, Keeps-refl, Owed, update-Keeps, append-Keeps,
  find_channel-update,
}

open_not-closed : (s : ChannelStatus) → is_open s ≡ true → is_closed s ≡ false
unfolding is_open is_closed
open_not-closed opened h = refl
open_not-closed closing h = absurd (cc)
open_not-closed closed h = absurd (cc)
open_not-closed failed h = absurd (cc)

closable_not-closed : (s : ChannelStatus) → is_closable s ≡ true → is_closed s ≡ false
unfolding is_closable is_closed
closable_not-closed opened h = refl
closable_not-closed closing h = refl
closable_not-closed closed h = absurd (cc)
closable_not-closed failed h = absurd (cc)

pub open-Keeps :
    (o : Opening) (l : Channels) → Sound l.channels → Keeps l.channels (open_channel o l).channels
unfolding open_channel new_channel
open-Keeps o l sound = elim (Option-cases (find_channel o.channel_id l.channels)) [
  | inl new ↦ rw new (append-Keeps l.channels (new_channel o) new (λ _. omega arith) sound)
  | inr (c, there) ↦ rw there (Keeps-refl l.channels sound)
]

set_closed_same :
    (now : ℕ) (ch : MppChannel) (final : Option ℕ) (c : MppChannel)
    → (set_closed now ch final c).channel_id ≡ c.channel_id
unfolding set_closed
set_closed_same now ch final c = refl

voucher-Owed :
    (ch c : MppChannel) (id : Text) (n : ℕ) (voucher : List (Text × Json))
    → leb n ch.spent_micro ≡ false
    → ltb ch.deposit_micro n ≡ false
    → (names id c ≡ true → ch.deposit_micro ≤ c.deposit_micro)
    → at_spent id ch.spent_micro c ≡ true
    → Owed c (set_spent n voucher c)
voucher-Owed ch c id n voucher advances covered deep hit =
    let open_ : is_open c.status ≡ true = ground arith in
    let enough = deep (ground arith) in
    record {
      within = λ _. ground arith;
      progress = record {
        same_channel = refl;
        same_store = refl;
        same_buyer = refl;
        same_payee = refl;
        spends = λ _. ground arith;
        deposits = omega arith;
        frozen = λ e. absurd (cc (e, open_not-closed c.status open_));
      };
    }

-- A voucher that is accepted after a read that another request may have outdated keeps the
-- invariant, if no channel of the id has less on deposit than was read.
pub voucher_found-Keeps :
    (recover : Text → Text → Option Text) (ch : MppChannel) (id : Text) (n : ℕ)
    (voucher : List (Text × Json)) (l l' : Channels)
    → Sound l.channels
    → All (λ c. names id c ≡ true → ch.deposit_micro ≤ c.deposit_micro) l.channels
    → voucher_found recover ch id n voucher l ≡ ok l'
    → Keeps l.channels l'.channels
unfolding voucher_found
voucher_found-Keeps recover ch id n voucher l l' sound read h =
    let (_, h₁) = raise_if-eq-ok (not (is_open ch.status)) _ _ h in
    let (advances, h₂) = raise_if-eq-ok (leb n ch.spent_micro) _ _ h₁ in
    let (covered, h₃) = raise_if-eq-ok (ltb ch.deposit_micro n) _ _ h₂ in
    let (_, _, h₄) = >>=-eq-ok (verify_voucher_signature recover ch.buyer_addr id n voucher) _ h₃ in
    let (_, h₅) =
      raise_if-eq-ok (not (rowcount (at_spent id ch.spent_micro) l.channels == 1)) _ _ h₄ in
    subst (λ (v : Channels). Keeps l.channels v.channels) (ok-injective _ _ h₅)
      (update-Keeps (at_spent id ch.spent_micro) (set_spent n voucher) l.channels (λ c. refl)
        (All-mono _ _ (λ c deep hit. voucher-Owed ch c id n voucher advances covered deep hit)
          l.channels read)
        sound)

top_up-Owed :
    (ch c : MppChannel) (id : Text) (n : ℕ)
    → at_deposit id ch.deposit_micro c ≡ true
    → IsWithin c
    → Owed c (record c { deposit_micro = ch.deposit_micro + n })
top_up-Owed ch c id n hit within =
    let open_ : is_open c.status ≡ true = ground arith in
    let below = within (open_not-closed c.status open_) in
    record {
      within = λ _. ground arith;
      progress = record {
        same_channel = refl;
        same_store = refl;
        same_buyer = refl;
        same_payee = refl;
        spends = λ _. omega arith;
        deposits = ground arith;
        frozen = λ e. absurd (cc (e, open_not-closed c.status open_));
      };
    }

pub topup_found-Keeps :
    (ch : MppChannel) (id : Text) (n : ℕ) (l l' : Channels)
    → Sound l.channels
    → topup_found ch id n l ≡ ok l'
    → Keeps l.channels l'.channels
unfolding topup_found
topup_found-Keeps ch id n l l' sound h =
    let (_, h₁) = raise_if-eq-ok (not (is_open ch.status)) _ _ h in
    let (_, h₂) =
      raise_if-eq-ok (not (rowcount (at_deposit id ch.deposit_micro) l.channels == 1)) _ _ h₁ in
    subst (λ (v : Channels). Keeps l.channels v.channels) (ok-injective _ _ h₂)
      (update-Keeps (at_deposit id ch.deposit_micro) _ l.channels (λ c. refl)
        (All-mono _ _ (λ c within hit. top_up-Owed ch c id n hit within) l.channels sound.within)
        sound)

close-Owed :
    (now : ℕ) (ch c : MppChannel) (id : Text) (final : Option ℕ)
    → can_close id c ≡ true
    → Owed c (set_closed now ch final c)
unfolding set_closed is_closed
close-Owed now ch c id final hit =
    let closable : is_closable c.status ≡ true = ground arith in
    record {
      within = λ e. absurd (cc e);
      progress = record {
        same_channel = refl;
        same_store = refl;
        same_buyer = refl;
        same_payee = refl;
        spends = λ e. absurd (cc e);
        deposits = omega arith;
        frozen = λ e. absurd (cc (e, closable_not-closed c.status closable));
      };
    }

pub close_found-Keeps :
    (now : ℕ) (ch : MppChannel) (id : Text) (final : Option ℕ) (l : Channels)
    → Sound l.channels
    → Keeps l.channels (close_found now ch id final l).channels
unfolding close_found
close_found-Keeps now ch id final l sound =
    elim (Bool-cases (rowcount (can_close id) l.channels == 1)) [
      | inr done ↦ rw done (Keeps-refl l.channels sound)
      | inl one ↦ rw one (
          update-Keeps (can_close id) (set_closed now ch final) l.channels
            (set_closed_same now ch final)
            (All-intro _ (λ c hit. close-Owed now ch c id final hit) l.channels) sound)
    ]

not_less : (ch : MppChannel) (final : Option ℕ) → ch.spent_micro ≤ final_spent ch final ch
unfolding final_spent
not_less ch none = omega arith
not_less ch (some n) = ground arith

raised :
    (now : ℕ) (id : Text) (final : Option ℕ) (ch : MppChannel)
    → ch.spent_micro ≤ (if can_close id ch then set_closed now ch final ch else ch).spent_micro
unfolding set_closed
raised now id final ch = elim (Bool-cases (can_close id ch)) [
  | inl e ↦ rw e (not_less ch final)
  | inr e ↦ rw e (omega arith)
]

-- One close at a time keeps what the vouchers have spent, whatever final amount is asked for.
close_channel-raises :
    (now : ℕ) (id : Text) (final : Option ℕ) (l l' : Channels) (ch : MppChannel)
    → find_channel id l.channels ≡ some ch
    → close_channel now id final l ≡ ok l'
    → (row : MppChannel) × (find_channel id l'.channels ≡ some row)
      × (ch.spent_micro ≤ row.spent_micro)
unfolding close_channel close_found
close_channel-raises now id final l l' ch found h =
    elim (Bool-cases (rowcount (can_close id) l.channels == 1)) [
      | inr done ↦ (
        ch,
        subst (λ (v : Channels). find_channel id v.channels ≡ some ch)
            (ok-injective _ _ (rw (found, done) at h)) found,
        omega arith,
      )
      | inl one ↦ (
        (if can_close id ch then set_closed now ch final ch else ch),
        ap (λ (v : Channels). find_channel id v.channels)
              (sym (ok-injective _ _ (rw (found, one) at h)))
            ∙ find_channel-update id (can_close id) (set_closed now ch final)
                (set_closed_same now ch final) l.channels
            ∙ ap (Option.map λ c. if can_close id c then set_closed now ch final c else c) found,
        raised now id final ch,
      )
    ]
