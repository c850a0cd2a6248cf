-- ===== src/Channels/Sound.antt =====
-- The invariant of the channel table, and what an UPDATE of one channel owes.
use mathlib.Core.Option
use tilla.Base.{
  ◌≤◌, ◌≡◌, refl, ◌≢◌, sym, ap, ◌∙◌, subst, Bool, true, false, none, some, List, [], ◌∷◌, ◌++◌,
  arith, if◌then◌else◌, Bool-cases, inl, inr, All, All-mono, All-both, All-append, Pairs,
  Pairs-append_one,
}
use tilla.Base.Text.{Text, text_eq, text_eq_sound, text_eq_refl}
use tilla.Base.Rows.{find, find-none, find-All, update}
use tilla.Base.Zip.{update-Zip, Pairs-Zip, update-All_dep}
use tilla.Channels.{MppChannel, ChannelStatus, opened, closing, closed, failed, names, find_channel}

unfoldable pub is_closed : ChannelStatus → Bool
is_closed opened = false
is_closed closing = false
is_closed closed = true
is_closed failed = false

-- Until it is closed, a channel has spent no more than its deposit.
abbrev pub IsWithin : MppChannel → Type 0
IsWithin c = is_closed c.status ≡ false → c.spent_micro ≤ c.deposit_micro

abbrev pub Apart : MppChannel → MppChannel → Type 0
Apart x y = x.channel_id ≢ y.channel_id

pub record Sound (channels : List MppChannel) : Type 0 where
  pub unique : Pairs Apart channels
  pub within : All IsWithin channels

-- A later version of a channel: the same parties, no less deposited, no less spent unless it was
-- closed meanwhile, and what is closed is left alone.
pub record Progress (x y : MppChannel) : Type 0 where
  pub same_channel : y.channel_id ≡ x.channel_id
  pub same_store : y.store_id ≡ x.store_id
  pub same_buyer : y.buyer_addr ≡ x.buyer_addr
  pub same_payee : y.pay_to ≡ x.pay_to
  pub spends : is_closed y.status ≡ false → x.spent_micro ≤ y.spent_micro
  pub deposits : x.deposit_micro ≤ y.deposit_micro
  pub frozen : is_closed x.status ≡ true → y ≡ x

pub Progress-refl : (x : MppChannel) → Progress x x
Progress-refl x = record {
  same_channel = refl;
  same_store = refl;
  same_buyer = refl;
  same_payee = refl;
  spends = λ _. omega arith;
  deposits = omega arith;
  frozen = λ _. refl;
}

pub Progress-trans : (x y z : MppChannel) → Progress x y → Progress y z → Progress x z
Progress-trans x y z p q = record {
  same_channel = q.same_channel ∙ p.same_channel;
  same_store = q.same_store ∙ p.same_store;
  same_buyer = q.same_buyer ∙ p.same_buyer;
  same_payee = q.same_payee ∙ p.same_payee;
  spends = λ going. elim (Bool-cases (is_closed y.status)) [
    | inl over ↦ absurd (cc (going, over, q.frozen over))
    | inr still ↦ omega (arith, p.spends still, q.spends going)
  ];
  deposits = omega (arith, p.deposits, q.deposits);
  frozen = λ e.
      let same = p.frozen e in
      q.frozen (subst (λ v. is_closed v.status ≡ true) (sym same) e) ∙ same;
}

-- The channel that an id finds is the only one with the id.
pub only_channel :
    (id : Text) (channels : List MppChannel) (ch : MppChannel)
    → Pairs Apart channels
    → find_channel id channels ≡ some ch
    → All (λ c. names id c ≡ true → c ≡ ch) channels
unfolding find_channel find
only_channel id [] ch u found = tt
only_channel id (x ∷ xs) ch u found = elim (Bool-cases (names id x)) [
  | inl e ↦
      let same : x ≡ ch = ground arith in
      (
        λ _. same,
        All-mono _ _
            (λ y apart e'. absurd (apart (text_eq_sound _ _ e ∙ sym (text_eq_sound _ _ e')))) xs
            u.0,
      )
  | inr e ↦ ((λ e'. absurd (cc (e, e'))), only_channel id xs ch u.1 (ground arith))
]

pub record Persists (id : Text) (x : MppChannel) (channels : List MppChannel) : Type 0 where
  pub row : MppChannel
  pub found : find_channel id channels ≡ some row
  pub progress : Progress x row

pub record Keeps (a b : List MppChannel) : Type 0 where
  pub sound : Sound b
  pub persists : (id : Text) (x : MppChannel) → find_channel id a ≡ some x → Persists id x b

pub find_channel-update :
    (id : Text) (w : MppChannel → Bool) (f : MppChannel → MppChannel)
    → ((c : MppChannel) → (f c).channel_id ≡ c.channel_id)
    → (channels : List MppChannel)
    → find_channel id (update w f channels)
      ≡ Option.map (λ c. if w c then f c else c) (find_channel id channels)
unfolding find_channel find update
find_channel-update id w f keep [] = refl
find_channel-update id w f keep (x ∷ xs) =
    let named : (v : MppChannel) → v.channel_id ≡ x.channel_id → names id v ≡ names id x =
      λ v e. ap (λ t. text_eq t id) e in
    ground (arith, named (f x) (keep x), find_channel-update id w f keep xs)

-- What is owed for each row that an UPDATE writes.
pub record Owed (c c' : MppChannel) : Type 0 where
  pub within : IsWithin c'
  pub progress : Progress c c'

pub update-Keeps :
    (w : MppChannel → Bool) (f : MppChannel → MppChannel) (channels : List MppChannel)
    → ((c : MppChannel) → (f c).channel_id ≡ c.channel_id)
    → All (λ c. w c ≡ true → Owed c (f c)) channels
    → Sound channels
    → Keeps channels (update w f channels)
unfolding find_channel
update-Keeps w f channels keep owed sound = record {
  sound = record {
    unique =
        Pairs-Zip (λ c c'. c'.channel_id ≡ c.channel_id) Apart
          (λ x y x' y' p q apart e. apart (sym p ∙ e ∙ q)) channels _
          (update-Zip _ (λ c. refl) w f channels (All-mono _ _ (λ c _ _. keep c) channels owed))
          sound.unique;
    within = update-All_dep IsWithin w f channels (
        All-mono _ _ (λ c both. ((λ e. (both.0 e).within), (λ _. both.1))) channels
          (All-both _ _ channels owed sound.within));
  };
  persists = λ id x found.
      let at =
        find_channel-update id w f keep channels
        ∙ ap (Option.map λ c. if w c then f c else c) found in
      elim (Bool-cases (w x)) [
        | inl e ↦ record {
          row = f x;
          found = at ∙ ap some (rw e refl);
          progress = (found_owed id x found e).progress;
        }
        | inr e ↦ record { row = x; found = at ∙ ap some (rw e refl); progress = Progress-refl x }
      ];
}
  where
    found_owed :
        (id : Text) (x : MppChannel) → find_channel id channels ≡ some x → w x ≡ true → Owed x (f x)
    found_owed id x found =
        find-All (λ c. w c ≡ true → Owed c (f c)) (names id) channels x found owed

find_channel-append :
    (id : Text) (channels : List MppChannel) (c x : MppChannel)
    → find_channel id channels ≡ some x
    → find_channel id (channels ++ (c ∷ [])) ≡ some x
unfolding find_channel find
find_channel-append id [] c x found = absurd (cc)
find_channel-append id (y ∷ ys) c x found = elim (Bool-cases (names id y)) [
  | inl e ↦ rw e (rw e at found)
  | inr e ↦ rw e (find_channel-append id ys c x (rw e at found))
]

-- A new channel joins the table.
pub append-Keeps :
    (channels : List MppChannel) (c : MppChannel)
    → find_channel c.channel_id channels ≡ none
    → IsWithin c
    → Sound channels
    → Keeps channels (channels ++ (c ∷ []))
unfolding find_channel
append-Keeps channels c new within sound = record {
  sound = record {
    unique = Pairs-append_one Apart channels c sound.unique (
        All-mono _ _ (λ x off e. absurd (differ x off e)) channels
          (find-none (names c.channel_id) channels new));
    within = All-append IsWithin channels (c ∷ []) sound.within (within, tt);
  };
  persists = λ id x found. record {
    row = x;
    found = find_channel-append id channels c x found;
    progress = Progress-refl x;
  };
}
  where
    differ : (x : MppChannel) → names c.channel_id x ≡ false → x.channel_id ≢ c.channel_id
    differ x off e =
        absurd (cc (off, ap (λ t. text_eq t c.channel_id) e, text_eq_refl c.channel_id))

pub Keeps-refl : (channels : List MppChannel) → Sound channels → Keeps channels channels
Keeps-refl channels sound = record {
  sound = sound;
  persists = λ id x found. record { row = x; found = found; progress = Progress-refl x };
}

pub Keeps-trans : (a b c : List MppChannel) → Keeps a b → Keeps b c → Keeps a c
Keeps-trans a b c p q = record {
  sound = q.sound;
  persists = λ id x found.
      let first = p.persists id x found in
      let then_ = q.persists id first.row first.found in
      record {
        row = then_.row;
        found = then_.found;
        progress = Progress-trans x first.row then_.row first.progress then_.progress;
      };
}
