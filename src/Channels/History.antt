-- ===== src/Channels/History.antt =====
-- The requests of app/mpp.py as steps on the channel table, interleaved in any way.
use tilla.Base.{
  ℕ, ◌≤◌, ◌≡◌, sym, ap, subst, ◌⊎◌, true, Option, some, List, [], ◌∷◌, arith, inl, inr, All,
  All-mono, ok,
}
use tilla.Base.Text.{Text, text_eq_sound}
use tilla.Base.Json.{Json}
use tilla.Base.Rows.{find_sound}
use tilla.Channels.{
  MppChannel, Channels, Opening, names, find_channel, open_channel, voucher_found, topup_found,
  close_found,
}
use tilla.Channels.Sound.{
  Sound, Keeps, Keeps-refl, Keeps-trans, Persists, Progress-refl, Progress-trans, only_channel,
}
use tilla.Channels.Keeps.{open-Keeps, voucher_found-Keeps, topup_found-Keeps, close_found-Keeps}

-- A channel row is in the list of those read.
abbrev pub In : MppChannel → List MppChannel → Type 0
In ch [] = ⊥
In ch (x ∷ xs) = (ch ≡ x) ⊎ In ch xs

-- The table, and the rows that requests have read from it, now or before.
pub record Live : Type 0 where
  pub table : Channels
  pub reads : List MppChannel

-- Requests run at one time: the SELECT of one, and the writes of others before its own. A write
-- goes by any row that was read.
infix 40 ◌⇒◌ ◌⇒*◌
pub data ◌⇒◌ : Live → Live → Type 0 where
  opens :
      {l : Channels} {rs : List MppChannel} (o : Opening)
      → record { table = l; reads = rs } ⇒ record { table = open_channel o l; reads = rs }
  selects :
      {l : Channels} {rs : List MppChannel} (id : Text) (ch : MppChannel)
      → find_channel id l.channels ≡ some ch
      → record { table = l; reads = rs } ⇒ record { table = l; reads = ch ∷ rs }
  spends :
      {l l' : Channels} {rs : List MppChannel} (recover : Text → Text → Option Text)
      (ch : MppChannel) (cumulative_micro : ℕ) (voucher : List (Text × Json))
      → In ch rs
      → voucher_found recover ch ch.channel_id cumulative_micro voucher l ≡ ok l'
      → record { table = l; reads = rs } ⇒ record { table = l'; reads = rs }
  tops_up :
      {l l' : Channels} {rs : List MppChannel} (ch : MppChannel) (n : ℕ)
      → In ch rs
      → topup_found ch ch.channel_id n l ≡ ok l'
      → record { table = l; reads = rs } ⇒ record { table = l'; reads = rs }
  closes :
      {l : Channels} {rs : List MppChannel} (now : ℕ) (ch : MppChannel) (final : Option ℕ)
      → In ch rs
      → record { table = l; reads = rs }
        ⇒ record { table = close_found now ch ch.channel_id final l; reads = rs }

pub data ◌⇒*◌ : Live → Live → Type 0 where
  start : {a : Live} → a ⇒* a
  step : {a b c : Live} → a ⇒ b → b ⇒* c → a ⇒* c

-- What holds of the table and of each row that was read from it: the row is still there, further on.
record Fresh (v : Live) : Type 0 where
  sound : Sound v.table.channels
  seen : All (λ ch. Persists ch.channel_id ch v.table.channels) v.reads

Persists-on :
    (a b : List MppChannel) (id : Text) (x : MppChannel)
    → Keeps a b
    → Persists id x a
    → Persists id x b
Persists-on a b id x k p =
    let q = k.persists id p.row p.found in
    record {
      row = q.row;
      found = q.found;
      progress = Progress-trans x p.row q.row p.progress q.progress;
    }

read-In :
    (P : MppChannel → Type 0) (ch : MppChannel) (rs : List MppChannel) → In ch rs → All P rs → P ch
read-In P ch [] there all = absurd there
read-In P ch (x ∷ xs) (inl same) all = subst P (sym same) all.0
read-In P ch (x ∷ xs) (inr later) all = read-In P ch xs later all.1

-- A step of the table keeps what was read in sight.
moved :
    (l l' : Channels) (rs : List MppChannel)
    → Fresh (record { table = l; reads = rs })
    → Keeps l.channels l'.channels
    → Fresh (record { table = l'; reads = rs }) × Keeps l.channels l'.channels
moved l l' rs fresh k = (
  record {
    sound = k.sound;
    seen =
        All-mono _ _
          (λ (ch : MppChannel) p. Persists-on l.channels l'.channels ch.channel_id ch k p) rs
          fresh.seen;
  },
  k,
)

named_self :
    (id : Text) (channels : List MppChannel) (ch : MppChannel)
    → find_channel id channels ≡ some ch
    → ch.channel_id ≡ id
unfolding find_channel
named_self id channels ch found = text_eq_sound _ _ (find_sound (names id) channels ch found)

deep_enough :
    (ch : MppChannel) (channels : List MppChannel)
    → Sound channels
    → Persists ch.channel_id ch channels
    → All (λ c. names ch.channel_id c ≡ true → ch.deposit_micro ≤ c.deposit_micro) channels
deep_enough ch channels sound p =
    All-mono (λ c. names ch.channel_id c ≡ true → c ≡ p.row)
      (λ c. names ch.channel_id c ≡ true → ch.deposit_micro ≤ c.deposit_micro)
      (λ c only e.
        omega (arith, p.progress.deposits, ap (λ (v : MppChannel). v.deposit_micro) (only e)))
      channels (only_channel ch.channel_id channels p.row sound.unique p.found)

step-Fresh : {a b : Live} → a ⇒ b → Fresh a → Fresh b × Keeps a.table.channels b.table.channels
step-Fresh (opens {l} {rs} o) fresh =
    moved l (open_channel o l) rs fresh (open-Keeps o l fresh.sound)
step-Fresh (selects {l} {rs} id ch found) fresh = (
  record {
    sound = fresh.sound;
    seen = (
      record {
        row = ch;
        found =
            subst (λ k. find_channel k l.channels ≡ some ch)
              (sym (named_self id l.channels ch found)) found;
        progress = Progress-refl ch;
      },
      fresh.seen,
    );
  },
  Keeps-refl l.channels fresh.sound,
)
step-Fresh (spends {l} {l'} {rs} recover ch n voucher there h) fresh = moved l l' rs fresh (
    voucher_found-Keeps recover ch ch.channel_id n voucher l l' fresh.sound
      (deep_enough ch l.channels fresh.sound (read-In _ ch rs there fresh.seen)) h)
step-Fresh (tops_up {l} {l'} {rs} ch n there h) fresh =
    moved l l' rs fresh (topup_found-Keeps ch ch.channel_id n l l' fresh.sound h)
step-Fresh (closes {l} {rs} now ch final there) fresh =
    moved l (close_found now ch ch.channel_id final l) rs fresh
      (close_found-Keeps now ch ch.channel_id final l fresh.sound)

history-Keeps : {a b : Live} → a ⇒* b → Fresh a → Keeps a.table.channels b.table.channels
history-Keeps {a} start fresh = Keeps-refl a.table.channels fresh.sound
history-Keeps (step {a} {b} {c} first rest) fresh =
    let (next, before) = step-Fresh first fresh in
    Keeps-trans a.table.channels b.table.channels c.table.channels before (history-Keeps rest next)

-- However requests interleave, each one writing by a row that it has read, now or before, every
-- history from a sound table keeps each channel id in one row and each channel that is not closed
-- within its deposit; it loses no channel, changes none of its parties, takes back nothing that was
-- deposited, lowers what was spent only by a close, and leaves a closed channel as it is.
pub channels-Keeps :
    (l : Channels) (b : Live)
    → Sound l.channels
    → record { table = l; reads = [] } ⇒* b
    → Keeps l.channels b.table.channels
channels-Keeps l b sound h = history-Keeps h (record { sound = sound; seen = tt })
